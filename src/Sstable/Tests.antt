-- ===== src/Sstable/Tests.antt =====
-- The theorems on the parts of a table at concrete inputs.
use hcdb.Prelude.{
  ℕ, ◌+◌, ◌≤◌, ◌<◌, ◌≡◌, ◌≢◌, ◌↔◌, refl, arith, List, [], ◌∷◌, ◌++◌, drop, ok, Ordering,
}
use hcdb.Binary.{Bytes}
use hcdb.Binary.Compare.{bytes_compare}
use hcdb.Base.Key.{internal_compare, decode_internal_key}
use hcdb.Sstable.Block.{BlockEntry, encode_block, decode_block}
use hcdb.Sstable.Block.RoundTrip.{decode_block-encode_block}
use hcdb.Sstable.Index.{
  IndexEntry, encode_index, index_size, decode_index, first_key_at, search_index,
}
use hcdb.Sstable.Index.RoundTrip.{decode_index-encode_index}
use hcdb.Sstable.Index.Search.{IsAscending, counted, search_index_lem}

-- Keys of one letter with sequence number 1 and kind Set.
abbrev key_of : ℕ → Bytes
key_of c = c ∷ 1 ∷ 1 ∷ 0 ∷ 0 ∷ 0 ∷ 0 ∷ 0 ∷ 0 ∷ []

abbrev two_rows : List BlockEntry
two_rows =
    record { key = key_of 97; value = 1 ∷ 2 ∷ [] } ∷ record { key = key_of 98; value = [] } ∷ []

decode_block-encode_block_example : decode_block (encode_block two_rows) ≡ ok two_rows
decode_block-encode_block_example =
    decode_block-encode_block two_rows
      (
        record { key_fits = omega arith; value_fits = omega arith },
        (record { key_fits = omega arith; value_fits = omega arith }, tt),
      )
      (omega arith)

abbrev two_blocks : List IndexEntry
two_blocks =
    record { first_key = key_of 97; offset = 0; block_length = 36 }
    ∷ record { first_key = key_of 109; offset = 36; block_length = 40 }
    ∷ []

abbrev data_blocks : Bytes
data_blocks = 5 ∷ 6 ∷ 7 ∷ []

decode_index-encode_index_example :
    (decode_index (data_blocks ++ (encode_index two_blocks ++ (9 ∷ []))) 3 2 ≡ ok two_blocks)
    × (drop (3 + index_size two_blocks) (data_blocks ++ (encode_index two_blocks ++ (9 ∷ [])))
        ≡ 9 ∷ [])
decode_index-encode_index_example = decode_index-encode_index data_blocks two_blocks (9 ∷ []) (
  record { key_fits = omega arith; offset_fits = omega arith; length_fits = omega arith },
  (record { key_fits = omega arith; offset_fits = omega arith; length_fits = omega arith }, tt),
)

first_before_second :
    internal_compare bytes_compare (first_key_at two_blocks 0) (first_key_at two_blocks 1)
    ≡ Ordering.lt
unfolding internal_compare bytes_compare first_key_at decode_internal_key
first_before_second = refl

two_blocks-IsAscending : IsAscending two_blocks
two_blocks-IsAscending i j lt in_range =
    let i_is : i ≡ 0 = omega arith in
    let j_is : j ≡ 1 = omega arith in rw (i_is, j_is) first_before_second

search_index_lem_example :
    (counted (search_index two_blocks (key_of 104)) ≤ 2)
    × ((i : ℕ)
        → i < 2
        → (i < counted (search_index two_blocks (key_of 104))) ↔ (
            internal_compare bytes_compare
              (first_key_at two_blocks i)
              (decode_internal_key (key_of 104))
            ≢ Ordering.gt))
search_index_lem_example = search_index_lem two_blocks (key_of 104) two_blocks-IsAscending
