-- ===== src/Sstable/Table/Tests.antt =====
-- The theorems on whole tables at concrete inputs.
use hcdb.Prelude.{◌+◌, ◌<◌, ◌^◌, ◌≡◌, refl, arith, List, [], ◌∷◌, All, length, ok, true}
use hcdb.Binary.Uint.{put_uint}
use hcdb.Bloom.{BloomFilter, new_bloom_filter, might_contain}
use hcdb.Bloom.Membership.{new_bloom_filter-IsSized}
use hcdb.Sstable.Block.{BlockEntry, encode_block}
use hcdb.Sstable.Index.{index_size}
use hcdb.Sstable.Table.{
  flush_table, write_from_block_entries, open_table, new_block_iterator, user_key_of, collect_all,
  add_to_block, collect_entry, put_block, flush_current,
}
use hcdb.Sstable.Table.Equal.{flush_table-write_from_block_entries}
use hcdb.Sstable.Table.Open.{written, length-write, open_table-write}

abbrev two_rows : List BlockEntry
two_rows =
    record { key = 97 ∷ 1 ∷ 2 ∷ 0 ∷ 0 ∷ 0 ∷ 0 ∷ 0 ∷ 0 ∷ []; value = 7 ∷ 7 ∷ [] }
    ∷ record { key = 98 ∷ 0 ∷ 1 ∷ 0 ∷ 0 ∷ 0 ∷ 0 ∷ 0 ∷ 0 ∷ []; value = [] }
    ∷ []

abbrev empty_filter : BloomFilter
empty_filter = new_bloom_filter 24 3

flush_table-write_from_block_entries_example :
    flush_table empty_filter two_rows ≡ write_from_block_entries empty_filter two_rows
flush_table-write_from_block_entries_example =
    flush_table-write_from_block_entries empty_filter two_rows

length_of_two_rows :
    length (written empty_filter two_rows).writer
      + index_size (written empty_filter two_rows).index_entries
    ≡ 69
unfolding collect_all add_to_block collect_entry put_block flush_current encode_block index_size
    put_uint
length_of_two_rows = refl

two_rows_small : length (write_from_block_entries empty_filter two_rows).0 < 2 ^ 31
unfolding new_bloom_filter
two_rows_small = omega (
  arith,
  length-write empty_filter two_rows (new_bloom_filter-IsSized 24 3 (omega arith)),
  length_of_two_rows,
)

size_fits : empty_filter.size < 2 ^ 32
unfolding new_bloom_filter
size_fits = omega arith

hash_fits : empty_filter.num_hash < 2 ^ 32
unfolding new_bloom_filter
hash_fits = omega arith

open_table-write_example :
    let (file, sst) = write_from_block_entries empty_filter two_rows in
    (open_table file ≡ ok sst)
    × (new_block_iterator file sst.index ≡ ok two_rows)
    × All (λ e. might_contain sst.bloom (user_key_of e) ≡ true) two_rows
open_table-write_example =
    open_table-write empty_filter two_rows (new_bloom_filter-IsSized 24 3 (omega arith)) size_fits
      hash_fits
      (
        record { key_fits = omega arith; value_fits = omega arith },
        (record { key_fits = omega arith; value_fits = omega arith }, tt),
      )
      two_rows_small
