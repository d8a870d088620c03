-- ===== src/Sstable/Iterator/Tests.antt =====
-- The theorems on the reads of one table at concrete inputs.
use hcdb.Prelude.{
  ◌+◌, ◌<◌, ◌≤◌, ◌^◌, ◌≡◌, refl, sym, ap, subst, suc, some, drop, get_elem?, append-nil, arith,
  List, [], ◌∷◌, length, ok, err, true, block_too_small,
}
use hcdb.Binary.{Bytes}
use hcdb.Binary.Uint.{put_uint, uint}
use hcdb.Binary.Compare.{bytes_compare}
use hcdb.Binary.Reader.{read_full}
use hcdb.Base.Key.{
  key_absent, kind, trailer_kind, kind_max, encode_new, encode, size, put_uint64_at, put_uint64,
  make_trailer, make_search_key_at, make_internal_key, decode_internal_key, internal_compare,
}
use hcdb.Bloom.{BloomFilter, new_bloom_filter, might_contain, contain_loop}
use hcdb.Bloom.Membership.{new_bloom_filter-IsSized}
use hcdb.Versions.{newest_version}
use hcdb.Sstable.Block.{
  BlockEntry, encode_block, write_block_entries, write_block_entry, decode_block,
}
use hcdb.Sstable.Index.{IndexEntry, index_size, first_key_at, search_index, search_loop}
use hcdb.Sstable.Sort.{entry_key}
use hcdb.Sstable.Table.{
  SsTable, flush_table, write_from_block_entries, collect_all, add_to_block, collect_entry,
  put_block, flush_current, read_block,
}
use hcdb.Sstable.Table.Blocks.{block_entry}
use hcdb.Sstable.Table.Equal.{flush_table-write_from_block_entries}
use hcdb.Sstable.Table.Iterate.{read_block-encode_block}
use hcdb.Sstable.Table.Open.{written, length-write}
use hcdb.Sstable.Iterator.{lookup, encode_search_key_at}
use hcdb.Sstable.Iterator.Readable.{readable}
use hcdb.Sstable.Iterator.Seeks.{is_before, start_block, seek_key_of}
use hcdb.Sstable.Iterator.Returns.{HasLengths, Returns, new_iterator-Returns}
use hcdb.Sstable.Iterator.Blocks.{IsStrict}
use hcdb.Sstable.Iterator.Lookup.{entry_answer}
use hcdb.Sstable.Iterator.Written.{lookup-flush_table}
use hcdb.Sstable.Iterator.Dropped.{lookup_drops_error}

abbrev row_a : BlockEntry
row_a = record { key = 97 ∷ 1 ∷ 2 ∷ 0 ∷ 0 ∷ 0 ∷ 0 ∷ 0 ∷ 0 ∷ []; value = 7 ∷ 7 ∷ [] }

abbrev row_b : BlockEntry
row_b = record { key = 98 ∷ 0 ∷ 1 ∷ 0 ∷ 0 ∷ 0 ∷ 0 ∷ 0 ∷ 0 ∷ []; value = [] }

abbrev two_rows : List BlockEntry
two_rows = row_a ∷ row_b ∷ []

abbrev empty_filter : BloomFilter
empty_filter = new_bloom_filter 24 3

two_rows-IsStrict : IsStrict two_rows
unfolding internal_compare bytes_compare decode_internal_key uint
two_rows-IsStrict = ((refl, tt), (tt, tt))

-- A table of one block, and the file that has only this block.
abbrev one_block : List BlockEntry
one_block = row_a ∷ []

abbrev good_entry : IndexEntry
good_entry = block_entry 0 one_block

-- The entry of a block that is not in the file whole.
abbrev bad_entry : IndexEntry
bad_entry = record {
  first_key = 99 ∷ 1 ∷ 2 ∷ 0 ∷ 0 ∷ 0 ∷ 0 ∷ 0 ∷ 0 ∷ [];
  offset = 0;
  block_length = 0;
}

-- A filter of no hashes lets every key pass.
abbrev full_filter : BloomFilter
full_filter = record { bits = []; size = 1; num_hash = 0 }

abbrev broken_table : SsTable
broken_table = record { index = good_entry ∷ bad_entry ∷ []; bloom = full_filter }

abbrev broken_file : Bytes
broken_file = encode_block one_block

broken_start : start_block broken_file broken_table (98 ∷ []) 5 ≡ 0
unfolding search_index search_loop encode_search_key_at encode_new encode put_uint64_at put_uint64
    size make_trailer put_uint uint decode_internal_key internal_compare bytes_compare first_key_at
    make_search_key_at make_internal_key
broken_start = refl

size_of_block : length (encode_block one_block) < 2 ^ 31
unfolding encode_block write_block_entries write_block_entry put_uint
size_of_block = omega arith

good_reads : read_block broken_file good_entry ≡ ok one_block
good_reads =
    subst (λ f. read_block f good_entry ≡ ok one_block) (append-nil broken_file)
      (read_block-encode_block [] one_block []
        (record { key_fits = omega arith; value_fits = omega arith }, tt) (omega arith)
        size_of_block)

bad_fails : read_block broken_file bad_entry ≡ err block_too_small
unfolding read_block decode_block read_full encode_block put_uint
bad_fails = refl

before_b : is_before (seek_key_of (98 ∷ []) 5) row_a ≡ true
unfolding is_before encode_search_key_at encode_new encode put_uint64_at put_uint64 size
    make_trailer put_uint uint decode_internal_key internal_compare bytes_compare make_search_key_at
    make_internal_key
before_b = refl

full_passes : might_contain full_filter (98 ∷ []) ≡ true
unfolding might_contain contain_loop
full_passes = refl

lookup_drops_error_example : lookup broken_file broken_table 1 (98 ∷ []) 5 ≡ ok ([], key_absent)
lookup_drops_error_example =
    lookup_drops_error broken_file broken_table (98 ∷ []) 5 good_entry bad_entry one_block
      block_too_small
      (subst (λ i. get_elem? broken_table.index i ≡ some good_entry) (sym broken_start) refl)
      good_reads
      (subst (λ i. get_elem? broken_table.index (suc i) ≡ some bad_entry) (sym broken_start) refl)
      bad_fails refl 1 full_passes (before_b, tt) (omega arith)

enough_fuel :
    length (
      readable broken_file
        (drop (start_block broken_file broken_table (98 ∷ []) 5) broken_table.index))
    ≤ 1
unfolding readable
enough_fuel =
    subst (λ i. length (readable broken_file (drop i broken_table.index)) ≤ 1) (sym broken_start)
      (rw (readable, good_reads, readable, bad_fails) (omega arith))

broken_lengths : HasLengths broken_table
unfolding encode_block write_block_entries write_block_entry put_uint
broken_lengths = (omega arith, (omega arith, tt))

new_iterator-Returns_example : Returns broken_file broken_table 1 (98 ∷ []) 5
new_iterator-Returns_example =
    new_iterator-Returns broken_file broken_table 1 (98 ∷ []) 5 broken_lengths enough_fuel

length_of_two_rows :
    length (written empty_filter two_rows).writer
      + index_size (written empty_filter two_rows).index_entries
    ≡ 69
unfolding collect_all add_to_block collect_entry put_block flush_current encode_block index_size
    put_uint
length_of_two_rows = refl

two_rows_small : length (flush_table empty_filter two_rows).0 < 2 ^ 31
unfolding new_bloom_filter
two_rows_small = omega (
  arith,
  ap (λ (w : Bytes × SsTable). length w.0)
      (flush_table-write_from_block_entries empty_filter two_rows),
  length-write empty_filter two_rows (new_bloom_filter-IsSized 24 3 (omega arith)),
  length_of_two_rows,
)

size_fits : empty_filter.size < 2 ^ 32
unfolding new_bloom_filter
size_fits = omega arith

hash_fits : empty_filter.num_hash < 2 ^ 32
unfolding new_bloom_filter
hash_fits = omega arith

valid_kinds :
    (kind (decode_internal_key row_a.key) ≤ kind_max)
    × (kind (decode_internal_key row_b.key) ≤ kind_max)
unfolding kind trailer_kind decode_internal_key uint
valid_kinds = (omega arith, omega arith)

lookup-flush_table_example :
    let (flushed, a) = flush_table empty_filter two_rows in
    let (merged, b) = write_from_block_entries empty_filter two_rows in
    let answer = entry_answer (newest_version entry_key (98 ∷ []) 5 two_rows) in
    (lookup flushed a 2 (98 ∷ []) 5 ≡ ok answer) × (lookup merged b 2 (98 ∷ []) 5 ≡ ok answer)
lookup-flush_table_example =
    lookup-flush_table empty_filter two_rows 2 (98 ∷ []) 5
      (new_bloom_filter-IsSized 24 3 (omega arith)) size_fits hash_fits
      (
        record { key_fits = omega arith; value_fits = omega arith },
        (record { key_fits = omega arith; value_fits = omega arith }, tt),
      )
      two_rows_small two_rows-IsStrict (valid_kinds.0, (valid_kinds.1, tt)) (omega arith)
      (omega arith)
