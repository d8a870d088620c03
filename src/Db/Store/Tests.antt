-- ===== src/Db/Store/Tests.antt =====
-- The theorems on an open store at concrete inputs: a list as the tree, files in memory.
use hcdb.Prelude.{
  ◌+◌, ◌^◌, ◌≤◌, ◌<◌, ◌≡◌, refl, ap, arith, List, [], ◌∷◌, ◌++◌, length, replicate, take,
  take-length, none, some, Error,
}
use hcdb.Binary.{Bytes}
use hcdb.Binary.Uint.{put_uint, uint}
use hcdb.Binary.Compare.{bytes_compare}
use hcdb.Base.Key.{
  SeqNum, seq_num_max, kind, trailer_kind, decode_internal_key, internal_compare, seq_num,
  trailer_seq_num, encode_new, encode, size, put_uint64_at, put_uint64, make_trailer,
  make_internal_key,
}
use hcdb.Base.Watermark.{new_watermark}
use hcdb.Bloom.{BloomFilter, new_bloom_filter}
use hcdb.Bloom.Membership.{new_bloom_filter-IsSized}
use hcdb.Bufio.{Writer, write}
use hcdb.Versions.{newest_version}
use hcdb.Wal.Log.{LogFile, open_wal, write_entry, append, count_put, sync}
use hcdb.Wal.Log as Wal
use hcdb.Wal.Record.{write_data_buff}
use hcdb.Memtable.{Item, BTree, ascend, insert_ordered, at_or_after}
use hcdb.Memtable.Seek.{IsOrdered}
use hcdb.Sstable.Block.{BlockEntry, encode_block}
use hcdb.Sstable.Index.{index_size}
use hcdb.Sstable.Sort.{entry_key, insertion_sorter}
use hcdb.Sstable.Table.{
  SsTable, flush_table, collect_all, add_to_block, collect_entry, put_block, flush_current,
}
use hcdb.Sstable.Table.Equal.{flush_table-write_from_block_entries}
use hcdb.Sstable.Table.Open.{written, length-write}
use hcdb.Sstable.Iterator.Blocks.{IsStrict}
use hcdb.Sstable.Disk.{DiskTable, installed}
use hcdb.Db.Store.{Os, block_entries_of, get_at, put, flush_memtable_locked}
use hcdb.Db.Store.Reads.{AllStored, value_of, get_at-newest_version}
use hcdb.Db.Store.Puts.{Db, IsCurrent, Written, log_put, put-get_at}
use hcdb.Db.Store.Refusals.{Explains, put_refuses}
use hcdb.Db.Store.Flushes.{IsWritable, installed-IsStored, flushed, flush_memtable_locked-get_at}

abbrev list_tree : BTree
list_tree = record {
  Tree = List Item;
  new_tree = [];
  replace_or_insert = insert_ordered;
  ascend_tree = λ t. t;
  ascend_greater_or_equal = at_or_after;
  ascend_new = refl;
  ascend_insert = λ x t. refl;
  ascend_pivot = λ pivot t. refl;
}

memory_content_after : (p s : Bytes) → s ++ p ≡ s ++ take (length p) p
memory_content_after p s = ap (λ (l : Bytes). s ++ l) (rw take-length)

memory_le : (p : Bytes) → length p ≤ length p
memory_le p = omega arith

abbrev memory : Writer
memory = record {
  State = Bytes;
  write_to = λ p s. record { count = length p; error = none; after = s ++ p };
  content = λ s. s;
  count_le = λ p s. memory_le p;
  count_eq = λ p s e. refl;
  content_after = λ p s. memory_content_after p s;
}

abbrev log_file : LogFile
log_file = record { writer = memory; fsync = λ s. (none, s); content_fsync = λ s. refl }

abbrev filter : BloomFilter
filter = new_bloom_filter 24 3

abbrev calm : Os log_file
calm = record {
  flush_error = none;
  flush_path = 49 ∷ [];
  truncate = λ s. (none, []);
  seek = λ s. (none, s);
  disk = record {
    file_size = λ t. length t.file;
    merged_path = λ ts. 50 ∷ [];
    write_error = λ p. none;
    remove_error = λ p. none;
    bloom = filter;
    sorter = insertion_sorter;
  };
}

abbrev row_a : Item
row_a = record { key = 97 ∷ 1 ∷ 2 ∷ 0 ∷ 0 ∷ 0 ∷ 0 ∷ 0 ∷ 0 ∷ []; value = 7 ∷ 7 ∷ [] }

abbrev row_b : Item
row_b = record { key = 98 ∷ 0 ∷ 1 ∷ 0 ∷ 0 ∷ 0 ∷ 0 ∷ 0 ∷ 0 ∷ []; value = [] }

abbrev two_rows : List BlockEntry
two_rows = block_entries_of (row_a ∷ row_b ∷ [])

two_rows-IsStrict : IsStrict two_rows
unfolding internal_compare bytes_compare decode_internal_key uint
two_rows-IsStrict = ((refl, tt), (tt, tt))

length_of_two_rows :
    length (written filter two_rows).writer + index_size (written filter two_rows).index_entries
    ≡ 69
unfolding collect_all add_to_block collect_entry put_block flush_current encode_block index_size
    put_uint
length_of_two_rows = refl

two_rows_small : length (flush_table filter two_rows).0 < 2 ^ 31
unfolding new_bloom_filter
two_rows_small = omega (
  arith,
  ap (λ (w : Bytes × SsTable). length w.0) (flush_table-write_from_block_entries filter two_rows),
  length-write filter two_rows (new_bloom_filter-IsSized 24 3 (omega arith)),
  length_of_two_rows,
)

two_rows-IsWritable : IsWritable filter two_rows
unfolding new_bloom_filter kind trailer_kind decode_internal_key uint
two_rows-IsWritable = record {
  sized = new_bloom_filter-IsSized 24 3 (omega arith);
  size_fits = omega arith;
  hash_fits = omega arith;
  fits = (
    record { key_fits = omega arith; value_fits = omega arith },
    (record { key_fits = omega arith; value_fits = omega arith }, tt),
  );
  small = two_rows_small;
  strict = two_rows-IsStrict;
  kinds = (omega arith, (omega arith, tt));
}

abbrev row_new : Item
row_new = record { key = 97 ∷ 0 ∷ 3 ∷ 0 ∷ 0 ∷ 0 ∷ 0 ∷ 0 ∷ 0 ∷ []; value = [] }

-- A store that holds these items and tables.
abbrev store_of : List Item → List DiskTable → Db list_tree log_file
store_of items tables = record {
  wal = record { buf_writer = record { buffer = []; error = none; under = [] }; put_counter = 0 };
  memtable = record { tree = items; size = 20 };
  sstables = tables;
  seq_num = 5;
  watermark = new_watermark;
}

abbrev one_table : List DiskTable
one_table = installed (49 ∷ []) (flush_table filter two_rows) ∷ []

row_new-IsOrdered : IsOrdered (ascend list_tree (store_of (row_new ∷ []) []).memtable)
unfolding ascend kind trailer_kind decode_internal_key uint
row_new-IsOrdered = record { sorted = (tt, tt); kinds = (omega arith, tt) }

-- A tombstone in the memtable over a table.
get_at-newest_version_example :
    get_at list_tree log_file (97 ∷ []) 4 (store_of (row_new ∷ []) one_table)
    ≡ value_of (
        newest_version entry_key (97 ∷ []) 4 (
          block_entries_of (ascend list_tree (store_of (row_new ∷ []) one_table).memtable)
          ++ (two_rows ++ [])))
get_at-newest_version_example =
    get_at-newest_version list_tree log_file (store_of (row_new ∷ []) one_table) (two_rows ∷ [])
      (97 ∷ []) 4 (omega arith) row_new-IsOrdered
      (installed-IsStored (49 ∷ []) filter two_rows two_rows-IsWritable, tt)

abbrev with_one : Db list_tree log_file
with_one = store_of (row_new ∷ []) one_table

with_one-IsCurrent : IsCurrent list_tree log_file with_one
unfolding ascend decode_internal_key uint seq_num trailer_seq_num
with_one-IsCurrent = record { ordered = row_new-IsOrdered; older = (omega arith, tt) }

logs_put : (log_put list_tree log_file calm with_one (97 ∷ []) (9 ∷ [])).0 ≡ none
unfolding Wal.put write_entry append count_put sync write put_uint write_data_buff encode_new encode
    size put_uint64_at put_uint64 make_trailer make_internal_key
logs_put = refl

put-get_at_example :
    Written list_tree log_file with_one
      (97 ∷ [])
      (some (9 ∷ []))
      (put list_tree log_file calm (97 ∷ []) (9 ∷ []) with_one)
put-get_at_example =
    put-get_at list_tree log_file calm with_one (97 ∷ []) (9 ∷ []) with_one-IsCurrent (omega arith)
      (omega arith) (omega arith) logs_put (omega arith)

put_refuses_example :
    Explains list_tree log_file calm with_one
      (replicate 1025 97)
      (9 ∷ [])
      (put list_tree log_file calm (replicate 1025 97) (9 ∷ []) with_one)
put_refuses_example =
    put_refuses list_tree log_file calm with_one (replicate 1025 97) (9 ∷ []) (omega arith)
      (omega arith)

abbrev unflushed : Db list_tree log_file
unflushed = store_of (row_a ∷ row_b ∷ []) []

unflushed-IsWritable : IsWritable calm.disk.bloom (flushed list_tree log_file calm unflushed)
unfolding ascend
unflushed-IsWritable = two_rows-IsWritable

flush_memtable_locked-get_at_example :
    (calm.flush_error ≡ none
      → let after = (flush_memtable_locked list_tree log_file calm unflushed).1 in
        (ascend list_tree after.memtable ≡ [])
        × AllStored after.sstables (flushed list_tree log_file calm unflushed ∷ [])
        × ((k : Bytes) (s : SeqNum)
            → s ≤ seq_num_max
            → get_at list_tree log_file k s after ≡ get_at list_tree log_file k s unflushed))
    × ((e : Error)
        → calm.flush_error ≡ some e
        → flush_memtable_locked list_tree log_file calm unflushed ≡ (some e, unflushed))
flush_memtable_locked-get_at_example =
    flush_memtable_locked-get_at list_tree log_file calm unflushed [] unflushed-IsWritable tt
      (omega arith)
