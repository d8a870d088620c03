-- ===== src/Db/Open/Tests.antt =====
-- A store that is opened again, at concrete inputs: a list as the tree, files in memory.
use hcdb.Prelude.{
  ◌≡◌, ◌<◌, refl, ap, arith, List, [], ◌∷◌, ◌++◌, length, take, take-length, some, none, ok,
}
use hcdb.Config.{default_sync_threshold}
use hcdb.Binary.{Bytes}
use hcdb.Binary.Uint.{put_uint}
use hcdb.Base.Key.{
  SeqNum, encode_new, encode, size, put_uint64_at, put_uint64, make_trailer, make_internal_key,
}
use hcdb.Bloom.{new_bloom_filter}
use hcdb.Bufio.{Writer, write}
use hcdb.Wal.Log as Wal
use hcdb.Wal.Log.{LogFile, open_wal, write_entry, append, count_put}
use hcdb.Wal.Record.{write_data_buff}
use hcdb.Memtable
use hcdb.Memtable.{Item, BTree, insert_ordered, at_or_after}
use hcdb.Sstable.Sort.{insertion_sorter}
use hcdb.Db.Store.{Store, Os, get_at, put, delete, encode_next_key, flush_if_full_locked}
use hcdb.Db.Open.{OpenOs, open_store}
use hcdb.Db.Open.Runs.{Write, set, remove, run_writes, new_store, total_weight}
use hcdb.Db.Open.Reopen.{open_store-run_writes}

abbrev list_tree : BTree
list_tree = record {
  Tree = List Item;
  new_tree = [];
  replace_or_insert = insert_ordered;
  ascend_tree = λ t. t;
  ascend_greater_or_equal = at_or_after;
  ascend_new = refl;
  ascend_insert = λ x t. refl;
  ascend_pivot = λ pivot t. refl;
}

memory_content_after : (p s : Bytes) → s ++ p ≡ s ++ take (length p) p
memory_content_after p s = ap (λ (l : Bytes). s ++ l) (rw take-length)

abbrev memory : Writer
memory = record {
  State = Bytes;
  write_to = λ p s. record { count = length p; error = none; after = s ++ p };
  content = λ s. s;
  count_le = λ p s. omega arith;
  count_eq = λ p s e. refl;
  content_after = λ p s. memory_content_after p s;
}

abbrev log_file : LogFile
log_file = record { writer = memory; fsync = λ s. (none, s); content_fsync = λ s. refl }

abbrev calm : Os log_file
calm = record {
  flush_error = none;
  flush_path = 49 ∷ [];
  truncate = λ s. (none, []);
  seek = λ s. (none, s);
  disk = record {
    file_size = λ t. length t.file;
    merged_path = λ ts. 50 ∷ [];
    write_error = λ p. none;
    remove_error = λ p. none;
    bloom = new_bloom_filter 24 3;
    sorter = insertion_sorter;
  };
}

abbrev reopened : OpenOs log_file
reopened = record {
  mkdir_error = none;
  wal_error = none;
  read_dir = ok [];
  cut = λ n s. take n s;
  content_cut = λ n s. refl;
}

-- A key is set and removed, and another is set.
abbrev three_writes : List Write
three_writes = set (97 ∷ []) (7 ∷ []) ∷ remove (97 ∷ []) ∷ set (98 ∷ []) [] ∷ []

abbrev Db : Type 0
Db = Store (List Item) Bytes

-- The store after them.
three_run :
    (last : Db) × (run_writes list_tree log_file calm three_writes
        (new_store list_tree log_file calm [])
      ≡ some last)
unfolding run_writes put delete Wal.put Wal.delete write_entry append count_put write put_uint
    write_data_buff encode_new encode size put_uint64_at put_uint64 make_trailer make_internal_key
    encode_next_key flush_if_full_locked Memtable.put Memtable.delete Memtable.insert open_wal
    Memtable.new_mem_table
three_run = (_, refl)

three_writes_light : total_weight three_writes ≡ 28
unfolding total_weight
three_writes_light = refl

open_store-run_writes_example :
    (front : List Write) × (back : List Write) × (before : Db) × (opened : Db) × (three_writes
      ≡ front ++ back)
    × (length back < default_sync_threshold)
    × (run_writes list_tree log_file calm front (new_store list_tree log_file calm [])
        ≡ some before)
    × (open_store list_tree log_file reopened three_run.0.wal.buf_writer.under ≡ ok opened)
    × (opened.memtable ≡ before.memtable)
    × (opened.seq_num ≡ before.seq_num)
    × ((key : Bytes) (snapshot : SeqNum)
        → get_at list_tree log_file key snapshot opened
          ≡ get_at list_tree log_file key snapshot before)
open_store-run_writes_example =
    open_store-run_writes list_tree log_file calm [] three_writes three_run.0 reopened refl
      ((omega arith, omega arith), (omega arith, ((omega arith, omega arith), tt))) (omega arith)
      (omega (arith, three_writes_light)) three_run.1 refl refl refl
