-- ===== src/Db/Scan/Tests.antt =====
-- A scan at a concrete input: a list as the tree, files in memory.
use hcdb.Prelude.{
  ◌≡◌, refl, ap, arith, List, [], ◌∷◌, ◌++◌, length, take, take-length, none, some, ok,
}
use hcdb.Binary.{Bytes}
use hcdb.Binary.Compare.{bytes_compare}
use hcdb.Binary.Uint.{uint}
use hcdb.Base.Key.{
  decode_internal_key, internal_compare, kind, trailer_kind, visible, trailer_seq_num,
}
use hcdb.Base.Watermark.{new_watermark}
use hcdb.Bufio.{Writer}
use hcdb.Wal.Log.{LogFile}
use hcdb.Memtable.{Item, BTree, ascend, insert_ordered, at_or_after, is_past}
use hcdb.Memtable.Seek.{IsOrdered}
use hcdb.Db.Store.{Store}
use hcdb.Db.Scan.{MergeIterator, scan_at, collect}
use hcdb.Db.Scan.Heap.{total}
use hcdb.Db.Scan.Sources.{keep}
use hcdb.Db.Scan.Listing.{Lists}
use hcdb.Db.Scan.Start.{held, scanned, scan_at-Lists}

abbrev list_tree : BTree
list_tree = record {
  Tree = List Item;
  new_tree = [];
  replace_or_insert = insert_ordered;
  ascend_tree = λ t. t;
  ascend_greater_or_equal = at_or_after;
  ascend_new = refl;
  ascend_insert = λ x t. refl;
  ascend_pivot = λ pivot t. refl;
}

memory_content_after : (p s : Bytes) → s ++ p ≡ s ++ take (length p) p
memory_content_after p s = ap (λ (l : Bytes). s ++ l) (rw take-length)

abbrev memory_writer : Writer
memory_writer = record {
  State = Bytes;
  write_to = λ p s. record { count = length p; error = none; after = s ++ p };
  content = λ s. s;
  count_le = λ p s. omega arith;
  count_eq = λ p s e. refl;
  content_after = λ p s. memory_content_after p s;
}

abbrev log_file : LogFile
log_file = record { writer = memory_writer; fsync = λ s. (none, s); content_fsync = λ s. refl }

-- A key with a tombstone over a value, and a key with a value.
abbrev three_items : List Item
three_items =
    record { key = 97 ∷ 0 ∷ 2 ∷ 0 ∷ 0 ∷ 0 ∷ 0 ∷ 0 ∷ 0 ∷ []; value = [] }
    ∷ record { key = 97 ∷ 1 ∷ 1 ∷ 0 ∷ 0 ∷ 0 ∷ 0 ∷ 0 ∷ 0 ∷ []; value = 7 ∷ [] }
    ∷ record { key = 98 ∷ 1 ∷ 3 ∷ 0 ∷ 0 ∷ 0 ∷ 0 ∷ 0 ∷ 0 ∷ []; value = 8 ∷ [] }
    ∷ []

abbrev small_store : Store (List Item) Bytes
small_store = record {
  wal = record { buf_writer = record { buffer = []; error = none; under = [] }; put_counter = 0 };
  memtable = record { tree = three_items; size = 30 };
  sstables = [];
  seq_num = 3;
  watermark = new_watermark;
}

three_items-IsOrdered : IsOrdered (ascend list_tree small_store.memtable)
unfolding ascend kind trailer_kind decode_internal_key uint internal_compare bytes_compare
three_items-IsOrdered = record {
  sorted = ((λ e. cc, (λ e. cc, tt)), ((λ e. cc, tt), (tt, tt)));
  kinds = (omega arith, (omega arith, (omega arith, tt)));
}

held_three : total (held list_tree log_file (97 ∷ []) (some (98 ∷ [])) 4 small_store []) ≡ 3
unfolding total scanned keep ascend is_past bytes_compare decode_internal_key uint visible
    trailer_seq_num
held_three = refl

scan_at-Lists_example :
    (m : MergeIterator) × (scan_at list_tree log_file (97 ∷ []) (some (98 ∷ [])) 4 small_store
      ≡ ok m)
    × Lists
        (some (98 ∷ []))
        (held list_tree log_file (97 ∷ []) (some (98 ∷ [])) 4 small_store [])
        (collect 3 4 m)
scan_at-Lists_example =
    scan_at-Lists list_tree log_file (97 ∷ []) (some (98 ∷ [])) 4 small_store [] 3 4 (omega arith)
      three_items-IsOrdered tt (omega (arith, held_three)) (omega (arith, held_three))
