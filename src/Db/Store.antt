-- ===== src/Db/Store.antt =====
-- db/operations.go, db/types.go and db/db.go: the operations of an open store. The mutex makes each
-- of them one step. What the operating system answers during a call is a parameter.
pub mod Reads
pub mod Puts
pub mod Refusals
pub mod Flushes
mod Tests
use hcdb.Prelude.{
  ℕ, ◌+◌, ◌%◌, ◌^◌, List, [], ◌∷◌, length, ltb, if◌then◌else◌, Option, none, some, Result, ok, err,
  Error, key_too_long, value_too_long,
}
use hcdb.Config.{max_key_length, max_value_length, default_memtable_flush_size}
use hcdb.Binary.{Bytes}
use hcdb.Base.Key.{
  SeqNum, KeyLookup, key_absent, key_found, key_deleted, seq_num_max, make_internal_key, encode_new,
  kind_set, kind_delete, decode_internal_key, seq_num,
}
use hcdb.Base.Watermark
use hcdb.Base.Watermark.{Watermark}
use hcdb.Bufio.{is_nil}
use hcdb.Wal.Log as Wal
use hcdb.Wal.Log.{LogFile, Wal}
use hcdb.Memtable
use hcdb.Memtable.{Item, BTree, MemTable}
use hcdb.Sstable.Block.{BlockEntry}
use hcdb.Sstable.Table.{new_block_iterator}
use hcdb.Sstable.Iterator.{lookup}
use hcdb.Sstable.Disk.{DiskTable, flush_to}
use hcdb.Compaction.Compact.{Disk, compact}

-- DB. The configuration only names paths, and the block cache only saves reads.
pub record Store (T S : Type 0) : Type 0 where
  pub wal : Wal S
  pub memtable : MemTable T
  pub sstables : List DiskTable
  -- the last sequence number that was given out, a uint64
  pub seq_num : ℕ
  pub watermark : Watermark

-- What the operating system answers while the memtable is flushed.
pub record Os (f : LogFile) : Type 0 where
  pub flush_error : Option Error
  pub flush_path : Bytes
  pub truncate : f.State → Option Error × f.State
  pub seek : f.State → Option Error × f.State
  pub disk : Disk

-- The entries of a table have at least one byte each and are not shared by blocks, so the length of
-- a file is fuel enough for the loops of a Lookup: `IsStored` of Store/Reads.
abbrev pub lookup_in : DiskTable → Bytes → SeqNum → Result (Bytes × KeyLookup)
lookup_in t key snapshot = lookup t.file t.sst (length t.file) key snapshot

-- searchSSTables. `none` is the false that comes with nil.
unfoldable pub search_sstables : List DiskTable → Bytes → SeqNum → Option Bytes
search_sstables [] key snapshot = none
search_sstables (t ∷ tables) key snapshot =
    let rest = search_sstables tables key snapshot in
    elim (lookup_in t key snapshot) [
      | err e ↦ none
      | ok (val, key_deleted) ↦ none
      | ok (val, key_found) ↦ some val
      | ok (val, key_absent) ↦ rest
    ]

-- The switch of GetAt.
abbrev pub or_search : Bytes × KeyLookup → Option Bytes → Option Bytes
or_search (val, key_found) search = some val
or_search (val, key_deleted) search = none
or_search (val, key_absent) search = search

-- The loop over the entries of one table.
unfoldable pub max_in_entries : SeqNum → List BlockEntry → SeqNum
max_in_entries max_seq [] = max_seq
max_in_entries max_seq (e ∷ es) =
    let seq = seq_num (decode_internal_key e.key) in
    max_in_entries (if ltb max_seq seq then seq else max_seq) es

-- maxSeqNumInTables, from the maximum so far.
unfoldable pub max_seq_num_in_tables : SeqNum → List DiskTable → Result SeqNum
max_seq_num_in_tables max_seq [] = ok max_seq
max_seq_num_in_tables max_seq (t ∷ tables) = elim (new_block_iterator t.file t.sst.index) [
  | err e ↦ err e
  | ok entries ↦ max_seq_num_in_tables (max_in_entries max_seq entries) tables
]

abbrev pub block_entry_of : Item → BlockEntry
block_entry_of x = record { key = x.key; value = x.value }

abbrev pub block_entries_of : List Item → List BlockEntry
block_entries_of [] = []
block_entries_of (x ∷ xs) = block_entry_of x ∷ block_entries_of xs

module _ (b : BTree) (f : LogFile) where
  abbrev pub Db : Type 0
  Db = Store b.Tree f.State

  unfoldable pub get_at : Bytes → SeqNum → Db → Option Bytes
  get_at key snapshot db =
      or_search (Memtable.get b key snapshot db.memtable) (search_sstables db.sstables key snapshot)

  unfoldable pub get : Bytes → Db → Option Bytes
  get key db = get_at key seq_num_max db

  unfoldable pub get_snapshot : Db → SeqNum × Db
  get_snapshot db = (db.seq_num, record db { watermark = Watermark.begin db.watermark db.seq_num })

  unfoldable pub release_snapshot : SeqNum → Db → Db
  release_snapshot snap db = record db { watermark = Watermark.done db.watermark snap }

  -- The sequence number is taken whether or not the write succeeds.
  unfoldable pub encode_next_key : Bytes → ℕ → Db → Bytes × Db
  encode_next_key user_key kind db =
      let seq = (db.seq_num + 1) % 2 ^ 64 in
      (encode_new (make_internal_key user_key seq kind), record db { seq_num = seq })

  module _ (os : Os f) where
    -- Truncate, Seek, and the Reset of the buffered writer, which drops its buffer and its error.
    unfoldable pub reset_wal : Wal f.State → Option Error × Wal f.State
    reset_wal w =
        let (e, s) = os.truncate w.buf_writer.under in
        if is_nil e
        then (let (e', s') = os.seek s in
            if is_nil e'
            then (none, record w { buf_writer = record { buffer = []; error = none; under = s' } })
            else (e', record w { buf_writer = record w.buf_writer { under = s' } }))
        else (e, record w { buf_writer = record w.buf_writer { under = s } })

    -- From the compaction on.
    abbrev pub compacted : Db → Result (List DiskTable) → Option Error × Db
    compacted db (err e) = (some e, db)
    compacted db (ok tables) = (none, record db { sstables = tables })

    -- If the compaction fails after it removed files, the tables that stay in the list keep their bytes
    -- here, while Go finds their files gone.
    unfoldable pub install_table : DiskTable → Db → Option Error × Db
    install_table sst db =
        let (e, w) = reset_wal db.wal in
        let db = record db {
          sstables = sst ∷ db.sstables;
          memtable = Memtable.new_mem_table b;
          wal = w;
        } in
        if is_nil e
        then compacted db (compact os.disk db.sstables (Watermark.floor db.watermark)).0
        else (e, db)

    unfoldable pub flush_memtable_locked : Db → Option Error × Db
    flush_memtable_locked db =
        elim (flush_to os.flush_error os.flush_path os.disk.bloom
          (block_entries_of (Memtable.ascend b db.memtable))) [
            | err e ↦ (some e, db)
            | ok sst ↦ install_table sst db
          ]

    unfoldable pub force_flush : Db → Option Error × Db
    force_flush db = flush_memtable_locked db

    unfoldable pub flush_if_full_locked : Db → Option Error × Db
    flush_if_full_locked db =
        if ltb db.memtable.size default_memtable_flush_size
        then (none, db)
        else flush_memtable_locked db

    -- What Put and Delete do once the log has answered.
    abbrev pub once_logged :
        Option Error × Wal f.State → (MemTable b.Tree → MemTable b.Tree) → Db → Option Error × Db
    once_logged (none, w) change db =
        flush_if_full_locked (record db { wal = w; memtable = change db.memtable })
    once_logged (some e, w) change db = (some e, record db { wal = w })

    unfoldable pub put : Bytes → Bytes → Db → Option Error × Db
    put key value db =
        if ltb max_key_length (length key)
        then (some key_too_long, db)
        else if ltb max_value_length (length value)
        then (some value_too_long, db)
        else (let (internal_key, db) = encode_next_key key kind_set db in
            once_logged (Wal.put f internal_key value db.wal) (Memtable.put b internal_key value)
              db)

    unfoldable pub delete : Bytes → Db → Option Error × Db
    delete key db =
        if ltb max_key_length (length key)
        then (some key_too_long, db)
        else (let (internal_key, db) = encode_next_key key kind_delete db in
            once_logged (Wal.delete f internal_key db.wal) (Memtable.delete b internal_key) db)

  unfoldable pub close : Db → Option Error × Db
  close db =
      let (e, w) = Wal.sync f db.wal.buf_writer in
      (e, record db { wal = record db.wal { buf_writer = w } })
