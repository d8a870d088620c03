-- ===== src/Db/Open.antt =====
-- db/db.go: Open, and OpenAllInDir of sstable/reader.go. What the operating system answers is a
-- parameter.
pub mod Runs
pub mod Reopen
mod Tests
use hcdb.Prelude.{
  ℕ, List, [], ◌∷◌, length, take, ltb, ◌≡◌, if◌then◌else◌, Bool, Option, none, some, Result, ok,
  err, Error, out_of_fuel, ◌>>=◌,
}
use hcdb.Binary.{Bytes}
use hcdb.Base.Key.{SeqNum}
use hcdb.Base.Watermark.{new_watermark}
use hcdb.Wal.Log.{LogFile, open_wal}
use hcdb.Wal.Replay.{replay}
use hcdb.Memtable.{BTree}
use hcdb.Sstable.Table.{open_table}
use hcdb.Sstable.Disk.{DiskTable}
use hcdb.Db.{Rebuilt, rebuild_memtable}
use hcdb.Db.Store.{Store, max_seq_num_in_tables}

-- An entry of the directory, with the bytes of the file.
pub record DirEntry : Type 0 where
  pub name : Bytes
  pub is_dir : Bool
  pub file : Bytes

-- What the operating system answers while the store is opened.
pub record OpenOs (f : LogFile) : Type 0 where
  pub mkdir_error : Option Error
  pub wal_error : Option Error
  -- the entries after sort.Slice, which puts the greatest name first
  pub read_dir : Result (List DirEntry)
  -- Truncate of Replay, to a length
  pub cut : ℕ → f.State → f.State
  pub content_cut : (n : ℕ) (s : f.State) → f.content (cut n s) ≡ take n (f.content s)

-- The loop of OpenAllInDir.
unfoldable pub open_entries : List DirEntry → Result (List DiskTable)
open_entries [] = ok []
open_entries (e ∷ entries) =
    let later = open_entries entries in
    if e.is_dir then later else (do
      sst ← open_table e.file
      tables ← later
      ok (record { file_path = e.name; file = e.file; sst = sst } ∷ tables))

unfoldable pub open_all_in_dir : Result (List DirEntry) → Result (List DiskTable)
open_all_in_dir dir = do entries ← dir; open_entries entries

abbrev pub unless : {A : Type 0} → Option Error → Result A → Result A
unless none next = next
unless (some e) next = err e

-- How many bytes of the log Replay keeps.
abbrev pub kept_length : Bytes → ℕ
kept_length file = elim (replay file) [ none ↦ length file | some res ↦ length res.file ]

module _ (b : BTree) (f : LogFile) (os : OpenOs f) where
  -- The store once the log is replayed and the tables are open.
  unfoldable pub opened_store : f.State → Rebuilt b → List DiskTable → SeqNum → Store b.Tree f.State
  opened_store s r tables sst_max_seq = record {
    wal = open_wal f (os.cut (kept_length (f.content s)) s);
    memtable = r.mem;
    sstables = tables;
    seq_num = if ltb r.max_seq sst_max_seq then sst_max_seq else r.max_seq;
    watermark = new_watermark;
  }

  abbrev pub or_out_of_fuel : Option (Rebuilt b) → Result (Rebuilt b)
  or_out_of_fuel none = err out_of_fuel
  or_out_of_fuel (some r) = ok r

  -- Open, on the file of the log as it is found.
  unfoldable pub open_store : f.State → Result (Store b.Tree f.State)
  open_store s = unless os.mkdir_error (
      unless os.wal_error (do
        r ← or_out_of_fuel (rebuild_memtable b (f.content s))
        tables ← open_all_in_dir os.read_dir
        sst_max_seq ← max_seq_num_in_tables 0 tables
        ok (opened_store s r tables sst_max_seq)))
