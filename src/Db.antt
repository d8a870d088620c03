-- ===== src/Db.antt =====
-- db/db.go: rebuildMemtable, the recovery of the memtable from the log when the store is opened.
pub mod Rebuild
pub mod Store
pub mod Open
pub mod Scan
mod Tests
use hcdb.Prelude.{ℕ, List, [], ◌∷◌, ltb, ◌==◌, if◌then◌else◌, Option, none, some}
use hcdb.Binary.{Bytes}
use hcdb.Base.Key.{SeqNum, decode_internal_key, seq_num, kind, kind_delete}
use hcdb.Wal.Record.{Entry}
use hcdb.Wal.Replay.{Replayed, replay}
use hcdb.Memtable.{BTree, MemTable, new_mem_table, put, delete}

module _ (b : BTree) where
  -- mem and maxSeq.
  pub record Rebuilt : Type 0 where
    pub mem : MemTable b.Tree
    pub max_seq : SeqNum

  -- The body of the loop.
  pub rebuild_entry : Entry → Rebuilt → Rebuilt
  rebuild_entry e r =
      let seq = seq_num (decode_internal_key e.key) in
      record {
        mem =
            if kind (decode_internal_key e.key) == kind_delete
            then delete b e.key r.mem
            else put b e.key e.value r.mem;
        max_seq = if ltb r.max_seq seq then seq else r.max_seq;
      }

  pub rebuild_loop : List Entry → Rebuilt → Rebuilt
  unfolding rebuild_entry
  rebuild_loop [] r = r
  rebuild_loop (e ∷ es) r = rebuild_loop es (rebuild_entry e r)

  -- `none`: the fuel of Replay ran out. Its fuel is enough on every file.
  pub rebuild_memtable : Bytes → Option Rebuilt
  unfolding rebuild_loop
  rebuild_memtable file = elim (replay file) [
    | none ↦ none
    | some res ↦ some (rebuild_loop res.entries (record { mem = new_mem_table b; max_seq = 0 }))
  ]
