-- ===== src/Db/Open/Runs.antt =====
-- Runs of writes on a store (db/operations.go).
use hcdb.Prelude.{
  ℕ, ◌+◌, ◌≤◌, ◌<◌, ◌≡◌, refl, sym, subst, ap, ◌∙◌, arith, List, [], ◌∷◌, length, All, Option, none,
  some, Error, ltb, if◌then◌else◌, inl, inr, Option-cases,
}
use hcdb.Config.{max_key_length, max_value_length, default_memtable_flush_size}
use hcdb.Binary.{Bytes}
use hcdb.Base.Key.{
  SeqNum, seq_num_max, size, encode_new, make_internal_key, kind_set, kind_delete,
  decode_internal_key, kind, seq_num,
}
use hcdb.Base.Key.Codec.{decode-encode_new, length-encode_new}
use hcdb.Base.Key.Trailer.{make_internal_key_fields}
use hcdb.Base.Watermark.{new_watermark}
use hcdb.Wal.Record.{Entry}
use hcdb.Wal.Log as Wal
use hcdb.Wal.Log.{LogFile, acknowledged, write_entry, open_wal}
use hcdb.Memtable
use hcdb.Memtable.{BTree, MemTable, new_mem_table}
use hcdb.Db.{Rebuilt, rebuild_entry, rebuild_loop}
use hcdb.Db.Store.{Store, Os, once_logged, put, delete}
use hcdb.Db.Store.Puts.{
  log_put, log_delete, put_next, delete_next, once_logged_fits, once_logged_fails,
}

pub data Write : Type 0 where
  set : Bytes → Bytes → Write
  remove : Bytes → Write

-- The limits of Put and Delete.
abbrev pub IsAllowed : Write → Type 0
IsAllowed (set key value) = (length key ≤ max_key_length) × (length value ≤ max_value_length)
IsAllowed (remove key) = length key ≤ max_key_length

-- What a write adds to the size of the memtable.
abbrev pub weight : Write → ℕ
weight (set key value) = length key + 8 + length value
weight (remove key) = length key + 8

unfoldable pub total_weight : List Write → ℕ
total_weight [] = 0
total_weight (w ∷ ws) = weight w + total_weight ws

-- The record of a write in the log.
abbrev pub entry_of : SeqNum → Write → Entry
entry_of seq (set key value) = record {
  key = encode_new (make_internal_key key seq kind_set);
  value = value;
}
entry_of seq (remove key) = record {
  key = encode_new (make_internal_key key seq kind_delete);
  value = [];
}

unfoldable pub entries_of : SeqNum → List Write → List Entry
entries_of seq [] = []
entries_of seq (w ∷ ws) = entry_of (seq + 1) w ∷ entries_of (seq + 1) ws

module _ (b : BTree) (f : LogFile) (os : Os f) where
  abbrev pub Db : Type 0
  Db = Store b.Tree f.State

  abbrev pub write_to : Write → Db → Option Error × Db
  write_to (set key value) db = put b f os key value db
  write_to (remove key) db = delete b f os key db

  abbrev pub go_on : Option Error × Db → (Db → Option Db) → Option Db
  go_on (none, db) next = next db
  go_on (some e, db) next = none

  -- The store after these writes, if every one of them returned no error.
  unfoldable pub run_writes : List Write → Db → Option Db
  run_writes [] db = some db
  run_writes (w ∷ ws) db = go_on (write_to w db) (run_writes ws)

  abbrev pub new_store : f.State → Db
  new_store s = record {
    wal = open_wal f s;
    memtable = new_mem_table b;
    sstables = [];
    seq_num = 0;
    watermark = new_watermark;
  }

  -- What the rebuild of the memtable would start from.
  abbrev pub rebuilt : Db → Rebuilt b
  rebuilt db = record { mem = db.memtable; max_seq = db.seq_num }

  key_size :
      (key : Bytes) (seq : SeqNum) (kd : ℕ)
      → length (encode_new (make_internal_key key seq kd)) ≡ length key + 8
  unfolding size make_internal_key
  key_size key seq kd = length-encode_new (make_internal_key key seq kd)

  -- A write that was acknowledged: its record went to the log, and the memtable and the sequence
  -- number are what the rebuild makes of the record.
  record Logs (w : Write) (db after : Db) : Type 0 where
    logged : write_entry f (entry_of (db.seq_num + 1) w) db.wal ≡ (none, after.wal)
    replays : rebuild_entry b (entry_of (db.seq_num + 1) w) (rebuilt db) ≡ rebuilt after
    grows : after.memtable.size ≡ db.memtable.size + weight w
    counts : after.seq_num ≡ db.seq_num + 1
    same_tables : after.sstables ≡ db.sstables

  key_fields :
      (db : Db) (key : Bytes) (kd : ℕ)
      → db.seq_num < seq_num_max
      → kd ≤ 1
      → (kind (decode_internal_key (encode_new (make_internal_key key (db.seq_num + 1) kd))) ≡ kd)
        × (seq_num (decode_internal_key (encode_new (make_internal_key key (db.seq_num + 1) kd)))
            ≡ db.seq_num + 1)
  key_fields db key kd more small =
      let k = make_internal_key key (db.seq_num + 1) kd in
      let fields = make_internal_key_fields key (db.seq_num + 1) kd (omega arith) (omega arith) in
      let same = decode-encode_new k fields.2 in
      (ap kind same ∙ fields.1, ap seq_num same ∙ fields.0)

  none_first : {A : Type 0} (r : Option Error × A) → r.0 ≡ none → r ≡ (none, r.1)
  none_first (o, a) e = ap (λ (p : Option Error). (p, a)) e

  newer : (m : SeqNum) → (if ltb m (m + 1) then m + 1 else m) ≡ m + 1
  newer m = ground arith

  -- A write within the room that was acknowledged was logged without an error.
  acked_done :
      (db : Db) (r : Option Error × Db) (answer : Option Error × Wal.Wal f.State)
      (change : MemTable b.Tree → MemTable b.Tree) (now after : Db)
      → r ≡ once_logged b f os answer change now
      → r ≡ (none, after)
      → (change now.memtable).size < default_memtable_flush_size
      → (answer.0 ≡ none) × (record now { wal = answer.1; memtable = change now.memtable } ≡ after)
  acked_done db r answer change now after next acked room = elim (Option-cases answer.0) [
    | inr (e, fails) ↦ absurd (
        cc (
          ap (λ (p : Option Error × Db). p.0)
            (sym acked ∙ next ∙ once_logged_fails b f os answer change now e fails)))
    | inl clean ↦ (
      clean,
      ap (λ (p : Option Error × Db). p.1)
          (sym (next ∙ once_logged_fits b f os db answer change now clean room) ∙ acked),
    )
  ]

  write-Logs :
      (w : Write) (db after : Db)
      → db.seq_num < seq_num_max
      → IsAllowed w
      → db.memtable.size + weight w < default_memtable_flush_size
      → write_to w db ≡ (none, after)
      → Logs w db after
  unfolding rebuild_entry Wal.put Wal.delete Memtable.put Memtable.delete Memtable.insert
  write-Logs (set key value) db after more allowed room acked =
      let internal_key = encode_new (make_internal_key key (db.seq_num + 1) kind_set) in
      let change : MemTable b.Tree → MemTable b.Tree = Memtable.put b internal_key value in
      let fields = key_fields db key kind_set more (omega arith) in
      let done =
        acked_done db (put b f os key value db) (log_put b f os db key value) change
          (record db { seq_num = db.seq_num + 1 }) after
          (put_next b f os db key value more allowed.0 allowed.1) acked
          (omega (arith, key_size key (db.seq_num + 1) kind_set)) in
      subst (Logs (set key value) db) done.1 (record {
        logged = none_first (log_put b f os db key value) done.0;
        replays = rw (rebuild_entry, fields.0, fields.1, newer db.seq_num) refl;
        grows = omega (arith, key_size key (db.seq_num + 1) kind_set);
        counts = refl;
        same_tables = refl;
      })
  write-Logs (remove key) db after more allowed room acked =
      let internal_key = encode_new (make_internal_key key (db.seq_num + 1) kind_delete) in
      let change : MemTable b.Tree → MemTable b.Tree = Memtable.delete b internal_key in
      let fields = key_fields db key kind_delete more (omega arith) in
      let done =
        acked_done db (delete b f os key db) (log_delete b f os db key) change
          (record db { seq_num = db.seq_num + 1 }) after (delete_next b f os db key more allowed)
          acked (omega (arith, key_size key (db.seq_num + 1) kind_delete)) in
      subst (Logs (remove key) db) done.1 (record {
        logged = none_first (log_delete b f os db key) done.0;
        replays = rw (rebuild_entry, fields.0, fields.1, newer db.seq_num) refl;
        grows = omega (arith, key_size key (db.seq_num + 1) kind_delete);
        counts = refl;
        same_tables = refl;
      })

  pub went_on :
      (r : Option Error × Db) (next : Db → Option Db) (after : Db)
      → go_on r next ≡ some after
      → (mid : Db) × (r ≡ (none, mid)) × (next mid ≡ some after)
  went_on (none, mid) next after e = (mid, refl, e)
  went_on (some x, mid) next after e = absurd (cc)

  -- What a run of acknowledged writes did to the log, the memtable and the tables.
  pub record Ran (ws : List Write) (db after : Db) : Type 0 where
    pub logged : acknowledged f (entries_of db.seq_num ws) db.wal ≡ some after.wal
    pub replays : rebuild_loop b (entries_of db.seq_num ws) (rebuilt db) ≡ rebuilt after
    pub same_tables : after.sstables ≡ db.sstables

  pub run_writes-Ran :
      (ws : List Write) (db after : Db)
      → db.seq_num + length ws ≤ seq_num_max
      → All IsAllowed ws
      → db.memtable.size + total_weight ws < default_memtable_flush_size
      → run_writes ws db ≡ some after
      → Ran ws db after
  unfolding run_writes total_weight entries_of acknowledged rebuild_loop
  run_writes-Ran [] db after more allowed room ran =
      let same : db ≡ after = cc in
      subst (Ran [] db) same (record { logged = refl; replays = refl; same_tables = refl })
  run_writes-Ran (w ∷ ws) db after more allowed room ran =
      let (mid, first, later) = went_on (write_to w db) (run_writes ws) after ran in
      let l = write-Logs w db mid (omega arith) allowed.0 (omega arith) first in
      let rest =
        run_writes-Ran ws mid after (omega (arith, l.counts)) allowed.1 (omega (arith, l.grows))
          later in
      record {
        logged =
            rw (acknowledged, l.logged)
              (subst (λ n. acknowledged f (entries_of n ws) mid.wal ≡ some after.wal) l.counts
                rest.logged);
        replays =
            ap (rebuild_loop b (entries_of (db.seq_num + 1) ws)) l.replays
            ∙ subst (λ n. rebuild_loop b (entries_of n ws) (rebuilt mid) ≡ rebuilt after) l.counts
                rest.replays;
        same_tables = rest.same_tables ∙ l.same_tables;
      }
