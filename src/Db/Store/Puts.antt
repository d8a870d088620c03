-- ===== src/Db/Store/Puts.antt =====
-- Put and Delete, followed by GetAt (db/operations.go).
use hcdb.Prelude.{
  ℕ, ◌+◌, ◌%◌, ◌^◌, ◌≤◌, ◌<◌, ◌≡◌, refl, sym, subst, ap, ◌∙◌, arith, [], length, ltb, leb, ◌&&◌,
  if◌then◌else◌, Bool, true, false, Option, none, some, Error, lt→ltb, All,
}
use hcdb.Config.{max_key_length, max_value_length, default_memtable_flush_size}
use hcdb.Binary.{Bytes, bytes_equal}
use hcdb.Base.Key.{
  SeqNum, KeyLookup, key_found, key_deleted, seq_num_max, seq_num, decode_internal_key, encode_new,
  size, make_internal_key, kind_set, kind_delete,
}
use hcdb.Wal.Log as Wal
use hcdb.Wal.Log.{LogFile}
use hcdb.Memtable
use hcdb.Memtable.{BTree, MemTable, ascend}
use hcdb.Memtable.Seek.{item_key, IsOrdered}
use hcdb.Memtable.Writes.{All-insert_ordered}
use hcdb.Base.Key.Codec.{decode-encode_new, length-encode_new}
use hcdb.Base.Key.Trailer.{make_internal_key_fields}
use hcdb.Versions.Newest.{All-map}
use hcdb.Memtable.Put.{put-get, delete-get}
use hcdb.Db.Store.{
  Store, Os, or_search, search_sstables, get_at, encode_next_key, once_logged, flush_if_full_locked,
  put, delete,
}

module _ (b : BTree) (f : LogFile) where
  abbrev pub Db : Type 0
  Db = Store b.Tree f.State

  -- The memtable is in order and holds no number above the last one that was given out.
  pub record IsCurrent (db : Db) : Type 0 where
    pub ordered : IsOrdered (ascend b db.memtable)
    pub older : All (λ y. seq_num (decode_internal_key y.key) ≤ db.seq_num) (ascend b db.memtable)

  -- The memtable with one more version, under the next number.
  insert-older :
      (m : MemTable b.Tree) (seq : SeqNum) (key : Bytes) (kd : ℕ) (value : Bytes)
      → seq < seq_num_max
      → kd < 256
      → All (λ y. seq_num (decode_internal_key y.key) ≤ seq) (ascend b m)
      → All
          (λ y. seq_num (decode_internal_key y.key) ≤ seq + 1)
          (ascend b (Memtable.insert b (encode_new (make_internal_key key (seq + 1) kd)) value m))
  unfolding ascend Memtable.insert
  insert-older m seq key kd value more fits older =
      let k = make_internal_key key (seq + 1) kd in
      let fields = make_internal_key_fields key (seq + 1) kd (omega arith) fits in
      subst (λ l. All (λ y. seq_num (decode_internal_key y.key) ≤ seq + 1) l)
        (sym (b.ascend_insert (record { key = encode_new k; value = value }) m.tree))
        (All-insert_ordered (λ y. seq_num (decode_internal_key y.key) ≤ seq + 1)
          (record { key = encode_new k; value = value }) (ascend b m)
          (subst (λ a. seq_num a ≤ seq + 1) (sym (decode-encode_new k fields.2))
            (omega (arith, fields.0)))
          (All-map item_key (λ y le. omega arith) (ascend b m) older))

  or_search_if :
      (c : Bool) (a o : Bytes × KeyLookup) (search : Option Bytes)
      → or_search (if c then a else o) search
        ≡ (if c then or_search a search else or_search o search)
  or_search_if true a o search = refl
  or_search_if false a o search = refl

  pub once_logged_fails :
      (os : Os f) (r : Option Error × Wal.Wal f.State) (change : MemTable b.Tree → MemTable b.Tree)
      (now : Db) (e : Error)
      → r.0 ≡ some e
      → once_logged b f os r change now ≡ (some e, record now { wal = r.1 })
  once_logged_fails os (none, w) change now e failed = absurd (cc)
  once_logged_fails os (some x, w) change now e failed =
      let same : x ≡ e = cc in ap (λ (y : Error). (some y, record now { wal = w })) same

  module _ (os : Os f) (db : Db) where
    -- The key, encoded for the next write.
    next_key :
        (key : Bytes) (kd : ℕ)
        → db.seq_num < seq_num_max
        → encode_next_key b f key kd db ≡ (
          encode_new (make_internal_key key (db.seq_num + 1) kd),
          record db { seq_num = db.seq_num + 1 },
        )
    unfolding encode_next_key
    next_key key kd more =
        let small : (db.seq_num + 1) % 2 ^ 64 ≡ db.seq_num + 1 = omega arith in
        ap (λ (n : ℕ). (encode_new (make_internal_key key n kd), record db { seq_num = n })) small

    -- What the log answers to a Put or a Delete.
    abbrev pub log_put : Bytes → Bytes → Option Error × Wal.Wal f.State
    log_put key value =
        Wal.put f (encode_new (make_internal_key key (db.seq_num + 1) kind_set)) value db.wal

    abbrev pub log_delete : Bytes → Option Error × Wal.Wal f.State
    log_delete key =
        Wal.delete f (encode_new (make_internal_key key (db.seq_num + 1) kind_delete)) db.wal

    pub put_next :
        (key value : Bytes)
        → db.seq_num < seq_num_max
        → length key ≤ max_key_length
        → length value ≤ max_value_length
        → put b f os key value db
          ≡ once_logged b f os
              (log_put key value)
              (Memtable.put b (encode_new (make_internal_key key (db.seq_num + 1) kind_set)) value)
              (record db { seq_num = db.seq_num + 1 })
    unfolding put
    put_next key value more key_fits value_fits =
        let short_key : ltb max_key_length (length key) ≡ false = ground arith in
        let short_value : ltb max_value_length (length value) ≡ false = ground arith in
        rw (put, short_key, short_value)
          (ap
            (λ ((internal_key, next) : Bytes × Db).
              once_logged b f os (Wal.put f internal_key value next.wal)
                (Memtable.put b internal_key value) next)
            (next_key key kind_set more))

    pub delete_next :
        (key : Bytes)
        → db.seq_num < seq_num_max
        → length key ≤ max_key_length
        → delete b f os key db
          ≡ once_logged b f os
              (log_delete key)
              (Memtable.delete b (encode_new (make_internal_key key (db.seq_num + 1) kind_delete)))
              (record db { seq_num = db.seq_num + 1 })
    unfolding delete
    delete_next key more key_fits =
        let short_key : ltb max_key_length (length key) ≡ false = ground arith in
        rw (delete, short_key)
          (ap
            (λ ((internal_key, next) : Bytes × Db).
              once_logged b f os (Wal.delete f internal_key next.wal)
                (Memtable.delete b internal_key) next)
            (next_key key kind_delete more))

    pub once_logged_fits :
        (r : Option Error × Wal.Wal f.State) (change : MemTable b.Tree → MemTable b.Tree) (now : Db)
        → r.0 ≡ none
        → (change now.memtable).size < default_memtable_flush_size
        → once_logged b f os r change now
          ≡ (none, record now { wal = r.1; memtable = change now.memtable })
    unfolding flush_if_full_locked
    once_logged_fits (none, w) change now e room =
        rw
          (flush_if_full_locked, lt→ltb (change now.memtable).size default_memtable_flush_size room)
          refl
    once_logged_fits (some x, w) change now e room = absurd (cc)

  pub key_size :
      (key : Bytes) (seq : SeqNum) (kd : ℕ)
      → length (encode_new (make_internal_key key seq kd)) ≡ length key + 8
  unfolding size make_internal_key
  key_size key seq kd = length-encode_new (make_internal_key key seq kd)

  -- The memtable answers as `c` decides, and so does the store.
  through_tables :
      (db after : Db) (k : Bytes) (s : SeqNum) (c : Bool) (a : Bytes × KeyLookup)
      → after.sstables ≡ db.sstables
      → Memtable.get b k s after.memtable ≡ (if c then a else Memtable.get b k s db.memtable)
      → get_at b f k s after
        ≡ (if c then or_search a (search_sstables db.sstables k s) else get_at b f k s db)
  unfolding get_at
  through_tables db after k s c a same answers =
      ap (λ ts. or_search (Memtable.get b k s after.memtable) (search_sstables ts k s)) same
      ∙ ap (λ o. or_search o (search_sstables db.sstables k s)) answers
      ∙ or_search_if c a (Memtable.get b k s db.memtable) (search_sstables db.sstables k s)

  -- What a write leaves behind, as its result says.
  abbrev pub Written : Db → Bytes → Option Bytes → Option Error × Db → Type 0
  Written db key answer (e, after) =
      (e ≡ none)
      × IsCurrent after
      × (after.seq_num ≡ db.seq_num + 1)
      × ((k : Bytes) (s : SeqNum)
          → s ≤ seq_num_max
          → get_at b f k s after
            ≡ (if bytes_equal key k && leb (db.seq_num + 1) s then answer else get_at b f k s db))

  -- A Put within the limits that the log takes without an error, into a memtable that stays below the size at which it is flushed. It returns no error, the order of the memtable and its bound on the sequence numbers hold again, and afterwards a snapshot at or above the new number reads the value under the key, while every other snapshot or key reads what it did before: the write is seen at once, and no earlier snapshot sees it.
  pub put-get_at :
      (os : Os f) (db : Db) (key value : Bytes)
      → IsCurrent db
      → db.seq_num < seq_num_max
      → length key ≤ max_key_length
      → length value ≤ max_value_length
      → (log_put os db key value).0 ≡ none
      → db.memtable.size + (length key + 8 + length value) < default_memtable_flush_size
      → Written db key (some value) (put b f os key value db)
  unfolding Memtable.put Memtable.insert
  put-get_at os db key value current more key_fits value_fits logged room =
      let internal_key = encode_new (make_internal_key key (db.seq_num + 1) kind_set) in
      let change : MemTable b.Tree → MemTable b.Tree = Memtable.put b internal_key value in
      let now = record db { seq_num = db.seq_num + 1 } in
      let after : Db = record now {
        wal = (log_put os db key value).1;
        memtable = change db.memtable;
      } in
      let written =
        put-get b db.memtable key value (db.seq_num + 1) (omega arith) current.ordered
          (All-map item_key (λ y le. omega arith) (ascend b db.memtable) current.older) in
      let result : put b f os key value db ≡ (none, after) =
        put_next os db key value more key_fits value_fits
        ∙ once_logged_fits os db (log_put os db key value) change now logged
            (omega (arith, key_size key (db.seq_num + 1) kind_set)) in
      subst (Written db key (some value)) (sym result) (
        refl,
        record {
          ordered = written.0;
          older =
              insert-older db.memtable db.seq_num key kind_set value more (omega arith)
                current.older;
        },
        refl,
        λ k s le.
            through_tables db after k s (bytes_equal key k && leb (db.seq_num + 1) s)
              (value, key_found) refl (written.1 k s le),
      )

  -- A Delete within the limit that the log takes without an error, into a memtable that stays below the size at which it is flushed. It returns no error, the order of the memtable and its bound on the sequence numbers hold again, and afterwards a snapshot at or above the new number finds nothing under the key, whatever the tables hold, while every other snapshot or key reads what it did before.
  pub delete-get_at :
      (os : Os f) (db : Db) (key : Bytes)
      → IsCurrent db
      → db.seq_num < seq_num_max
      → length key ≤ max_key_length
      → (log_delete os db key).0 ≡ none
      → db.memtable.size + (length key + 8) < default_memtable_flush_size
      → Written db key none (delete b f os key db)
  unfolding Memtable.delete Memtable.insert
  delete-get_at os db key current more key_fits logged room =
      let internal_key = encode_new (make_internal_key key (db.seq_num + 1) kind_delete) in
      let change : MemTable b.Tree → MemTable b.Tree = Memtable.delete b internal_key in
      let now = record db { seq_num = db.seq_num + 1 } in
      let after : Db = record now {
        wal = (log_delete os db key).1;
        memtable = change db.memtable;
      } in
      let written =
        delete-get b db.memtable key (db.seq_num + 1) (omega arith) current.ordered
          (All-map item_key (λ y le. omega arith) (ascend b db.memtable) current.older) in
      let result : delete b f os key db ≡ (none, after) =
        delete_next os db key more key_fits
        ∙ once_logged_fits os db (log_delete os db key) change now logged
            (omega (arith, key_size key (db.seq_num + 1) kind_delete)) in
      subst (Written db key none) (sym result) (
        refl,
        record {
          ordered = written.0;
          older =
              insert-older db.memtable db.seq_num key kind_delete [] more (omega arith)
                current.older;
        },
        refl,
        λ k s le.
            through_tables db after k s (bytes_equal key k && leb (db.seq_num + 1) s)
              ([], key_deleted) refl (written.1 k s le),
      )
