-- ===== src/Server/Stored.antt =====
-- The store as the database of the server (db/operations.go, db/iterator.go).
use hcdb.Prelude.{
  ℕ, suc, ◌+◌, ◌*◌, ◌≤◌, ◌<◌, ◌≡◌, ◌⊎◌, inl, inr, refl, ap, ◌∙◌, arith, length, ltb, leb, ◌&&◌,
  if◌then◌else◌, Bool, true, false, Bool-cases, Option, Option-cases, none, some, Error,
  key_too_long, ok, ◌>>=◌,
}
use hcdb.Config.{max_key_length, default_memtable_flush_size}
use hcdb.Binary.{Bytes, bytes_equal}
use hcdb.Base.Key.{SeqNum, seq_num_max, encode_new, make_internal_key, kind_delete}
use hcdb.Wal.Log.{LogFile}
use hcdb.Memtable
use hcdb.Memtable.{BTree, MemTable}
use hcdb.Db.Store.{Os, get_at, get, put, delete}
use hcdb.Db.Store.Puts.{
  Db, IsCurrent, log_delete, key_size, delete_next, once_logged_fails, once_logged_fits,
  delete-get_at,
}
use hcdb.Db.Scan.{scan, collect}
use hcdb.Server.{Database}
use hcdb.Server.Deletes.{IsMap}

module _ (b : BTree) (f : LogFile) (os : Os f) where
  -- What a Delete into a memtable with room does: it returns an error and no read has changed, or it
  -- is within the limit, logged, and in the memtable.
  delete_cases :
      (key : Bytes) (db : Db b f)
      → db.seq_num < seq_num_max
      → db.memtable.size + (max_key_length + 8) < default_memtable_flush_size
      → ((e : Error) × (after : Db b f) × (delete b f os key db ≡ (some e, after))
          × ((j : Bytes) (s : SeqNum) → get_at b f j s after ≡ get_at b f j s db))
        ⊎ ((length key ≤ max_key_length)
            × ((log_delete b f os db key).0 ≡ none)
            × (delete b f os key db ≡ (
              none,
              record db {
                seq_num = db.seq_num + 1;
                wal = (log_delete b f os db key).1;
                memtable =
                    Memtable.delete b
                      (encode_new (make_internal_key key (db.seq_num + 1) kind_delete))
                      db.memtable;
              },
            )))
  unfolding delete get_at Memtable.delete Memtable.insert
  delete_cases key db more room = elim (Bool-cases (ltb max_key_length (length key))) [
    | inl long ↦ inl (key_too_long, db, rw (delete, long) refl, λ j s. refl)
    | inr fits ↦
        let now = record db { seq_num = db.seq_num + 1 } in
        let answer = log_delete b f os db key in
        let change : MemTable b.Tree → MemTable b.Tree =
          Memtable.delete b (encode_new (make_internal_key key (db.seq_num + 1) kind_delete)) in
        let within : length key ≤ max_key_length = ground arith in
        let next = delete_next b f os db key more within in
        elim (Option-cases answer.0) [
          | inl clean ↦ inr (
            within,
            clean,
            next
                ∙ once_logged_fits b f os db answer change now clean
                    (omega (arith, room, within, key_size b f key (db.seq_num + 1) kind_delete)),
          )
          | inr (e, failed) ↦ inl (
            e,
            record now { wal = answer.1 },
            next ∙ once_logged_fails b f os answer change now e failed,
            λ j s. refl,
          )
        ]
  ]

  -- The store, with fuel for the entries of a scan.
  abbrev pub store_database : ℕ → (Error → Bytes) → Database
  store_database bound error_text = record {
    State = Db b f;
    get = get b f;
    put = put b f os;
    delete = delete b f os;
    scan = λ lower upper db. (do m ← scan b f lower (some upper) db; ok (collect bound bound m));
    error_text = error_text;
  }

  -- The memtable is in order and has room for the tombstones of n more deletes.
  pub record HasRoom (n : ℕ) (db : Db b f) : Type 0 where
    pub current : IsCurrent b f db
    pub numbers : db.seq_num + n ≤ seq_num_max
    pub room : db.memtable.size + n * (max_key_length + 8) < default_memtable_flush_size

  deletes :
      (n : ℕ) (key : Bytes) (db : Db b f)
      → HasRoom (suc n) db
      → (delete b f os key db).0 ≡ none
      → HasRoom n (delete b f os key db).1
        × ((j : Bytes)
            → get b f j (delete b f os key db).1
              ≡ (if bytes_equal key j then none else get b f j db))
  unfolding get Memtable.delete Memtable.insert
  deletes n key db good clean =
      elim (delete_cases key db (omega (arith, good.numbers)) (omega (arith, good.room))) [
        | inl (e, after, fails, same) ↦
            absurd (cc (clean, ap (λ (r : Option Error × Db b f). r.0) fails))
        | inr (fits, logged, result) ↦
            let w =
              delete-get_at b f os db key good.current (omega (arith, good.numbers)) fits logged
                (omega (arith, good.room, fits)) in
            let after = ap (λ (r : Option Error × Db b f). r.1) result in
            let now : leb (db.seq_num + 1) seq_num_max ≡ true = ground (arith, good.numbers) in
            (
              record {
                current = w.1;
                numbers = omega (arith, w.2, good.numbers);
                room = omega (
                  arith,
                  good.room,
                  fits,
                  ap (λ (d : Db b f). d.memtable.size) after,
                  key_size b f key (db.seq_num + 1) kind_delete,
                );
              },
              λ j.
                  w.3 j seq_num_max (omega arith)
                  ∙ ap (λ c. if c then none else get_at b f j seq_num_max db)
                      (ap (λ c. bytes_equal key j && c) now ∙ and_true (bytes_equal key j)),
            )
      ]
    where
      and_true : (c : Bool) → (c && true) ≡ c
      and_true true = refl
      and_true false = refl

  fails_alike :
      (n : ℕ) (key : Bytes) (db : Db b f) (e : Error)
      → HasRoom (suc n) db
      → (delete b f os key db).0 ≡ some e
      → (j : Bytes) → get b f j (delete b f os key db).1 ≡ get b f j db
  unfolding get
  fails_alike n key db e good failed j =
      elim (delete_cases key db (omega (arith, good.numbers)) (omega (arith, good.room))) [
        | inl (x, after, fails, same) ↦
            ap (λ (r : Option Error × Db b f). get_at b f j seq_num_max r.1) fails
            ∙ same j seq_num_max
        | inr (fits, logged, result) ↦
            absurd (cc (failed, ap (λ (r : Option Error × Db b f). r.0) result))
      ]

  -- What the server's DEL needs of its database, for the store.
  pub store-IsMap :
      (bound : ℕ) (error_text : Error → Bytes) → IsMap (store_database bound error_text) HasRoom
  store-IsMap bound error_text = record {
    get_deleted = λ n k j d good clean. (deletes n k d good clean).1 j;
    good_after = λ n k d good clean. (deletes n k d good clean).0;
    get_failed = λ n k d e good failed. inl (fails_alike n k d e good failed);
  }
