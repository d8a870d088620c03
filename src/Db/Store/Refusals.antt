-- ===== src/Db/Store/Refusals.antt =====
-- Put when it returns an error (db/operations.go).
use hcdb.Prelude.{
  ◌+◌, ◌≤◌, ◌<◌, ◌≡◌, ◌⊎◌, ◌↔◌, inl, inr, refl, sym, subst, ◌∙◌, arith, length, ltb, Bool-cases,
  Option, Option-cases, none, some, Error, key_too_long, value_too_long,
}
use hcdb.Config.{max_key_length, max_value_length, default_memtable_flush_size}
use hcdb.Binary.{Bytes}
use hcdb.Base.Key.{SeqNum, seq_num_max, encode_new, make_internal_key, kind_set}
use hcdb.Wal.Log.{LogFile}
use hcdb.Memtable
use hcdb.Memtable.{BTree, MemTable}
use hcdb.Db.Store.Puts.{Db, log_put, key_size, put_next, once_logged_fails, once_logged_fits}
use hcdb.Db.Store.{Os, get_at, put}

module _ (b : BTree) (f : LogFile) where
  abbrev IsWithin : Bytes → Bytes → Type 0
  IsWithin key value = (length key ≤ max_key_length) × (length value ≤ max_value_length)

  -- A limit was passed, and nothing is changed.
  record Limited (db after : Db b f) (key value : Bytes) (e : Error) : Type 0 where
    which :
        ((max_key_length < length key) × (e ≡ key_too_long))
        ⊎ ((length key ≤ max_key_length) × (max_value_length < length value) × (e ≡ value_too_long))
    unchanged : after ≡ db

  -- The log failed. The number is used up and the log is as it failed; all else is as before.
  record Unlogged (os : Os f) (db after : Db b f) (key value : Bytes) (e : Error) : Type 0 where
    within : IsWithin key value
    failed : (log_put b f os db key value).0 ≡ some e
    rest : after ≡ record db { seq_num = db.seq_num + 1; wal = (log_put b f os db key value).1 }

  -- What a result of Put says.
  pub record Explains (os : Os f) (db : Db b f) (key value : Bytes) (r : Option Error × Db b f)
      : Type 0 where
    accepts : (r.0 ≡ none) ↔ (IsWithin key value × ((log_put b f os db key value).0 ≡ none))
    refuses :
        (e : Error)
        → r.0 ≡ some e
        → (Limited db r.1 key value e ⊎ Unlogged os db r.1 key value e)
          × ((k : Bytes) (s : SeqNum) → get_at b f k s r.1 ≡ get_at b f k s db)

  limited :
      (os : Os f) (db : Db b f) (key value : Bytes) (e : Error)
      → (IsWithin key value → ⊥)
      → Limited db db key value e
      → Explains os db key value (some e, db)
  limited os db key value e over why = record {
    accepts = (λ n. absurd (cc), λ h. absurd (over h.0));
    refuses = λ x same.
        let e' : e ≡ x = cc in
        (
          subst (λ y. Limited db db key value y ⊎ Unlogged os db db key value y) e' (inl why),
          λ k s. refl,
        );
  }

  -- A Put into a memtable that stays below the size at which it is flushed, on every branch. It returns no error exactly if the key and the value are within their limits and the log takes the write. If it returns an error, every read at every snapshot is as before; and either a limit was passed, the error names it and the store is exactly as before, or the log failed with that error and the store differs from before in the used up sequence number and in the log, and in nothing else.
  pub put_refuses :
      (os : Os f) (db : Db b f) (key value : Bytes)
      → db.seq_num < seq_num_max
      → db.memtable.size + (length key + 8 + length value) < default_memtable_flush_size
      → Explains os db key value (put b f os key value db)
  unfolding put get_at Memtable.put Memtable.insert
  put_refuses os db key value more room = elim (Bool-cases (ltb max_key_length (length key))) [
    | inl long ↦
        rw (put, long)
          (limited os db key value key_too_long (λ h. absurd (ground (arith, long, h.0)))
            (record { which = inl (ground arith, refl); unchanged = refl }))
    | inr key_fits ↦ elim (Bool-cases (ltb max_value_length (length value))) [
      | inl long ↦
          rw (put, key_fits, long)
            (limited os db key value value_too_long (λ h. absurd (ground (arith, long, h.1)))
              (record { which = inr (ground arith, ground arith, refl); unchanged = refl }))
      | inr value_fits ↦
          let now = record db { seq_num = db.seq_num + 1 } in
          let answer = log_put b f os db key value in
          let change : MemTable b.Tree → MemTable b.Tree =
            Memtable.put b (encode_new (make_internal_key key (db.seq_num + 1) kind_set)) value in
          let within : IsWithin key value = (ground arith, ground arith) in
          let next = put_next b f os db key value more within.0 within.1 in
          elim (Option-cases answer.0) [
            | inl clean ↦
                subst (Explains os db key value)
                  (sym (
                    next
                    ∙ once_logged_fits b f os db answer change now clean
                        (omega (arith, room, key_size b f key (db.seq_num + 1) kind_set))))
                  (record {
                    accepts = (λ n. (within, clean), λ h. refl);
                    refuses = λ e bad. absurd (cc);
                  })
            | inr (e, failed) ↦
                subst (Explains os db key value)
                  (sym (next ∙ once_logged_fails b f os answer change now e failed))
                  (record {
                    accepts = (λ n. absurd (cc), λ h. absurd (cc (h.1, failed)));
                    refuses = λ x same. (
                      inr (record { within = within; failed = failed ∙ same; rest = refl }),
                      λ k s. refl,
                    );
                  })
          ]
    ]
  ]
