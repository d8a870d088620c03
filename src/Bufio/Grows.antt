-- ===== src/Bufio/Grows.antt =====
-- bufio.Writer and what has reached the writer below it.
use hcdb.Prelude.{
  ℕ, zero, suc, ◌-◌, ◌≡◌, ◌++◌, length, take, ltb, ◌==◌, ◌&&◌, Bool-cases, inl, inr, append_assoc,
}
use hcdb.Binary.{Bytes}
use hcdb.Bufio.{
  Writer, BufWriter, buffer_size, is_nil, flushed, flush, write_round, write_loop, write,
}

module _ (w : Writer) where
  open w use {State, write_to, content}

  -- The writer below holds c and what came after it.
  pub record Grows (c : Bytes) (s : State) : Type 0 where
    pub added : Bytes
    pub grown : content s ≡ c ++ added

  call-Grows : (c p : Bytes) (s : State) → Grows c s → Grows c (write_to p s).after
  call-Grows c p s g = record {
    added = g.added ++ take (write_to p s).count p;
    grown = cc (w.content_after p s, g.grown, append_assoc c g.added (take (write_to p s).count p));
  }

  pub flush-Grows : (c : Bytes) (b : BufWriter State) → Grows c b.under → Grows c (flush w b).under
  unfolding flush flushed
  flush-Grows c b g = elim (Bool-cases (is_nil b.error && ltb 0 (length b.buffer))) [
    | inl goes ↦ rw (flush, goes) (call-Grows c b.buffer b.under g)
    | inr stays ↦ rw (flush, stays) g
  ]

  round-Grows :
      (c p : Bytes) (b : BufWriter State) → Grows c b.under → Grows c (write_round w p b).1.under
  unfolding write_round
  round-Grows c p b g = elim (Bool-cases (length b.buffer == 0)) [
    | inl direct ↦ rw (write_round, direct) (call-Grows c p b.under g)
    | inr filled ↦
        rw (write_round, filled)
          (flush-Grows c (record b { buffer = b.buffer ++ take (buffer_size - length b.buffer) p })
            g)
  ]

  loop-Grows :
      (fuel : ℕ) (c p : Bytes) (b : BufWriter State)
      → Grows c b.under
      → Grows c (write_loop w fuel p b).1.under
  unfolding write_loop
  loop-Grows zero c p b g = g
  loop-Grows (suc fuel) c p b g =
      elim (Bool-cases (ltb (buffer_size - length b.buffer) (length p) && is_nil b.error)) [
        | inr stops ↦ rw (write_loop, stops) g
        | inl goes ↦
            rw (write_loop, goes)
              (loop-Grows fuel c (write_round w p b).0 (write_round w p b).1 (round-Grows c p b g))
      ]

  pub write-Grows :
      (c p : Bytes) (b : BufWriter State) → Grows c b.under → Grows c (write w p b).under
  unfolding write
  write-Grows c p b g = elim (Bool-cases (is_nil (write_loop w 2 p b).1.error)) [
    | inl fine ↦ rw (write, fine) (loop-Grows 2 c p b g)
    | inr failed ↦ rw (write, failed) (loop-Grows 2 c p b g)
  ]
