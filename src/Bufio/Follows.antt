-- ===== src/Bufio/Follows.antt =====
-- bufio.Writer and what is handed over to it, with the errors of the writer below it.
use hcdb.Prelude.{
  false, ℕ, zero, suc, ◌-◌, ◌≤◌, ◌≡◌, refl, sym, ap, arith, [], ◌∷◌, ◌++◌, length, take, drop, ltb,
  ◌==◌, ◌&&◌, none, true, append-nil, append_assoc, take-append-drop, Bool-cases, inl, inr,
}
use hcdb.Binary.{Bytes}
use hcdb.Bufio.{
  Writer, BufWriter, buffer_size, is_nil, flush_error, flushed, flush, write_round, write_loop,
  write,
}

pub drop_all : (p : Bytes) (n : ℕ) → length p ≤ n → drop n p ≡ []
drop_all [] zero h = refl
drop_all [] (suc n) h = refl
drop_all (x ∷ p) zero h = absurd (omega arith)
drop_all (x ∷ p) (suc n) h = drop_all p n (omega arith)

empty : (p : Bytes) → length p ≡ 0 → p ≡ []
empty [] h = refl
empty (x ∷ p) h = absurd (omega arith)

module _ (w : Writer) where
  open w use {State, write_to, content}

  -- The bytes t were handed over. What has reached the writer below is a prefix of them, and while
  -- there was no error the rest of them is what the buffer holds.
  pub record Follows (t : Bytes) (b : BufWriter State) : Type 0 where
    pub rest : Bytes
    pub whole : t ≡ content b.under ++ rest
    pub exact : b.error ≡ none → rest ≡ b.buffer

  -- One call of Write below hands over what it counts.
  handed :
      (p : Bytes) (s : State)
      → content s ++ p ≡ content (write_to p s).after ++ drop (write_to p s).count p
  handed p s = rw w.content_after (
      rw (append_assoc (content s))
        (ap (λ (l : Bytes). content s ++ l) (sym (take-append-drop (write_to p s).count p))))

  flushed-Follows :
      (t : Bytes) (b : BufWriter State)
      → b.error ≡ none
      → Follows t b
      → Follows t (flushed b.buffer (write_to b.buffer b.under))
  unfolding flushed
  flushed-Follows t b fine f = record {
    rest = drop (write_to b.buffer b.under).count b.buffer;
    whole = cc (f.whole, f.exact fine, handed b.buffer b.under);
    exact = λ e. refl;
  }

  pub flush-Follows : (t : Bytes) (b : BufWriter State) → Follows t b → Follows t (flush w b)
  unfolding flush
  flush-Follows t b f = elim (Bool-cases (is_nil b.error && ltb 0 (length b.buffer))) [
    | inl goes ↦ rw (flush, goes) (flushed-Follows t b (ground arith) f)
    | inr stays ↦ rw (flush, stays) f
  ]

  pub flush_buffer : (b : BufWriter State) → (flush w b).error ≡ none → (flush w b).buffer ≡ []
  unfolding flush flushed flush_error
  flush_buffer b e = elim (Bool-cases (is_nil b.error && ltb 0 (length b.buffer))) [
    | inl goes ↦
        rw (flush, goes)
          (drop_all b.buffer (write_to b.buffer b.under).count
            (ground (arith, w.count_le b.buffer b.under)))
    | inr stays ↦ rw (flush, stays) (empty b.buffer (ground arith))
  ]

  -- A Flush without an error leaves the buffer empty, so everything has reached the writer below.
  pub flush_content :
      (t : Bytes) (b : BufWriter State)
      → Follows t b
      → (flush w b).error ≡ none
      → content (flush w b).under ≡ t
  flush_content t b f e =
      let g = flush-Follows t b f in
      cc (g.whole, g.exact e, flush_buffer b e, append-nil (content (flush w b).under))

  -- With an empty buffer and no error all has reached the writer below.
  drained :
      {t : Bytes} {b : BufWriter State}
      → b.error ≡ none
      → Follows t b
      → (length b.buffer == 0) ≡ true
      → t ≡ content b.under
  drained {b = b} e f direct =
      cc (f.whole, f.exact e, empty b.buffer (ground arith), append-nil (content b.under))

  round-Follows :
      (t p : Bytes) (b : BufWriter State)
      → b.error ≡ none
      → Follows t b
      → (q : Bytes) × (p ≡ q ++ (write_round w p b).0) × Follows (t ++ q) (write_round w p b).1
  unfolding write_round
  round-Follows t p b e f = elim (Bool-cases (length b.buffer == 0)) [
    | inl direct ↦
        rw (write_round, direct)
          (
            take (write_to p b.under).count p,
            sym (take-append-drop (write_to p b.under).count p),
            record {
              rest = [];
              whole = cc (
                drained e f direct,
                w.content_after p b.under,
                append-nil (content (write_to p b.under).after),
              );
              exact = λ x. refl;
            },
          )
    | inr filled ↦
        rw (write_round, filled)
          (
            take (buffer_size - length b.buffer) p,
            sym (take-append-drop (buffer_size - length b.buffer) p),
            flush-Follows (t ++ take (buffer_size - length b.buffer) p)
                (record b { buffer = b.buffer ++ take (buffer_size - length b.buffer) p })
                (record {
                  rest = b.buffer ++ take (buffer_size - length b.buffer) p;
                  whole = cc (
                    f.whole,
                    f.exact e,
                    append_assoc (content b.under) b.buffer
                        (take (buffer_size - length b.buffer) p),
                  );
                  exact = λ x. refl;
                }),
          )
  ]

  loop-Follows :
      (fuel : ℕ) (t p : Bytes) (b : BufWriter State)
      → Follows t b
      → (q : Bytes) × (p ≡ q ++ (write_loop w fuel p b).0)
        × Follows (t ++ q) (write_loop w fuel p b).1
  unfolding write_loop
  loop-Follows zero t p b f = ([], refl, rw append-nil f)
  loop-Follows (suc fuel) t p b f =
      elim (Bool-cases (ltb (buffer_size - length b.buffer) (length p) && is_nil b.error)) [
        | inr stops ↦ rw (write_loop, stops) ([], refl, rw append-nil f)
        | inl goes ↦
            let (q, split, g) = round-Follows t p b (ground arith) f in
            let (q', split', g') =
              loop-Follows fuel (t ++ q) (write_round w p b).0 (write_round w p b).1 g in
            rw (write_loop, goes)
              (
                q ++ q',
                cc (
                  split,
                  split',
                  append_assoc q q'
                      (write_loop w fuel (write_round w p b).0 (write_round w p b).1).0,
                ),
                rw (← append_assoc t q q') g',
              )
      ]

  -- Once there is an error, what is handed over is lost.
  pub Follows-failed :
      (t p : Bytes) (b : BufWriter State)
      → is_nil b.error ≡ false
      → Follows t b
      → Follows (t ++ p) b
  Follows-failed t p b failed h = record {
    rest = h.rest ++ p;
    whole = cc (h.whole, append_assoc (content b.under) h.rest p);
    exact = λ e. absurd (ground arith);
  }

  -- Whether it fails or not, Write keeps what was handed over in order, with p behind it.
  pub write-Follows :
      (t p : Bytes) (b : BufWriter State) → Follows t b → Follows (t ++ p) (write w p b)
  unfolding write
  write-Follows t p b f =
      let (q, split, g) = loop-Follows 2 t p b f in
      let b' = (write_loop w 2 p b).1 in
      let p' = (write_loop w 2 p b).0 in
      elim (Bool-cases (is_nil b'.error)) [
        | inl fine ↦
            rw (write, fine)
              (record {
                rest = g.rest ++ p';
                whole = cc (
                  split,
                  g.whole,
                  append_assoc t q p',
                  append_assoc (content b'.under) g.rest p',
                );
                exact = λ e. ap (λ (l : Bytes). l ++ p') (g.exact (ground arith));
              })
        | inr failed ↦
            rw (write, failed)
              (record {
                rest = g.rest ++ p';
                whole = cc (
                  split,
                  g.whole,
                  append_assoc t q p',
                  append_assoc (content b'.under) g.rest p',
                );
                exact = λ e. absurd (ground arith);
              })
      ]
