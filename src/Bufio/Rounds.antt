-- ===== src/Bufio/Rounds.antt =====
-- The number of rounds of bufio.Writer.Write.
use hcdb.Prelude.{
  ℕ, zero, suc, ◌+◌, ◌-◌, ◌≤◌, ◌≡◌, refl, arith, [], ◌++◌, length, take, ltb, ◌==◌, ◌&&◌, none,
  true, false, length-append, Bool-cases, inl, inr,
}
use hcdb.Binary.{Bytes}
use hcdb.Bufio.{Writer, BufWriter, buffer_size, is_nil, write_round, write_loop, write}
use hcdb.Bufio.Follows.{drop_all, flush_buffer}

module _ (w : Writer) where
  open w use {State, write_to, content}

  round_buffer :
      (p : Bytes) (b : BufWriter State)
      → (write_round w p b).1.error ≡ none
      → (write_round w p b).1.buffer ≡ []
  unfolding write_round
  round_buffer p b e = elim (Bool-cases (length b.buffer == 0)) [
    | inl direct ↦ rw (write_round, direct) refl
    | inr filled ↦
        rw (write_round, filled)
          (flush_buffer w (record b { buffer = b.buffer ++ take (buffer_size - length b.buffer) p })
            (rw (write_round, filled) at e))
  ]

  round_direct :
      (p : Bytes) (b : BufWriter State)
      → b.buffer ≡ []
      → (write_round w p b).1.error ≡ none
      → (write_round w p b).0 ≡ []
  unfolding write_round
  round_direct p b empty_buffer e =
      let direct : (length b.buffer == 0) ≡ true = ground arith in
      rw (write_round, direct)
        (drop_all p (write_to p b.under).count
          (omega (arith, w.count_eq p b.under (rw (write_round, direct) at e))))

  -- What is left to write fits the buffer, if there was no error.
  abbrev IsSettled : Bytes × BufWriter State → Type 0
  IsSettled r = r.1.error ≡ none → length r.1.buffer + length r.0 ≤ buffer_size

  settles_last : (p : Bytes) (b : BufWriter State) → b.buffer ≡ [] → IsSettled (write_loop w 1 p b)
  unfolding write_loop
  settles_last p b none_left =
      elim (Bool-cases (ltb (buffer_size - length b.buffer) (length p) && is_nil b.error)) [
        | inr stops ↦ rw (write_loop, stops) (λ e. ground arith)
        | inl goes ↦
            rw (write_loop, goes)
              (λ e. rw (round_buffer p b e, round_direct p b none_left e) (omega arith))
      ]

  settles_failed :
      (fuel : ℕ) (p : Bytes) (b : BufWriter State)
      → is_nil b.error ≡ false
      → IsSettled (write_loop w fuel p b)
  unfolding write_loop
  settles_failed zero p b failed = λ e. absurd (ground arith)
  settles_failed (suc fuel) p b failed = λ e. absurd (ground arith)

  settles_at_once :
      (p : Bytes) (b : BufWriter State)
      → length b.buffer ≤ buffer_size
      → (ltb (buffer_size - length b.buffer) (length p) && is_nil b.error) ≡ false
      → IsSettled (write_loop w 2 p b)
  unfolding write_loop
  settles_at_once p b fits stops = rw (write_loop, stops) (λ e. ground arith)

  loop_goes :
      (fuel : ℕ) (p : Bytes) (b : BufWriter State)
      → (ltb (buffer_size - length b.buffer) (length p) && is_nil b.error) ≡ true
      → write_loop w (suc fuel) p b ≡ write_loop w fuel (write_round w p b).0 (write_round w p b).1
  unfolding write_loop
  loop_goes fuel p b goes = rw (write_loop, goes)

  settles :
      (p : Bytes) (b : BufWriter State)
      → length b.buffer ≤ buffer_size
      → IsSettled (write_loop w 2 p b)
  settles p b fits =
      elim (Bool-cases (ltb (buffer_size - length b.buffer) (length p) && is_nil b.error)) [
        | inr stops ↦ settles_at_once p b fits stops
        | inl goes ↦
            rw (loop_goes 1 p b goes) (elim (Bool-cases (is_nil (write_round w p b).1.error)) [
              | inl fine ↦
                  settles_last (write_round w p b).0 (write_round w p b).1
                    (round_buffer p b (ground arith))
              | inr failed ↦ settles_failed 1 (write_round w p b).0 (write_round w p b).1 failed
            ])
      ]

  -- Two rounds are enough: after a Write without an error the buffer holds no more than it can.
  pub write_ends :
      (p : Bytes) (b : BufWriter State)
      → length b.buffer ≤ buffer_size
      → (write w p b).error ≡ none
      → length (write w p b).buffer ≤ buffer_size
  unfolding write
  write_ends p b fits e =
      let p' = (write_loop w 2 p b).0 in
      let b' = (write_loop w 2 p b).1 in
      elim (Bool-cases (is_nil b'.error)) [
        | inl fine ↦
            rw (write, fine)
              (omega (arith, length-append b'.buffer p', settles p b fits (ground arith)))
        | inr failed ↦ absurd (ground arith)
      ]
