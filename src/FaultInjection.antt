-- ===== src/FaultInjection.antt =====
-- faultinjection/faulty_writer.go: a writer that fails once a number of bytes has been written.
-- FailAfter is taken to be at least 0; a negative one fails at once, as 0 does.
use hcdb.Prelude.{
  ℕ, ◌+◌, ◌-◌, ◌≤◌, ◌≡◌, ◌≢◌, ◌<◌, sym, ap, ◌∙◌, arith, ◌++◌, length, take, leb, if◌then◌else◌,
  Option, none, some, Error, closed_pipe, append-nil, take-take, length-take, Bool-cases, inl, inr,
}
use hcdb.Binary.{Bytes}
use hcdb.Bufio.{Wrote, Writer, is_nil}

pub record FaultyWriter (S : Type 0) : Type 0 where
  pub under : S
  pub written : ℕ
  pub fail_after : ℕ

unfoldable pub new_faulty_writer : {S : Type 0} → S → ℕ → FaultyWriter S
new_faulty_writer s fail_after = record { under = s; written = 0; fail_after = fail_after }

-- fw.written += n, with the error that Write returns.
abbrev counted : {S : Type 0} → FaultyWriter S → Wrote S → Option Error → Wrote (FaultyWriter S)
counted fw r e = record {
  count = r.count;
  error = e;
  after = record fw { under = r.after; written = fw.written + r.count };
}

pub faulty_write :
    {S : Type 0} → (Bytes → S → Wrote S) → Bytes → FaultyWriter S → Wrote (FaultyWriter S)
faulty_write write_under p fw =
    if leb fw.fail_after fw.written
    then record { count = 0; error = some closed_pipe; after = fw }
    else (let allowed = fw.fail_after - fw.written in
        if leb (length p) allowed
        then (let r = write_under p fw.under in counted fw r r.error)
        else (let r = write_under (take allowed p) fw.under in
            counted fw r (if is_nil r.error then some closed_pipe else r.error)))

module _ (w : Writer) where
  open w use {State, write_to, content}

  abbrev pub faulty_content : FaultyWriter State → Bytes
  faulty_content fw = content fw.under

  pub faulty_count_le :
      (p : Bytes) (fw : FaultyWriter State) → (faulty_write write_to p fw).count ≤ length p
  unfolding faulty_write
  faulty_count_le p fw = ground (
    arith,
    w.count_le p fw.under,
    w.count_le (take (fw.fail_after - fw.written) p) fw.under,
    length-take (fw.fail_after - fw.written) p,
  )

  pub faulty_count_eq :
      (p : Bytes) (fw : FaultyWriter State)
      → (faulty_write write_to p fw).error ≡ none
      → (faulty_write write_to p fw).count ≡ length p
  unfolding faulty_write
  faulty_count_eq p fw e = ground (arith, w.count_eq p fw.under)

  cut_count :
      (p : Bytes) (fw : FaultyWriter State)
      → let short = take (fw.fail_after - fw.written) p in
        take (write_to short fw.under).count short ≡ take (write_to short fw.under).count p
  cut_count p fw =
      let allowed = fw.fail_after - fw.written in
      take-take (write_to (take allowed p) fw.under).count allowed p
        (omega (arith, w.count_le (take allowed p) fw.under, length-take allowed p))

  pub faulty_content_after :
      (p : Bytes) (fw : FaultyWriter State)
      → faulty_content (faulty_write write_to p fw).after
        ≡ faulty_content fw ++ take (faulty_write write_to p fw).count p
  unfolding faulty_write
  faulty_content_after p fw = elim (Bool-cases (leb fw.fail_after fw.written)) [
    | inl broken ↦ rw (faulty_write, broken) (sym (append-nil (content fw.under)))
    | inr works ↦ elim (Bool-cases (leb (length p) (fw.fail_after - fw.written))) [
      | inl whole ↦ rw (faulty_write, works, whole) (w.content_after p fw.under)
      | inr part ↦
          rw (faulty_write, works, part)
            (w.content_after (take (fw.fail_after - fw.written) p) fw.under
              ∙ ap (λ (l : Bytes). content fw.under ++ l) (cut_count p fw))
    ]
  ]

-- A faulty writer keeps io.Writer's contract.
abbrev pub faulty : Writer → Writer
faulty w = record {
  State = FaultyWriter w.State;
  write_to = faulty_write w.write_to;
  content = faulty_content w;
  count_le = faulty_count_le w;
  count_eq = faulty_count_eq w;
  content_after = faulty_content_after w;
}

-- A faulty writer never passes on more than FailAfter bytes, it counts what it passes on, and a call that would go past FailAfter returns an error.
pub faulty_write_bounds :
    (w : Writer) (p : Bytes) (fw : FaultyWriter w.State)
    → fw.written ≤ fw.fail_after
    → let r = faulty_write w.write_to p fw in
      (r.after.written ≤ fw.fail_after)
      × (r.after.written ≡ fw.written + r.count)
      × (fw.fail_after < fw.written + length p → r.error ≢ none)
unfolding faulty_write
faulty_write_bounds w p fw h = ground (
  arith,
  w.count_le p fw.under,
  w.count_le (take (fw.fail_after - fw.written) p) fw.under,
  length-take (fw.fail_after - fw.written) p,
)
