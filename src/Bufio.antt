-- ===== src/Bufio.antt =====
-- The standard library's bufio.Writer over an io.Writer, which the log and the tables write
-- through. The writer below it is an interface with io.Writer's contract.
pub mod Follows
pub mod Rounds
pub mod Grows
use hcdb.Prelude.{
  ℕ, zero, suc, ◌+◌, ◌-◌, ◌≤◌, ◌≡◌, List, [], ◌∷◌, ◌++◌, length, take, drop, ltb, ◌==◌, ◌&&◌, Bool,
  if◌then◌else◌, Option, none, some, Error, short_write, true, false,
}
use hcdb.Binary.{Bytes}

-- What a call of Write returns, and the writer after it.
pub record Wrote {ℓ} (S : Type ℓ) : Type ℓ where
  pub count : ℕ
  pub error : Option Error
  pub after : S

-- io.Writer. The content is what has reached its end, for the specifications.
pub record Writer : Type 1 where
  pub State : Type 0
  pub write_to : Bytes → State → Wrote State
  pub content : State → Bytes
  pub count_le : (p : Bytes) (s : State) → (write_to p s).count ≤ length p
  pub count_eq :
      (p : Bytes) (s : State) → (write_to p s).error ≡ none → (write_to p s).count ≡ length p
  pub content_after :
      (p : Bytes) (s : State)
      → content (write_to p s).after ≡ content s ++ take (write_to p s).count p

abbrev pub buffer_size : ℕ
buffer_size = 4096

pub record BufWriter (S : Type 0) : Type 0 where
  pub buffer : Bytes
  pub error : Option Error
  pub under : S

abbrev pub is_nil : Option Error → Bool
is_nil none = true
is_nil (some e) = false

-- if n < b.n && err == nil { err = io.ErrShortWrite }
unfoldable pub flush_error : {S : Type 0} → ℕ → Wrote S → Option Error
flush_error buffered r =
    if ltb r.count buffered && is_nil r.error then some short_write else r.error

-- What Flush does after its call of Write: what was not written moves to the buffer's front.
unfoldable pub flushed : {S : Type 0} → Bytes → Wrote S → BufWriter S
unfolding flush_error
flushed buffer r = record {
  buffer = drop r.count buffer;
  error = flush_error (length buffer) r;
  under = r.after;
}

module _ (w : Writer) where
  open w use {State, write_to}

  unfoldable pub flush : BufWriter State → BufWriter State
  unfolding flushed
  flush b =
      if is_nil b.error && ltb 0 (length b.buffer)
      then flushed b.buffer (write_to b.buffer b.under)
      else b

  -- One round of the loop of Write: on an empty buffer a write past it, else the buffer is filled
  -- and flushed. The rest of p comes back.
  unfoldable pub write_round : Bytes → BufWriter State → Bytes × BufWriter State
  unfolding flush
  write_round p b =
      if length b.buffer == 0
      then (let r = write_to p b.under in
          (drop r.count p, record { buffer = []; error = r.error; under = r.after }))
      else (let room = buffer_size - length b.buffer in
          (drop room p, flush (record b { buffer = b.buffer ++ take room p })))

  -- for len(p) > b.Available() && b.err == nil
  unfoldable pub write_loop : ℕ → Bytes → BufWriter State → Bytes × BufWriter State
  unfolding write_round
  write_loop zero p b = (p, b)
  write_loop (suc fuel) p b =
      elim (ltb (buffer_size - length b.buffer) (length p) && is_nil b.error) [
        | true ↦ (let (p', b') = write_round p b in write_loop fuel p' b')
        | false ↦ (p, b)
      ]

  -- Write. Its second result is the error field afterwards. Two rounds are enough: `write_ends` of
  -- Bufio/Rounds.
  unfoldable pub write : Bytes → BufWriter State → BufWriter State
  unfolding write_loop
  write p b =
      let (p', b') = write_loop 2 p b in
      if is_nil b'.error then record b' { buffer = b'.buffer ++ p' } else b'
