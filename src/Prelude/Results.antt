-- ===== src/Prelude/Results.antt =====
-- Go's `(value, error)` pairs: a value or an error. The errors are those that the modelled code and
-- the standard library below it return; each package names its own messages.
use mathlib.Core.Path.{◌≡◌, refl}
use mathlib.Core.Logic.{◌⊎◌, inl, inr}
use mathlib.Core.Bool.{Bool, true, false}

pub data Error : Type 0 where
  -- io.EOF, io.ErrUnexpectedEOF, io.ErrClosedPipe, io.ErrShortWrite
  eof unexpected_eof closed_pipe short_write : Error
  -- an error of the operating system
  os_error : Error
  -- Seek to a negative offset
  negative_offset : Error
  -- the run-time panics, of an index and of make: see is_panic
  index_out_of_range len_out_of_range : Error
  -- sstable/block.go
  block_too_small block_crc_mismatch : Error
  -- db/operations.go: ErrKeyTooLong, ErrValueTooLong
  key_too_long value_too_long : Error
  -- resp/reader.go
  empty_line bad_number unknown_type : Error
  -- no error of the program: the fuel of a loop of the model ran out
  out_of_fuel : Error

-- A run-time panic is no error that a function returns: nothing in the program recovers from one, so
-- the whole process stops.
abbrev pub is_panic : Error → Bool
is_panic index_out_of_range = true
is_panic len_out_of_range = true
is_panic _ = false

pub data Result {ℓ} (A : Type ℓ) : Type ℓ where
  ok : A → Result A
  err : Error → Result A

infixl 5 ◌>>=◌
-- if err != nil { return err }
abbrev pub ◌>>=◌ {ℓ κ} : {A : Type ℓ} {B : Type κ} → Result A → (A → Result B) → Result B
err failed >>= next = err failed
ok value >>= next = next value

pub Result-cases {ℓ} :
    {A : Type ℓ} (r : Result A) → ((a : A) × (r ≡ ok a)) ⊎ ((e : Error) × (r ≡ err e))
Result-cases (ok a) = inl (a, refl)
Result-cases (err e) = inr (e, refl)
