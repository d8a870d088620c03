-- ===== src/Binary/Reader.antt =====
-- Readers: what is left of the input. io.ReadFull, and binary.Read of an unsigned integer.
use hcdb.Prelude.{
  refl, [], ◌∷◌, ℕ, ◌^◌, ◌<◌, ◌≡◌, arith, ◌++◌, length, take, drop, take-append-drop, take-append,
  drop-append, length-append, length-take, leb, ◌==◌, if◌then◌else◌, Result, Result-cases, inl, inr,
  ok, err, eof, unexpected_eof, ◌>>=◌,
}
use hcdb.Binary.{Bytes}
use hcdb.Binary.Uint.{put_uint, uint, length-put_uint, uint-put_uint}

-- io.ReadFull(r, make([]byte, n)): the n bytes and what is left. It fails with io.EOF if there was
-- no byte, and with io.ErrUnexpectedEOF if there were some but fewer than n.
unfoldable pub read_full : ℕ → Bytes → Result (Bytes × Bytes)
read_full n r =
    if leb n (length r)
    then ok (take n r, drop n r)
    else if length r == 0
    then err eof
    else err unexpected_eof

-- binary.Read(r, binary.LittleEndian, &v) for an unsigned v of k bytes.
unfoldable pub read_uint : ℕ → Bytes → Result (ℕ × Bytes)
unfolding read_full
read_uint k r = do (bs, rest) ← read_full k r; ok (uint bs, rest)

pub read_full-append :
    (n : ℕ) (xs ys : Bytes) → length xs ≡ n → read_full n (xs ++ ys) ≡ ok (xs, ys)
unfolding read_full
read_full-append n xs ys e =
    rw (← e) (ground (arith, length-append xs ys, take-append xs ys, drop-append xs ys))

pub read_uint-put_uint :
    (k v : ℕ) (rest : Bytes) → v < 256 ^ k → read_uint k (put_uint k v ++ rest) ≡ ok (v, rest)
unfolding read_uint
read_uint-put_uint k v rest h =
    rw (read_full-append k (put_uint k v) rest (length-put_uint k v), uint-put_uint k v h)

-- A read that succeeds takes n bytes.
pub read_full_takes :
    (n : ℕ) (r : Bytes) {bs rest : Bytes}
    → read_full n r ≡ ok (bs, rest)
    → (r ≡ bs ++ rest) × (length bs ≡ n)
unfolding read_full
read_full_takes n r h = ground (arith, take-append-drop n r, length-take n r)

pub read_full_short :
    (n : ℕ) (r : Bytes)
    → length r < n
    → read_full n r ≡ (if length r == 0 then err eof else err unexpected_eof)
unfolding read_full
read_full_short n r h = ground arith

pub read_uint_takes :
    (k : ℕ) (r : Bytes) {v : ℕ} {rest : Bytes}
    → read_uint k r ≡ ok (v, rest)
    → (bs : Bytes) × (r ≡ bs ++ rest) × (length bs ≡ k) × (uint bs ≡ v)
unfolding read_uint
read_uint_takes k r {v} {rest} h = elim (Result-cases (read_full k r)) [
  | inr (x, p) ↦ absurd (ground arith)
  | inl ((bs, r'), p) ↦
      let (whole, size) = read_full_takes k r p in (bs, ground arith, size, ground arith)
]

pub read_uint-append :
    (k : ℕ) (bs rest : Bytes) → length bs ≡ k → read_uint k (bs ++ rest) ≡ ok (uint bs, rest)
unfolding read_uint
read_uint-append k bs rest e = rw (read_full-append k bs rest e)

pub read_uint_eof : (k : ℕ) (r : Bytes) → read_uint k r ≡ err eof → r ≡ []
unfolding read_uint read_full
read_uint_eof k [] h = refl
read_uint_eof k (x ∷ r) h = ground arith
