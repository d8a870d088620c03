-- ===== src/Base/Key/Codec.antt =====
-- Encoding and decoding of internal keys (internal/base/internal.go).
use hcdb.Prelude.{
  ℕ, ◌+◌, ◌-◌, ◌^◌, ◌<◌, ◌≡◌, refl, ap, arith, [], ◌∷◌, ◌++◌, length, replicate, length-append,
  length-replicate, take-append, drop-append, some, append-nil,
}
use Prim.Native.Nat.{min}
use Prim.Native.Nat.add
use native.Mathlib.Nat.{zero-add}
use hcdb.Binary.{Bytes}
use hcdb.Binary.Uint.{put_uint, uint, length-put_uint, uint-put_uint}
use hcdb.Base.Key.{
  InternalKey, decode_internal_key, encode, encode_new, size, copy, put_uint64_at, put_uint64,
}

-- The layout of an encoded key.
abbrev pub layout : InternalKey → Bytes
layout k = k.user_key ++ put_uint 8 k.trailer

copy-nil : (buf : Bytes) → copy buf [] ≡ buf
copy-nil [] = refl
copy-nil (x ∷ xs) = refl

abbrev zeros : ℕ → Bytes
zeros n = replicate n 0

fits : (u : Bytes) → min (length (zeros (length u + 8))) (length u) ≡ length u
fits u = rw length-replicate (omega arith)

copy_zeros : (xs : Bytes) (n : ℕ) → copy (replicate (length xs + n) 0) xs ≡ xs ++ replicate n 0
copy_zeros [] n = rw zero-add (copy-nil (replicate n 0))
copy_zeros (x ∷ xs) n = rw add.suc (ap (λ l. x ∷ l) (copy_zeros xs n))

put_uint64-zeros : (v : ℕ) → put_uint64 (zeros 8) v ≡ some (put_uint 8 v)
unfolding put_uint64
put_uint64-zeros v = ap some (append-nil (put_uint 8 v))

put_uint64_at-zeros :
    (u : Bytes) (v : ℕ) → put_uint64_at (u ++ zeros 8) (length u) v ≡ some (u ++ put_uint 8 v)
unfolding put_uint64_at
put_uint64_at-zeros u v =
    rw (put_uint64_at, drop-append u (zeros 8), put_uint64-zeros v, take-append u (zeros 8))

-- A buffer of the key's size is never too short, and holds the user key and the trailer after it.
pub encode-size : (k : InternalKey) → encode k (replicate (size k) 0) ≡ some (layout k)
unfolding encode size
encode-size k =
    cc (fits k.user_key, copy_zeros k.user_key 8, put_uint64_at-zeros k.user_key k.trailer)

pub encode_new-layout : (k : InternalKey) → encode_new k ≡ layout k
unfolding encode_new
encode_new-layout k = rw (encode-size k)

pub length-encode_new : (k : InternalKey) → length (encode_new k) ≡ size k
unfolding size
length-encode_new k =
    rw (encode_new-layout k)
      (omega (arith, length-append k.user_key (put_uint 8 k.trailer), length-put_uint 8 k.trailer))

decode-append :
    (u t : Bytes)
    → length t ≡ 8
    → decode_internal_key (u ++ t) ≡ record { user_key = u; trailer = uint t }
unfolding decode_internal_key
decode-append u t h =
    let cut : length (u ++ t) - 8 ≡ length u = omega (arith, length-append u t) in
    ground (arith, cut, length-append u t, take-append u t, drop-append u t)

-- Decoding gives back every key whose trailer is a uint64, whatever the user key holds.
pub decode-encode_new :
    (k : InternalKey) → k.trailer < 2 ^ 64 → decode_internal_key (encode_new k) ≡ k
decode-encode_new k h = rw (
  encode_new-layout k,
  decode-append k.user_key (put_uint 8 k.trailer) (length-put_uint 8 k.trailer),
  uint-put_uint 8 k.trailer h,
)
