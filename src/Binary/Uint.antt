-- ===== src/Binary/Uint.antt =====
-- encoding/binary: fixed-size unsigned integers in little-endian order.
use hcdb.Prelude.{
  ℕ, zero, suc, ◌+◌, ◌*◌, ◌/◌, ◌%◌, ◌^◌, ◌<◌, ◌≡◌, refl, ap, arith, [], ◌∷◌, length, All,
}
use native.Mathlib.Nat.{pow-suc}
use hcdb.Binary.{Bytes, IsByte}

-- PutUint32, PutUint64 and binary.Write of an integer of `k` bytes.
unfoldable pub put_uint : ℕ → ℕ → Bytes
put_uint zero v = []
put_uint (suc k) v = (v % 256) ∷ put_uint k (v / 256)

-- Uint32, Uint64: the integer that the bytes stand for.
unfoldable pub uint : Bytes → ℕ
uint [] = 0
uint (b ∷ bs) = b + 256 * uint bs

pub length-put_uint : (k v : ℕ) → length (put_uint k v) ≡ k
unfolding put_uint
length-put_uint zero v = refl
length-put_uint (suc k) v = ap suc (length-put_uint k (v / 256))

pub put_uint-IsByte : (k v : ℕ) → All IsByte (put_uint k v)
unfolding put_uint
put_uint-IsByte zero v = tt
put_uint-IsByte (suc k) v = (omega arith, put_uint-IsByte k (v / 256))

pub uint-put_uint : (k v : ℕ) → v < 256 ^ k → uint (put_uint k v) ≡ v
unfolding put_uint uint
uint-put_uint zero v h = omega arith
uint-put_uint (suc k) v h = omega (arith, uint-put_uint k (v / 256) (omega (arith, pow-suc 256 k)))

pub uint-lt : (bs : Bytes) → All IsByte bs → uint bs < 256 ^ length bs
unfolding uint
uint-lt [] h = omega arith
uint-lt (b ∷ bs) h = omega (arith, uint-lt bs h.1, pow-suc 256 (length bs))

pub put_uint-uint : (bs : Bytes) → All IsByte bs → put_uint (length bs) (uint bs) ≡ bs
unfolding uint put_uint
put_uint-uint [] h = refl
put_uint-uint (b ∷ bs) h = ground (arith, put_uint-uint bs h.1)
