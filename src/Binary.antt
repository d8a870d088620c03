-- ===== src/Binary.antt =====
-- What the program uses of Go's standard library on byte slices: encoding/binary in little-endian
-- order, io.ReadFull over a reader, bytes.Equal, bytes.Compare and hash/crc32. A byte slice, a
-- string and what is left of a reader are lists of numbers below 256.
pub mod Uint
pub mod Compare
pub mod Reader
pub mod Crc
pub mod Fnv
use Prim.Native.Char.{code}
use Prim.Native.String.{String}
use hcdb.Prelude.{ℕ, ◌<◌, List, [], ◌∷◌, Bool, true, false, ◌&&◌, ◌==◌, ◌≡◌, refl, arith}

abbrev pub Bytes : Type 0
Bytes = List ℕ

-- The bytes of a literal, whose characters are ASCII.
abbrev pub bytes : String → Bytes
bytes String.[] = []
bytes (String.◌∷◌ c text) = code c ∷ bytes text

abbrev pub IsByte : ℕ → Type 0
IsByte b = b < 256

-- bytes.Equal, and `==` on strings.
unfoldable pub bytes_equal : Bytes → Bytes → Bool
bytes_equal [] [] = true
bytes_equal [] (y ∷ ys) = false
bytes_equal (x ∷ xs) [] = false
bytes_equal (x ∷ xs) (y ∷ ys) = let rest = bytes_equal xs ys in (x == y) && rest

pub bytes_equal→eq : (xs ys : Bytes) → bytes_equal xs ys ≡ true → xs ≡ ys
unfolding bytes_equal
bytes_equal→eq [] [] h = refl
bytes_equal→eq [] (y ∷ ys) h = ground arith
bytes_equal→eq (x ∷ xs) [] h = ground arith
bytes_equal→eq (x ∷ xs) (y ∷ ys) h = ground (arith, bytes_equal→eq xs ys)

pub bytes_equal_refl : (xs : Bytes) → bytes_equal xs xs ≡ true
unfolding bytes_equal
bytes_equal_refl [] = refl
bytes_equal_refl (x ∷ xs) = ground (arith, bytes_equal_refl xs)

pub eq→bytes_equal : (xs ys : Bytes) → xs ≡ ys → bytes_equal xs ys ≡ true
eq→bytes_equal xs ys e = rw e (bytes_equal_refl ys)
