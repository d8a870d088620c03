-- ===== src/Bloom/Pack.antt =====
-- Serialize and Deserialize (bloomfilter/hash.go).
use hcdb.Prelude.{
  ℕ, zero, suc, ◌+◌, ◌-◌, ◌*◌, ◌/◌, ◌%◌, ◌^◌, ◌≤◌, ◌<◌, ◌≡◌, refl, ◌∙◌, arith, List, [], ◌∷◌, ◌++◌,
  length, take, drop, set, replicate, All, All-append, All-replicate, get_elem?-append_right,
  length-append, length-replicate, take-append_of, drop-append_of, append_assoc, take-set, drop-set,
  ltb, ◌==◌, Bool, true, false, ◌&&◌, ◌||◌, some,
}
use hcdb.Binary.{Bytes, IsByte}
use hcdb.Binary.Uint.{put_uint, uint, length-put_uint, put_uint-IsByte, uint-put_uint}
use hcdb.Bloom.{
  BloomFilter, byte_at, set_bit, pack_loop, serialize, test_bit, bit_at, unpack_loop, deserialize,
}
use hcdb.Bloom.Disk.{
  same, same→eq, all_below, all_below_lem, length-set_bit, set_bit-IsByte, bit_at-set_bit,
}

-- The bits of the list, of which the first is numbered i, at j.
bit_from : List Bool → ℕ → ℕ → Bool
bit_from [] i j = false
bit_from (b ∷ bits) i j = (b && i == j) || bit_from bits (i + 1) j

bit_from_below : (bits : List Bool) (i j : ℕ) → j < i → bit_from bits i j ≡ false
unfolding bit_from
bit_from_below [] i j h = refl
bit_from_below (b ∷ bits) i j h = ground (arith, bit_from_below bits (i + 1) j)

bit_at-pack_loop :
    (bits : List Bool) (i j : ℕ) (out : Bytes)
    → All IsByte out
    → i + length bits ≤ 8 * (length out - 8)
    → bit_at (pack_loop bits i out) j ≡ (bit_from bits i j || bit_at out j)
unfolding pack_loop bit_from
bit_at-pack_loop [] i j out h fits = refl
bit_at-pack_loop (true ∷ bits) i j out h fits = ground (
  arith,
  bit_at-pack_loop bits (i + 1) j (set_bit out i) (set_bit-IsByte out i h)
      (omega (arith, length-set_bit out i)),
  bit_at-set_bit out i j h (omega arith),
)
bit_at-pack_loop (false ∷ bits) i j out h fits = bit_at-pack_loop bits (i + 1) j out h (omega arith)

unpack_loop-bits :
    (bits : List Bool) (i : ℕ) (out : Bytes)
    → ((j : ℕ) → i ≤ j → bit_at out j ≡ bit_from bits i j)
    → unpack_loop (length bits) i out ≡ bits
unfolding unpack_loop bit_from
unpack_loop-bits [] i out h = refl
unpack_loop-bits (b ∷ bits) i out h =
    let rest = unpack_loop-bits bits (i + 1) out (λ j le. ground (arith, h j (omega arith))) in
    let first : bit_at out i ≡ b = ground (arith, h i, bit_from_below bits (i + 1) i) in
    cc (rest, first)

-- What Serialize packs into: the two numbers, and bytes of zeros.
abbrev header : BloomFilter → Bytes
header bf = put_uint 4 bf.size ++ put_uint 4 bf.num_hash

abbrev blank : BloomFilter → Bytes
blank bf = header bf ++ replicate ((length bf.bits + 7) / 8) 0

zero_bits : all_below 8 (λ m. same (test_bit 0 m) false) ≡ true
unfolding all_below same
zero_bits = refl

byte_at-zeros : (n k : ℕ) → byte_at (replicate n 0) k ≡ 0
byte_at-zeros zero k = refl
byte_at-zeros (suc n) zero = refl
byte_at-zeros (suc n) (suc k) = byte_at-zeros n k

length-header : (bf : BloomFilter) → length (header bf) ≡ 8
length-header bf = omega (
  arith,
  length-append (put_uint 4 bf.size) (put_uint 4 bf.num_hash),
  length-put_uint 4 bf.size,
  length-put_uint 4 bf.num_hash,
)

byte_at-zeros_after :
    (xs : Bytes) (n k m : ℕ) → length xs ≡ n → byte_at (xs ++ replicate m 0) (n + k) ≡ 0
byte_at-zeros_after xs n k m e =
    rw (← e, byte_at, get_elem?-append_right xs (replicate m 0) k) (byte_at-zeros m k)

byte_at-blank : (bf : BloomFilter) (k : ℕ) → byte_at (blank bf) (8 + k) ≡ 0
byte_at-blank bf k =
    byte_at-zeros_after (header bf) 8 k ((length bf.bits + 7) / 8) (length-header bf)

bit_at-blank : (bf : BloomFilter) (j : ℕ) → bit_at (blank bf) j ≡ false
unfolding bit_at
bit_at-blank bf j = ground (
  arith,
  byte_at-blank bf (j / 8),
  same→eq (test_bit 0 (j % 8)) false
      (all_below_lem 8 (λ m. same (test_bit 0 m) false) (j % 8) zero_bits (omega arith)),
)

pack_loop-take :
    (bits : List Bool) (i : ℕ) (out : Bytes) → take 4 (pack_loop bits i out) ≡ take 4 out
unfolding pack_loop set_bit
pack_loop-take [] i out = refl
pack_loop-take (false ∷ bits) i out = pack_loop-take bits (i + 1) out
pack_loop-take (true ∷ bits) i out =
    pack_loop-take bits (i + 1) (set_bit out i) ∙ take-set 4 (8 + i / 8) out _ (omega arith)

second_number : (out : Bytes) (k v : ℕ) → take 4 (drop 4 (set out (8 + k) v)) ≡ take 4 (drop 4 out)
second_number out k v =
    let e : 8 + k ≡ 4 + (4 + k) = omega arith in
    rw (e, drop-set 4 (4 + k) out v) (take-set 4 (4 + k) (drop 4 out) v (omega arith))

pack_loop-drop :
    (bits : List Bool) (i : ℕ) (out : Bytes)
    → take 4 (drop 4 (pack_loop bits i out)) ≡ take 4 (drop 4 out)
unfolding pack_loop set_bit
pack_loop-drop [] i out = refl
pack_loop-drop (false ∷ bits) i out = pack_loop-drop bits (i + 1) out
pack_loop-drop (true ∷ bits) i out =
    pack_loop-drop bits (i + 1) (set_bit out i) ∙ second_number out (i / 8) _

length-pack_loop :
    (bits : List Bool) (i : ℕ) (out : Bytes) → length (pack_loop bits i out) ≡ length out
unfolding pack_loop
length-pack_loop [] i out = refl
length-pack_loop (false ∷ bits) i out = length-pack_loop bits (i + 1) out
length-pack_loop (true ∷ bits) i out =
    length-pack_loop bits (i + 1) (set_bit out i) ∙ length-set_bit out i

serialize-blank : (bf : BloomFilter) → serialize bf ≡ pack_loop bf.bits 0 (blank bf)
unfolding serialize
serialize-blank bf = rw append_assoc refl

-- The two numbers are read back.
numbers :
    (bf : BloomFilter)
    → bf.size < 2 ^ 32
    → bf.num_hash < 2 ^ 32
    → (uint (take 4 (serialize bf)) ≡ bf.size)
      × (uint (take 4 (drop 4 (serialize bf))) ≡ bf.num_hash)
numbers bf hs hn =
    let a = put_uint 4 bf.size in
    let b = put_uint 4 bf.num_hash in
    let z : Bytes = replicate ((length bf.bits + 7) / 8) 0 in
    let first : take 4 (blank bf) ≡ a =
      rw (append_assoc a b z) (take-append_of 4 a (b ++ z) (length-put_uint 4 bf.size)) in
    let second : take 4 (drop 4 (blank bf)) ≡ b =
      rw (append_assoc a b z, drop-append_of 4 a (b ++ z) (length-put_uint 4 bf.size))
        (take-append_of 4 b z (length-put_uint 4 bf.num_hash)) in
    rw
      (
        serialize-blank bf,
        pack_loop-take bf.bits 0 (blank bf),
        pack_loop-drop bf.bits 0 (blank bf),
        first,
        second,
      )
      (uint-put_uint 4 bf.size hs, uint-put_uint 4 bf.num_hash hn)

length-blank : (bf : BloomFilter) → length (blank bf) ≡ 8 + (length bf.bits + 7) / 8
length-blank bf = rw (length-append (header bf), length-header bf, length-replicate) refl

blank-IsByte : (bf : BloomFilter) → All IsByte (blank bf)
blank-IsByte bf =
    All-append IsByte (header bf) (replicate ((length bf.bits + 7) / 8) 0)
      (All-append IsByte (put_uint 4 bf.size) (put_uint 4 bf.num_hash) (put_uint-IsByte 4 bf.size)
        (put_uint-IsByte 4 bf.num_hash))
      (All-replicate IsByte ((length bf.bits + 7) / 8) 0 (omega arith))

-- The bits are read back.
bits_back : (bf : BloomFilter) → unpack_loop (length bf.bits) 0 (serialize bf) ≡ bf.bits
bits_back bf = rw (serialize-blank bf) (
    unpack_loop-bits bf.bits 0 (pack_loop bf.bits 0 (blank bf)) λ j le. ground (
      arith,
      bit_at-pack_loop bf.bits 0 j (blank bf) (blank-IsByte bf) (omega (arith, length-blank bf)),
      bit_at-blank bf j,
    ))

pub length-serialize : (bf : BloomFilter) → length (serialize bf) ≡ 8 + (length bf.bits + 7) / 8
length-serialize bf =
    rw (serialize-blank bf, length-pack_loop bf.bits 0 (blank bf)) (length-blank bf)

-- Deserialize gives back every filter that Serialize wrote, if it has as many bits as its size says and its two numbers fit 32 bits.
pub deserialize-serialize :
    (bf : BloomFilter)
    → length bf.bits ≡ bf.size
    → bf.size < 2 ^ 32
    → bf.num_hash < 2 ^ 32
    → deserialize (serialize bf) ≡ some bf
unfolding deserialize
deserialize-serialize bf sized hs hn =
    let (first, second) = numbers bf hs hn in
    let enough : ltb (length (serialize bf)) 8 ≡ false = ground (arith, length-serialize bf) in
    let bits : unpack_loop bf.size 0 (serialize bf) ≡ bf.bits = cc (sized, bits_back bf) in
    rw (deserialize, enough, first, second, bits)
