-- ===== src/Bloom.antt =====
-- bloomfilter: the filter over user keys, its hashing, and its bytes on disk. The size and the
-- number of hashes that findOptimalParamsValues computes in floating point are parameters.
pub mod Membership
pub mod Disk
pub mod Pack
mod Tests
use hcdb.Prelude.{
  ℕ, zero, suc, ◌+◌, ◌-◌, ◌*◌, ◌/◌, ◌%◌, ◌^◌, List, [], ◌∷◌, ◌++◌, length, take, drop, set,
  replicate, ltb, leb, ◌==◌, if◌then◌else◌, Bool, true, false, bit_and, bit_or, Option, none, some,
  get_elem?,
}
use hcdb.Binary.{Bytes}
use hcdb.Binary.Uint.{put_uint, uint}
use hcdb.Binary.Fnv.{fnv_32a, fnv_64a}

pub record BloomFilter : Type 0 where
  pub bits : List Bool
  pub num_hash : ℕ
  pub size : ℕ

-- NewBloomFilter, once findOptimalParamsValues has given the size and the number of hashes.
unfoldable pub new_bloom_filter : ℕ → ℕ → BloomFilter
new_bloom_filter size num_hash = record {
  bits = replicate size false;
  num_hash = num_hash;
  size = size;
}

-- Double hashing in uint64.
pub hash_position : Bytes → ℕ → ℕ → ℕ
hash_position key seed size =
    let h1 = fnv_64a key in
    let h2 = fnv_32a key in let combined = (h1 + seed * h2 % 2 ^ 64) % 2 ^ 64 % size in combined

-- for i := i; rounds > 0; i++
pub add_loop : Bytes → ℕ → ℕ → BloomFilter → BloomFilter
add_loop key zero i bf = bf
add_loop key (suc rounds) i bf =
    add_loop key rounds (i + 1)
      (record bf { bits = set bf.bits (hash_position key i bf.size) true })

pub add : BloomFilter → Bytes → BloomFilter
unfolding add_loop
add bf key = add_loop key bf.num_hash 0 bf

-- bf.bits[pos]. A position is in range in every filter that IsSized: see Bloom/Membership.
abbrev pub bit : List Bool → ℕ → Bool
bit bits pos = elim (get_elem? bits pos) [ none ↦ false | some b ↦ b ]

unfoldable pub contain_loop : Bytes → ℕ → ℕ → BloomFilter → Bool
contain_loop key zero i bf = true
contain_loop key (suc rounds) i bf =
    let rest = contain_loop key rounds (i + 1) bf in
    if bit bf.bits (hash_position key i bf.size) then rest else false

unfoldable pub might_contain : BloomFilter → Bytes → Bool
unfolding contain_loop
might_contain bf key = contain_loop key bf.num_hash 0 bf

-- out[8+i/8] |= 1 << (i % 8)
abbrev pub byte_at : Bytes → ℕ → ℕ
byte_at out k = elim (get_elem? out k) [ none ↦ 0 | some b ↦ b ]

pub set_bit : Bytes → ℕ → Bytes
set_bit out i = set out (8 + i / 8) (bit_or (byte_at out (8 + i / 8)) (2 ^ (i % 8)))

-- for i, bit := range bf.bits
pub pack_loop : List Bool → ℕ → Bytes → Bytes
unfolding set_bit
pack_loop [] i out = out
pack_loop (b ∷ bits) i out = pack_loop bits (i + 1) (if b then set_bit out i else out)

pub serialize : BloomFilter → Bytes
unfolding pack_loop
serialize bf =
    let num_bytes = (length bf.bits + 7) / 8 in
    pack_loop bf.bits 0 (put_uint 4 bf.size ++ (put_uint 4 bf.num_hash ++ replicate num_bytes 0))

-- (b >> m) & 1 == 1
abbrev pub test_bit : ℕ → ℕ → Bool
test_bit b m = bit_and (b / 2 ^ m) 1 == 1

pub bit_at : Bytes → ℕ → Bool
bit_at bytes i =
    let byte_idx = 8 + i / 8 in
    if ltb byte_idx (length bytes) then test_bit (byte_at bytes byte_idx) (i % 8) else false

-- for i := i; rounds > 0; i++
pub unpack_loop : ℕ → ℕ → Bytes → List Bool
unfolding bit_at
unpack_loop zero i bytes = []
unpack_loop (suc rounds) i bytes = bit_at bytes i ∷ unpack_loop rounds (i + 1) bytes

-- `none` is the panic on fewer than the eight bytes of the two numbers.
pub deserialize : Bytes → Option BloomFilter
unfolding unpack_loop
deserialize bytes =
    if ltb (length bytes) 8
    then none
    else (let size = uint (take 4 bytes) in
        let num_hash = uint (take 4 (drop 4 bytes)) in
        some (record { bits = unpack_loop size 0 bytes; num_hash = num_hash; size = size }))
