-- ===== src/Bloom/Membership.antt =====
-- Add and MightContain of a bloom filter (bloomfilter/bloomfilter_operations.go).
use hcdb.Prelude.{
  ℕ, zero, suc, ◌+◌, ◌<◌, ◌≡◌, refl, arith, List, [], ◌∷◌, length, set, Bool, true, false, All,
  get_elem?-set_self, length-set, length-replicate,
}
use native.Mathlib.Nat.{mod-lt}
use hcdb.Binary.{Bytes}
use hcdb.Bloom.{
  BloomFilter, new_bloom_filter, hash_position, add_loop, add, bit, contain_loop, might_contain,
}

-- There is a bit for every position below the size, which is not 0.
pub record IsSized (bf : BloomFilter) : Type 0 where
  pub positive : 0 < bf.size
  pub sized : length bf.bits ≡ bf.size

position_in_range : (key : Bytes) (seed size : ℕ) → 0 < size → hash_position key seed size < size
unfolding hash_position
position_in_range key seed size h = mod-lt _ h

bit-set : (bits : List Bool) (i j : ℕ) → bit bits j ≡ true → bit (set bits i true) j ≡ true
bit-set [] i j h = h
bit-set (b ∷ bits) zero zero h = refl
bit-set (b ∷ bits) zero (suc j) h = h
bit-set (b ∷ bits) (suc i) zero h = h
bit-set (b ∷ bits) (suc i) (suc j) h = bit-set bits i j h

-- The same filter but for bits that were set: those of the first are set in the second.
pub record Extends (old new : BloomFilter) : Type 0 where
  pub same_size : new.size ≡ old.size
  pub same_num_hash : new.num_hash ≡ old.num_hash
  pub same_length : length new.bits ≡ length old.bits
  pub keeps : (j : ℕ) → bit old.bits j ≡ true → bit new.bits j ≡ true

add_loop-Extends :
    (key : Bytes) (rounds i : ℕ) (bf : BloomFilter) → Extends bf (add_loop key rounds i bf)
unfolding add_loop
add_loop-Extends key zero i bf = record {
  same_size = refl;
  same_num_hash = refl;
  same_length = refl;
  keeps = λ j h. h;
}
add_loop-Extends key (suc rounds) i bf =
    let pos = hash_position key i bf.size in
    let e = add_loop-Extends key rounds (i + 1) (record bf { bits = set bf.bits pos true }) in
    record {
      same_size = e.same_size;
      same_num_hash = e.same_num_hash;
      same_length = omega (arith, e.same_length, length-set bf.bits pos true);
      keeps = λ j h. e.keeps j (bit-set bf.bits pos j h);
    }

contain_loop-Extends :
    (key : Bytes) (rounds i : ℕ) (old new : BloomFilter)
    → Extends old new
    → contain_loop key rounds i old ≡ true
    → contain_loop key rounds i new ≡ true
unfolding contain_loop
contain_loop-Extends key zero i old new e h = refl
contain_loop-Extends key (suc rounds) i old new e h = ground (
  arith,
  e.same_size,
  e.keeps (hash_position key i old.size),
  contain_loop-Extends key rounds (i + 1) old new e,
)

contain_loop-add_loop :
    (key : Bytes) (rounds i : ℕ) (bf : BloomFilter)
    → IsSized bf
    → contain_loop key rounds i (add_loop key rounds i bf) ≡ true
unfolding contain_loop add_loop
contain_loop-add_loop key zero i bf h = refl
contain_loop-add_loop key (suc rounds) i bf h =
    let pos = hash_position key i bf.size in
    let bf' = record bf { bits = set bf.bits pos true } in
    let e = add_loop-Extends key rounds (i + 1) bf' in
    let sized' : IsSized bf' = record {
      positive = h.positive;
      sized = omega (arith, h.sized, length-set bf.bits pos true);
    } in
    ground (
      arith,
      e.same_size,
      e.keeps pos,
      get_elem?-set_self bf.bits pos true,
      h.sized,
      position_in_range key i bf.size h.positive,
      contain_loop-add_loop key rounds (i + 1) bf' sized',
    )

pub add-Extends : (bf : BloomFilter) (key : Bytes) → Extends bf (add bf key)
unfolding add
add-Extends bf key = add_loop-Extends key bf.num_hash 0 bf

might_contain-Extends :
    (key : Bytes) (old new : BloomFilter)
    → Extends old new
    → might_contain old key ≡ true
    → might_contain new key ≡ true
unfolding might_contain
might_contain-Extends key old new e h =
    cc (e.same_num_hash, contain_loop-Extends key old.num_hash 0 old new e h)

might_contain-add :
    (bf : BloomFilter) (key : Bytes) → IsSized bf → might_contain (add bf key) key ≡ true
unfolding might_contain add
might_contain-add bf key h =
    rw (add_loop-Extends key bf.num_hash 0 bf).same_num_hash
      (contain_loop-add_loop key bf.num_hash 0 bf h)

pub add-IsSized : (bf : BloomFilter) (key : Bytes) → IsSized bf → IsSized (add bf key)
add-IsSized bf key h =
    omega
      (arith, (add-Extends bf key).same_size, (add-Extends bf key).same_length, h.positive, h.sized)

pub new_bloom_filter-IsSized :
    (size num_hash : ℕ) → 0 < size → IsSized (new_bloom_filter size num_hash)
unfolding new_bloom_filter
new_bloom_filter-IsSized size num_hash h = record {
  positive = h;
  sized = length-replicate size false;
}

-- The keys added one after the other, as both table writers do.
unfoldable pub add_all : BloomFilter → List Bytes → BloomFilter
add_all bf [] = bf
add_all bf (k ∷ ks) = add_all (add bf k) ks

add_all-keeps :
    (key : Bytes) (bf : BloomFilter) (ks : List Bytes)
    → might_contain bf key ≡ true
    → might_contain (add_all bf ks) key ≡ true
unfolding add_all
add_all-keeps key bf [] h = h
add_all-keeps key bf (k ∷ ks) h =
    add_all-keeps key (add bf k) ks (might_contain-Extends key bf (add bf k) (add-Extends bf k) h)

-- A filter with a bit for each position answers true for every key that was added to it, in whatever order and whatever else was added.
pub no_false_negatives :
    (bf : BloomFilter) (ks : List Bytes)
    → IsSized bf
    → All (λ k. might_contain (add_all bf ks) k ≡ true) ks
unfolding add_all
no_false_negatives bf [] h = tt
no_false_negatives bf (k ∷ ks) h = (
  add_all-keeps k (add bf k) ks (might_contain-add bf k h),
  no_false_negatives (add bf k) ks (add-IsSized bf k h),
)
