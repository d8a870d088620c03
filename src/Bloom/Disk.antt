-- ===== src/Bloom/Disk.antt =====
-- The bits of one byte on disk (bloomfilter/hash.go).
use hcdb.Prelude.{
  ℕ, zero, suc, ◌+◌, ◌/◌, ◌%◌, ◌^◌, ◌<◌, ◌≡◌, refl, arith, [], ◌∷◌, length, set, All,
  get_elem?-set_self, get_elem?-set_ne, All-set, ◌≢◌, length-set, ltb, ◌==◌, Bool, true, false,
  ◌&&◌, ◌||◌, bit_or, Bool-cases, inl, inr,
}
use hcdb.Binary.{Bytes, IsByte}
use hcdb.Bloom.{byte_at, set_bit, test_bit, bit_at}

unfoldable pub same : Bool → Bool → Bool
same true b = b
same false true = false
same false false = true

pub same→eq : (a b : Bool) → same a b ≡ true → a ≡ b
unfolding same
same→eq true b h = ground arith
same→eq false true h = ground arith
same→eq false false h = refl

unfoldable pub all_below : ℕ → (ℕ → Bool) → Bool
all_below zero p = true
all_below (suc n) p = p n && all_below n p

pub all_below_lem : (n : ℕ) (p : ℕ → Bool) (x : ℕ) → all_below n p ≡ true → x < n → p x ≡ true
unfolding all_below
all_below_lem zero p x h lt = absurd (omega arith)
all_below_lem (suc n) p x h lt = ground (arith, all_below_lem n p x)

abbrev sets_one : ℕ → ℕ → ℕ → Bool
sets_one b k m =
    same (test_bit (bit_or b (2 ^ k)) m) (k == m || test_bit b m) && ltb (bit_or b (2 ^ k)) 256

-- Every byte, every bit that is set, every bit that is read.
or_table : all_below 256 (λ b. all_below 8 (λ k. all_below 8 (λ m. sets_one b k m))) ≡ true
unfolding all_below same
or_table = refl

and_left : (a b : Bool) → (a && b) ≡ true → a ≡ true
and_left true b h = refl
and_left false b h = h

sets_one_lem : (b k m : ℕ) → b < 256 → k < 8 → m < 8 → sets_one b k m ≡ true
sets_one_lem b k m hb hk hm =
    all_below_lem 8 (λ m'. sets_one b k m') m
      (all_below_lem 8 (λ k'. all_below 8 (λ m'. sets_one b k' m')) k
        (all_below_lem 256 (λ b'. all_below 8 (λ k'. all_below 8 (λ m'. sets_one b' k' m'))) b
          or_table hb)
        hk)
      hm

byte_at-IsByte : (out : Bytes) (k : ℕ) → All IsByte out → IsByte (byte_at out k)
byte_at-IsByte [] k h = omega arith
byte_at-IsByte (b ∷ out) zero h = h.0
byte_at-IsByte (b ∷ out) (suc k) h = byte_at-IsByte out k h.1

byte_at-set_self : (out : Bytes) (k v : ℕ) → k < length out → byte_at (set out k v) k ≡ v
byte_at-set_self out k v h = rw (byte_at, get_elem?-set_self out k v h)

byte_at-set_ne : (out : Bytes) (i j v : ℕ) → i ≢ j → byte_at (set out i v) j ≡ byte_at out j
byte_at-set_ne out i j v h = rw (byte_at, get_elem?-set_ne out i j v h)

pub length-set_bit : (out : Bytes) (i : ℕ) → length (set_bit out i) ≡ length out
unfolding set_bit
length-set_bit out i = length-set out (8 + i / 8) _

pub set_bit-IsByte : (out : Bytes) (i : ℕ) → All IsByte out → All IsByte (set_bit out i)
unfolding set_bit
set_bit-IsByte out i h =
    let b = byte_at out (8 + i / 8) in
    All-set IsByte out (8 + i / 8) (bit_or b (2 ^ (i % 8))) h
      (ground (arith, sets_one_lem b (i % 8) 0 (byte_at-IsByte out (8 + i / 8) h)))

test_bit-bit_or :
    (b k m : ℕ) → b < 256 → k < 8 → m < 8 → test_bit (bit_or b (2 ^ k)) m ≡ (k == m || test_bit b m)
test_bit-bit_or b k m hb hk hm =
    same→eq (test_bit (bit_or b (2 ^ k)) m) (k == m || test_bit b m)
      (and_left _ _ (sets_one_lem b k m hb hk hm))

same_index : (i j : ℕ) → i / 8 ≡ j / 8 → (i % 8 == j % 8) ≡ (i == j)
same_index i j h = ground arith

-- One bit is set and no other is changed.
pub bit_at-set_bit :
    (out : Bytes) (i j : ℕ)
    → All IsByte out
    → 8 + i / 8 < length out
    → bit_at (set_bit out i) j ≡ (i == j || bit_at out j)
unfolding set_bit bit_at
bit_at-set_bit out i j h range =
    let k = 8 + i / 8 in
    let b = byte_at out k in
    let v = bit_or b (2 ^ (i % 8)) in
    elim (Bool-cases (i / 8 == j / 8)) [
      | inl together ↦
          let e : 8 + j / 8 ≡ k = ground arith in
          let in_range : ltb k (length out) ≡ true = ground arith in
          rw (e, bit_at, length-set out k v, in_range, byte_at-set_self out k v range)
            (rw
              (test_bit-bit_or b (i % 8) (j % 8) (byte_at-IsByte out k h) (omega arith)
                (omega arith))
              (rw (same_index i j (ground arith))))
      | inr apart ↦
          let ne : (i == j) ≡ false = ground arith in
          rw (ne, bit_at, length-set out k v, byte_at-set_ne out k (8 + j / 8) v (ground arith))
    ]
