-- ===== src/Binary/Fnv.antt =====
-- hash/fnv: FNV-1a over 32 and 64 bits.
use hcdb.Prelude.{ℕ, ◌*◌, ◌%◌, ◌^◌, ◌≡◌, refl, [], ◌∷◌, bit_xor}
use hcdb.Binary.{Bytes}

-- The hash is XORed with the byte, then multiplied by the prime.
fnv_loop : ℕ → ℕ → ℕ → Bytes → ℕ
fnv_loop modulus prime h [] = h
fnv_loop modulus prime h (b ∷ bs) = fnv_loop modulus prime (bit_xor h b * prime % modulus) bs

pub fnv_32a : Bytes → ℕ
unfolding fnv_loop
fnv_32a key = fnv_loop (2 ^ 32) 16777619 2166136261 key

pub fnv_64a : Bytes → ℕ
unfolding fnv_loop
fnv_64a key = fnv_loop (2 ^ 64) 1099511628211 14695981039346656037 key

-- The published values of the text a.
fnv_32a_of_a : fnv_32a (97 ∷ []) ≡ 0xe40c292c
unfolding fnv_32a
fnv_32a_of_a = refl

fnv_64a_of_a : fnv_64a (97 ∷ []) ≡ 0xaf63dc4c8601ec8c
unfolding fnv_64a
fnv_64a_of_a = refl
