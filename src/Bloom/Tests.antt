-- ===== src/Bloom/Tests.antt =====
-- The theorems on the filter at concrete inputs.
use hcdb.Prelude.{◌≡◌, refl, arith, List, [], ◌∷◌, All, true, false, some}
use hcdb.Binary.{Bytes}
use hcdb.Binary.Uint.{put_uint}
use hcdb.Bloom.{BloomFilter, new_bloom_filter, might_contain, serialize, deserialize}
use hcdb.Bloom.Membership.{add_all, new_bloom_filter-IsSized, no_false_negatives}
use hcdb.Bloom.Pack.{deserialize-serialize}

abbrev user_keys : List Bytes
user_keys = (102 ∷ 111 ∷ 111 ∷ []) ∷ (98 ∷ 97 ∷ 114 ∷ []) ∷ []

no_false_negatives_example :
    All
      (λ (k : Bytes). might_contain (add_all (new_bloom_filter 24 3) user_keys) k ≡ true)
      user_keys
no_false_negatives_example =
    no_false_negatives (new_bloom_filter 24 3) user_keys
      (new_bloom_filter-IsSized 24 3 (omega arith))

abbrev eleven_bits : BloomFilter
eleven_bits = record {
  bits = true ∷ false ∷ true ∷ true ∷ false ∷ false ∷ false ∷ false ∷ true ∷ false ∷ true ∷ [];
  num_hash = 3;
  size = 11;
}

deserialize-serialize_example : deserialize (serialize eleven_bits) ≡ some eleven_bits
deserialize-serialize_example = deserialize-serialize eleven_bits refl (omega arith) (omega arith)

-- The bytes that Serialize writes for eleven bits.
serialize-eleven_bits : serialize eleven_bits ≡ 11 ∷ 0 ∷ 0 ∷ 0 ∷ 3 ∷ 0 ∷ 0 ∷ 0 ∷ 13 ∷ 5 ∷ []
unfolding serialize put_uint
serialize-eleven_bits = refl
