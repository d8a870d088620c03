-- ===== src/Sstable/Table/Filter.antt =====
-- The filter that the writers of a table build (sstable/writer.go, write_from_entries.go).
use hcdb.Prelude.{
  ◌≡◌, refl, ◌∙◌, List, [], ◌∷◌, length, map, leb, ◌==◌, true, inl, inr, Bool-cases, All,
}
use hcdb.Config.{default_block_size}
use hcdb.Bloom.{BloomFilter, add, might_contain}
use hcdb.Bloom.Membership.{IsSized, add-Extends, add-IsSized, add_all, no_false_negatives}
use hcdb.Sstable.Block.{BlockEntry}
use hcdb.Sstable.Table.{
  TableWriter, collect_entry, put_block, add_to_block, flush_current, collect_all, bloom_all,
  user_key_of,
}

-- The filter that both writers build: NewBloomFilter's, with the user keys.
bloom_all-add_all :
    (bloom : BloomFilter) (es : List BlockEntry)
    → bloom_all bloom es ≡ add_all bloom (map user_key_of es)
unfolding bloom_all add_all
bloom_all-add_all bloom [] = refl
bloom_all-add_all bloom (e ∷ es) = bloom_all-add_all (add bloom (user_key_of e)) es

pub record IsSame (old new : BloomFilter) : Type 0 where
  pub size : new.size ≡ old.size
  pub num_hash : new.num_hash ≡ old.num_hash

pub bloom_all-IsSame :
    (bloom : BloomFilter) (es : List BlockEntry) → IsSame bloom (bloom_all bloom es)
unfolding bloom_all
bloom_all-IsSame bloom [] = record { size = refl; num_hash = refl }
bloom_all-IsSame bloom (e ∷ es) =
    let more = bloom_all-IsSame (add bloom (user_key_of e)) es in
    let first = add-Extends bloom (user_key_of e) in
    record { size = more.size ∙ first.same_size; num_hash = more.num_hash ∙ first.same_num_hash }

pub bloom_all-IsSized :
    (bloom : BloomFilter) (es : List BlockEntry) → IsSized bloom → IsSized (bloom_all bloom es)
unfolding bloom_all
bloom_all-IsSized bloom [] h = h
bloom_all-IsSized bloom (e ∷ es) h =
    bloom_all-IsSized (add bloom (user_key_of e)) es (add-IsSized bloom (user_key_of e) h)

All-map_of :
    {A B : Type 0} (f : A → B) (P : B → Type 0) (xs : List A)
    → All P (map f xs)
    → All (λ x. P (f x)) xs
All-map_of f P [] h = tt
All-map_of f P (x ∷ xs) h = (h.0, All-map_of f P xs h.1)

pub bloom_all_contains :
    (bloom : BloomFilter) (es : List BlockEntry)
    → IsSized bloom
    → All (λ e. might_contain (bloom_all bloom es) (user_key_of e) ≡ true) es
bloom_all_contains bloom es h = rw (bloom_all-add_all bloom es) (
    All-map_of user_key_of (λ k. might_contain (add_all bloom (map user_key_of es)) k ≡ true) es
      (no_false_negatives bloom (map user_key_of es) h))

pub flush_current-bloom : (w : TableWriter) → (flush_current w).bloom ≡ w.bloom
unfolding flush_current put_block
flush_current-bloom w = elim (Bool-cases (length w.collector.entries == 0)) [
  | inl empty ↦ rw (flush_current, empty) refl
  | inr some_left ↦ rw (flush_current, some_left) refl
]

add_to_block-bloom : (w : TableWriter) (e : BlockEntry) → (add_to_block w e).bloom ≡ w.bloom
unfolding add_to_block
add_to_block-bloom w e =
    elim (Bool-cases (leb default_block_size (collect_entry w.collector e).size_estimate)) [
      | inl full ↦
          rw (add_to_block, full)
            (flush_current-bloom (record w { collector = collect_entry w.collector e }))
      | inr room ↦ rw (add_to_block, room) refl
    ]

pub collect_all-bloom :
    (w : TableWriter) (es : List BlockEntry) → (collect_all w es).bloom ≡ w.bloom
unfolding collect_all
collect_all-bloom w [] = refl
collect_all-bloom w (e ∷ es) = collect_all-bloom (add_to_block w e) es ∙ add_to_block-bloom w e
