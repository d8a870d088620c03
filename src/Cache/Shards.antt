-- ===== src/Cache/Shards.antt =====
-- The sharded cache (cache/sharded.go).
use hcdb.Prelude.{
  ℕ, ◌%◌, ◌^◌, ◌<◌, ◌≡◌, refl, sym, subst, ap, ◌∙◌, arith, List, length, set, get_elem?, some, All,
  inl, inr, Option-cases, get_elem?-lt, get_elem?-set_self, length-set, All-set, All-get_elem?,
}
use native.Mathlib.Nat.{mod-lt}
use hcdb.Binary.{Bytes}
use hcdb.Binary.Fnv.{fnv_32a}
use hcdb.Cache.{Lru, find, insert, get, shard_index, sharded_get, sharded_put}
use hcdb.Cache.Order.{IsCache}
use hcdb.Cache.Answers.{insert-IsCache, insert_found}

shard_index-lt : (key : Bytes) (n : ℕ) → 0 < n → n < 2 ^ 32 → shard_index key n < n
unfolding shard_index
shard_index-lt key n positive fits =
    let same : n % 2 ^ 32 ≡ n = omega arith in
    subst (λ m. fnv_32a key % m < n) (sym same) (mod-lt (fnv_32a key) positive)

module _ {V : Type 0} where
  get_value : (key : Bytes) (c : Lru V) → (get key c).0 ≡ find key c.entries
  unfolding get
  get_value key c = elim (Option-cases (find key c.entries)) [
    | inl absent ↦ rw (get, absent) refl
    | inr (v, there) ↦ rw (get, there) refl
  ]

  put_at :
      (key : Bytes) (value : V) (shards : List (Lru V)) (shard : Lru V)
      → get_elem? shards (shard_index key (length shards)) ≡ some shard
      → sharded_put key value shards
        ≡ some (set shards (shard_index key (length shards)) (insert key value shard))
  unfolding sharded_put
  put_at key value shards shard here = rw (sharded_put, here) refl

  get_at :
      (key : Bytes) (shards : List (Lru V)) (shard : Lru V)
      → get_elem? shards (shard_index key (length shards)) ≡ some shard
      → sharded_get key shards
        ≡ some ((get key shard).0, set shards (shard_index key (length shards)) (get key shard).1)
  unfolding sharded_get
  get_at key shards shard here = rw (sharded_get, here) refl

-- A Put in a cache of at least one and fewer than 2^32 shards does not panic, keeps their number and the invariant of each, and a Get of the key then answers with the value.
pub sharded_put-get :
    {V : Type 0} (key : Bytes) (value : V) (shards : List (Lru V))
    → 0 < length shards
    → length shards < 2 ^ 32
    → All IsCache shards
    → (after later : List (Lru V)) × (sharded_put key value shards ≡ some after)
      × (length after ≡ length shards)
      × All IsCache after
      × (sharded_get key after ≡ some (some value, later))
sharded_put-get key value shards positive fits caches =
    let idx = shard_index key (length shards) in
    let lt = shard_index-lt key (length shards) positive fits in
    let (shard, here) = get_elem?-lt shards idx lt in
    let shard' = insert key value shard in
    let after = set shards idx shard' in
    let size = length-set shards idx shard' in
    let there =
      ap (λ (n : ℕ). get_elem? after (shard_index key n)) size
      ∙ get_elem?-set_self shards idx shard' lt in
    (
      after,
      set after (shard_index key (length after)) (get key shard').1,
      put_at key value shards shard here,
      size,
      All-set IsCache shards idx shard' caches
          (insert-IsCache key value shard (All-get_elem? IsCache shards idx caches here)),
      get_at key after shard' there
          ∙ ap (λ o. some (o, set after (shard_index key (length after)) (get key shard').1))
              (get_value key shard' ∙ insert_found key value shard),
    )
