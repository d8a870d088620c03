-- ===== src/Cache.antt =====
-- cache: the LRU cache of decoded blocks and its shards. container/list holds the entries from the
-- last used to the oldest, and the map holds, for each key, its element of that list. The two are
-- changed together, so the element of a key is the entry with that key. The value is of any type.
-- Each lock makes an operation one step.
pub mod Order
pub mod Answers
pub mod Shards
mod Tests
use hcdb.Prelude.{
  ℕ, zero, suc, ◌+◌, ◌%◌, ◌^◌, List, [], ◌∷◌, length, map, replicate, set, get_elem?, ltb, ◌==◌,
  ◌&&◌, not, if◌then◌else◌, Bool, true, false, Option, none, some,
}
use hcdb.Binary.{Bytes, bytes_equal}
use hcdb.Binary.Fnv.{fnv_32a}

pub record CacheEntry (V : Type 0) : Type 0 where
  pub key : Bytes
  pub value : V

pub record Lru (V : Type 0) : Type 0 where
  pub capacity : ℕ
  pub entries : List (CacheEntry V)

pub shard_index : Bytes → ℕ → ℕ
shard_index key num_shards = fnv_32a key % (num_shards % 2 ^ 32)

module _ {V : Type 0} where
  pub new_lru : ℕ → Lru V
  new_lru capacity = record { capacity = capacity; entries = [] }

  -- items[key], and the value of its element.
  pub find : Bytes → List (CacheEntry V) → Option V
  find key [] = none
  find key (e ∷ es) = let rest = find key es in if bytes_equal e.key key then some e.value else rest

  -- The list without the element of the key.
  pub without : Bytes → List (CacheEntry V) → List (CacheEntry V)
  without key [] = []
  without key (e ∷ es) = let rest = without key es in if bytes_equal e.key key then es else e ∷ rest

  -- The list without its back.
  pub drop_back : List (CacheEntry V) → List (CacheEntry V)
  drop_back [] = []
  drop_back (e ∷ []) = []
  drop_back (e ∷ f ∷ es) = e ∷ drop_back (f ∷ es)

  pub evict_oldest : Lru V → Lru V
  unfolding drop_back
  evict_oldest c = record c { entries = drop_back c.entries }

  -- A key that is there gets the value and moves to the front; another one is pushed there.
  pub at_front : Bytes → V → List (CacheEntry V) → List (CacheEntry V)
  unfolding find without
  at_front key value es = elim (find key es) [
    | some old ↦ record { key = key; value = value } ∷ without key es
    | none ↦ record { key = key; value = value } ∷ es
  ]

  -- insert, which Put calls.
  pub insert : Bytes → V → Lru V → Lru V
  unfolding at_front evict_oldest
  insert key value c =
      let c' = record c { entries = at_front key value c.entries } in
      if not (c'.capacity == 0) && ltb c'.capacity (length c'.entries) then evict_oldest c' else c'

  pub get : Bytes → Lru V → Option V × Lru V
  unfolding find without
  get key c = elim (find key c.entries) [
    | none ↦ (none, c)
    | some value ↦ (
      some value,
      record c { entries = record { key = key; value = value } ∷ without key c.entries },
    )
  ]

  unfoldable pub new_sharded_lru : ℕ → ℕ → List (Lru V)
  unfolding new_lru
  new_sharded_lru num_shards capacity_per_shard = replicate num_shards (new_lru capacity_per_shard)

  -- `none` is the panic of a cache without shards.
  pub sharded_get : Bytes → List (Lru V) → Option (Option V × List (Lru V))
  unfolding get shard_index
  sharded_get key shards =
      let idx = shard_index key (length shards) in
      elim (get_elem? shards idx) [
        | none ↦ none
        | some shard ↦ (let (value, shard') = get key shard in some (value, set shards idx shard'))
      ]

  pub sharded_put : Bytes → V → List (Lru V) → Option (List (Lru V))
  unfolding insert shard_index
  sharded_put key value shards =
      let idx = shard_index key (length shards) in
      elim (get_elem? shards idx) [
        | none ↦ none
        | some shard ↦ some (set shards idx (insert key value shard))
      ]

  -- Len of the shards.
  unfoldable pub sharded_len : List (Lru V) → ℕ
  sharded_len [] = 0
  sharded_len (shard ∷ shards) = length shard.entries + sharded_len shards
