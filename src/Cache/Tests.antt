-- ===== src/Cache/Tests.antt =====
-- The theorems on the cache at concrete inputs.
use hcdb.Prelude.{length, All, List, ℕ, ◌≡◌, refl, arith, [], ◌∷◌, false, some, none}
use hcdb.Binary.{Bytes, bytes_equal}
use hcdb.Cache.{
  Lru, find, without, at_front, drop_back, evict_oldest, insert, get, sharded_put, sharded_get,
}
use hcdb.Cache.Order.{IsCache}
use hcdb.Cache.Shards.{sharded_put-get}
use hcdb.Cache.Answers.{insert-find, get-find}

-- A full cache of two numbers.
abbrev full : Lru ℕ
full = record {
  capacity = 2;
  entries = record { key = 97 ∷ []; value = 1 } ∷ record { key = 98 ∷ []; value = 2 } ∷ [];
}

full-IsCache : IsCache full
unfolding bytes_equal
full-IsCache = record { distinct = ((refl, tt), (tt, tt)); bounded = λ positive. omega arith }

insert-find_example :
    IsCache (insert (99 ∷ []) 3 full)
    × (find (99 ∷ []) (insert (99 ∷ []) 3 full).entries ≡ some 3)
    × ((j : Bytes) (w : ℕ)
        → bytes_equal (99 ∷ []) j ≡ false
        → find j (insert (99 ∷ []) 3 full).entries ≡ some w
        → find j full.entries ≡ some w)
insert-find_example = insert-find (99 ∷ []) 3 full full-IsCache

get-find_example :
    IsCache (get (98 ∷ []) full).1
    × ((get (98 ∷ []) full).0 ≡ find (98 ∷ []) full.entries)
    × ((j : Bytes) → find j (get (98 ∷ []) full).1.entries ≡ find j full.entries)
get-find_example = get-find (98 ∷ []) full full-IsCache

-- A Get saves its key from the next eviction, which takes the other one.
oldest_is_evicted : find (97 ∷ []) (insert (99 ∷ []) 3 (get (98 ∷ []) full).1).entries ≡ none
unfolding insert get find without at_front evict_oldest drop_back bytes_equal
oldest_is_evicted = refl

abbrev two_shards : List (Lru ℕ)
two_shards = full ∷ full ∷ []

sharded_put-get_example :
    (after later : List (Lru ℕ)) × (sharded_put (99 ∷ []) 3 two_shards ≡ some after)
    × (length after ≡ length two_shards)
    × All IsCache after
    × (sharded_get (99 ∷ []) after ≡ some (some 3, later))
sharded_put-get_example =
    sharded_put-get (99 ∷ []) 3 two_shards (omega arith) (omega arith)
      (full-IsCache, (full-IsCache, tt))
