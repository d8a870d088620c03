-- ===== src/Base/Watermark.antt =====
-- internal/base/watermark.go: the sequence numbers that snapshots pin, each with a count of pins.
-- The Go map is an association list. The mutex makes each operation one step.
pub mod Pins
use hcdb.Prelude.{ℕ, ◌+◌, ◌-◌, List, [], ◌∷◌, ltb, leb, ◌==◌, if◌then◌else◌}
use hcdb.Base.Key.{SeqNum, seq_num_max}

pub record Watermark : Type 0 where
  pub active : List (SeqNum × ℕ)

unfoldable pub new_watermark : Watermark
new_watermark = record { active = [] }

-- active[seq], which is 0 for a missing key.
unfoldable pub lookup : SeqNum → List (SeqNum × ℕ) → ℕ
lookup seq [] = 0
lookup seq ((s, n) ∷ m) = let rest = lookup seq m in if s == seq then n else rest

-- active[seq] = n
unfoldable pub store : SeqNum → ℕ → List (SeqNum × ℕ) → List (SeqNum × ℕ)
store seq n [] = (seq, n) ∷ []
store seq n ((s, k) ∷ m) =
    let rest = store seq n m in if s == seq then (s, n) ∷ m else (s, k) ∷ rest

-- delete(active, seq). A map holds a key once; further entries could not be told from it.
unfoldable pub remove : SeqNum → List (SeqNum × ℕ) → List (SeqNum × ℕ)
remove seq [] = []
remove seq ((s, k) ∷ m) = let rest = remove seq m in if s == seq then rest else (s, k) ∷ rest

unfoldable pub begin : Watermark → SeqNum → Watermark
unfolding lookup store
begin w seq = record { active = store seq (lookup seq w.active + 1) w.active }

unfoldable pub done : Watermark → SeqNum → Watermark
unfolding lookup store remove
done w seq =
    if leb (lookup seq w.active) 1
    then record { active = remove seq w.active }
    else record { active = store seq (lookup seq w.active - 1) w.active }

-- for seq := range w.active
unfoldable pub floor_loop : SeqNum → List (SeqNum × ℕ) → SeqNum
floor_loop floor [] = floor
floor_loop floor ((s, n) ∷ m) = floor_loop (if ltb s floor then s else floor) m

unfoldable pub floor : Watermark → SeqNum
floor w = floor_loop seq_num_max w.active
