-- ===== src/Base/Watermark/Pins.antt =====
-- The pins of a watermark over any run of Begin and Done (internal/base/watermark.go).
use hcdb.Prelude.{
  ℕ, ◌+◌, ◌-◌, ◌≤◌, ◌<◌, ◌≡◌, ◌⊎◌, inl, refl, arith, List, [], ◌∷◌, ltb, ◌==◌, if◌then◌else◌, All,
}
use hcdb.Base.Key.{SeqNum, seq_num_max}
use hcdb.Base.Watermark.{
  Watermark, new_watermark, lookup, store, remove, begin, done, floor_loop, floor,
}

-- How often seq is pinned.
abbrev pub pins : Watermark → SeqNum → ℕ
pins w seq = lookup seq w.active

lookup-store :
    (s t : SeqNum) (n : ℕ) (m : List (SeqNum × ℕ))
    → lookup t (store s n m) ≡ (if s == t then n else lookup t m)
unfolding lookup store
lookup-store s t n [] = refl
lookup-store s t n ((u, k) ∷ m) = ground (arith, lookup-store s t n m)

lookup-remove :
    (s t : SeqNum) (m : List (SeqNum × ℕ))
    → lookup t (remove s m) ≡ (if s == t then 0 else lookup t m)
unfolding lookup remove
lookup-remove s t [] = ground arith
lookup-remove s t ((u, k) ∷ m) = ground (arith, lookup-remove s t m)

-- Begin adds one pin to its sequence number and leaves every other count alone.
pub pins-begin :
    (w : Watermark) (s t : SeqNum)
    → pins (begin w s) t ≡ (if s == t then pins w t + 1 else pins w t)
unfolding begin
pins-begin w s t = ground (arith, lookup-store s t (lookup s w.active + 1) w.active)

-- Done takes one pin from its sequence number, if it has any, and leaves every other count alone.
pub pins-done :
    (w : Watermark) (s t : SeqNum) → pins (done w s) t ≡ (if s == t then pins w t - 1 else pins w t)
unfolding done
pins-done w s t =
    ground (arith, lookup-store s t (lookup s w.active - 1) w.active, lookup-remove s t w.active)

pub data Event : Type 0 where
  begun ended : SeqNum → Event

-- What the callers do, one call after another.
unfoldable pub run : Watermark → List Event → Watermark
run w [] = w
run w (begun s ∷ es) = run (begin w s) es
run w (ended s ∷ es) = run (done w s) es

-- The specification: a count for each sequence number by itself.
pub balance : SeqNum → ℕ → List Event → ℕ
balance t n [] = n
balance t n (begun s ∷ es) = balance t (if s == t then n + 1 else n) es
balance t n (ended s ∷ es) = balance t (if s == t then n - 1 else n) es

pub pins-run :
    (w : Watermark) (es : List Event) (t : SeqNum) → pins (run w es) t ≡ balance t (pins w t) es
unfolding run balance
pins-run w [] t = refl
pins-run w (begun s ∷ es) t = rw (pins-run (begin w s) es t, pins-begin w s t)
pins-run w (ended s ∷ es) t = rw (pins-run (done w s) es t, pins-done w s t)

-- Every entry of the map counts at least one pin.
abbrev pub IsCounted : Watermark → Type 0
IsCounted w = All (λ p. 0 < p.1) w.active

store-IsCounted :
    (s : SeqNum) (n : ℕ) (m : List (SeqNum × ℕ))
    → 0 < n
    → All (λ p. 0 < p.1) m
    → All (λ p. 0 < p.1) (store s n m)
unfolding store
store-IsCounted s n [] h a = (h, tt)
store-IsCounted s n ((u, k) ∷ m) h a = ground (arith, store-IsCounted s n m)

remove-IsCounted :
    (s : SeqNum) (m : List (SeqNum × ℕ)) → All (λ p. 0 < p.1) m → All (λ p. 0 < p.1) (remove s m)
unfolding remove
remove-IsCounted s [] a = tt
remove-IsCounted s ((u, k) ∷ m) a = ground (arith, remove-IsCounted s m)

begin-IsCounted : (w : Watermark) (s : SeqNum) → IsCounted w → IsCounted (begin w s)
unfolding begin
begin-IsCounted w s h = store-IsCounted s (lookup s w.active + 1) w.active (omega arith) h

done-IsCounted : (w : Watermark) (s : SeqNum) → IsCounted w → IsCounted (done w s)
unfolding done
done-IsCounted w s h =
    ground (arith, store-IsCounted s (lookup s w.active - 1) w.active, remove-IsCounted s w.active)

run-IsCounted : (w : Watermark) (es : List Event) → IsCounted w → IsCounted (run w es)
unfolding run
run-IsCounted w [] h = h
run-IsCounted w (begun s ∷ es) h = run-IsCounted (begin w s) es (begin-IsCounted w s h)
run-IsCounted w (ended s ∷ es) h = run-IsCounted (done w s) es (done-IsCounted w s h)

floor_loop-le : (f : SeqNum) (m : List (SeqNum × ℕ)) → floor_loop f m ≤ f
unfolding floor_loop
floor_loop-le f [] = omega arith
floor_loop-le f ((s, n) ∷ m) = ground (arith, floor_loop-le (if ltb s f then s else f) m)

floor_loop-least : (f s : SeqNum) (m : List (SeqNum × ℕ)) → 0 < lookup s m → floor_loop f m ≤ s
unfolding floor_loop lookup
floor_loop-least f s [] h = absurd (omega arith)
floor_loop-least f s ((u, n) ∷ m) h = ground (
  arith,
  floor_loop-least (if ltb u f then u else f) s m,
  floor_loop-le (if ltb u f then u else f) m,
)

floor_loop-attained :
    (f : SeqNum) (m : List (SeqNum × ℕ))
    → All (λ p. 0 < p.1) m
    → (floor_loop f m ≡ f) ⊎ (0 < lookup (floor_loop f m) m)
unfolding floor_loop lookup
floor_loop-attained f [] a = inl refl
floor_loop-attained f ((s, n) ∷ m) a =
    ground (arith, floor_loop-attained (if ltb s f then s else f) m)

pins-run_new : (es : List Event) (t : SeqNum) → pins (run new_watermark es) t ≡ balance t 0 es
unfolding new_watermark lookup
pins-run_new es t = pins-run new_watermark es t

run-IsCounted_new : (es : List Event) → IsCounted (run new_watermark es)
unfolding new_watermark
run-IsCounted_new es = run-IsCounted new_watermark es tt

-- After any calls of Begin and Done from a new watermark, the floor is at most every sequence number that still has a pin, and it is itself such a number or SeqNumMax. A number has a pin if its Begins outnumber its Dones, a Done without a pin counting for nothing.
pub floor_least_pinned :
    (es : List Event)
    → ((s : SeqNum) → 0 < balance s 0 es → floor (run new_watermark es) ≤ s)
      × ((floor (run new_watermark es) ≡ seq_num_max)
          ⊎ (0 < balance (floor (run new_watermark es)) 0 es))
unfolding floor
floor_least_pinned es =
    let w = run new_watermark es in
    (
      λ s h. floor_loop-least seq_num_max s w.active (rw (pins-run_new es s) h),
      rw (← pins-run_new es (floor w))
          (floor_loop-attained seq_num_max w.active (run-IsCounted_new es)),
    )
