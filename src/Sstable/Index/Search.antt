-- ===== src/Sstable/Index/Search.antt =====
-- The binary search over the index (searchIndex of sstable/index.go).
use hcdb.Prelude.{
  ℕ, zero, suc, ◌+◌, ◌-◌, ◌/◌, ◌≤◌, ◌<◌, ◌≡◌, ◌≢◌, ◌↔◌, refl, arith, List, length, ltb, Option,
  none, some, Ordering, ltb→lt, Bool-cases, Ordering-cases, subst, inl, inr,
}
use hcdb.Binary.{Bytes}
use hcdb.Binary.Compare.{bytes_compare}
use hcdb.Base.Key.{InternalKey, decode_internal_key, internal_compare}
use hcdb.Base.Key.Order.{key_compare-flip, key_compare-lt_trans}
use hcdb.Sstable.Index.{IndexEntry, first_key_at, search_loop, search_index}

-- The first keys are strictly ascending in the order of internal keys.
abbrev pub IsAscending : List IndexEntry → Type 0
IsAscending index =
    (i j : ℕ)
    → i < j
    → j < length index
    → internal_compare bytes_compare (first_key_at index i) (first_key_at index j) ≡ Ordering.lt

-- How many entries the result counts: those up to and with it.
abbrev pub counted : Option ℕ → ℕ
counted none = 0
counted (some r) = suc r

module _ (index : List IndexEntry) (target : InternalKey) where
  -- The entry sorts at or before the target.
  abbrev IsBefore : ℕ → Type 0
  IsBefore i = internal_compare bytes_compare (first_key_at index i) target ≢ Ordering.gt

  -- What the loop has found out: every entry below lo is before the target, none from end on is.
  record Bracket (lo end : ℕ) (result : Option ℕ) : Type 0 where
    below : (i : ℕ) → i < lo → IsBefore i
    above : (i : ℕ) → end ≤ i → i < length index → ¬ IsBefore i
    within : end ≤ length index
    ordered : lo ≤ end
    count : counted result ≡ lo

  -- With ascending keys what is before the target is a first part of the index.
  IsBefore-down : IsAscending index → (i j : ℕ) → i < j → j < length index → IsBefore j → IsBefore i
  IsBefore-down asc i j lt range h = λ gt. h (
      ground (
        arith,
        key_compare-flip (first_key_at index i) target,
        key_compare-lt_trans target (first_key_at index i) (first_key_at index j),
        key_compare-flip target (first_key_at index j),
        asc i j lt range,
      ))

  closed :
      (lo end : ℕ) (result : Option ℕ)
      → end ≤ lo
      → Bracket lo end result
      → (n : ℕ) × Bracket n n result
  closed lo end result h b = (
    lo,
    record {
      below = b.below;
      above = λ i le range. b.above i (omega arith) range;
      within = omega (arith, b.within, b.ordered);
      ordered = omega arith;
      count = b.count;
    },
  )

  go_right :
      (lo end mid : ℕ) (result : Option ℕ)
      → IsAscending index
      → mid < end
      → IsBefore mid
      → Bracket lo end result
      → Bracket (mid + 1) end (some mid)
  go_right lo end mid result asc lt h b = record {
    below = λ i le. elim (Bool-cases (ltb i mid)) [
      | inl less ↦ IsBefore-down asc i mid (ground arith) (omega (arith, b.within)) h
      | inr most ↦ (let same : mid ≡ i = ground arith in subst IsBefore same h)
    ];
    above = b.above;
    within = b.within;
    ordered = omega arith;
    count = omega arith;
  }

  go_left :
      (lo end mid : ℕ) (result : Option ℕ)
      → IsAscending index
      → lo ≤ mid
      → mid < end
      → ¬ IsBefore mid
      → Bracket lo end result
      → Bracket lo mid result
  go_left lo end mid result asc le lt h b = record {
    below = b.below;
    above = λ i more range. elim (Bool-cases (ltb mid i)) [
      | inl greater ↦ λ k. h (IsBefore-down asc mid i (ground arith) range k)
      | inr least ↦ (let same : mid ≡ i = ground arith in subst (λ x. ¬ IsBefore x) same h)
    ];
    within = omega (arith, b.within);
    ordered = le;
    count = b.count;
  }

  search_loop_lem :
      (fuel lo end : ℕ) (result : Option ℕ)
      → IsAscending index
      → end - lo ≤ fuel
      → Bracket lo end result
      → (n : ℕ) × Bracket n n (search_loop fuel index target lo end result)
  unfolding search_loop
  search_loop_lem zero lo end result asc enough b =
      closed lo end result (omega (arith, b.ordered)) b
  search_loop_lem (suc fuel) lo end result asc enough b =
      let mid = (lo + (end - 1)) / 2 in
      elim (Bool-cases (ltb lo end)) [
        | inr stops ↦ rw (search_loop, stops) (closed lo end result (ground arith) b)
        | inl goes ↦
            elim (Ordering-cases (internal_compare bytes_compare (first_key_at index mid) target)) [
              | inl lt ↦
                  rw (search_loop, goes, lt)
                    (search_loop_lem fuel (mid + 1) end (some mid) asc (ground arith)
                      (go_right lo end mid result asc (ground arith) (λ gt. cc) b))
              | inr (inl eq) ↦
                  rw (search_loop, goes, eq)
                    (search_loop_lem fuel (mid + 1) end (some mid) asc (ground arith)
                      (go_right lo end mid result asc (ground arith) (λ gt. cc) b))
              | inr (inr gt) ↦
                  rw (search_loop, goes, gt)
                    (search_loop_lem fuel lo mid result asc (ground arith)
                      (go_left lo end mid result asc (ground arith) (ground arith) (λ h. h gt) b))
            ]
      ]

-- On an index with strictly ascending first keys the search counts exactly the entries whose first key sorts at or before the key: entry i is one of the first n exactly if it does, where n is one more than the result, or 0 for the result -1, and n is at most the length.
pub search_index_lem :
    (index : List IndexEntry) (key : Bytes)
    → IsAscending index
    → (counted (search_index index key) ≤ length index)
      × ((i : ℕ)
          → i < length index
          → (i < counted (search_index index key)) ↔ (
              internal_compare bytes_compare (first_key_at index i) (decode_internal_key key)
              ≢ Ordering.gt))
unfolding search_index
search_index_lem index key asc =
    let (n, b) =
      search_loop_lem index (decode_internal_key key) (length index) 0 (length index) none asc
        (omega arith)
        (record {
          below = λ i lt. absurd (omega arith);
          above = λ i le range. absurd (omega arith);
          within = omega arith;
          ordered = omega arith;
          count = refl;
        }) in
    (
      omega (arith, b.count, b.within),
      λ i range. (
        λ lt. b.below i (omega (arith, b.count)),
        λ h. elim (Bool-cases (ltb i n)) [
          | inl less ↦ omega (arith, b.count, ltb→lt i n less)
          | inr more ↦ absurd (b.above i (ground arith) range h)
        ],
      ),
    )
