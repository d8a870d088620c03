-- ===== src/Cache/Order.antt =====
-- The entries of a cache when one moves to the front and when the back is dropped (cache/lru.go).
use hcdb.Prelude.{
  ◌+◌, ◌-◌, ◌≤◌, ◌<◌, ◌≡◌, ◌⊎◌, refl, sym, subst, ap, arith, List, [], ◌∷◌, length, ltb, ◌==◌, ◌&&◌,
  not, if◌then◌else◌, Bool, true, false, Option, none, some, All, inl, inr, Bool-cases,
  Option-cases,
}
use hcdb.Binary.{Bytes, bytes_equal, bytes_equal→eq, bytes_equal_refl}
use hcdb.Cache.{CacheEntry, Lru, find, without, drop_back, evict_oldest, at_front, insert}

module _ {V : Type 0} where
  -- No key is there twice, and a capacity that is not 0 is kept.
  abbrev pub AreDistinct : List (CacheEntry V) → Type 0
  AreDistinct [] = Unit {0}
  AreDistinct (e ∷ es) = All (λ f. bytes_equal f.key e.key ≡ false) es × AreDistinct es

  pub record IsCache (c : Lru V) : Type 0 where
    pub distinct : AreDistinct c.entries
    pub bounded : 0 < c.capacity → length c.entries ≤ c.capacity

  All-without :
      (P : CacheEntry V → Type 0) (key : Bytes) (es : List (CacheEntry V))
      → All P es
      → All P (without key es)
  unfolding without
  All-without P key [] h = tt
  All-without P key (e ∷ es) h = elim (Bool-cases (bytes_equal e.key key)) [
    | inl here ↦ rw (without, here) h.1
    | inr other ↦ rw (without, other) (h.0, All-without P key es h.1)
  ]

  pub without-AreDistinct :
      (key : Bytes) (es : List (CacheEntry V)) → AreDistinct es → AreDistinct (without key es)
  unfolding without
  without-AreDistinct key [] h = tt
  without-AreDistinct key (e ∷ es) h = elim (Bool-cases (bytes_equal e.key key)) [
    | inl here ↦ rw (without, here) h.1
    | inr other ↦
        rw (without, other)
          (
            All-without (λ f. bytes_equal f.key e.key ≡ false) key es h.0,
            without-AreDistinct key es h.1,
          )
  ]

  -- Without its element the key is not there.
  without_gone :
      (key : Bytes) (es : List (CacheEntry V))
      → AreDistinct es
      → All (λ f. bytes_equal f.key key ≡ false) (without key es)
  unfolding without
  without_gone key [] h = tt
  without_gone key (e ∷ es) h = elim (Bool-cases (bytes_equal e.key key)) [
    | inl here ↦
        rw (without, here)
          (subst (λ (k : Bytes). All (λ f. bytes_equal f.key k ≡ false) es)
            (bytes_equal→eq e.key key here) h.0)
    | inr other ↦ rw (without, other) (other, without_gone key es h.1)
  ]

  not_found :
      (key : Bytes) (es : List (CacheEntry V))
      → find key es ≡ none
      → All (λ f. bytes_equal f.key key ≡ false) es
  unfolding find
  not_found key [] h = tt
  not_found key (e ∷ es) h = elim (Bool-cases (bytes_equal e.key key)) [
    | inl here ↦ absurd (cc (rw (find, here) at h))
    | inr other ↦ (other, not_found key es (rw (find, other) at h))
  ]

  pub length-without :
      (key : Bytes) (es : List (CacheEntry V)) {v : V}
      → find key es ≡ some v
      → length (without key es) + 1 ≡ length es
  unfolding without find
  length-without key [] h = absurd (cc h)
  length-without key (e ∷ es) h = elim (Bool-cases (bytes_equal e.key key)) [
    | inl here ↦ rw (without, here) (omega arith)
    | inr other ↦ rw (without, other) (omega (arith, length-without key es (rw (find, other) at h)))
  ]

  find-without :
      (key j : Bytes) (es : List (CacheEntry V))
      → bytes_equal key j ≡ false
      → find j (without key es) ≡ find j es
  unfolding find without
  find-without key j [] ne = refl
  find-without key j (e ∷ es) ne = elim (Bool-cases (bytes_equal e.key key)) [
    | inl here ↦
        rw
          (
            without,
            here,
            find,
            subst (λ (k : Bytes). bytes_equal k j ≡ false) (sym (bytes_equal→eq e.key key here)) ne,
          )
          refl
    | inr other ↦
        rw (without, other, find)
          (ap (λ (o : Option V). if bytes_equal e.key j then some e.value else o)
            (find-without key j es ne))
  ]

  pub at_front-AreDistinct :
      (key : Bytes) (value : V) (es : List (CacheEntry V))
      → AreDistinct es
      → AreDistinct (at_front key value es)
  unfolding at_front
  at_front-AreDistinct key value es h = elim (Option-cases (find key es)) [
    | inl absent ↦ rw (at_front, absent) (not_found key es absent, h)
    | inr (v, there) ↦ rw (at_front, there) (without_gone key es h, without-AreDistinct key es h)
  ]

  pub find-at_front :
      (key j : Bytes) (value : V) (es : List (CacheEntry V))
      → find j (at_front key value es) ≡ (if bytes_equal key j then some value else find j es)
  unfolding at_front find
  find-at_front key j value es = elim (Option-cases (find key es)) [
    | inl absent ↦ rw (at_front, absent) refl
    | inr (v, there) ↦ elim (Bool-cases (bytes_equal key j)) [
      | inl same ↦ rw (at_front, there, find, same) refl
      | inr other ↦ rw (at_front, there, find, other) (find-without key j es other)
    ]
  ]

  pub length-at_front :
      (key : Bytes) (value : V) (es : List (CacheEntry V))
      → length (at_front key value es) ≤ length es + 1
  unfolding at_front
  length-at_front key value es = elim (Option-cases (find key es)) [
    | inl absent ↦ rw (at_front, absent) (omega arith)
    | inr (v, there) ↦ rw (at_front, there) (omega (arith, length-without key es there))
  ]

  pub length-at_front_there :
      (key : Bytes) (value : V) (es : List (CacheEntry V)) {v : V}
      → find key es ≡ some v
      → length (at_front key value es) ≡ length es
  unfolding at_front
  length-at_front_there key value es there =
      rw (at_front, there) (omega (arith, length-without key es there))

  pub length-drop_back : (es : List (CacheEntry V)) → length (drop_back es) ≡ length es - 1
  unfolding drop_back
  length-drop_back [] = refl
  length-drop_back (e ∷ []) = refl
  length-drop_back (e ∷ f ∷ es) = omega (arith, length-drop_back (f ∷ es))

  All-drop_back :
      (P : CacheEntry V → Type 0) (es : List (CacheEntry V)) → All P es → All P (drop_back es)
  unfolding drop_back
  All-drop_back P [] h = tt
  All-drop_back P (e ∷ []) h = tt
  All-drop_back P (e ∷ f ∷ es) h = (h.0, All-drop_back P (f ∷ es) h.1)

  pub drop_back-AreDistinct :
      (es : List (CacheEntry V)) → AreDistinct es → AreDistinct (drop_back es)
  unfolding drop_back
  drop_back-AreDistinct [] h = tt
  drop_back-AreDistinct (e ∷ []) h = tt
  drop_back-AreDistinct (e ∷ f ∷ es) h = (
    All-drop_back (λ g. bytes_equal g.key e.key ≡ false) (f ∷ es) h.0,
    drop_back-AreDistinct (f ∷ es) h.1,
  )

  -- What is found after the back is dropped was found before.
  pub find-drop_back :
      (j : Bytes) (es : List (CacheEntry V)) (v : V)
      → find j (drop_back es) ≡ some v
      → find j es ≡ some v
  unfolding find drop_back
  find-drop_back j [] v h = h
  find-drop_back j (e ∷ []) v h = absurd (cc h)
  find-drop_back j (e ∷ f ∷ es) v h = elim (Bool-cases (bytes_equal e.key j)) [
    | inl here ↦ rw (find, here) (rw (find, here) at h)
    | inr other ↦ rw (find, other) (find-drop_back j (f ∷ es) v (rw (find, other) at h))
  ]

  first_stays :
      (e : CacheEntry V) (es : List (CacheEntry V))
      → 1 < length (e ∷ es)
      → find e.key (drop_back (e ∷ es)) ≡ some e.value
  unfolding find drop_back
  first_stays e [] h = absurd (omega arith)
  first_stays e (f ∷ es) h = rw (find, bytes_equal_refl e.key) refl

  pub front_stays :
      (key : Bytes) (value : V) (es : List (CacheEntry V))
      → 1 < length (at_front key value es)
      → find key (drop_back (at_front key value es)) ≡ some value
  unfolding at_front
  front_stays key value es h = elim (Option-cases (find key es)) [
    | inl absent ↦
        rw (at_front, absent)
          (first_stays (record { key = key; value = value }) es (rw (at_front, absent) at h))
    | inr (v, there) ↦
        rw (at_front, there)
          (first_stays (record { key = key; value = value }) (without key es)
            (rw (at_front, there) at h))
  ]

  abbrev pub is_over : Lru V → List (CacheEntry V) → Bool
  is_over c es = not (c.capacity == 0) && ltb c.capacity (length es)

  -- What a Put leaves: all is kept, or the back is dropped.
  pub insert-cases :
      (key : Bytes) (value : V) (c : Lru V)
      → ((is_over c (at_front key value c.entries) ≡ false)
          × (insert key value c ≡ record c { entries = at_front key value c.entries }))
        ⊎ ((is_over c (at_front key value c.entries) ≡ true)
            × (insert key value c
                ≡ record c { entries = drop_back (at_front key value c.entries) }))
  unfolding insert evict_oldest
  insert-cases key value c = elim (Bool-cases (is_over c (at_front key value c.entries))) [
    | inl over ↦ inr (over, rw (insert, over) refl)
    | inr fits ↦ inl (fits, rw (insert, fits) refl)
  ]
