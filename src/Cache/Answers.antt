-- ===== src/Cache/Answers.antt =====
-- Get and Put of the cache (cache/lru.go, cache/operations.go).
use hcdb.Prelude.{
  ◌≡◌, refl, sym, subst, ap, ◌∙◌, arith, if◌then◌else◌, Bool, false, some, inl, inr, Bool-cases,
  Option-cases,
}
use hcdb.Binary.{Bytes, bytes_equal, bytes_equal→eq, bytes_equal_refl}
use hcdb.Cache.{Lru, find, at_front, insert, get}
use hcdb.Cache.Order.{
  IsCache, insert-cases, at_front-AreDistinct, drop_back-AreDistinct, find-at_front, find-drop_back,
  front_stays, length-at_front, length-at_front_there, length-drop_back,
}

module _ {V : Type 0} where
  pub insert-IsCache :
      (key : Bytes) (value : V) (c : Lru V) → IsCache c → IsCache (insert key value c)
  insert-IsCache key value c h = elim (insert-cases key value c) [
    | inl (fits, e) ↦ subst IsCache (sym e) (record {
      distinct = at_front-AreDistinct key value c.entries h.distinct;
      bounded = λ positive. ground (arith, fits);
    })
    | inr (over, e) ↦ subst IsCache (sym e) (record {
      distinct =
          drop_back-AreDistinct (at_front key value c.entries)
            (at_front-AreDistinct key value c.entries h.distinct);
      bounded = λ positive. omega (
        arith,
        h.bounded positive,
        length-at_front key value c.entries,
        length-drop_back (at_front key value c.entries),
      );
    })
  ]

  pub insert_found :
      (key : Bytes) (value : V) (c : Lru V) → find key (insert key value c).entries ≡ some value
  insert_found key value c = elim (insert-cases key value c) [
    | inl (fits, e) ↦
        ap (λ (c : Lru V). find key c.entries) e
        ∙ find-at_front key key value c.entries
        ∙ ap (λ (b : Bool). if b then some value else find key c.entries) (bytes_equal_refl key)
    | inr (over, e) ↦
        ap (λ (c : Lru V). find key c.entries) e
        ∙ front_stays key value c.entries (ground (arith, over))
  ]

  at_front_others :
      (key j : Bytes) (value : V) (c : Lru V)
      → bytes_equal key j ≡ false
      → find j (at_front key value c.entries) ≡ find j c.entries
  at_front_others key j value c other =
      find-at_front key j value c.entries
      ∙ ap (λ (b : Bool). if b then some value else find j c.entries) other

  insert_others :
      (key j : Bytes) (value w : V) (c : Lru V)
      → bytes_equal key j ≡ false
      → find j (insert key value c).entries ≡ some w
      → find j c.entries ≡ some w
  insert_others key j value w c other found =
      sym (at_front_others key j value c other) ∙ elim (insert-cases key value c) [
        | inl (fits, e) ↦ sym (ap (λ (c : Lru V). find j c.entries) e) ∙ found
        | inr (over, e) ↦
            find-drop_back j (at_front key value c.entries) w
              (sym (ap (λ (c : Lru V). find j c.entries) e) ∙ found)
      ]

module _ {V : Type 0} where
  get_moves :
      (key : Bytes) (v : V) (c : Lru V)
      → find key c.entries ≡ some v
      → get key c ≡ (some v, record c { entries = at_front key v c.entries })
  unfolding get at_front
  get_moves key v c there = rw (get, there, at_front) refl

  front-IsCache :
      (key : Bytes) (v : V) (c : Lru V)
      → IsCache c
      → find key c.entries ≡ some v
      → IsCache (record c { entries = at_front key v c.entries })
  front-IsCache key v c h there = record {
    distinct = at_front-AreDistinct key v c.entries h.distinct;
    bounded =
        λ positive. omega (arith, h.bounded positive, length-at_front_there key v c.entries there);
  }

  front_same :
      (key j : Bytes) (v : V) (c : Lru V)
      → find key c.entries ≡ some v
      → find j (at_front key v c.entries) ≡ find j c.entries
  front_same key j v c there = elim (Bool-cases (bytes_equal key j)) [
    | inr other ↦ at_front_others key j v c other
    | inl same ↦
        find-at_front key j v c.entries
        ∙ ap (λ (b : Bool). if b then some v else find j c.entries) same
        ∙ sym there
        ∙ ap (λ (k : Bytes). find k c.entries) (bytes_equal→eq key j same)
  ]

-- A Put keeps the keys of the cache distinct and their number within the capacity. Afterwards the key has the value, and any other key that still has a value has the one it had before.
pub insert-find :
    {V : Type 0} (key : Bytes) (value : V) (c : Lru V)
    → IsCache c
    → IsCache (insert key value c)
      × (find key (insert key value c).entries ≡ some value)
      × ((j : Bytes) (w : V)
          → bytes_equal key j ≡ false
          → find j (insert key value c).entries ≡ some w
          → find j c.entries ≡ some w)
insert-find key value c h =
    (insert-IsCache key value c h, insert_found key value c, λ j w. insert_others key j value w c)

-- A Get answers with the value that the key has, and keeps the invariant of the cache and the value of every key.
pub get-find :
    {V : Type 0} (key : Bytes) (c : Lru V)
    → IsCache c
    → IsCache (get key c).1
      × ((get key c).0 ≡ find key c.entries)
      × ((j : Bytes) → find j (get key c).1.entries ≡ find j c.entries)
unfolding get
get-find key c h = elim (Option-cases (find key c.entries)) [
  | inl absent ↦ rw (get, absent) (h, refl, λ j. refl)
  | inr (v, there) ↦
      let moved = get_moves key v c there in
      (
        subst IsCache (sym (ap (λ r. r.1) moved)) (front-IsCache key v c h there),
        ap (λ r. r.0) moved ∙ sym there,
        λ j. ap (λ r. find j r.1.entries) moved ∙ front_same key j v c there,
      )
]
