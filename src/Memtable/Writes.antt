-- ===== src/Memtable/Writes.antt =====
-- The order of the tree under ReplaceOrInsert, and what a newer item changes for a read
-- (memtable/memtable.go).
use hcdb.Prelude.{
  ◌<◌, ◌≡◌, ◌≢◌, refl, sym, subst, ap, ◌∙◌, arith, List, [], ◌∷◌, if◌then◌else◌, true, false, some,
  Ordering, Ordering-cases, Bool-cases, inl, inr, All,
}
use hcdb.Binary.{Bytes}
use hcdb.Binary.Compare.{bytes_compare, flip}
use hcdb.Base.Key.{SeqNum, InternalKey, decode_internal_key, internal_compare}
use hcdb.Base.Key.Order.{key_compare-flip, key_compare-lt_trans, key_compare-eq}
use hcdb.Versions.{is_version, newest_version}
use hcdb.Versions.Newest.{IsSorted, All-map, is_version_user_key}
use hcdb.Memtable.{Item, item_compare, insert_ordered}
use hcdb.Memtable.Seek.{item_key, same_user_compare}

abbrev ik : Item → InternalKey
ik x = decode_internal_key x.key

-- Every version of the item's user key is older than the item.
abbrev pub IsNewer : Item → List Item → Type 0
IsNewer x xs = All (λ y. (ik y).user_key ≡ (ik x).user_key → (ik y).trailer < (ik x).trailer) xs

-- A newer version of the same user key sorts first.
newer_first :
    (x y : Item)
    → (ik y).user_key ≡ (ik x).user_key
    → (ik y).trailer < (ik x).trailer
    → item_compare x y ≡ Ordering.lt
unfolding item_compare
newer_first x y same lt = ground (arith, same_user_compare (ik x) (ik y) (sym same), lt)

equal_items : (x y : Item) → item_compare x y ≡ Ordering.eq → ik x ≡ ik y
unfolding item_compare
equal_items x y e = key_compare-eq (ik x) (ik y) e

-- A version that stands in front of a newer item is one of another user key.
not_in_front :
    (k : Bytes) (s : SeqNum) (x y : Item)
    → ((ik y).user_key ≡ (ik x).user_key → (ik y).trailer < (ik x).trailer)
    → item_compare x y ≡ Ordering.gt
    → is_version k s x.key ≡ true
    → is_version k s y.key ≡ false
not_in_front k s x y newer gt sees = elim (Bool-cases (is_version k s y.key)) [
  | inr hidden ↦ hidden
  | inl both ↦
      let same = is_version_user_key k s y.key both ∙ sym (is_version_user_key k s x.key sees) in
      absurd (ground (arith, newer_first x y same (newer same), gt))
]

pub newest_version-insert_ordered :
    (k : Bytes) (s : SeqNum) (x : Item) (xs : List Item)
    → IsNewer x xs
    → newest_version item_key k s (insert_ordered x xs)
      ≡ (if is_version k s x.key then some x else newest_version item_key k s xs)
unfolding newest_version insert_ordered
newest_version-insert_ordered k s x [] newer = refl
newest_version-insert_ordered k s x (y ∷ ys) newer = elim (Ordering-cases (item_compare x y)) [
  | inl lt ↦ rw (insert_ordered, lt) refl
  | inr (inl eq) ↦
      let same = equal_items x y eq in
      absurd (
        omega (
          arith,
          newer.0 (ap (λ (a : InternalKey). a.user_key) (sym same)),
          ap (λ (a : InternalKey). a.trailer) same,
        ))
  | inr (inr gt) ↦ elim (Bool-cases (is_version k s x.key)) [
    | inl sees ↦
        rw
          (
            insert_ordered,
            gt,
            newest_version,
            not_in_front k s x y newer.0 gt sees,
            newest_version-insert_ordered k s x ys newer.1,
            sees,
          )
          refl
    | inr hidden ↦ elim (Bool-cases (is_version k s y.key)) [
      | inl sees ↦ rw (insert_ordered, gt, newest_version, sees, hidden) refl
      | inr not_y ↦
          rw
            (
              insert_ordered,
              gt,
              newest_version,
              not_y,
              newest_version-insert_ordered k s x ys newer.1,
              hidden,
            )
            refl
    ]
  ]
]

pub All-insert_ordered :
    (P : Item → Type 0) (x : Item) (xs : List Item) → P x → All P xs → All P (insert_ordered x xs)
unfolding insert_ordered
All-insert_ordered P x [] here h = (here, tt)
All-insert_ordered P x (y ∷ ys) here h = elim (Ordering-cases (item_compare x y)) [
  | inl lt ↦ rw (insert_ordered, lt) (here, h)
  | inr (inl eq) ↦ rw (insert_ordered, eq) (here, h.1)
  | inr (inr gt) ↦ rw (insert_ordered, gt) (h.0, All-insert_ordered P x ys here h.1)
]

not_lt-flip :
    (x y : Item) (o : Ordering)
    → item_compare x y ≡ o
    → flip o ≢ Ordering.lt
    → internal_compare bytes_compare (ik y) (ik x) ≢ Ordering.lt
unfolding item_compare
not_lt-flip x y o e ne r = ne (sym (ap flip e) ∙ sym (key_compare-flip (ik x) (ik y)) ∙ r)

before_trans :
    (z x y : Item)
    → internal_compare bytes_compare (ik z) (ik x) ≡ Ordering.lt
    → item_compare x y ≡ Ordering.lt
    → internal_compare bytes_compare (ik z) (ik y) ≡ Ordering.lt
unfolding item_compare
before_trans z x y p q = key_compare-lt_trans (ik z) (ik x) (ik y) p q

not_lt :
    (x y : Item)
    → item_compare x y ≡ Ordering.gt
    → internal_compare bytes_compare (ik x) (ik y) ≢ Ordering.lt
unfolding item_compare
not_lt x y gt r = absurd (cc (gt, r))

pub insert_ordered-IsSorted :
    (x : Item) (xs : List Item) → IsSorted item_key xs → IsSorted item_key (insert_ordered x xs)
unfolding insert_ordered
insert_ordered-IsSorted x [] h = (tt, tt)
insert_ordered-IsSorted x (y ∷ ys) h = elim (Ordering-cases (item_compare x y)) [
  | inl lt ↦
      rw (insert_ordered, lt)
        (
          (
            not_lt-flip x y Ordering.lt lt (λ r. absurd (cc)),
            All-map item_key (λ z behind r. behind (before_trans z x y r lt)) ys h.0,
          ),
          h,
        )
  | inr (inl eq) ↦
      rw (insert_ordered, eq)
        (
          subst (λ a. All (λ z. internal_compare bytes_compare (ik z) a ≢ Ordering.lt) ys)
              (sym (equal_items x y eq)) h.0,
          h.1,
        )
  | inr (inr gt) ↦
      rw (insert_ordered, gt)
        (
          All-insert_ordered (λ z. internal_compare bytes_compare (ik z) (ik y) ≢ Ordering.lt) x ys
              (not_lt x y gt) h.0,
          insert_ordered-IsSorted x ys h.1,
        )
]
