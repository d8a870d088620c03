-- ===== src/Memtable/Scan.antt =====
-- NewIterator of the memtable (memtable/iterator.go).
use hcdb.Prelude.{
  ◌≤◌, ◌≡◌, ◌≢◌, refl, sym, subst, ap, ◌∙◌, arith, List, [], ◌∷◌, ◌&&◌, not, if◌then◌else◌, Bool,
  true, false, Option, none, some, Ordering, Ordering-cases, Bool-cases, inl, inr, All,
}
use hcdb.Binary.{Bytes}
use hcdb.Binary.Compare.{
  bytes_compare, flip, bytes_compare-eq, bytes_compare-flip, bytes_compare-lt_trans,
}
use hcdb.Base.Key.{
  SeqNum, InternalKey, decode_internal_key, internal_compare, make_search_key_at, visible,
  seq_num_max,
}
use hcdb.Versions.Newest.{IsSorted, All-map}
use hcdb.Memtable.{
  Item, less, at_or_after, BTree, MemTable, is_past, collect_visible, ascend, new_iterator,
}
use hcdb.Memtable.Seek.{
  item_key, HasKind, IsOrdered, pivot_of, less_pivot, seek_version, users_lt, search_user_key,
}

abbrev user_key : Item → Bytes
user_key x = (decode_internal_key x.key).user_key

unfoldable pub select : (Item → Bool) → List Item → List Item
select p [] = []
select p (x ∷ xs) = if p x then x ∷ select p xs else select p xs

-- The user key is not below the lower bound.
abbrev pub is_from : Bytes → Bytes → Bool
is_from lower_bound key = elim (bytes_compare key lower_bound) [ Ordering.lt ↦ false | _ ↦ true ]

-- The item is in the range, ends included, and the snapshot sees it.
abbrev pub in_scan : Bytes → Option Bytes → SeqNum → Item → Bool
in_scan lower_bound upper_bound snapshot x =
    is_from lower_bound (user_key x)
    && (not (is_past upper_bound (user_key x)) && visible (decode_internal_key x.key) snapshot)

users_gt :
    (a c : InternalKey)
    → bytes_compare a.user_key c.user_key ≡ Ordering.gt
    → internal_compare bytes_compare a c ≡ Ordering.gt
unfolding internal_compare
users_gt a c e = rw (internal_compare, e) refl

-- A key that is not before one past the bound is past it.
pub is_past_behind :
    (upper_bound : Option Bytes) (a c : Bytes)
    → is_past upper_bound a ≡ true
    → bytes_compare c a ≢ Ordering.lt
    → is_past upper_bound c ≡ true
unfolding is_past
is_past_behind none a c past behind = absurd (cc (past))
is_past_behind (some ub) a c past behind =
    let above : bytes_compare ub a ≡ Ordering.lt = ground (arith, past, bytes_compare-flip a ub) in
    let below : bytes_compare ub c ≡ Ordering.lt → is_past (some ub) c ≡ true =
      λ r. ground (arith, r, bytes_compare-flip ub c) in
    elim (Ordering-cases (bytes_compare a c)) [
      | inl lt ↦ below (bytes_compare-lt_trans ub a c above lt)
      | inr (inl eq) ↦
          subst (λ (u : Bytes). is_past (some ub) u ≡ true) (bytes_compare-eq a c eq) past
      | inr (inr gt) ↦ absurd (behind (bytes_compare-flip a c ∙ ap flip gt))
    ]

and_false : (p q : Bool) → (p && (q && false)) ≡ false
and_false true true = refl
and_false true false = refl
and_false false q = refl

pub from_and : (p q v : Bool) → p ≡ true → (p && (not q && v)) ≡ (if q then false else v)
from_and p true v e = ground (arith, e)
from_and p false v e = ground (arith, e)

module _ (lower : Bytes) (upper : Option Bytes) (s : SeqNum) (le : s ≤ seq_num_max) where
  -- What the seek passes over is not in the scan.
  pub passed :
      (x : Item) → HasKind x → less x (pivot_of lower s) ≡ true → in_scan lower upper s x ≡ false
  unfolding less
  passed x kind before =
      let sorts : internal_compare bytes_compare (decode_internal_key x.key)
            (make_search_key_at lower s)
          ≡ Ordering.lt =
        ground (arith, less_pivot lower s x le, before) in
      elim (Ordering-cases (bytes_compare (user_key x) lower)) [
        | inl below ↦ rw (in_scan, is_from, below) refl
        | inr (inl same) ↦
            rw
              ((seek_version lower s (decode_internal_key x.key) le kind
                  (bytes_compare-eq (user_key x) lower same)).0
                sorts)
              (and_false (is_from lower (user_key x)) (not (is_past upper (user_key x))))
        | inr (inr above) ↦ absurd (
            cc (
              sorts,
              users_gt (decode_internal_key x.key) (make_search_key_at lower s) (
                  subst (λ (u : Bytes). bytes_compare (user_key x) u ≡ Ordering.gt)
                    (sym (search_user_key lower s)) above),
            ))
      ]

  -- What it lands on is not below the lower bound.
  pub landed_from :
      (x : Item) → less x (pivot_of lower s) ≡ false → is_from lower (user_key x) ≡ true
  unfolding less
  landed_from x landed = elim (Ordering-cases (bytes_compare (user_key x) lower)) [
    | inl below ↦ absurd (
        ground (
          arith,
          less_pivot lower s x le,
          landed,
          users_lt (decode_internal_key x.key) (make_search_key_at lower s) (
              subst (λ (u : Bytes). bytes_compare (user_key x) u ≡ Ordering.lt)
                (sym (search_user_key lower s)) below),
        ))
    | inr (inl same) ↦ rw (is_from, same) refl
    | inr (inr above) ↦ rw (is_from, above) refl
  ]

  -- Behind an item past the upper bound every item is past it.
  past_behind :
      (x y : Item)
      → is_past upper (user_key x) ≡ true
      → internal_compare bytes_compare (decode_internal_key y.key) (decode_internal_key x.key)
        ≢ Ordering.lt
      → in_scan lower upper s y ≡ false
  past_behind x y past behind =
      rw
        (is_past_behind upper (user_key x) (user_key y) past
          (λ r. behind (users_lt (decode_internal_key y.key) (decode_internal_key x.key) r)))
        (drop_past (is_from lower (user_key y)))
    where
      drop_past : (p : Bool) → (p && false) ≡ false
      drop_past true = refl
      drop_past false = refl

  select_none :
      (xs : List Item)
      → All (λ y. in_scan lower upper s y ≡ false) xs
      → select (in_scan lower upper s) xs ≡ []
  unfolding select
  select_none [] h = refl
  select_none (x ∷ xs) h = rw (select, h.0) (select_none xs h.1)

  at_or_after-landed :
      (x : Item) (xs : List Item)
      → less x (pivot_of lower s) ≡ false
      → at_or_after (pivot_of lower s) (x ∷ xs) ≡ x ∷ at_or_after (pivot_of lower s) xs
  unfolding at_or_after
  at_or_after-landed x xs landed = rw (at_or_after, landed) refl

  collect_past :
      (x : Item) (l : List Item)
      → is_past upper (user_key x) ≡ true
      → collect_visible upper s (x ∷ l) ≡ []
  unfolding collect_visible
  collect_past x l past = rw (collect_visible, past) refl

  collect_within :
      (x : Item) (l : List Item)
      → is_past upper (user_key x) ≡ false
      → collect_visible upper s (x ∷ l) ≡ (
          if visible (decode_internal_key x.key) s
          then x ∷ collect_visible upper s l
          else collect_visible upper s l)
  unfolding collect_visible
  collect_within x l within = rw (collect_visible, within) refl

  scan :
      (xs : List Item)
      → All HasKind xs
      → IsSorted item_key xs
      → collect_visible upper s (at_or_after (pivot_of lower s) xs)
        ≡ select (in_scan lower upper s) xs
  unfolding collect_visible at_or_after select
  scan [] kinds sorted = refl
  scan (x ∷ xs) kinds sorted = elim (Bool-cases (less x (pivot_of lower s))) [
    | inl before ↦
        rw (at_or_after, before, select, passed x kinds.0 before) (scan xs kinds.1 sorted.1)
    | inr landed ↦
        let v = visible (decode_internal_key x.key) s in
        let starts = ap (collect_visible upper s) (at_or_after-landed x xs landed) in
        let in_it : in_scan lower upper s x ≡ (if is_past upper (user_key x) then false else v) =
          from_and (is_from lower (user_key x)) (is_past upper (user_key x)) v
            (landed_from x landed) in
        elim (Bool-cases (is_past upper (user_key x))) [
          | inl past ↦
              starts
              ∙ collect_past x (at_or_after (pivot_of lower s) xs) past
              ∙ sym (
                  select_none (x ∷ xs) (
                    in_it ∙ ap (λ (q : Bool). if q then false else v) past,
                    All-map item_key (λ y. past_behind x y past) xs sorted.0,
                  ))
          | inr within ↦
              let kept : in_scan lower upper s x ≡ v =
                in_it ∙ ap (λ (q : Bool). if q then false else v) within in
              starts
              ∙ collect_within x (at_or_after (pivot_of lower s) xs) within
              ∙ ap (λ (l : List Item). if v then x ∷ l else l) (scan xs kinds.1 sorted.1)
              ∙ ap
                  (λ (c : Bool).
                    if c
                    then x ∷ select (in_scan lower upper s) xs
                    else select (in_scan lower upper s) xs)
                  (sym kept)
        ]
  ]

-- The entries of a new Iterator are exactly the items of the tree, in order, whose user key is within the bounds and that the snapshot sees.
pub new_iterator_scan :
    (b : BTree) (lower : Bytes) (upper : Option Bytes) (s : SeqNum) (m : MemTable b.Tree)
    → s ≤ seq_num_max
    → IsOrdered (ascend b m)
    → new_iterator b lower upper s m ≡ select (in_scan lower upper s) (ascend b m)
unfolding new_iterator ascend
new_iterator_scan b lower upper s m le ordered =
    ap (collect_visible upper s) (b.ascend_pivot (pivot_of lower s) m.tree)
    ∙ scan lower upper s le (b.ascend_tree m.tree) ordered.kinds ordered.sorted
