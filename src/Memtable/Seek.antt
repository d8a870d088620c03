-- ===== src/Memtable/Seek.antt =====
-- The seek of Get (memtable/memtable.go).
use hcdb.Prelude.{
  ◌+◌, ◌*◌, ◌≤◌, ◌≡◌, ◌≢◌, refl, sym, subst, ap, ◌∙◌, arith, List, [], ◌∷◌, true, false, Ordering,
  Bool-cases, inl, inr, All, compare,
}
use hcdb.Binary.{Bytes, bytes_equal, bytes_equal→eq, eq→bytes_equal}
use hcdb.Binary.Compare.{
  bytes_compare, flip, bytes_compare_refl, bytes_compare-eq, bytes_compare-flip,
}
use hcdb.Base.Key.{
  SeqNum, InternalKey, decode_internal_key, internal_compare, make_internal_key, make_search_key_at,
  kind, kind_max, visible, seq_num, seq_num_max, trailer_kind, trailer_seq_num,
}
use hcdb.Base.Key.Trailer.{make_trailer_sum, trailer_kind_mod}
use hcdb.Base.Key.Codec.{decode-encode_new}
use hcdb.Versions.{is_version, newest_version}
use hcdb.Versions.Newest.{IsSorted, All-map, none_read}
use hcdb.Memtable.{
  Item, item_compare, less, at_or_after, BTree, MemTable, encode_search_key, found_item, answer_of,
  get, ascend,
}

abbrev pub item_key : Item → Bytes
item_key x = x.key

abbrev ik : Item → InternalKey
ik x = decode_internal_key x.key

-- The kind of the item is Set or Delete.
abbrev pub HasKind : Item → Type 0
HasKind x = kind (decode_internal_key x.key) ≤ kind_max

search_trailer :
    (k : Bytes) (s : SeqNum) → s ≤ seq_num_max → (make_search_key_at k s).trailer ≡ s * 256 + 1
unfolding make_search_key_at make_internal_key
search_trailer k s le = make_trailer_sum s 1 (omega arith) (omega arith)

decoded_search_key :
    (k : Bytes) (s : SeqNum)
    → s ≤ seq_num_max
    → decode_internal_key (encode_search_key k s) ≡ make_search_key_at k s
unfolding encode_search_key
decoded_search_key k s le =
    decode-encode_new (make_search_key_at k s) (omega (arith, search_trailer k s le))

pub search_user_key : (k : Bytes) (s : SeqNum) → (make_search_key_at k s).user_key ≡ k
unfolding make_search_key_at make_internal_key
search_user_key k s = refl

-- Against a key of the same user key only the trailers count.
pub same_user_compare :
    (a c : InternalKey)
    → a.user_key ≡ c.user_key
    → internal_compare bytes_compare a c ≡ compare c.trailer a.trailer
unfolding internal_compare
same_user_compare a c same =
    let users : bytes_compare a.user_key c.user_key ≡ Ordering.eq =
      subst (λ (u : Bytes). bytes_compare a.user_key u ≡ Ordering.eq) same
        (bytes_compare_refl a.user_key) in
    rw (internal_compare, users) refl

-- A version of the user key sorts before the search key exactly if the snapshot does not see it.
pub seek_version :
    (k : Bytes) (s : SeqNum) (a : InternalKey)
    → s ≤ seq_num_max
    → kind a ≤ kind_max
    → a.user_key ≡ k
    → (internal_compare bytes_compare a (make_search_key_at k s) ≡ Ordering.lt
        → visible a s ≡ false)
      × (internal_compare bytes_compare a (make_search_key_at k s) ≢ Ordering.lt
          → visible a s ≡ true)
unfolding visible seq_num trailer_seq_num kind trailer_kind
seek_version k s a le valid same =
    let by_trailer =
      same_user_compare a (make_search_key_at k s) (same ∙ sym (search_user_key k s)) in
    ground (arith, by_trailer, search_trailer k s le, trailer_kind_mod a.trailer)

abbrev pub pivot_of : Bytes → SeqNum → Item
pivot_of k s = record { key = encode_search_key k s; value = [] }

pub less_pivot :
    (k : Bytes) (s : SeqNum) (x : Item)
    → s ≤ seq_num_max
    → item_compare x (pivot_of k s) ≡ internal_compare bytes_compare (ik x) (make_search_key_at k s)
unfolding item_compare
less_pivot k s x le =
    ap (λ (c : InternalKey). internal_compare bytes_compare (ik x) c) (decoded_search_key k s le)

-- What the seek passes over is no answer.
pub passed_over :
    (k : Bytes) (s : SeqNum) (x : Item)
    → s ≤ seq_num_max
    → HasKind x
    → less x (pivot_of k s) ≡ true
    → is_version k s x.key ≡ false
unfolding less is_version
passed_over k s x le valid before = elim (Bool-cases (bytes_equal (ik x).user_key k)) [
  | inr other ↦ rw (is_version, other) refl
  | inl same ↦
      rw (is_version, same)
        ((seek_version k s (ik x) le valid (bytes_equal→eq (ik x).user_key k same)).0
          (ground (arith, less_pivot k s x le, before)))
]

-- What it lands on, if it has the user key, is one.
pub lands_on :
    (k : Bytes) (s : SeqNum) (x : Item)
    → s ≤ seq_num_max
    → HasKind x
    → less x (pivot_of k s) ≡ false
    → bytes_equal (ik x).user_key k ≡ true
    → is_version k s x.key ≡ true
unfolding less is_version
lands_on k s x le valid not_before same =
    rw (is_version, same)
      ((seek_version k s (ik x) le valid (bytes_equal→eq (ik x).user_key k same)).1
        (λ r. absurd (ground (arith, less_pivot k s x le, not_before, r))))

pub users_lt :
    (a c : InternalKey)
    → bytes_compare a.user_key c.user_key ≡ Ordering.lt
    → internal_compare bytes_compare a c ≡ Ordering.lt
unfolding internal_compare
users_lt a c e = rw (internal_compare, e) refl

flip_gt : (o : Ordering) → o ≢ Ordering.lt → o ≢ Ordering.eq → flip o ≡ Ordering.lt
flip_gt Ordering.lt p q = absurd (p refl)
flip_gt Ordering.eq p q = absurd (q refl)
flip_gt Ordering.gt p q = refl

pub other_hidden :
    (k : Bytes) (s : SeqNum) (x : Item)
    → bytes_equal (ik x).user_key k ≡ false
    → is_version k s x.key ≡ false
unfolding is_version
other_hidden k s x other = rw (is_version, other) refl

-- Behind an item that is not before the pivot and has another user key, no item has the user key.
pub other_user_behind :
    (k : Bytes) (s : SeqNum) (x y : Item)
    → s ≤ seq_num_max
    → less x (pivot_of k s) ≡ false
    → bytes_equal (ik x).user_key k ≡ false
    → internal_compare bytes_compare (ik y) (ik x) ≢ Ordering.lt
    → bytes_equal (ik y).user_key k ≡ false
unfolding less
other_user_behind k s x y le not_before other behind =
    let xs = (ik x).user_key in
    let not_lt : bytes_compare xs k ≢ Ordering.lt = λ r. absurd (
      ground (
        arith,
        less_pivot k s x le,
        not_before,
        users_lt (ik x) (make_search_key_at k s)
            (subst (λ (u : Bytes). bytes_compare xs u ≡ Ordering.lt) (sym (search_user_key k s)) r),
      )) in
    let not_eq : bytes_compare xs k ≢ Ordering.eq =
      λ r. absurd (ground (arith, eq→bytes_equal xs k (bytes_compare-eq xs k r), other)) in
    elim (Bool-cases (bytes_equal (ik y).user_key k)) [
      | inr not_k ↦ not_k
      | inl is_k ↦ absurd (
          behind (
            users_lt (ik y) (ik x) (
              subst (λ (u : Bytes). bytes_compare u xs ≡ Ordering.lt)
                (sym (bytes_equal→eq (ik y).user_key k is_k))
                (bytes_compare-flip xs k ∙ flip_gt (bytes_compare xs k) not_lt not_eq))))
    ]

-- The item that Get finds, if the tree's items are in order.
pub found_item-newest_version :
    (k : Bytes) (s : SeqNum) (xs : List Item)
    → s ≤ seq_num_max
    → All HasKind xs
    → IsSorted item_key xs
    → found_item k (at_or_after (pivot_of k s) xs) ≡ newest_version item_key k s xs
unfolding found_item at_or_after newest_version
found_item-newest_version k s [] le kinds sorted = refl
found_item-newest_version k s (x ∷ xs) le kinds sorted = elim (Bool-cases (less x (pivot_of k s))) [
  | inl before ↦
      rw (at_or_after, before, newest_version, passed_over k s x le kinds.0 before)
        (found_item-newest_version k s xs le kinds.1 sorted.1)
  | inr landed ↦ elim (Bool-cases (bytes_equal (ik x).user_key k)) [
    | inl same ↦
        rw
          (
            at_or_after,
            landed,
            newest_version,
            lands_on k s x le kinds.0 landed same,
            found_item,
            same,
          )
          refl
    | inr other ↦
        rw (at_or_after, landed, newest_version, found_item, other)
          (sym (
            none_read item_key k s (x ∷ xs) (
              other_hidden k s x other,
              All-map item_key
                  (λ y p. other_hidden k s y (other_user_behind k s x y le landed other p)) xs
                  sorted.0,
            )))
  ]
]

-- The items are in the order of Less, and each is of kind Set or Delete.
pub record IsOrdered (items : List Item) : Type 0 where
  pub sorted : IsSorted item_key items
  pub kinds : All HasKind items

-- Get answers with the first version of the user key, in the order of the tree, that the snapshot sees: its value, that it is a tombstone, or that there is none. The items of the tree are in order and of kind Set or Delete.
pub get-newest_version :
    (b : BTree) (k : Bytes) (s : SeqNum) (m : MemTable b.Tree)
    → s ≤ seq_num_max
    → IsOrdered (ascend b m)
    → get b k s m ≡ answer_of (newest_version item_key k s (ascend b m))
unfolding get ascend
get-newest_version b k s m le ordered =
    ap (λ (l : List Item). answer_of (found_item k l)) (b.ascend_pivot (pivot_of k s) m.tree)
    ∙ ap answer_of
        (found_item-newest_version k s (b.ascend_tree m.tree) le ordered.kinds ordered.sorted)
