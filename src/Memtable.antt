-- ===== src/Memtable.antt =====
-- memtable: the ordered set of versions in memory. The tree is github.com/google/btree, a parameter
-- with what its documentation says. The lock makes each operation one step. A nil slice is empty.
pub mod Seek
pub mod Writes
pub mod Put
pub mod Scan
mod Tests
use hcdb.Prelude.{
  ℕ, ◌+◌, ◌≡◌, List, [], ◌∷◌, length, ◌==◌, if◌then◌else◌, Bool, true, false, Option, none, some,
  Ordering,
}
use hcdb.Binary.{Bytes, bytes_equal}
use hcdb.Binary.Compare.{bytes_compare}
use hcdb.Base.Key.{
  SeqNum, KeyLookup, key_absent, key_found, key_deleted, decode_internal_key, internal_compare,
  make_search_key_at, encode_new, kind, kind_delete, visible,
}

pub record Item : Type 0 where
  pub key : Bytes
  pub value : Bytes

-- What Less compares.
unfoldable pub item_compare : Item → Item → Ordering
item_compare a b =
    internal_compare bytes_compare (decode_internal_key a.key) (decode_internal_key b.key)

unfoldable pub less : Item → Item → Bool
unfolding item_compare
less a b = elim (item_compare a b) [ Ordering.lt ↦ true | _ ↦ false ]

-- "ReplaceOrInsert adds the given item to the tree. If an item in the tree already equals the given
-- one, it is removed from the tree", on the items in order.
pub insert_ordered : Item → List Item → List Item
insert_ordered item [] = item ∷ []
insert_ordered item (x ∷ xs) =
    let rest = insert_ordered item xs in
    elim (item_compare item x) [
      | Ordering.lt ↦ item ∷ x ∷ xs
      | Ordering.eq ↦ item ∷ xs
      | Ordering.gt ↦ x ∷ rest
    ]

-- "AscendGreaterOrEqual calls the iterator for every value in the tree within the range
-- [pivot, last]", on the items in order.
pub at_or_after : Item → List Item → List Item
at_or_after pivot [] = []
at_or_after pivot (x ∷ xs) =
    let rest = at_or_after pivot xs in if less x pivot then rest else x ∷ rest

pub record BTree : Type 1 where
  pub Tree : Type 0
  pub new_tree : Tree
  pub replace_or_insert : Item → Tree → Tree
  -- the items that an iterator is called with, while it returns true
  pub ascend_tree : Tree → List Item
  pub ascend_greater_or_equal : Item → Tree → List Item
  pub ascend_new : ascend_tree new_tree ≡ []
  pub ascend_insert :
      (x : Item) (t : Tree) → ascend_tree (replace_or_insert x t) ≡ insert_ordered x (ascend_tree t)
  pub ascend_pivot :
      (pivot : Item) (t : Tree)
      → ascend_greater_or_equal pivot t ≡ at_or_after pivot (ascend_tree t)

pub record MemTable (T : Type 0) : Type 0 where
  pub tree : T
  pub size : ℕ

unfoldable pub encode_search_key : Bytes → SeqNum → Bytes
encode_search_key user_key snapshot = encode_new (make_search_key_at user_key snapshot)

-- The callback of Get returns false on the first item it gets.
pub found_item : Bytes → List Item → Option Item
found_item user_key [] = none
found_item user_key (item ∷ items) =
    if bytes_equal (decode_internal_key item.key).user_key user_key then some item else none

-- What Get returns of the item it found.
unfoldable pub answer_of : Option Item → Bytes × KeyLookup
answer_of none = ([], key_absent)
answer_of (some item) =
    if kind (decode_internal_key item.key) == kind_delete
    then ([], key_deleted)
    else (item.value, key_found)

-- upperBound != nil && bytes.Compare(ik.UserKey, upperBound) > 0
unfoldable pub is_past : Option Bytes → Bytes → Bool
is_past none user_key = false
is_past (some upper_bound) user_key = elim (bytes_compare user_key upper_bound) [
  | Ordering.gt ↦ true
  | _ ↦ false
]

-- The callback of NewIterator, over the items it is called with.
pub collect_visible : Option Bytes → SeqNum → List Item → List Item
collect_visible upper_bound snapshot [] = []
collect_visible upper_bound snapshot (item ∷ items) =
    let rest = collect_visible upper_bound snapshot items in
    if is_past upper_bound (decode_internal_key item.key).user_key
    then []
    else (if visible (decode_internal_key item.key) snapshot then item ∷ rest else rest)

module _ (b : BTree) where
  unfoldable pub new_mem_table : MemTable b.Tree
  new_mem_table = record { tree = b.new_tree; size = 0 }

  unfoldable pub insert : Bytes → Bytes → MemTable b.Tree → MemTable b.Tree
  insert internal_key value m = record {
    tree = b.replace_or_insert (record { key = internal_key; value = value }) m.tree;
    size = m.size + (length internal_key + length value);
  }

  unfoldable pub put : Bytes → Bytes → MemTable b.Tree → MemTable b.Tree
  unfolding insert
  put internal_key value m = insert internal_key value m

  unfoldable pub delete : Bytes → MemTable b.Tree → MemTable b.Tree
  unfolding insert
  delete internal_key m = insert internal_key [] m

  pub get : Bytes → SeqNum → MemTable b.Tree → Bytes × KeyLookup
  unfolding found_item answer_of encode_search_key
  get user_key snapshot m =
      let pivot : Item = record { key = encode_search_key user_key snapshot; value = [] } in
      answer_of (found_item user_key (b.ascend_greater_or_equal pivot m.tree))

  -- The pairs that Ascend calls its function with.
  unfoldable pub ascend : MemTable b.Tree → List Item
  ascend m = b.ascend_tree m.tree

  -- The entries of a new Iterator.
  pub new_iterator : Bytes → Option Bytes → SeqNum → MemTable b.Tree → List Item
  unfolding collect_visible encode_search_key
  new_iterator lower_bound upper_bound snapshot m =
      let pivot : Item = record { key = encode_search_key lower_bound snapshot; value = [] } in
      collect_visible upper_bound snapshot (b.ascend_greater_or_equal pivot m.tree)
