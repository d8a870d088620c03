-- ===== src/Memtable/Put.antt =====
-- Put and Delete, followed by Get (memtable/memtable.go).
use hcdb.Prelude.{
  ℕ, ◌≤◌, ◌<◌, ◌≡◌, refl, ap, ◌∙◌, arith, List, [], leb, ◌==◌, ◌&&◌, if◌then◌else◌, Bool, true,
  false, Option, some, All,
}
use hcdb.Binary.{Bytes, bytes_equal}
use hcdb.Base.Key.{
  SeqNum, InternalKey, KeyLookup, key_found, key_deleted, decode_internal_key, make_internal_key,
  encode_new, kind, kind_max, kind_set, kind_delete, visible, seq_num, seq_num_max, trailer_seq_num,
}
use hcdb.Base.Key.Trailer.{make_trailer_sum, make_internal_key_fields}
use hcdb.Base.Key.Codec.{decode-encode_new}
use hcdb.Versions.{is_version, newest_version}
use hcdb.Versions.Newest.{All-map}
use hcdb.Memtable.{
  Item, insert_ordered, BTree, MemTable, answer_of, insert, put, delete, get, ascend,
}
use hcdb.Memtable.Seek.{item_key, HasKind, IsOrdered, get-newest_version}
use hcdb.Memtable.Writes.{
  IsNewer, newest_version-insert_ordered, All-insert_ordered, insert_ordered-IsSorted,
}

abbrev ik : Item → InternalKey
ik x = decode_internal_key x.key

-- The item that Put or Delete makes.
abbrev item_of : Bytes → SeqNum → ℕ → Bytes → Item
item_of user_key seq kind value = record {
  key = encode_new (make_internal_key user_key seq kind);
  value = value;
}

answer_if :
    (c : Bool) (x : Item) (o : Option Item)
    → answer_of (if c then some x else o) ≡ (if c then answer_of (some x) else answer_of o)
answer_if true x o = refl
answer_if false x o = refl

module _ (user_key : Bytes) (seq : SeqNum) (kd : ℕ) (value : Bytes) (fits : seq ≤ seq_num_max)
    (kd_fits : kd ≤ kind_max) where
  decoded_item : ik (item_of user_key seq kd value) ≡ make_internal_key user_key seq kd
  decoded_item =
      decode-encode_new (make_internal_key user_key seq kd)
        (make_internal_key_fields user_key seq kd fits (omega arith)).2

  item-HasKind : HasKind (item_of user_key seq kd value)
  item-HasKind =
      rw decoded_item
        (omega (arith, (make_internal_key_fields user_key seq kd fits (omega arith)).1))

  item-is_version :
      (k : Bytes) (s : SeqNum)
      → is_version k s (item_of user_key seq kd value).key ≡ (bytes_equal user_key k && leb seq s)
  unfolding is_version visible make_internal_key
  item-is_version k s =
      rw
        (
          is_version,
          decoded_item,
          visible,
          (make_internal_key_fields user_key seq kd fits (omega arith)).0,
        )
        refl

  newer_one :
      (y : Item)
      → seq_num (ik y) < seq
      → (ik y).user_key ≡ (ik (item_of user_key seq kd value)).user_key
      → (ik y).trailer < (ik (item_of user_key seq kd value)).trailer
  unfolding seq_num trailer_seq_num make_internal_key
  newer_one y lt same =
      rw decoded_item (omega (arith, lt, make_trailer_sum seq kd fits (omega arith)))

  item-IsNewer :
      (xs : List Item)
      → All (λ y. seq_num (ik y) < seq) xs
      → IsNewer (item_of user_key seq kd value) xs
  item-IsNewer xs older = All-map item_key newer_one xs older

  module _ (b : BTree) (m : MemTable b.Tree) (older : All (λ y. seq_num (ik y) < seq) (ascend b m))
      (ordered : IsOrdered (ascend b m)) where
    abbrev after : MemTable b.Tree
    after = insert b (encode_new (make_internal_key user_key seq kd)) value m

    after-ascend : ascend b after ≡ insert_ordered (item_of user_key seq kd value) (ascend b m)
    unfolding ascend insert
    after-ascend = b.ascend_insert (item_of user_key seq kd value) m.tree

    after-IsOrdered : IsOrdered (ascend b after)
    after-IsOrdered = rw after-ascend (record {
      sorted = insert_ordered-IsSorted (item_of user_key seq kd value) (ascend b m) ordered.sorted;
      kinds =
          All-insert_ordered HasKind (item_of user_key seq kd value) (ascend b m) item-HasKind
            ordered.kinds;
    })

    after-get :
        (k : Bytes) (s : SeqNum)
        → s ≤ seq_num_max
        → get b k s after ≡ (
            if bytes_equal user_key k && leb seq s
            then answer_of (some (item_of user_key seq kd value))
            else get b k s m)
    after-get k s le =
        rw
          (
            get-newest_version b k s after le after-IsOrdered,
            get-newest_version b k s m le ordered,
            after-ascend,
            newest_version-insert_ordered k s (item_of user_key seq kd value) (ascend b m)
                (item-IsNewer (ascend b m) older),
            item-is_version k s,
          )
          (answer_if (bytes_equal user_key k && leb seq s) (item_of user_key seq kd value)
            (newest_version item_key k s (ascend b m)))

    after_answer :
        answer_of (some (item_of user_key seq kd value))
        ≡ (if kd == kind_delete then ([], key_deleted) else (value, key_found))
    unfolding answer_of
    after_answer =
        rw (decoded_item, (make_internal_key_fields user_key seq kd fits (omega arith)).1) refl

-- A Put with a sequence number above all in the memtable, and a Get. A snapshot at or above the number gets the value under the key that was put; any other snapshot or key gets what it got before. The order of the items is kept.
pub put-get :
    (b : BTree) (m : MemTable b.Tree) (user_key value : Bytes) (seq : SeqNum)
    → seq ≤ seq_num_max
    → IsOrdered (ascend b m)
    → All (λ y. seq_num (decode_internal_key y.key) < seq) (ascend b m)
    → let after = put b (encode_new (make_internal_key user_key seq kind_set)) value m in
      IsOrdered (ascend b after)
      × ((k : Bytes) (s : SeqNum)
          → s ≤ seq_num_max
          → get b k s after
            ≡ (if bytes_equal user_key k && leb seq s then (value, key_found) else get b k s m))
unfolding put answer_of
put-get b m user_key value seq fits ordered older = (
  after-IsOrdered user_key seq kind_set value fits (omega arith) b m older ordered,
  λ k s le.
      after-get user_key seq kind_set value fits (omega arith) b m older ordered k s le
      ∙ ap
          (λ (a : Bytes × KeyLookup).
            if bytes_equal user_key k && leb seq s then a else get b k s m)
          (after_answer user_key seq kind_set value fits (omega arith) b m older ordered),
)

-- A Delete with a sequence number above all in the memtable, and a Get. A snapshot at or above the number finds the key deleted; any other snapshot or key gets what it got before. The order of the items is kept.
pub delete-get :
    (b : BTree) (m : MemTable b.Tree) (user_key : Bytes) (seq : SeqNum)
    → seq ≤ seq_num_max
    → IsOrdered (ascend b m)
    → All (λ y. seq_num (decode_internal_key y.key) < seq) (ascend b m)
    → let after = delete b (encode_new (make_internal_key user_key seq kind_delete)) m in
      IsOrdered (ascend b after)
      × ((k : Bytes) (s : SeqNum)
          → s ≤ seq_num_max
          → get b k s after
            ≡ (if bytes_equal user_key k && leb seq s then ([], key_deleted) else get b k s m))
unfolding delete answer_of
delete-get b m user_key seq fits ordered older = (
  after-IsOrdered user_key seq kind_delete [] fits (omega arith) b m older ordered,
  λ k s le.
      after-get user_key seq kind_delete [] fits (omega arith) b m older ordered k s le
      ∙ ap
          (λ (a : Bytes × KeyLookup).
            if bytes_equal user_key k && leb seq s then a else get b k s m)
          (after_answer user_key seq kind_delete [] fits (omega arith) b m older ordered),
)
