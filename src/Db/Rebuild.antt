-- ===== src/Db/Rebuild.antt =====
-- The memtable that rebuildMemtable makes of a log (db/db.go).
use hcdb.Prelude.{
  ◌≤◌, ◌<◌, ◌≡◌, refl, sym, subst, ap, ◌∙◌, arith, List, [], ◌∷◌, ◌++◌, ◌==◌, if◌then◌else◌, Bool,
  true, false, Option, none, some, All, inl, inr, Bool-cases,
}
use hcdb.Binary.{Bytes}
use hcdb.Base.Key.{
  SeqNum, KeyLookup, key_absent, key_found, key_deleted, decode_internal_key, seq_num, kind,
  kind_delete, kind_max, seq_num_max, trailer_seq_num,
}
use hcdb.Wal.Record.{Entry, IsStorable}
use hcdb.Wal.Replay.Torn.{log, IsTorn, replay-log}
use hcdb.Versions.{is_version, newest_version}
use hcdb.Versions.Newest.{All-map}
use hcdb.Memtable.{
  Item, BTree, insert_ordered, answer_of, new_mem_table, insert, put, delete, get, ascend,
}
use hcdb.Memtable.Seek.{item_key, HasKind, IsOrdered, get-newest_version}
use hcdb.Memtable.Writes.{
  IsNewer, newest_version-insert_ordered, All-insert_ordered, insert_ordered-IsSorted,
}
use hcdb.Db.{Rebuilt, rebuild_entry, rebuild_loop, rebuild_memtable}

-- What the log says of a key: its last version that the snapshot sees.
pub last_version : Bytes → SeqNum → Option Entry → List Entry → Option Entry
last_version k s acc [] = acc
last_version k s acc (e ∷ es) = last_version k s (if is_version k s e.key then some e else acc) es

pub answer_of_entry : Option Entry → Bytes × KeyLookup
answer_of_entry none = ([], key_absent)
answer_of_entry (some e) =
    if kind (decode_internal_key e.key) == kind_delete
    then ([], key_deleted)
    else (e.value, key_found)

-- Each entry has a higher sequence number than those before it, which have at most `bound`, and is
-- of kind Set or Delete.
abbrev pub IsIncreasing : SeqNum → List Entry → Type 0
IsIncreasing bound [] = Unit {0}
IsIncreasing bound (e ∷ es) =
    (bound < seq_num (decode_internal_key e.key))
    × ((kind (decode_internal_key e.key) ≤ kind_max)
        × IsIncreasing (seq_num (decode_internal_key e.key)) es)

module _ (b : BTree) where
  abbrev items : Rebuilt b → List Item
  items r = ascend b r.mem

  abbrev item_of : Entry → Item
  item_of e = record {
    key = e.key;
    value = if kind (decode_internal_key e.key) == kind_delete then [] else e.value;
  }

  -- The memtable holds what was replayed, in order, and answers as `answers` says.
  record Holds (bound : SeqNum) (acc : Bytes → SeqNum → Option Entry) (r : Rebuilt b) : Type 0 where
    ordered : IsOrdered (items r)
    below : All (λ y. seq_num (decode_internal_key y.key) ≤ bound) (items r)
    answers :
        (k : Bytes) (s : SeqNum)
        → answer_of (newest_version item_key k s (items r)) ≡ answer_of_entry (acc k s)
    bounded : r.max_seq ≡ bound

  entry_items :
      (e : Entry) (r : Rebuilt b)
      → items (rebuild_entry b e r) ≡ insert_ordered (item_of e) (items r)
  unfolding rebuild_entry put delete insert ascend
  entry_items e r = elim (Bool-cases (kind (decode_internal_key e.key) == kind_delete)) [
    | inl tombstone ↦
        rw (rebuild_entry, tombstone)
          (b.ascend_insert (record { key = e.key; value = [] }) r.mem.tree)
    | inr set ↦
        rw (rebuild_entry, set)
          (b.ascend_insert (record { key = e.key; value = e.value }) r.mem.tree)
  ]

  entry_answer : (e : Entry) → answer_of (some (item_of e)) ≡ answer_of_entry (some e)
  unfolding answer_of answer_of_entry
  entry_answer e = elim (Bool-cases (kind (decode_internal_key e.key) == kind_delete)) [
    | inl tombstone ↦ rw (answer_of, tombstone) refl
    | inr set ↦ rw (answer_of, set) refl
  ]

  answer_if :
      (c : Bool) (e : Entry) (o : Option Item) (p : Option Entry)
      → answer_of o ≡ answer_of_entry p
      → answer_of (if c then some (item_of e) else o) ≡ answer_of_entry (if c then some e else p)
  answer_if true e o p h = entry_answer e
  answer_if false e o p h = h

  newer_one :
      (bound : SeqNum) (e : Entry) (y : Item)
      → bound < seq_num (decode_internal_key e.key)
      → seq_num (decode_internal_key y.key) ≤ bound
      → (decode_internal_key y.key).user_key ≡ (decode_internal_key e.key).user_key
      → (decode_internal_key y.key).trailer < (decode_internal_key e.key).trailer
  unfolding seq_num trailer_seq_num
  newer_one bound e y lt le same = omega arith

  entry-Holds :
      (bound : SeqNum) (acc : Bytes → SeqNum → Option Entry) (e : Entry) (r : Rebuilt b)
      → bound < seq_num (decode_internal_key e.key)
      → kind (decode_internal_key e.key) ≤ kind_max
      → Holds bound acc r
      → Holds
          (seq_num (decode_internal_key e.key))
          (λ k s. if is_version k s e.key then some e else acc k s)
          (rebuild_entry b e r)
  unfolding rebuild_entry
  entry-Holds bound acc e r lt kind_fits h =
      let same = entry_items e r in
      let x = item_of e in
      let newer : IsNewer x (items r) =
        All-map item_key (λ y. newer_one bound e y lt) (items r) h.below in
      record {
        ordered = subst IsOrdered (sym same) (record {
          sorted = insert_ordered-IsSorted x (items r) h.ordered.sorted;
          kinds = All-insert_ordered HasKind x (items r) kind_fits h.ordered.kinds;
        });
        below =
            subst
              (λ l.
                All (λ y. seq_num (decode_internal_key y.key) ≤ seq_num (decode_internal_key e.key))
                  l)
              (sym same)
              (All-insert_ordered
                (λ y. seq_num (decode_internal_key y.key) ≤ seq_num (decode_internal_key e.key)) x
                (items r) (omega arith) (All-map item_key (λ y le. omega arith) (items r) h.below));
        answers = λ k s.
            ap (λ (l : List Item). answer_of (newest_version item_key k s l)) same
            ∙ ap answer_of (newest_version-insert_ordered k s x (items r) newer)
            ∙ answer_if (is_version k s e.key) e (newest_version item_key k s (items r)) (acc k s)
                (h.answers k s);
        bounded = ground (arith, h.bounded, lt);
      }

  loop-Holds :
      (bound : SeqNum) (acc : Bytes → SeqNum → Option Entry) (es : List Entry) (r : Rebuilt b)
      → IsIncreasing bound es
      → Holds bound acc r
      → (last : SeqNum) × Holds last (λ k s. last_version k s (acc k s) es) (rebuild_loop b es r)
  unfolding rebuild_loop last_version
  loop-Holds bound acc [] r inc h = (bound, h)
  loop-Holds bound acc (e ∷ es) r inc h =
      loop-Holds (seq_num (decode_internal_key e.key))
        (λ k s. if is_version k s e.key then some e else acc k s) es (rebuild_entry b e r) inc.1.1
        (entry-Holds bound acc e r inc.0 inc.1.0 h)

  new-Holds : Holds 0 (λ k s. none) (record { mem = new_mem_table b; max_seq = 0 })
  unfolding ascend new_mem_table answer_of answer_of_entry newest_version
  new-Holds = record {
    ordered = subst IsOrdered (sym b.ascend_new) (record { sorted = tt; kinds = tt });
    below = subst (λ l. All (λ y. seq_num (decode_internal_key y.key) ≤ 0) l) (sym b.ascend_new) tt;
    answers = λ k s. ap (λ (l : List Item). answer_of (newest_version item_key k s l)) b.ascend_new;
    bounded = refl;
  }

-- The log holds entries with increasing sequence numbers above 0, of kind Set or Delete and within the limits, and perhaps a torn record behind them. Then the memtable is rebuilt, a Get at any snapshot answers with the last entry of the key in the log that the snapshot sees, the items are in order, and the recovered number is at least every sequence number in the memtable.
pub rebuild_memtable-get :
    (b : BTree) (es : List Entry) (tail : Bytes)
    → All IsStorable es
    → IsTorn tail
    → IsIncreasing 0 es
    → (r : Rebuilt b) × (rebuild_memtable b (log es ++ tail) ≡ some r)
      × IsOrdered (ascend b r.mem)
      × All (λ y. seq_num (decode_internal_key y.key) ≤ r.max_seq) (ascend b r.mem)
      × ((k : Bytes) (s : SeqNum)
          → s ≤ seq_num_max
          → get b k s r.mem ≡ answer_of_entry (last_version k s none es))
unfolding rebuild_memtable
rebuild_memtable-get b es tail fit cut increasing =
    let start : Rebuilt b = record { mem = new_mem_table b; max_seq = 0 } in
    let (last, h) = loop-Holds b 0 (λ k s. none) es start increasing (new-Holds b) in
    let r = rebuild_loop b es start in
    (
      r,
      rw (rebuild_memtable, replay-log es tail fit cut) refl,
      h.ordered,
      subst (λ n. All (λ y. seq_num (decode_internal_key y.key) ≤ n) (ascend b r.mem))
          (sym h.bounded) h.below,
      λ k s le. get-newest_version b k s r.mem le h.ordered ∙ h.answers k s,
    )
