-- ===== src/Db/Scan/Sources.antt =====
-- What the iterators of the memtable and of the tables have left as sources of a scan
-- (memtable/iterator.go, sstable/iterator.go).
use hcdb.Prelude.{
  ◌≤◌, ◌≡◌, refl, sym, subst, ap, ◌∙◌, arith, List, [], ◌∷◌, length, drop, Bool, true, false,
  Bool-cases, All, Option, none, if◌then◌else◌, inl, inr,
}
use hcdb.Binary.{Bytes}
use hcdb.Base.Key.{SeqNum, decode_internal_key, visible, kind, kind_max, seq_num_max}
use hcdb.Versions.Newest.{IsSorted, All-map}
use hcdb.Memtable.{Item, is_past}
use hcdb.Memtable.Seek.{item_key}
use hcdb.Memtable.Scan.{select, in_scan, is_from, from_and, passed, landed_from}
use hcdb.Sstable.Block.{BlockEntry}
use hcdb.Sstable.Sort.{entry_key}
use hcdb.Sstable.Iterator as Table
use hcdb.Sstable.Iterator.{Iterator, current, encode_search_key_at}
use hcdb.Sstable.Iterator.Readable.{IsInRange, left, advance-left}
use hcdb.Sstable.Iterator.Seeks.{drop_while, is_before, is_invisible, seek_key_of, next-left}
use hcdb.Sstable.Iterator.Lookup.{as_item, is_before-less}
use hcdb.Sstable.Disk.{DiskTable}
use hcdb.Db.Store.{block_entry_of, block_entries_of}
use hcdb.Db.Scan.{memory, table, is_valid, source_key, source_value, next_source, user_key}
use hcdb.Db.Scan.Heap.{Holds, NotBefore, NotBefore-trans}

-- The entries that pass a test.
unfoldable pub keep : (BlockEntry → Bool) → List BlockEntry → List BlockEntry
keep test [] = []
keep test (e ∷ es) = let rest = keep test es in if test e then e ∷ rest else rest

-- The entry is in the range, ends included, and the snapshot sees it.
abbrev pub is_scanned : Bytes → Option Bytes → SeqNum → BlockEntry → Bool
is_scanned lower upper s e = in_scan lower upper s (as_item e)

abbrev pub is_seen : SeqNum → BlockEntry → Bool
is_seen s e = visible (decode_internal_key e.key) s

All-keep :
    (P : BlockEntry → Type 0) (test : BlockEntry → Bool) (es : List BlockEntry)
    → All P es
    → All P (keep test es)
unfolding keep
All-keep P test [] all = tt
All-keep P test (e ∷ es) all = elim (Bool-cases (test e)) [
  | inl passes ↦ rw (keep, passes) (all.0, All-keep P test es all.1)
  | inr fails ↦ rw (keep, fails) (All-keep P test es all.1)
]

pub keep-IsSorted :
    (test : BlockEntry → Bool) (es : List BlockEntry)
    → IsSorted entry_key es
    → IsSorted entry_key (keep test es)
unfolding keep NotBefore
keep-IsSorted test [] s = tt
keep-IsSorted test (e ∷ es) s = elim (Bool-cases (test e)) [
  | inl passes ↦
      rw (keep, passes)
        (All-keep (λ y. NotBefore y.key e.key) test es s.0, keep-IsSorted test es s.1)
  | inr fails ↦ rw (keep, fails) (keep-IsSorted test es s.1)
]

-- The items of a memtable.
pub memory-Holds : (items : List Item) → Holds (memory items) (block_entries_of items)
unfolding Holds is_valid source_key source_value next_source
memory-Holds [] = refl
memory-Holds (x ∷ items) = (refl, refl, refl, memory-Holds items)

pub block_entries_of-select :
    (lower : Bytes) (upper : Option Bytes) (s : SeqNum) (items : List Item)
    → block_entries_of (select (in_scan lower upper s) items)
      ≡ keep (is_scanned lower upper s) (block_entries_of items)
unfolding select keep
block_entries_of-select lower upper s [] = refl
block_entries_of-select lower upper s (x ∷ items) = elim (Bool-cases (in_scan lower upper s x)) [
  | inl passes ↦
      rw (select, passes)
        (ap (λ l. block_entry_of x ∷ l) (block_entries_of-select lower upper s items))
  | inr fails ↦ rw (select, fails) (block_entries_of-select lower upper s items)
]

pub block_entries_of-IsSorted :
    (items : List Item) → IsSorted item_key items → IsSorted entry_key (block_entries_of items)
unfolding NotBefore
block_entries_of-IsSorted [] s = tt
block_entries_of-IsSorted (x ∷ items) s = (behind items s.0, block_entries_of-IsSorted items s.1)
  where
    behind :
        (ys : List Item)
        → All (λ y. NotBefore y.key x.key) ys
        → All (λ (y : BlockEntry). NotBefore y.key x.key) (block_entries_of ys)
    behind [] all = tt
    behind (y ∷ ys) all = (all.0, behind ys all.1)

pub keep_hit :
    (test : BlockEntry → Bool) (e : BlockEntry) (es : List BlockEntry)
    → test e ≡ true
    → keep test (e ∷ es) ≡ e ∷ keep test es
unfolding keep
keep_hit test e es passes = rw (keep, passes) refl

pub keep_miss :
    (test : BlockEntry → Bool) (e : BlockEntry) (es : List BlockEntry)
    → test e ≡ false
    → keep test (e ∷ es) ≡ keep test es
unfolding keep
keep_miss test e es fails = rw (keep, fails) refl

pub drop_while_stays :
    (test : BlockEntry → Bool) (e : BlockEntry) (es : List BlockEntry)
    → test e ≡ false
    → drop_while test (e ∷ es) ≡ e ∷ es
unfolding drop_while
drop_while_stays test e es stays = rw (drop_while, stays) refl

pub drop_while_passes :
    (test : BlockEntry → Bool) (e : BlockEntry) (es : List BlockEntry)
    → test e ≡ true
    → drop_while test (e ∷ es) ≡ drop_while test es
unfolding drop_while
drop_while_passes test e es passes = rw (drop_while, passes) refl

pub keep_after :
    (s : SeqNum) (es : List BlockEntry)
    → keep (is_seen s) (drop_while (is_invisible s) es) ≡ keep (is_seen s) es
unfolding drop_while is_invisible
keep_after s [] = refl
keep_after s (e ∷ es) = elim (Bool-cases (is_seen s e)) [
  | inl seen ↦ ap (keep (is_seen s)) (drop_while_stays (is_invisible s) e es (rw seen refl))
  | inr hidden ↦
      ap (keep (is_seen s)) (drop_while_passes (is_invisible s) e es (rw hidden refl))
      ∙ keep_after s es
      ∙ sym (keep_miss (is_seen s) e es hidden)
]

module _ (t : DiskTable) (s : SeqNum) where
  stands_at :
      (it : Iterator) (e : BlockEntry) (es : List BlockEntry)
      → IsInRange it
      → left t.file t.sst it ≡ e ∷ es
      → (it.valid ≡ true) × (current it ≡ e)
  unfolding left
  stands_at it e es range at = elim (Bool-cases it.valid) [
    | inl valid ↦ (valid, cc (at, (advance-left t.file t.sst it valid range).steps))
    | inr ends ↦ absurd (cc (rw (left, ends) at at))
  ]

  ends_at : (it : Iterator) → IsInRange it → left t.file t.sst it ≡ [] → it.valid ≡ false
  ends_at it range at = elim (Bool-cases it.valid) [
    | inl valid ↦ absurd (cc (at, (advance-left t.file t.sst it valid range).steps))
    | inr ends ↦ ends
  ]

  -- A table's iterator yields what the snapshot sees of these entries, if it stands at the first of
  -- them that the snapshot sees or has none.
  pub table-Holds :
      (it : Iterator) (es : List BlockEntry)
      → IsInRange it
      → left t.file t.sst it ≡ drop_while (is_invisible s) es
      → length es ≤ length t.file
      → Holds (table t s it) (keep (is_seen s) es)
  unfolding Holds is_valid source_key source_value next_source keep drop_while is_invisible
  table-Holds it [] range at few = ends_at it range at
  table-Holds it (e ∷ es) range at few = elim (Bool-cases (is_seen s e)) [
    | inl seen ↦
        let here : left t.file t.sst it ≡ e ∷ es =
          at ∙ drop_while_stays (is_invisible s) e es (rw seen refl) in
        let (valid, first) = stands_at it e es range here in
        let n =
          next-left t.file t.sst (length t.file) s it valid range
            (omega (arith, ap (λ (l : List BlockEntry). length l) here)) in
        subst (Holds (table t s it)) (sym (keep_hit (is_seen s) e es seen)) (
          valid,
          ap (λ (d : BlockEntry). d.key) first,
          ap (λ (d : BlockEntry). d.value) first,
          table-Holds (Table.next t.file t.sst (length t.file) s it) es n.1
              (n.0 ∙ ap (λ l. drop_while (is_invisible s) (drop 1 l)) here) (omega arith),
        )
    | inr hidden ↦ subst (Holds (table t s it)) (sym (keep_miss (is_seen s) e es hidden)) (
        table-Holds it es range (at ∙ drop_while_passes (is_invisible s) e es (rw hidden refl))
          (omega arith))
  ]

module _ (lower : Bytes) (s : SeqNum) (le : s ≤ seq_num_max) where
  keep_alike :
      (p q : BlockEntry → Bool) (es : List BlockEntry)
      → All (λ e. p e ≡ q e) es
      → keep p es ≡ keep q es
  unfolding keep
  keep_alike p q [] all = refl
  keep_alike p q (e ∷ es) all = elim (Bool-cases (q e)) [
    | inl passes ↦
        keep_hit p e es (all.0 ∙ passes)
        ∙ ap (λ l. e ∷ l) (keep_alike p q es all.1)
        ∙ sym (keep_hit q e es passes)
    | inr fails ↦
        keep_miss p e es (all.0 ∙ fails) ∙ keep_alike p q es all.1 ∙ sym (keep_miss q e es fails)
  ]

  is_before-NotBefore :
      (e : BlockEntry)
      → is_before (seek_key_of lower s) e ≡ false
      → NotBefore e.key (encode_search_key_at lower s)
  unfolding is_before NotBefore
  is_before-NotBefore e not_before below = absurd (cc (rw (is_before, below) at not_before))

  NotBefore-is_before :
      (e : BlockEntry)
      → NotBefore e.key (encode_search_key_at lower s)
      → is_before (seek_key_of lower s) e ≡ false
  unfolding is_before NotBefore
  NotBefore-is_before e h = ground (arith, h)

  scanned_from :
      (e : BlockEntry)
      → is_before (seek_key_of lower s) e ≡ false
      → is_seen s e ≡ is_scanned lower none s e
  unfolding is_past
  scanned_from e behind = sym (
      from_and (is_from lower (user_key e.key)) false (is_seen s e)
        (landed_from lower none s le (as_item e) (sym (is_before-less lower s e) ∙ behind)))

  -- What the seek leaves out of entries in order is what sorts below the lower bound.
  pub keep_from :
      (es : List BlockEntry)
      → All (λ (e : BlockEntry). kind (decode_internal_key e.key) ≤ kind_max) es
      → IsSorted entry_key es
      → keep (is_seen s) (drop_while (is_before (seek_key_of lower s)) es)
        ≡ keep (is_scanned lower none s) es
  unfolding drop_while NotBefore keep
  keep_from [] kinds sorted = refl
  keep_from (e ∷ es) kinds sorted = elim (Bool-cases (is_before (seek_key_of lower s) e)) [
    | inl before ↦
        ap (keep (is_seen s)) (drop_while_passes (is_before (seek_key_of lower s)) e es before)
        ∙ keep_from es kinds.1 sorted.1
        ∙ sym (
            keep_miss (is_scanned lower none s) e es (
              passed lower none s le (as_item e) kinds.0 (sym (is_before-less lower s e) ∙ before)))
    | inr landed ↦
        ap (keep (is_seen s)) (drop_while_stays (is_before (seek_key_of lower s)) e es landed)
        ∙ keep_alike (is_seen s) (is_scanned lower none s) (e ∷ es) (
          scanned_from e landed,
          All-map entry_key
              (λ y h. scanned_from y (
                NotBefore-is_before y (
                  NotBefore-trans (encode_search_key_at lower s) e.key y.key
                    (is_before-NotBefore e landed) h)))
              es sorted.0,
        )
  ]
