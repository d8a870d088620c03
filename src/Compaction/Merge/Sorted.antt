-- ===== src/Compaction/Merge/Sorted.antt =====
-- The merge as a whole, sorted for the new table (compaction/merge.go).
use hcdb.Prelude.{
  ◌≤◌, ◌≡◌, sym, ◌∙◌, arith, List, [], ◌∷◌, false, Option, none, some, inl, inr, Option-cases, All,
  All-left, All-right, All-append, Bool-cases,
}
use mathlib.Core.List.Permᴰ
use hcdb.Binary.{Bytes}
use hcdb.Base.Key.{SeqNum, decode_internal_key}
use hcdb.Sstable.Block.{BlockEntry}
use hcdb.Sstable.Sort.{Sorter, entry_key, All-Permᴰ}
use hcdb.Versions.{is_version}
use hcdb.Versions.Newest.{
  IsNewestFirst, IsSorted, IsSorted-IsNewestFirst, All-read, read_none, none_read, read_newest,
  is_version_user_key, same_internal_key, Sees, decoded,
}
use hcdb.Compaction.Merge.{
  Merged, is_kept, merge_entry, merge_table, merge_tables, merge_all, merge_iterators,
}
use hcdb.Compaction.Merge.Reads.{read, concat, merge_all-read}

-- No two entries hold the same internal key, unless they are the same entry.
abbrev pub IsDistinct : List BlockEntry → Type 0
IsDistinct es =
    All (λ x. All (λ y. decode_internal_key x.key ≡ decode_internal_key y.key → x ≡ y) es) es

-- The merge invents no entry.
module _ {κ} (P : BlockEntry → Type κ) (floor : SeqNum) where
  All-merge_entry :
      (e : BlockEntry) (m : Merged) → P e → All P m.result → All P (merge_entry floor e m).result
  unfolding merge_entry
  All-merge_entry e m here h =
      elim (Bool-cases (is_kept (decode_internal_key e.key).user_key m.kept_at_or_below_floor)) [
        | inl kept ↦ rw (merge_entry, kept) h
        | inr fresh ↦ rw (merge_entry, fresh) (All-append P m.result (e ∷ []) h (here, tt))
      ]

  All-merge_table :
      (t : List BlockEntry) (m : Merged)
      → All P t
      → All P m.result
      → All P (merge_table floor t m).result
  unfolding merge_table
  All-merge_table [] m on h = h
  All-merge_table (e ∷ t) m on h =
      All-merge_table t (merge_entry floor e m) on.1 (All-merge_entry e m on.0 h)

  All-merge_tables :
      (ts : List (List BlockEntry)) (m : Merged)
      → All P (concat ts)
      → All P m.result
      → All P (merge_tables floor ts m).result
  unfolding merge_tables
  All-merge_tables [] m on h = h
  All-merge_tables (t ∷ ts) m on h =
      All-merge_tables ts (merge_table floor t m) (All-right P t (concat ts) on)
        (All-merge_table t m (All-left P t (concat ts) on) h)

  pub All-merge_all : (ts : List (List BlockEntry)) → All P (concat ts) → All P (merge_all floor ts)
  unfolding merge_all
  All-merge_all ts on =
      All-merge_tables ts (record { result = []; kept_at_or_below_floor = [] }) on tt

-- A table that holds what another list holds, sorted, answers with the newest entry of both.
module _ (sorter : Sorter) (k : Bytes) (s floor : SeqNum) (tables : List (List BlockEntry))
    (le : floor ≤ s) where
  abbrev all_entries : List BlockEntry
  all_entries = concat tables

  abbrev new_table : List BlockEntry
  new_table = merge_iterators sorter floor tables

  to_table {κ} : (P : BlockEntry → Type κ) → All P (merge_all floor tables) → All P new_table
  unfolding merge_iterators
  to_table P h = All-Permᴰ P (Permᴰ.symm (sorter.permutes (merge_all floor tables))) h

  from_table {κ} : (P : BlockEntry → Type κ) → All P new_table → All P (merge_all floor tables)
  unfolding merge_iterators
  from_table P h = All-Permᴰ P (sorter.permutes (merge_all floor tables)) h

  table-IsSorted : IsSorted entry_key new_table
  unfolding merge_iterators
  table-IsSorted = sorter.sorts (merge_all floor tables)

  no_answer : read k s all_entries ≡ none → read k s new_table ≡ none
  no_answer r = none_read entry_key k s new_table (
      to_table (λ y. is_version k s y.key ≡ false)
        (read_none entry_key k s (merge_all floor tables) (merge_all-read k s floor tables le ∙ r)))

  same_answer :
      (e f : BlockEntry)
      → IsNewestFirst entry_key all_entries
      → IsDistinct all_entries
      → read k s all_entries ≡ some e
      → read k s new_table ≡ some f
      → e ≡ f
  same_answer e f ordered distinct r q =
      let below = λ (a y : BlockEntry).
        Sees entry_key k s y → (decoded entry_key y).trailer ≤ (decoded entry_key a).trailer in
      let alike =
        λ (y : BlockEntry). decode_internal_key e.key ≡ decode_internal_key y.key → e ≡ y in
      let in_merge = merge_all-read k s floor tables le ∙ r in
      let (f_below, sees_f) =
        All-read entry_key k s (below e) new_table f
          (to_table (below e) (
            All-merge_all (below e) floor tables
              (read_newest entry_key k s all_entries e ordered r)))
          q in
      let (e_below, sees_e) =
        All-read entry_key k s (below f) (merge_all floor tables) e
          (from_table (below f) (
            read_newest entry_key k s new_table f
              (IsSorted-IsNewestFirst entry_key new_table table-IsSorted) q))
          in_merge in
      let (e_alike, _) =
        All-read entry_key k s
          (λ x.
            All (λ y. decode_internal_key x.key ≡ decode_internal_key y.key → x ≡ y) all_entries)
          all_entries e distinct r in
      let (f_alike, _) =
        All-read entry_key k s alike new_table f
          (to_table alike (All-merge_all alike floor tables e_alike)) q in
      f_alike (
        same_internal_key (decode_internal_key e.key) (decode_internal_key f.key)
          (is_version_user_key k s e.key sees_e ∙ sym (is_version_user_key k s f.key sees_f))
          (omega (arith, f_below sees_f, e_below sees_e)))

  answer_lost :
      (e : BlockEntry)
      → read k s all_entries ≡ some e
      → read k s new_table ≡ none
      → ◌≡◌ {A = Option BlockEntry} (some e) none
  answer_lost e r lost =
      sym r
      ∙ sym (merge_all-read k s floor tables le)
      ∙ none_read entry_key k s (merge_all floor tables)
          (from_table (λ y. is_version k s y.key ≡ false) (read_none entry_key k s new_table lost))

  answer :
      (e : BlockEntry)
      → IsNewestFirst entry_key all_entries
      → IsDistinct all_entries
      → read k s all_entries ≡ some e
      → read k s new_table ≡ some e
  answer e ordered distinct r = elim (Option-cases (read k s new_table)) [
    | inl lost ↦ absurd (cc (answer_lost e r lost))
    | inr (f, q) ↦ cc (q, same_answer e f ordered distinct r q)
  ]

-- Tables are given from the newest to the oldest, the entries of each user key stand newest first, and no two entries share an internal key. Then the merged table, sorted in whatever way sort.Slice does, is in the order of internal keys, and a read at any snapshot at or above the floor finds in it exactly what it found in the tables.
pub merge_iterators-read :
    (sorter : Sorter) (k : Bytes) (s floor : SeqNum) (tables : List (List BlockEntry))
    → floor ≤ s
    → IsNewestFirst entry_key (concat tables)
    → IsDistinct (concat tables)
    → IsSorted entry_key (merge_iterators sorter floor tables)
      × (read k s (merge_iterators sorter floor tables) ≡ read k s (concat tables))
merge_iterators-read sorter k s floor tables le ordered distinct = (
  table-IsSorted sorter k s floor tables le,
  elim (Option-cases (read k s (concat tables))) [
    | inl r ↦ no_answer sorter k s floor tables le r ∙ sym r
    | inr (e, r) ↦ answer sorter k s floor tables le e ordered distinct r ∙ sym r
  ],
)
