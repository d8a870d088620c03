-- ===== src/Compaction/Merge/Reads.antt =====
-- Reads of the merge before it is sorted (compaction/merge.go).
use hcdb.Prelude.{
  ◌≤◌, ◌≡◌, ◌≢◌, refl, sym, subst, leb→le, ◌∙◌, arith, List, [], ◌∷◌, ◌++◌, leb, true, false,
  if◌then◌else◌, Option, none, some, inl, inr, Bool-cases, append-nil, append_assoc,
}
use hcdb.Binary.{Bytes, bytes_equal, bytes_equal→eq, eq→bytes_equal}
use hcdb.Base.Key.{SeqNum, decode_internal_key, seq_num, visible}
use hcdb.Sstable.Block.{BlockEntry}
use hcdb.Sstable.Sort.{entry_key}
use hcdb.Versions.{
  is_version, or_else, or_else_found, or_else-none, or_else-some, or_else_fails, newest_version,
  newest_version-append,
}
use hcdb.Compaction.Merge.{Merged, is_kept, merge_entry, merge_table, merge_tables, merge_all}

abbrev pub read : Bytes → SeqNum → List BlockEntry → Option BlockEntry
read = newest_version entry_key

-- All the entries, in the order of the loops.
abbrev pub concat : List (List BlockEntry) → List BlockEntry
concat [] = []
concat (t ∷ ts) = t ++ concat ts

-- The result answers a read like the entries that the loops have seen, and a key that is kept has
-- an answer.
record Answers (k : Bytes) (s : SeqNum) (seen : List BlockEntry) (m : Merged) : Type 0 where
  same : read k s m.result ≡ read k s seen
  answered : is_kept k m.kept_at_or_below_floor ≡ true → read k s seen ≢ none

read-last :
    (k : Bytes) (s : SeqNum) (xs : List BlockEntry) (e : BlockEntry)
    → read k s (xs ++ (e ∷ []))
      ≡ or_else (read k s xs) (if is_version k s e.key then some e else none)
unfolding newest_version
read-last k s xs e = newest_version-append entry_key k s xs (e ∷ [])

-- An entry below the floor is visible at a snapshot that is not.
below-is_version :
    (k : Bytes) (s floor : SeqNum) (e : BlockEntry)
    → floor ≤ s
    → seq_num (decode_internal_key e.key) ≤ floor
    → (decode_internal_key e.key).user_key ≡ k
    → is_version k s e.key ≡ true
unfolding is_version visible
below-is_version k s floor e le below same =
    ground (arith, eq→bytes_equal (decode_internal_key e.key).user_key k same)

other-is_version :
    (k : Bytes) (s : SeqNum) (e : BlockEntry)
    → (decode_internal_key e.key).user_key ≢ k
    → is_version k s e.key ≡ false
unfolding is_version
other-is_version k s e other = ground (arith, bytes_equal→eq (decode_internal_key e.key).user_key k)

read-last-none :
    (k : Bytes) (s : SeqNum) (xs : List BlockEntry) (e : BlockEntry)
    → read k s (xs ++ (e ∷ [])) ≡ none
    → read k s xs ≡ none
read-last-none k s xs e h =
    or_else_fails (read k s xs) (if is_version k s e.key then some e else none)
      (sym (read-last k s xs e) ∙ h)

module _ (k : Bytes) (s floor : SeqNum) (le : floor ≤ s) where
  -- An entry that is dropped would not be read.
  dropped :
      (seen : List BlockEntry) (e : BlockEntry) (m : Merged)
      → Answers k s seen m
      → is_kept (decode_internal_key e.key).user_key m.kept_at_or_below_floor ≡ true
      → read k s (seen ++ (e ∷ [])) ≡ read k s seen
  dropped seen e m a kept =
      let key = (decode_internal_key e.key).user_key in
      elim (Bool-cases (bytes_equal key k)) [
        | inl same ↦
            read-last k s seen e
            ∙ or_else_found (read k s seen) (if is_version k s e.key then some e else none) (
                a.answered (
                  subst (λ (u : Bytes). is_kept u m.kept_at_or_below_floor ≡ true)
                    (bytes_equal→eq key k same) kept))
        | inr other ↦
            rw
              (
                read-last k s seen e,
                other-is_version k s e (λ p. absurd (ground (arith, eq→bytes_equal key k p))),
              )
              (or_else-none (read k s seen))
      ]

  -- A key that the entry makes kept has an answer.
  kept_answered :
      (seen : List BlockEntry) (e : BlockEntry) (m : Merged)
      → Answers k s seen m
      → seq_num (decode_internal_key e.key) ≤ floor
      → is_kept k ((decode_internal_key e.key).user_key ∷ m.kept_at_or_below_floor) ≡ true
      → read k s (seen ++ (e ∷ [])) ≢ none
  unfolding is_kept
  kept_answered seen e m a below h none_read =
      let key = (decode_internal_key e.key).user_key in
      elim (Bool-cases (bytes_equal key k)) [
        | inl same ↦ or_else-some (read k s seen) e (
            rw
              (
                read-last k s seen e,
                below-is_version k s floor e le below (bytes_equal→eq key k same),
              )
              at none_read)
        | inr other ↦ a.answered (ground arith) (read-last-none k s seen e none_read)
      ]

  merge_entry-Answers :
      (seen : List BlockEntry) (e : BlockEntry) (m : Merged)
      → Answers k s seen m
      → Answers k s (seen ++ (e ∷ [])) (merge_entry floor e m)
  unfolding merge_entry
  merge_entry-Answers seen e m a =
      let key = (decode_internal_key e.key).user_key in
      elim (Bool-cases (is_kept key m.kept_at_or_below_floor)) [
        | inl kept ↦
            rw (merge_entry, kept)
              (record {
                same = a.same ∙ sym (dropped seen e m a kept);
                answered = λ h none_read. a.answered h (read-last-none k s seen e none_read);
              })
        | inr fresh ↦ elim (Bool-cases (leb (seq_num (decode_internal_key e.key)) floor)) [
          | inl below ↦
              rw (merge_entry, fresh, below)
                (record {
                  same = cc (read-last k s m.result e, read-last k s seen e, a.same);
                  answered = kept_answered seen e m a (leb→le _ _ below);
                })
          | inr above ↦
              rw (merge_entry, fresh, above)
                (record {
                  same = cc (read-last k s m.result e, read-last k s seen e, a.same);
                  answered = λ h none_read. a.answered h (read-last-none k s seen e none_read);
                })
        ]
      ]

  merge_table-Answers :
      (seen table : List BlockEntry) (m : Merged)
      → Answers k s seen m
      → Answers k s (seen ++ table) (merge_table floor table m)
  unfolding merge_table
  merge_table-Answers seen [] m a = rw append-nil a
  merge_table-Answers seen (e ∷ table) m a = rw (← append_assoc seen (e ∷ []) table) (
      merge_table-Answers (seen ++ (e ∷ [])) table (merge_entry floor e m)
        (merge_entry-Answers seen e m a))

  merge_tables-Answers :
      (seen : List BlockEntry) (tables : List (List BlockEntry)) (m : Merged)
      → Answers k s seen m
      → Answers k s (seen ++ concat tables) (merge_tables floor tables m)
  unfolding merge_tables
  merge_tables-Answers seen [] m a = rw append-nil a
  merge_tables-Answers seen (t ∷ tables) m a = rw (← append_assoc seen t (concat tables)) (
      merge_tables-Answers (seen ++ t) tables (merge_table floor t m)
        (merge_table-Answers seen t m a))

-- Before it sorts, the merge answers every read at a snapshot at or above the floor exactly as the tables do from the newest to the oldest, whatever versions they hold.
pub merge_all-read :
    (k : Bytes) (s floor : SeqNum) (tables : List (List BlockEntry))
    → floor ≤ s
    → read k s (merge_all floor tables) ≡ read k s (concat tables)
unfolding merge_all is_kept
merge_all-read k s floor tables le =
    (merge_tables-Answers k s floor le [] tables
      (record { result = []; kept_at_or_below_floor = [] })
      (record { same = refl; answered = λ h. absurd (cc) })).same
