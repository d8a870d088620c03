-- ===== src/Compaction/Merge.antt =====
-- compaction/merge.go and sstable/sort_entries.go: the merge of tables, newest table first.
pub mod Reads
pub mod Sorted
use hcdb.Prelude.{ℕ, ◌≡◌, List, [], ◌∷◌, ◌++◌, ◌||◌, leb, Bool, true, false, if◌then◌else◌}
use hcdb.Binary.{Bytes, bytes_equal}
use hcdb.Base.Key.{SeqNum, InternalKey, decode_internal_key, seq_num}
use hcdb.Sstable.Block.{BlockEntry}
use hcdb.Sstable.Sort.{Sorter}

-- result, and the keys of keptAtOrBelowFloor, which holds true for a key or nothing.
pub record Merged : Type 0 where
  pub result : List BlockEntry
  pub kept_at_or_below_floor : List Bytes

-- keptAtOrBelowFloor[key]
unfoldable pub is_kept : Bytes → List Bytes → Bool
is_kept key [] = false
is_kept key (k ∷ kept) = bytes_equal k key || is_kept key kept

-- The body of the inner loop.
unfoldable pub merge_entry : SeqNum → BlockEntry → Merged → Merged
merge_entry floor entry m =
    let ik = decode_internal_key entry.key in
    if is_kept ik.user_key m.kept_at_or_below_floor then m else (record {
      result = m.result ++ (entry ∷ []);
      kept_at_or_below_floor =
          if leb (seq_num ik) floor
          then ik.user_key ∷ m.kept_at_or_below_floor
          else m.kept_at_or_below_floor;
    })

-- for _, entry := range it.Entries
unfoldable pub merge_table : SeqNum → List BlockEntry → Merged → Merged
unfolding merge_entry
merge_table floor [] m = m
merge_table floor (entry ∷ entries) m = merge_table floor entries (merge_entry floor entry m)

-- for _, it := range iterators
unfoldable pub merge_tables : SeqNum → List (List BlockEntry) → Merged → Merged
unfolding merge_table
merge_tables floor [] m = m
merge_tables floor (it ∷ iterators) m = merge_tables floor iterators (merge_table floor it m)

-- All iterators from the newest to the oldest, before the sort.
unfoldable pub merge_all : SeqNum → List (List BlockEntry) → List BlockEntry
unfolding merge_tables
merge_all floor iterators =
    (merge_tables floor iterators (record { result = []; kept_at_or_below_floor = [] })).result

pub merge_iterators : Sorter → SeqNum → List (List BlockEntry) → List BlockEntry
unfolding merge_all
merge_iterators sorter floor iterators = sorter.sort_slice (merge_all floor iterators)
