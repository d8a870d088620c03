-- ===== src/Compaction/Tests.antt =====
-- The theorems on compaction at concrete inputs.
use hcdb.Prelude.{ℕ, ◌≡◌, ◌≢◌, ap, refl, arith, List, [], ◌∷◌, All}
use mathlib.Core.List.{Perm}
use hcdb.Binary.{bytes_equal}
use hcdb.Base.Key.{InternalKey, decode_internal_key, seq_num, trailer_seq_num}
use hcdb.Binary.Uint.{uint}
use hcdb.Sstable.Block.{BlockEntry}
use hcdb.Sstable.Sort.{entry_key, insertion_sorter}
use hcdb.Versions.Newest.{IsSorted, IsNewestFirst}
use hcdb.Compaction.Group.{is_similar_size, group_by_similar_size, group_loop, collect}
use hcdb.Compaction.Group.Partition.{members, IsGroup, group_by_similar_size_partition}
use hcdb.Compaction.Merge.{
  merge_all, merge_iterators, merge_tables, merge_table, merge_entry, is_kept,
}
use hcdb.Compaction.Merge.Reads.{read, concat, merge_all-read}
use hcdb.Compaction.Merge.Sorted.{IsDistinct, merge_iterators-read}

-- The user key is one letter, the kind is Set.
abbrev version : ℕ → ℕ → ℕ → BlockEntry
version letter seq value = record {
  key = letter ∷ 1 ∷ seq ∷ 0 ∷ 0 ∷ 0 ∷ 0 ∷ 0 ∷ 0 ∷ [];
  value = value ∷ [];
}

abbrev new_table : List BlockEntry
new_table = version 97 9 1 ∷ version 98 8 2 ∷ []

abbrev old_table : List BlockEntry
old_table = version 97 5 3 ∷ version 97 3 4 ∷ []

abbrev two_tables : List (List BlockEntry)
two_tables = new_table ∷ old_table ∷ []

-- Version 3 of `a` is below the floor 6 and behind version 5, which is kept for a snapshot at 6.
merge_two_tables : merge_all 6 two_tables ≡ version 97 9 1 ∷ version 98 8 2 ∷ version 97 5 3 ∷ []
unfolding merge_all merge_tables merge_table merge_entry is_kept bytes_equal decode_internal_key
    uint seq_num trailer_seq_num
merge_two_tables = refl

merge_all-read_example :
    read (97 ∷ []) 6 (merge_all 6 two_tables) ≡ read (97 ∷ []) 6 (concat two_tables)
merge_all-read_example = merge_all-read (97 ∷ []) 6 6 two_tables (omega arith)

two_tables-IsNewestFirst : IsNewestFirst entry_key (concat two_tables)
unfolding decode_internal_key uint
two_tables-IsNewestFirst = (
  (λ e. omega arith, (λ e. omega arith, (λ e. omega arith, tt))),
  ((λ e. omega arith, (λ e. omega arith, tt)), ((λ e. omega arith, tt), (tt, tt))),
)

apart :
    {x y : BlockEntry}
    → (decode_internal_key x.key).trailer ≢ (decode_internal_key y.key).trailer
    → decode_internal_key x.key ≡ decode_internal_key y.key
    → x ≡ y
apart ne e = absurd (ne (ap (λ (k : InternalKey). k.trailer) e))

two_tables-IsDistinct : IsDistinct (concat two_tables)
unfolding decode_internal_key uint
two_tables-IsDistinct = (
  (λ e. refl, (apart (omega arith), (apart (omega arith), (apart (omega arith), tt)))),
  (
    (apart (omega arith), (λ e. refl, (apart (omega arith), (apart (omega arith), tt)))),
    (
      (apart (omega arith), (apart (omega arith), (λ e. refl, (apart (omega arith), tt)))),
      ((apart (omega arith), (apart (omega arith), (apart (omega arith), (λ e. refl, tt)))), tt),
    ),
  ),
)

merge_iterators-read_example :
    IsSorted entry_key (merge_iterators insertion_sorter 6 two_tables)
    × (read (97 ∷ []) 6 (merge_iterators insertion_sorter 6 two_tables)
        ≡ read (97 ∷ []) 6 (concat two_tables))
merge_iterators-read_example =
    merge_iterators-read insertion_sorter (97 ∷ []) 6 6 two_tables (omega arith)
      two_tables-IsNewestFirst two_tables-IsDistinct

-- Four tables, named by their sizes.
abbrev four_sizes : List ℕ
four_sizes = 100 ∷ 900 ∷ 180 ∷ 2000 ∷ []

grouped :
    group_by_similar_size (λ (n : ℕ). n) four_sizes ≡ (100 ∷ 180 ∷ []) ∷ (900 ∷ 2000 ∷ []) ∷ []
unfolding group_by_similar_size group_loop collect is_similar_size
grouped = refl

group_by_similar_size_partition_example :
    Perm (members (group_by_similar_size (λ (n : ℕ). n) four_sizes)) four_sizes
    × All (IsGroup (λ (n : ℕ). n)) (group_by_similar_size (λ (n : ℕ). n) four_sizes)
group_by_similar_size_partition_example = group_by_similar_size_partition (λ (n : ℕ). n) four_sizes
