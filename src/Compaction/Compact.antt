-- ===== src/Compaction/Compact.antt =====
-- compaction/compact.go, and mergeGroup of merge.go. What the operating system answers is a
-- parameter: the sizes of files, the time that names a new file, and the errors of its calls.
use hcdb.Prelude.{
  ℕ, List, [], ◌∷◌, ◌++◌, length, ltb, ◌||◌, if◌then◌else◌, Bool, false, Option, none, some, Result,
  ok, err, Error, ◌>>=◌,
}
use hcdb.Config.{default_compaction_threshold}
use hcdb.Binary.{Bytes, bytes_equal}
use hcdb.Base.Key.{SeqNum}
use hcdb.Bloom.{BloomFilter}
use hcdb.Sstable.Block.{BlockEntry}
use hcdb.Sstable.Sort.{Sorter}
use hcdb.Sstable.Table.{new_block_iterator}
use hcdb.Sstable.Disk.{DiskTable, write_to}
use hcdb.Compaction.Group.{group_by_similar_size}
use hcdb.Compaction.Merge.{merge_iterators}

pub record Disk : Type 0 where
  pub file_size : DiskTable → ℕ
  -- the path of the file that a group is merged into, and the error of writing it
  pub merged_path : List DiskTable → Bytes
  pub write_error : Bytes → Option Error
  pub remove_error : Bytes → Option Error
  -- NewBloomFilter(config.DEFAULT_BLOOM_EXPECTED_KEYS)
  pub bloom : BloomFilter
  pub sorter : Sorter

-- The loop of mergeGroup over its tables.
unfoldable pub open_iterators : List DiskTable → Result (List (List BlockEntry))
open_iterators [] = ok []
open_iterators (t ∷ tables) = elim (new_block_iterator t.file t.sst.index) [
  | err e ↦ err e
  | ok entries ↦ (do iterators ← open_iterators tables; ok (entries ∷ iterators))
]

-- compacted[path]
unfoldable pub is_compacted : Bytes → List Bytes → Bool
is_compacted path [] = false
is_compacted path (p ∷ compacted) = bytes_equal p path || is_compacted path compacted

abbrev pub paths : List DiskTable → List Bytes
paths [] = []
paths (t ∷ tables) = t.file_path ∷ paths tables

module _ (os : Disk) where
  unfoldable pub merge_group : SeqNum → List DiskTable → Result DiskTable
  merge_group floor tables = do
    iterators ← open_iterators tables
    let file_path = os.merged_path tables
    write_to (os.write_error file_path) file_path os.bloom
        (merge_iterators os.sorter floor iterators)

  -- The loop over the groups: result, and the keys of compacted.
  unfoldable pub compact_groups :
      SeqNum → List (List DiskTable) → Result (List DiskTable × List Bytes)
  compact_groups floor [] = ok ([], [])
  compact_groups floor (group ∷ groups) =
      let later = compact_groups floor groups in
      if ltb (length group) 2
      then (do (result, compacted) ← later; ok (group ++ result, compacted))
      else (do
        merged ← merge_group floor group
        (result, compacted) ← later
        ok (merged ∷ result, paths group ++ compacted))

  -- The loop that removes files: its error, and the paths that are gone.
  unfoldable pub remove_files : List Bytes → List DiskTable → Option Error × List Bytes
  remove_files compacted [] = (none, [])
  remove_files compacted (t ∷ tables) =
      let (e, removed) = remove_files compacted tables in
      if is_compacted t.file_path compacted
      then (elim (os.remove_error t.file_path) [
        | some failed ↦ (some failed, [])
        | none ↦ (e, t.file_path ∷ removed)
      ])
      else (e, removed)

  abbrev pub after_removal :
      List DiskTable → Option Error × List Bytes → Result (List DiskTable) × List Bytes
  after_removal result (none, removed) = (ok result, removed)
  after_removal result (some e, removed) = (err e, removed)

  -- The tables, or the error; and the files that are removed.
  unfoldable pub compact : List DiskTable → SeqNum → Result (List DiskTable) × List Bytes
  compact tables floor =
      if ltb (length tables) default_compaction_threshold
      then (ok tables, [])
      else elim (compact_groups floor (group_by_similar_size os.file_size tables)) [
        | err e ↦ (err e, [])
        | ok (result, compacted) ↦ after_removal result (remove_files compacted tables)
      ]
