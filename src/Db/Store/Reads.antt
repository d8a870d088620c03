-- ===== src/Db/Store/Reads.antt =====
-- GetAt over the memtable and the tables (db/operations.go, db/db.go).
use hcdb.Prelude.{
  ◌≤◌, ◌≡◌, refl, sym, ap, ◌∙◌, List, [], ◌∷◌, ◌++◌, length, ◌==◌, if◌then◌else◌, Option, none,
  some, inl, inr, Bool-cases, ok,
}
use hcdb.Binary.{Bytes}
use hcdb.Base.Key.{
  SeqNum, KeyLookup, key_absent, key_found, key_deleted, decode_internal_key, kind, kind_delete,
  seq_num_max,
}
use hcdb.Versions.{is_version, or_else, newest_version, newest_version-append}
use hcdb.Wal.Log.{LogFile}
use hcdb.Memtable
use hcdb.Memtable.{Item, BTree, MemTable, answer_of, ascend}
use hcdb.Memtable.Seek.{item_key, IsOrdered, get-newest_version}
use hcdb.Sstable.Block.{BlockEntry}
use hcdb.Sstable.Sort.{entry_key}
use hcdb.Sstable.Iterator.Lookup.{IsTable, entry_answer, lookup-newest_version}
use hcdb.Sstable.Disk.{DiskTable}
use hcdb.Db.Store.{
  Store, lookup_in, search_sstables, or_search, get_at, block_entry_of, block_entries_of,
}

-- The file holds a table of these entries.
pub record IsStored (t : DiskTable) (es : List BlockEntry) : Type 0 where
  pub is_table : IsTable t.file t.sst es
  pub few : length es ≤ length t.file

abbrev pub AllStored : List DiskTable → List (List BlockEntry) → Type 0
AllStored [] [] = Unit {0}
AllStored [] (es ∷ levels) = ⊥
AllStored (t ∷ tables) [] = ⊥
AllStored (t ∷ tables) (es ∷ levels) = IsStored t es × AllStored tables levels

abbrev pub all_entries : List (List BlockEntry) → List BlockEntry
all_entries [] = []
all_entries (es ∷ levels) = es ++ all_entries levels

-- What a reader gets of a version: its value, or nothing of a tombstone.
unfoldable pub value_of : Option BlockEntry → Option Bytes
value_of none = none
value_of (some e) = if kind (decode_internal_key e.key) == kind_delete then none else some e.value

or_search-entry_answer :
    (o p : Option BlockEntry) → or_search (entry_answer o) (value_of p) ≡ value_of (or_else o p)
unfolding entry_answer value_of or_else
or_search-entry_answer none p = refl
or_search-entry_answer (some e) p =
    elim (Bool-cases (kind (decode_internal_key e.key) == kind_delete)) [
      | inl tombstone ↦ rw (entry_answer, tombstone) refl
      | inr set ↦ rw (entry_answer, set) refl
    ]

search_step :
    (t : DiskTable) (tables : List DiskTable) (k : Bytes) (s : SeqNum) (a : Bytes × KeyLookup)
    → lookup_in t k s ≡ ok a
    → search_sstables (t ∷ tables) k s ≡ or_search a (search_sstables tables k s)
unfolding search_sstables
search_step t tables k s (v, key_absent) e = rw (search_sstables, e) refl
search_step t tables k s (v, key_found) e = rw (search_sstables, e) refl
search_step t tables k s (v, key_deleted) e = rw (search_sstables, e) refl

pub search_sstables-read :
    (tables : List DiskTable) (levels : List (List BlockEntry)) (k : Bytes) (s : SeqNum)
    → s ≤ seq_num_max
    → AllStored tables levels
    → search_sstables tables k s ≡ value_of (newest_version entry_key k s (all_entries levels))
unfolding search_sstables value_of newest_version
search_sstables-read [] [] k s le h = refl
search_sstables-read [] (es ∷ levels) k s le h = elim h [ ]
search_sstables-read (t ∷ tables) [] k s le h = elim h [ ]
search_sstables-read (t ∷ tables) (es ∷ levels) k s le h =
    let found = newest_version entry_key k s es in
    let deeper = newest_version entry_key k s (all_entries levels) in
    search_step t tables k s (entry_answer found)
      (lookup-newest_version t.file t.sst es h.0.is_table k s (length t.file) le h.0.few)
    ∙ ap (or_search (entry_answer found)) (search_sstables-read tables levels k s le h.1)
    ∙ or_search-entry_answer found deeper
    ∙ ap value_of (sym (newest_version-append entry_key k s es (all_entries levels)))

abbrev entry_option : Option Item → Option BlockEntry
entry_option none = none
entry_option (some x) = some (block_entry_of x)

pub newest_version-block_entries_of :
    (k : Bytes) (s : SeqNum) (xs : List Item)
    → newest_version entry_key k s (block_entries_of xs)
      ≡ entry_option (newest_version item_key k s xs)
unfolding newest_version
newest_version-block_entries_of k s [] = refl
newest_version-block_entries_of k s (x ∷ xs) = elim (Bool-cases (is_version k s x.key)) [
  | inl sees ↦ rw (newest_version, sees) refl
  | inr hidden ↦ rw (newest_version, hidden) (newest_version-block_entries_of k s xs)
]

answer_of-entry_answer : (o : Option Item) → answer_of o ≡ entry_answer (entry_option o)
unfolding answer_of entry_answer
answer_of-entry_answer none = refl
answer_of-entry_answer (some x) = refl

-- The memtable is in order and every table holds the entries of its level, newest table first. GetAt answers with the value of the first entry, over the memtable and then the tables, that is a version of the key and that the snapshot sees; with nothing if that is a tombstone, whatever older tables hold, or if there is none.
pub get_at-newest_version :
    (b : BTree) (f : LogFile) (db : Store b.Tree f.State) (levels : List (List BlockEntry))
    (k : Bytes) (s : SeqNum)
    → s ≤ seq_num_max
    → IsOrdered (ascend b db.memtable)
    → AllStored db.sstables levels
    → get_at b f k s db
      ≡ value_of (
          newest_version entry_key k s
            (block_entries_of (ascend b db.memtable) ++ all_entries levels))
unfolding get_at
get_at-newest_version b f db levels k s le ordered stored =
    let items = ascend b db.memtable in
    let found = newest_version entry_key k s (block_entries_of items) in
    let in_mem : Memtable.get b k s db.memtable ≡ entry_answer found =
      get-newest_version b k s db.memtable le ordered
      ∙ answer_of-entry_answer (newest_version item_key k s items)
      ∙ ap entry_answer (sym (newest_version-block_entries_of k s items)) in
    ap (λ a. or_search a (search_sstables db.sstables k s)) in_mem
    ∙ ap (or_search (entry_answer found)) (search_sstables-read db.sstables levels k s le stored)
    ∙ or_search-entry_answer found (newest_version entry_key k s (all_entries levels))
    ∙ ap value_of
        (sym (newest_version-append entry_key k s (block_entries_of items) (all_entries levels)))
