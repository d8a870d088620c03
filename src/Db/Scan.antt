-- ===== src/Db/Scan.antt =====
-- db/iterator.go: the merge of the memtable and the tables, with Valid, Key, Value and Next of
-- memtable/iterator.go. The heap is kept in the order of Less: no two of its items have the same
-- priority, so Less orders any two of them, and Pop and h[0] are the first.
pub mod Heap
pub mod Skips
pub mod Cleared
pub mod Answers
pub mod Next
pub mod Sources
pub mod Listing
pub mod Start
mod Tests
use hcdb.Prelude.{
  ℕ, zero, suc, ◌+◌, List, [], ◌∷◌, length, ltb, ◌==◌, if◌then◌else◌, Bool, true, false, Option,
  Ordering, Result, ok, err, ◌>>=◌,
}
use hcdb.Binary.{Bytes, bytes_equal}
use hcdb.Binary.Compare.{bytes_compare}
use hcdb.Base.Key.{
  SeqNum, seq_num_max, InternalKey, decode_internal_key, internal_compare, kind, kind_delete,
}
use hcdb.Wal.Log.{LogFile}
use hcdb.Memtable
use hcdb.Memtable.{Item, BTree, is_past}
use hcdb.Sstable.Iterator as Table
use hcdb.Sstable.Iterator.{Iterator, current}
use hcdb.Sstable.Disk.{DiskTable}
use hcdb.Db.Store.{Store}

-- What implements `source`: the items of a memtable's iterator from its position on, or the iterator
-- of a table at a snapshot.
pub data Source : Type 0 where
  memory : List Item → Source
  table : DiskTable → SeqNum → Iterator → Source

unfoldable pub is_valid : Source → Bool
is_valid (memory []) = false
is_valid (memory (x ∷ xs)) = true
is_valid (table t snapshot it) = it.valid

-- Key and Value are called on a valid source only.
unfoldable pub source_key : Source → Bytes
source_key (memory []) = []
source_key (memory (x ∷ xs)) = x.key
source_key (table t snapshot it) = (current it).key

unfoldable pub source_value : Source → Bytes
source_value (memory []) = []
source_value (memory (x ∷ xs)) = x.value
source_value (table t snapshot it) = (current it).value

unfoldable pub next_source : Source → Source
next_source (memory []) = memory []
next_source (memory (x ∷ xs)) = memory xs
next_source (table t snapshot it) =
    table t snapshot (Table.next t.file t.sst (length t.file) snapshot it)

pub record MergeItem : Type 0 where
  pub key : Bytes
  pub priority : ℕ
  pub src : Source

-- mergeHeap.Less.
unfoldable pub less : MergeItem → MergeItem → Bool
less i j =
    elim (internal_compare bytes_compare (decode_internal_key i.key) (decode_internal_key j.key)) [
      | Ordering.lt ↦ true
      | Ordering.gt ↦ false
      | Ordering.eq ↦ ltb i.priority j.priority
    ]

-- heap.Push.
unfoldable pub push : MergeItem → List MergeItem → List MergeItem
push x [] = x ∷ []
push x (y ∷ h) = let rest = push x h in if less x y then x ∷ y ∷ h else y ∷ rest

-- A source that has data goes on the heap, at its key.
unfoldable pub push_valid : ℕ → Source → List MergeItem → List MergeItem
push_valid priority src h =
    if is_valid src
    then push (record { key = source_key src; priority = priority; src = src }) h
    else h

pub record MergeIterator : Type 0 where
  pub heap : List MergeItem
  pub upper_bound : Option Bytes
  pub key : Bytes
  pub val : Bytes
  pub valid : Bool

abbrev pub user_key : Bytes → Bytes
user_key key = (decode_internal_key key).user_key

-- The loop of skipPast, behind its first Next.
unfoldable pub skip_loop : ℕ → Bytes → Source → Source
skip_loop zero key src = src
skip_loop (suc fuel) key src =
    let rest = skip_loop fuel key (next_source src) in
    if is_valid src
    then (if bytes_equal (user_key (source_key src)) key then rest else src)
    else src

-- The loops run on fuel. `bound` is the fuel of the two loops inside Next.
module _ (bound : ℕ) where
  unfoldable pub skip_past : Bytes → MergeItem → List MergeItem → List MergeItem
  skip_past key item h = push_valid item.priority (skip_loop bound key (next_source item.src)) h

  -- The inner loop of Next.
  unfoldable pub skip_others : ℕ → Bytes → List MergeItem → List MergeItem
  skip_others zero key h = h
  skip_others (suc fuel) key [] = []
  skip_others (suc fuel) key (x ∷ h) =
      let rest = skip_others fuel key (skip_past key x h) in
      if bytes_equal (user_key x.key) key then rest else x ∷ h

  -- The heap after the entries of the user key of its first item were skipped.
  unfoldable pub superseded : MergeItem → List MergeItem → List MergeItem
  superseded top h = skip_others bound (user_key top.key) (skip_past (user_key top.key) top h)

  unfoldable pub next_loop : ℕ → List MergeItem → MergeIterator → Bool × MergeIterator
  next_loop zero h m = (false, record m { heap = h; valid = false })
  next_loop (suc fuel) [] m = (false, record m { heap = []; valid = false })
  next_loop (suc fuel) (top ∷ h) m =
      let left = superseded top h in
      let rest = next_loop fuel left m in
      if is_past m.upper_bound (user_key top.key)
      then (false, record m { heap = left; valid = false })
      else if kind (decode_internal_key top.key) == kind_delete
      then rest
      else (
        true,
        record m { heap = left; key = user_key top.key; val = source_value top.src; valid = true },
      )

  unfoldable pub next : MergeIterator → Bool × MergeIterator
  next m = next_loop bound m.heap m

  -- The loop of doScan in server/dispatch.go, which walks the iterator to its end.
  unfoldable pub collect : ℕ → MergeIterator → List (Bytes × Bytes)
  collect zero m = []
  collect (suc fuel) m =
      let (more, m) = next m in
      let rest = collect fuel m in if more then (m.key, m.val) ∷ rest else []

-- The loop of ScanAt over the tables, from this index on.
unfoldable pub push_tables :
    ℕ → Bytes → SeqNum → List DiskTable → List MergeItem → Result (List MergeItem)
push_tables i lower_bound snapshot [] h = ok h
push_tables i lower_bound snapshot (t ∷ tables) h = (do
  it ← Table.new_iterator t.file t.sst (length t.file) lower_bound snapshot
  push_tables (i + 1) lower_bound snapshot tables (push_valid (i + 1) (table t snapshot it) h))

module _ (b : BTree) (f : LogFile) where
  unfoldable pub scan_at :
      Bytes → Option Bytes → SeqNum → Store b.Tree f.State → Result MergeIterator
  scan_at lower_bound upper_bound snapshot db =
      let mem_it = Memtable.new_iterator b lower_bound upper_bound snapshot db.memtable in
      (do
        h ← push_tables 0 lower_bound snapshot db.sstables (push_valid 0 (memory mem_it) [])
        ok (record { heap = h; upper_bound = upper_bound; key = []; val = []; valid = false }))

  unfoldable pub scan : Bytes → Option Bytes → Store b.Tree f.State → Result MergeIterator
  scan lower_bound upper_bound db = scan_at lower_bound upper_bound seq_num_max db
