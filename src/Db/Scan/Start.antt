-- ===== src/Db/Scan/Start.antt =====
-- ScanAt and the first Next (db/iterator.go).
use hcdb.Prelude.{
  ℕ, suc, ◌+◌, ◌≤◌, ◌≡◌, ◌↔◌, ◌⊎◌, inl, inr, refl, subst, ap, ◌∙◌, arith, List, [], ◌∷◌, length,
  false, Option, none, ok, All,
}
use hcdb.Binary.{Bytes}
use hcdb.Base.Key.{SeqNum, seq_num_max}
use hcdb.Wal.Log.{LogFile}
use hcdb.Memtable
use hcdb.Memtable.{BTree, ascend}
use hcdb.Memtable.Seek as Seek
use hcdb.Memtable.Scan.{new_iterator_scan}
use hcdb.Sstable.Block.{BlockEntry}
use hcdb.Sstable.Iterator.Seeks.{drop_while, length-drop_while, is_before, seek_key_of}
use hcdb.Sstable.Iterator.Lookup.{IsStrict-IsSorted, new_iterator-Starts}
use hcdb.Sstable.Disk.{DiskTable}
use hcdb.Db.Store.{Store, block_entries_of}
use hcdb.Db.Store.Reads.{AllStored}
use hcdb.Db.Scan.{
  memory, table, MergeItem, MergeIterator, push_valid, push_tables, scan_at, collect,
}
use hcdb.Db.Scan.Heap.{Holds, IsIn, total, Shows, IsOrdered, Stocks}
use hcdb.Db.Scan.Skips.{push_valid-Merges, push_valid-IsOrdered}
use hcdb.Db.Scan.Listing.{Pair, IsLive, IsListed, Lists, collect-Lists}
use hcdb.Db.Scan.Sources.{
  keep, is_scanned, keep-IsSorted, memory-Holds, block_entries_of-select, block_entries_of-IsSorted,
  table-Holds, keep_from,
}

-- Of every level, what is not below the lower bound and the snapshot sees.
unfoldable pub scanned : Bytes → SeqNum → List (List BlockEntry) → List (List BlockEntry)
scanned lower s [] = []
scanned lower s (es ∷ levels) = keep (is_scanned lower none s) es ∷ scanned lower s levels

-- The heap holds what rs and more hold.
record Fills (rs more : List (List BlockEntry)) (h : List MergeItem) : Type 0 where
  runs : List (List BlockEntry)
  stocks : Stocks h runs
  into : (e : BlockEntry) → IsIn e rs ⊎ IsIn e more → IsIn e runs
  from : (e : BlockEntry) → IsIn e runs → IsIn e rs ⊎ IsIn e more
  counted : total runs ≡ total rs + total more

module _ (lower : Bytes) (s : SeqNum) (le : s ≤ seq_num_max) where
  push_tables-Fills :
      (i : ℕ) (tables : List DiskTable) (levels : List (List BlockEntry)) (h : List MergeItem)
      (rs : List (List BlockEntry))
      → AllStored tables levels
      → Stocks h rs
      → (h' : List MergeItem) × (push_tables i lower s tables h ≡ ok h')
        × Fills rs (scanned lower s levels) h'
  unfolding push_tables scanned IsIn total
  push_tables-Fills i [] [] h rs stored stocks = (
    h,
    refl,
    record {
      runs = rs;
      stocks = stocks;
      into = λ e o. elim o [ inl here ↦ here | inr none_there ↦ absurd none_there ];
      from = λ e here. inl here;
      counted = omega arith;
    },
  )
  push_tables-Fills i [] (es ∷ levels) h rs stored stocks = absurd stored
  push_tables-Fills i (t ∷ tables) [] h rs stored stocks = absurd stored
  push_tables-Fills i (t ∷ tables) (es ∷ levels) h rs stored stocks =
      let is_table = stored.0.is_table in
      let sorted = IsStrict-IsSorted es is_table.strict in
      let st = new_iterator-Starts t.file t.sst es is_table lower s (length t.file) stored.0.few in
      let src = table t s st.it in
      let holds : Holds src (keep (is_scanned lower none s) es) =
        subst (Holds src) (keep_from lower s le es is_table.kinds sorted) (
          table-Holds t s st.it (drop_while (is_before (seek_key_of lower s)) es) st.in_range
            st.left_over
            (omega
              (arith, stored.0.few, length-drop_while (is_before (seek_key_of lower s)) es))) in
      let m =
        push_valid-Merges (i + 1) src (keep (is_scanned lower none s) es) h rs holds
          (keep-IsSorted (is_scanned lower none s) es sorted) stocks.shows in
      let (h', fills, f) =
        push_tables-Fills (i + 1) tables levels (push_valid (i + 1) src h) m.runs stored.1 (record {
          shows = m.shows;
          ordered = push_valid-IsOrdered (i + 1) src h stocks.ordered;
        }) in
      (
        h',
        rw (push_tables, st.starts) fills,
        record {
          runs = f.runs;
          stocks = f.stocks;
          into = λ e o. elim o [
            | inl here ↦ f.into e (inl (m.into e (inr here)))
            | inr (inl level) ↦ f.into e (inl (m.into e (inl level)))
            | inr (inr deeper) ↦ f.into e (inr deeper)
          ];
          from = λ e here. elim (f.from e here) [
            | inr deeper ↦ inr (inr deeper)
            | inl merged ↦ elim (m.from e merged) [
              | inl level ↦ inr (inl level)
              | inr old ↦ inl old
            ]
          ];
          counted = omega (arith, f.counted, m.counted);
        },
      )

module _ (upper : Option Bytes) (rs rs' : List (List BlockEntry))
    (same : (e : BlockEntry) → IsIn e rs ↔ IsIn e rs') where
  IsLive-same : (e : BlockEntry) → IsLive upper rs e → IsLive upper rs' e
  IsLive-same e l = record {
    is_in = (same e).0 l.is_in;
    newest = λ d i u. l.newest d ((same d).1 i) u;
    is_live = l.is_live;
    within = l.within;
  }

  IsListed-same : (ps : List Pair) → All (IsListed upper rs) ps → All (IsListed upper rs') ps
  IsListed-same [] all = tt
  IsListed-same (p ∷ ps) all =
      let (e, l, is) = all.0 in ((e, IsLive-same e l, is), IsListed-same ps all.1)

  IsLive-back : (e : BlockEntry) → IsLive upper rs' e → IsLive upper rs e
  IsLive-back e l = record {
    is_in = (same e).1 l.is_in;
    newest = λ d i u. l.newest d ((same d).0 i) u;
    is_live = l.is_live;
    within = l.within;
  }

  Lists-same : (ps : List Pair) → Lists upper rs ps → Lists upper rs' ps
  Lists-same ps l = record {
    ascending = l.ascending;
    sound = IsListed-same ps l.sound;
    complete = λ e live. l.complete e (IsLive-back e live);
  }

module _ (b : BTree) (f : LogFile) (lower : Bytes) (upper : Option Bytes) (s : SeqNum)
    (db : Store b.Tree f.State) (levels : List (List BlockEntry)) where
  -- What a scan ranges over: the entries of the memtable and of the tables that are within the
  -- bounds and that the snapshot sees. The upper bound of the tables is left to Next.
  abbrev pub held : List (List BlockEntry)
  held =
      keep (is_scanned lower upper s) (block_entries_of (ascend b db.memtable))
      ∷ scanned lower s levels

  pub record Scans : Type 0 where
    pub m : MergeIterator
    pub starts : scan_at b f lower upper s db ≡ ok m
    pub bounded : m.upper_bound ≡ upper
    pub runs : List (List BlockEntry)
    pub stocks : Stocks m.heap runs
    pub same : (e : BlockEntry) → IsIn e runs ↔ IsIn e held
    pub counted : total runs ≡ total held

  pub scan_at-Scans :
      s ≤ seq_num_max → Seek.IsOrdered (ascend b db.memtable) → AllStored db.sstables levels → Scans
  unfolding scan_at Shows IsOrdered IsIn total
  scan_at-Scans le ordered stored =
      let items = ascend b db.memtable in
      let mem_it = Memtable.new_iterator b lower upper s db.memtable in
      let kept = keep (is_scanned lower upper s) (block_entries_of items) in
      let same_items : block_entries_of mem_it ≡ kept =
        ap block_entries_of (new_iterator_scan b lower upper s db.memtable le ordered)
        ∙ block_entries_of-select lower upper s items in
      let m =
        push_valid-Merges 0 (memory mem_it) kept [] []
          (subst (Holds (memory mem_it)) same_items (memory-Holds mem_it))
          (keep-IsSorted (is_scanned lower upper s) (block_entries_of items)
            (block_entries_of-IsSorted items ordered.sorted))
          tt in
      let (h, fills, f) =
        push_tables-Fills lower s le 0 db.sstables levels (push_valid 0 (memory mem_it) []) m.runs
          stored
          (record { shows = m.shows; ordered = push_valid-IsOrdered 0 (memory mem_it) [] tt }) in
      record {
        m = record { heap = h; upper_bound = upper; key = []; val = []; valid = false };
        starts = rw (scan_at, fills) refl;
        bounded = refl;
        runs = f.runs;
        stocks = f.stocks;
        same = λ e. (
          λ here. elim (f.from e here) [
            | inr deeper ↦ inr deeper
            | inl merged ↦ elim (m.from e merged) [
              | inl in_mem ↦ inl in_mem
              | inr none_there ↦ absurd none_there
            ]
          ],
          λ there. elim there [
            | inl in_mem ↦ f.into e (inl (m.into e (inl in_mem)))
            | inr deeper ↦ f.into e (inr deeper)
          ],
        );
        counted = omega (arith, f.counted, m.counted);
      }

  -- A store whose memtable is in order and whose tables hold the entries of their levels, and fuel for the entries that are within the scan. ScanAt returns no error, and walking its iterator to the end lists exactly the user keys within the bounds that have an entry the snapshot sees and whose newest such version is no tombstone: each once, in strictly ascending order, with the value of a newest version.
  pub scan_at-Lists :
      (bound fuel : ℕ)
      → s ≤ seq_num_max
      → Seek.IsOrdered (ascend b db.memtable)
      → AllStored db.sstables levels
      → total held ≤ bound
      → suc (total held) ≤ fuel
      → (m : MergeIterator) × (scan_at b f lower upper s db ≡ ok m)
        × Lists upper held (collect bound fuel m)
  scan_at-Lists bound fuel le ordered stored few enough =
      let sc = scan_at-Scans le ordered stored in
      (
        sc.m,
        sc.starts,
        Lists-same upper sc.runs held sc.same (collect bound fuel sc.m) (
            subst (λ u. Lists u sc.runs (collect bound fuel sc.m)) sc.bounded
              (collect-Lists bound fuel sc.m sc.runs sc.stocks (omega (arith, sc.counted))
                (omega (arith, sc.counted)))),
      )
