-- ===== src/Db/Store/Flushes.antt =====
-- The flush of the memtable (db/db.go, sstable/writer.go).
use hcdb.Prelude.{
  suc, ◌^◌, ◌≤◌, ◌<◌, ◌≡◌, refl, sym, subst, ap, ◌∙◌, List, [], ◌∷◌, ◌++◌, length, All, none, some,
  Error, lt→ltb, inl, inr, Bool-cases, ok, ◌≢◌, Ordering,
}
use hcdb.Config.{default_compaction_threshold}
use hcdb.Binary.{Bytes}
use hcdb.Base.Key.{SeqNum, seq_num_max, kind, kind_max, decode_internal_key, internal_compare}
use hcdb.Binary.Compare.{bytes_compare}
use hcdb.Base.Watermark
use hcdb.Bufio.{is_nil}
use hcdb.Bloom.{BloomFilter}
use hcdb.Bloom.Membership.{IsSized}
use hcdb.Wal.Log.{LogFile}
use hcdb.Memtable
use hcdb.Memtable.{Item, BTree, ascend}
use hcdb.Memtable.Seek.{item_key, IsOrdered}
use hcdb.Versions.Newest.{IsSorted}
use hcdb.Sstable.Block.{BlockEntry}
use hcdb.Sstable.Block.RoundTrip as Block
use hcdb.Sstable.Sort.{entry_key}
use hcdb.Sstable.Table.{SsTable, flush_table}
use hcdb.Sstable.Table.Equal.{flush_table-write_from_block_entries}
use hcdb.Sstable.Iterator.Blocks.{IsStrict}
use hcdb.Sstable.Iterator.Lookup.{IsStrict-IsSorted}
use hcdb.Sstable.Iterator.Written.{write-IsTable, length-entries}
use hcdb.Sstable.Disk.{DiskTable, installed, flush_to}
use hcdb.Compaction.Compact.{compact}
use hcdb.Db.Store.{
  Store, Os, block_entry_of, block_entries_of, get_at, reset_wal, install_table,
  flush_memtable_locked,
}
use hcdb.Versions.{newest_version}
use hcdb.Db.Store.Reads.{value_of, IsStored, AllStored, all_entries, get_at-newest_version}

-- What the format of a table asks of the entries that are flushed, with this filter.
pub record IsWritable (bloom : BloomFilter) (es : List BlockEntry) : Type 0 where
  pub sized : IsSized bloom
  pub size_fits : bloom.size < 2 ^ 32
  pub hash_fits : bloom.num_hash < 2 ^ 32
  pub fits : All Block.Fits es
  pub small : length (flush_table bloom es).0 < 2 ^ 31
  pub strict : IsStrict es
  pub kinds : All (λ (e : BlockEntry). kind (decode_internal_key e.key) ≤ kind_max) es

pub installed-IsStored :
    (path : Bytes) (bloom : BloomFilter) (es : List BlockEntry)
    → IsWritable bloom es
    → IsStored (installed path (flush_table bloom es)) es
installed-IsStored path bloom es w =
    let same = flush_table-write_from_block_entries bloom es in
    let small = subst (λ (t : Bytes × SsTable). length t.0 < 2 ^ 31) same w.small in
    subst (λ t. IsStored (installed path t) es) (sym same)
      (record {
        is_table =
            write-IsTable bloom es w.sized w.size_fits w.hash_fits w.fits small w.strict w.kinds;
        few = length-entries bloom es small;
      })

All-block_entries_of {κ} :
    (P : BlockEntry → Type κ) (xs : List Item)
    → All P (block_entries_of xs)
    → All (λ x. P (block_entry_of x)) xs
All-block_entries_of P [] h = tt
All-block_entries_of P (x ∷ xs) h = (h.0, All-block_entries_of P xs h.1)

items-IsSorted : (xs : List Item) → IsSorted entry_key (block_entries_of xs) → IsSorted item_key xs
items-IsSorted [] h = tt
items-IsSorted (x ∷ xs) h = (
  All-block_entries_of
      (λ (y : BlockEntry).
        internal_compare bytes_compare (decode_internal_key y.key) (decode_internal_key x.key)
        ≢ Ordering.lt)
      xs h.0,
  items-IsSorted xs h.1,
)

items-IsOrdered :
    (xs : List Item)
    → IsStrict (block_entries_of xs)
    → All (λ (e : BlockEntry). kind (decode_internal_key e.key) ≤ kind_max) (block_entries_of xs)
    → IsOrdered xs
items-IsOrdered xs strict kinds = record {
  sorted = items-IsSorted xs (IsStrict-IsSorted (block_entries_of xs) strict);
  kinds =
      All-block_entries_of (λ (e : BlockEntry). kind (decode_internal_key e.key) ≤ kind_max) xs
        kinds;
}

module _ (b : BTree) (f : LogFile) (os : Os f) where
  abbrev Db : Type 0
  Db = Store b.Tree f.State

  -- With few tables the new one is only put in front, whatever the reset of the log returns.
  pub record Installs (t : DiskTable) (db after : Db) : Type 0 where
    pub tables : after.sstables ≡ t ∷ db.sstables
    pub emptied : ascend b after.memtable ≡ []
    pub kept_seq_num : after.seq_num ≡ db.seq_num
    pub kept_watermark : after.watermark ≡ db.watermark

  few_tables :
      (tables : List DiskTable) (floor : SeqNum)
      → length tables < default_compaction_threshold
      → compact os.disk tables floor ≡ (ok tables, [])
  unfolding compact
  few_tables tables floor few =
      rw (compact, lt→ltb (length tables) default_compaction_threshold few) refl

  install_table-Installs :
      (t : DiskTable) (db : Db)
      → suc (length db.sstables) < default_compaction_threshold
      → Installs t db (install_table b f os t db).1
  unfolding install_table ascend Memtable.new_mem_table
  install_table-Installs t db few = elim (Bool-cases (is_nil (reset_wal b f os db.wal).0)) [
    | inl clean ↦
        rw (install_table, clean, few_tables (t ∷ db.sstables) (Watermark.floor db.watermark) few)
          (record {
            tables = refl;
            emptied = b.ascend_new;
            kept_seq_num = refl;
            kept_watermark = refl;
          })
    | inr failed ↦
        rw (install_table, failed)
          (record {
            tables = refl;
            emptied = b.ascend_new;
            kept_seq_num = refl;
            kept_watermark = refl;
          })
  ]

  -- What is flushed.
  abbrev pub flushed : Db → List BlockEntry
  flushed db = block_entries_of (ascend b db.memtable)

  same_reads :
      (t : DiskTable) (db after : Db) (levels : List (List BlockEntry))
      → IsWritable os.disk.bloom (flushed db)
      → IsStored t (flushed db)
      → AllStored db.sstables levels
      → Installs t db after
      → AllStored after.sstables (flushed db ∷ levels)
        × ((k : Bytes) (s : SeqNum) → s ≤ seq_num_max → get_at b f k s after ≡ get_at b f k s db)
  same_reads t db after levels writable stored below i =
      let now : AllStored after.sstables (flushed db ∷ levels) =
        subst (λ ts. AllStored ts (flushed db ∷ levels)) (sym i.tables) (stored, below) in
      let empty : IsOrdered (ascend b after.memtable) =
        subst IsOrdered (sym i.emptied) (record { sorted = tt; kinds = tt }) in
      let ordered = items-IsOrdered (ascend b db.memtable) writable.strict writable.kinds in
      (
        now,
        λ k s le.
            get_at-newest_version b f after (flushed db ∷ levels) k s le empty now
            ∙ ap
                (λ xs. value_of (
                  newest_version entry_key k s
                    (block_entries_of xs ++ (flushed db ++ all_entries levels))))
                i.emptied
            ∙ sym (get_at-newest_version b f db levels k s le ordered below),
      )

  -- A flush of a store whose tables hold these levels, so few of them that no compaction follows, and whose memtable holds entries in strict order that a table can hold. Whatever the reset of the log returns afterwards, the memtable is empty and the first of the tables holds exactly its entries, and every read at every snapshot answers as before. If writing the table fails, that error is returned and the store is as it was.
  pub flush_memtable_locked-get_at :
      (db : Db) (levels : List (List BlockEntry))
      → IsWritable os.disk.bloom (flushed db)
      → AllStored db.sstables levels
      → suc (length db.sstables) < default_compaction_threshold
      → (os.flush_error ≡ none
          → let after = (flush_memtable_locked b f os db).1 in
            (ascend b after.memtable ≡ [])
            × AllStored after.sstables (flushed db ∷ levels)
            × ((k : Bytes) (s : SeqNum)
                → s ≤ seq_num_max
                → get_at b f k s after ≡ get_at b f k s db))
        × ((e : Error) → os.flush_error ≡ some e → flush_memtable_locked b f os db ≡ (some e, db))
  unfolding flush_memtable_locked flush_to
  flush_memtable_locked-get_at db levels writable stored few = (
    λ clean.
        let t = installed os.flush_path (flush_table os.disk.bloom (flushed db)) in
        let i = install_table-Installs t db few in
        let all =
          same_reads t db (install_table b f os t db).1 levels writable
            (installed-IsStored os.flush_path os.disk.bloom (flushed db) writable) stored i in
        rw (flush_memtable_locked, flush_to, clean) (i.emptied, all.0, all.1),
    λ e failed. rw (flush_memtable_locked, flush_to, failed) refl,
  )
