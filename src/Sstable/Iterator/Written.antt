-- ===== src/Sstable/Iterator/Written.antt =====
-- Lookup on a table that a writer made (sstable/sstable.go, writer.go, write_from_entries.go).
use hcdb.Prelude.{
  ℕ, ◌+◌, ◌^◌, ◌≤◌, ◌<◌, ◌≡◌, refl, sym, subst, ap, ◌∙◌, arith, List, [], ◌∷◌, ◌++◌, length,
  append_assoc, length-append, All, All-left, All-right, ok,
}
use hcdb.Binary.{Bytes}
use hcdb.Base.Key.{SeqNum, seq_num_max, kind, kind_max, decode_internal_key}
use hcdb.Bloom.{BloomFilter}
use hcdb.Bloom.Membership.{IsSized}
use hcdb.Versions.{newest_version}
use hcdb.Sstable.Block.{BlockEntry, encode_block}
use hcdb.Sstable.Block.RoundTrip as Block
use hcdb.Sstable.Index.{encode_index}
use hcdb.Sstable.Sort.{entry_key}
use hcdb.Sstable.Table.{write_from_block_entries, flush_table, read_block, finish}
use hcdb.Sstable.Table.Blocks.{blocks_bytes, blocks_entries, block_entry, index_of}
use hcdb.Sstable.Table.Equal.{flush_table-write_from_block_entries}
use hcdb.Sstable.Table.Iterate.{FitsBlock, length-encode_block, read_block-encode_block}
use hcdb.Sstable.Table.Open.{
  written, written-Built, all_in_blocks, Built-small, bloom_section, footer_of, file_of,
  length-file_of, open_table-write,
}
use hcdb.Sstable.Iterator.{lookup}
use hcdb.Sstable.Iterator.Blocks.{IsBlocks, IsStrict}
use hcdb.Sstable.Iterator.Lookup.{IsTable, entry_answer, lookup-newest_version}

index_of-IsBlocks :
    (file before : Bytes) (bs : List (List BlockEntry)) (behind : Bytes)
    → file ≡ before ++ (blocks_bytes bs ++ behind)
    → All FitsBlock (blocks_entries bs)
    → All (λ b. 0 < length b) bs
    → length before + length (blocks_bytes bs) < 2 ^ 31
    → IsBlocks file (index_of (length before) bs) bs
index_of-IsBlocks file before [] behind whole h full small = tt
index_of-IsBlocks file before (b ∷ bs) behind whole h full small =
    let sizes = length-append (encode_block b) (blocks_bytes bs) in
    let here = length-append before (encode_block b) in
    let at_block : file ≡ before ++ (encode_block b ++ (blocks_bytes bs ++ behind)) =
      whole
      ∙ ap (λ (l : Bytes). before ++ l) (append_assoc (encode_block b) (blocks_bytes bs) behind) in
    let at_rest : file ≡ (before ++ encode_block b) ++ (blocks_bytes bs ++ behind) =
      at_block ∙ sym (append_assoc before (encode_block b) (blocks_bytes bs ++ behind)) in
    (
      (
        ap (λ (f : Bytes). read_block f (block_entry (length before) b)) at_block
            ∙ read_block-encode_block before b (blocks_bytes bs ++ behind)
                (All-left FitsBlock b (blocks_entries bs) h) (omega (arith, sizes))
                (omega (arith, sizes)),
        full.0,
        refl,
      ),
      subst (λ n. IsBlocks file (index_of n bs) bs) here
          (index_of-IsBlocks file (before ++ encode_block b) bs behind at_rest
            (All-right FitsBlock b (blocks_entries bs) h) full.1 (omega (arith, sizes, here))),
    )

length-blocks_entries :
    (bs : List (List BlockEntry)) → length (blocks_entries bs) ≤ length (blocks_bytes bs)
length-blocks_entries [] = omega arith
length-blocks_entries (b ∷ bs) = omega (
  arith,
  length-blocks_entries bs,
  length-encode_block b,
  length-append b (blocks_entries bs),
  length-append (encode_block b) (blocks_bytes bs),
)

module _ (bloom : BloomFilter) (entries : List BlockEntry) where
  pub write-IsTable :
      IsSized bloom
      → bloom.size < 2 ^ 32
      → bloom.num_hash < 2 ^ 32
      → All Block.Fits entries
      → length (write_from_block_entries bloom entries).0 < 2 ^ 31
      → IsStrict entries
      → All (λ (e : BlockEntry). kind (decode_internal_key e.key) ≤ kind_max) entries
      → let (file, sst) = write_from_block_entries bloom entries in IsTable file sst entries
  unfolding write_from_block_entries finish
  write-IsTable is_sized size num_hash fits small strict kinds =
      let w = written bloom entries in
      let (b, empty) = written-Built bloom entries in
      let whole = all_in_blocks w b.offset small entries b empty in
      let behind = encode_index w.index_entries ++ (bloom_section w ++ footer_of w) in
      record {
        blocks = b.blocks;
        in_blocks = whole;
        reads =
            subst (λ index. IsBlocks (file_of w) index b.blocks) (sym b.indexed)
              (index_of-IsBlocks (file_of w) [] b.blocks behind
                (ap (λ (l : Bytes). l ++ behind) b.bytes) (subst (λ l. All FitsBlock l) whole fits)
                b.full (omega (arith, Built-small w b.offset small entries b)));
        strict = strict;
        kinds = kinds;
        filtered = (open_table-write bloom entries is_sized size num_hash fits small).2;
      }

  -- A file is at least as long as its table has entries.
  pub length-entries :
      length (write_from_block_entries bloom entries).0 < 2 ^ 31
      → length entries ≤ length (write_from_block_entries bloom entries).0
  unfolding write_from_block_entries finish
  length-entries small =
      let w = written bloom entries in
      let (b, empty) = written-Built bloom entries in
      omega (
        arith,
        length-file_of w,
        ap (λ (l : Bytes). length l) b.bytes,
        ap (λ (l : List BlockEntry). length l) (all_in_blocks w b.offset small entries b empty),
        length-blocks_entries b.blocks,
      )

  -- Entries in strict order, of kind Set or Delete, with keys and values shorter than 2^32 bytes, in a file shorter than 2^31 bytes, with a filter that has a bit for every position. A Lookup in the table that Flush writes of them, and one in the table that WriteSSTableFromBlockEntries writes, with fuel for the entries, return no error and answer with the newest version of the user key among those entries that the snapshot sees.
  pub lookup-flush_table :
      (fuel : ℕ) (k : Bytes) (s : SeqNum)
      → IsSized bloom
      → bloom.size < 2 ^ 32
      → bloom.num_hash < 2 ^ 32
      → All Block.Fits entries
      → length (flush_table bloom entries).0 < 2 ^ 31
      → IsStrict entries
      → All (λ (e : BlockEntry). kind (decode_internal_key e.key) ≤ kind_max) entries
      → s ≤ seq_num_max
      → length entries ≤ fuel
      → let (flushed, a) = flush_table bloom entries in
        let (merged, b) = write_from_block_entries bloom entries in
        let answer = entry_answer (newest_version entry_key k s entries) in
        (lookup flushed a fuel k s ≡ ok answer) × (lookup merged b fuel k s ≡ ok answer)
  lookup-flush_table fuel k s is_sized size num_hash fits small strict kinds le enough =
      let same = flush_table-write_from_block_entries bloom entries in
      let t =
        write-IsTable is_sized size num_hash fits (subst (λ w. length w.0 < 2 ^ 31) same small)
          strict kinds in
      let found =
        lookup-newest_version (write_from_block_entries bloom entries).0
          (write_from_block_entries bloom entries).1 entries t k s fuel le enough in
      (
        subst
            (λ w.
              lookup w.0 w.1 fuel k s ≡ ok (entry_answer (newest_version entry_key k s entries)))
            (sym same) found,
        found,
      )
