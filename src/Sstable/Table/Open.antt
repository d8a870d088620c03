-- ===== src/Sstable/Table/Open.antt =====
-- A table, written and opened (sstable/writer.go, reader.go, block_iterator.go).
use hcdb.Prelude.{
  ℕ, ◌+◌, ◌/◌, ◌%◌, ◌^◌, ◌≤◌, ◌<◌, ◌≡◌, refl, sym, subst, ap, ◌∙◌, arith, List, [], ◌∷◌, ◌++◌,
  length, drop, true, append-nil, append_assoc, length-append, All, ok,
}
use hcdb.Binary.{Bytes}
use hcdb.Binary.Uint.{put_uint, length-put_uint}
use hcdb.Binary.Reader.{read_full-append, read_uint-put_uint}
use hcdb.Bloom.{BloomFilter, might_contain, serialize}
use hcdb.Bloom.Membership.{IsSized}
use hcdb.Bloom.Pack.{deserialize-serialize, length-serialize}
use hcdb.Sstable.Block.{BlockEntry}
use hcdb.Sstable.Block.RoundTrip as Block
use hcdb.Sstable.Block.RoundTrip.{decode_block-encode_block}
use hcdb.Sstable.Index.{
  IndexEntry, encode_index, index_size, encode_footer_with_bloom, read_footer_with_bloom,
  decode_index,
}
use hcdb.Sstable.Index.RoundTrip.{
  length-encode_index, decode_index-encode_index, read_footer-encode_footer,
}
use hcdb.Sstable.Table.{
  TableWriter, new_table_writer, flush_current, collect_all, bloom_all, user_key_of, finish,
  write_from_block_entries, read_bloom, open_table, or_panic, new_block_iterator,
}
use hcdb.Sstable.Table.Iterate.{FitsBlock, FitsIndex, index_of-Fits, new_block_iterator-index_of}
use hcdb.Sstable.Table.Filter.{
  bloom_all-IsSame, bloom_all-IsSized, bloom_all_contains, collect_all-bloom, flush_current-bloom,
}
use hcdb.Sstable.Table.Blocks.{
  blocks_bytes, blocks_entries, Built, new_table_writer-Built, collect_all-Built,
  flush_current-Built,
}

length-footer : (i n b : ℕ) → length (encode_footer_with_bloom i n b) ≡ 20
unfolding encode_footer_with_bloom
length-footer i n b = simp (length-append, length-put_uint) refl

length-index_size : (es : List IndexEntry) → length es ≤ index_size es
unfolding index_size
length-index_size [] = omega arith
length-index_size (e ∷ es) = omega (arith, length-index_size es)

-- What finish writes behind the index.
abbrev pub bloom_section : TableWriter → Bytes
bloom_section w = put_uint 4 (length (serialize w.bloom) % 2 ^ 32) ++ serialize w.bloom

abbrev pub footer_of : TableWriter → Bytes
footer_of w =
    encode_footer_with_bloom w.current_offset (length w.index_entries % 2 ^ 32)
      (w.current_offset + index_size w.index_entries)

abbrev pub file_of : TableWriter → Bytes
file_of w = w.writer ++ (encode_index w.index_entries ++ (bloom_section w ++ footer_of w))

pub length-file_of :
    (w : TableWriter)
    → length (file_of w)
      ≡ length w.writer + index_size w.index_entries + 4 + length (serialize w.bloom) + 20
length-file_of w =
    simp (length-append, length-put_uint, length-footer, length-encode_index) (omega arith)

no_entries : (es : List BlockEntry) → length es ≡ 0 → es ≡ []
no_entries [] h = refl
no_entries (e ∷ es) h = absurd (omega arith)

module _ (w : TableWriter) (at : w.current_offset ≡ length w.writer)
    (small : length (file_of w) < 2 ^ 31) where
  footer_read :
      read_footer_with_bloom (file_of w)
      ≡ ok (w.current_offset, length w.index_entries, w.current_offset + index_size w.index_entries)
  footer_read =
      let front = w.writer ++ (encode_index w.index_entries ++ bloom_section w) in
      let split : file_of w ≡ front ++ footer_of w = cc (
        append_assoc w.writer (encode_index w.index_entries ++ bloom_section w) (footer_of w),
        append_assoc (encode_index w.index_entries) (bloom_section w) (footer_of w),
      ) in
      let few : length w.index_entries % 2 ^ 32 ≡ length w.index_entries =
        omega (arith, small, length-file_of w, length-index_size w.index_entries) in
      ap (λ (f : Bytes). read_footer_with_bloom f) split
      ∙ read_footer-encode_footer front w.current_offset (length w.index_entries % 2 ^ 32)
          (w.current_offset + index_size w.index_entries)
          (omega (arith, small, at, length-file_of w)) (omega arith)
          (omega (arith, small, at, length-file_of w))
      ∙ ap (λ (n : ℕ). ok (w.current_offset, n, w.current_offset + index_size w.index_entries)) few

  bloom_read :
      All FitsIndex w.index_entries
      → length w.bloom.bits ≡ w.bloom.size
      → w.bloom.size < 2 ^ 32
      → w.bloom.num_hash < 2 ^ 32
      → read_bloom (file_of w) (w.current_offset + index_size w.index_entries) ≡ ok w.bloom
  unfolding read_bloom
  bloom_read fits sized size num_hash =
      let bytes = serialize w.bloom in
      let len : length bytes % 2 ^ 32 ≡ length bytes = omega (arith, small, length-file_of w) in
      let here : drop (w.current_offset + index_size w.index_entries) (file_of w)
          ≡ bloom_section w ++ footer_of w =
        ap (λ (n : ℕ). drop (n + index_size w.index_entries) (file_of w)) at
        ∙ (decode_index-encode_index w.writer w.index_entries (bloom_section w ++ footer_of w)
            fits).1 in
      rw
        (
          read_bloom,
          here,
          append_assoc (put_uint 4 (length bytes % 2 ^ 32)) bytes (footer_of w),
          read_uint-put_uint 4 (length bytes % 2 ^ 32) (bytes ++ footer_of w) (omega arith),
          len,
          read_full-append (length bytes) bytes (footer_of w) refl,
        )
        (ap or_panic (deserialize-serialize w.bloom sized size num_hash))

  index_read :
      All FitsIndex w.index_entries
      → decode_index (file_of w) w.current_offset (length w.index_entries) ≡ ok w.index_entries
  index_read fits =
      ap (λ (n : ℕ). decode_index (file_of w) n (length w.index_entries)) at
      ∙ (decode_index-encode_index w.writer w.index_entries (bloom_section w ++ footer_of w) fits).0

  finish_opens :
      All FitsIndex w.index_entries
      → length w.bloom.bits ≡ w.bloom.size
      → w.bloom.size < 2 ^ 32
      → w.bloom.num_hash < 2 ^ 32
      → open_table (file_of w) ≡ ok (record { index = w.index_entries; bloom = w.bloom })
  unfolding open_table
  finish_opens fits sized size num_hash =
      rw (open_table, footer_read, index_read fits, bloom_read fits sized size num_hash)

  -- What the writer was given, when nothing is left to put in a block.
  pub all_in_blocks :
      (entries : List BlockEntry) (b : Built entries w)
      → length w.collector.entries ≡ 0
      → entries ≡ blocks_entries b.blocks
  all_in_blocks entries b empty =
      b.all_entries
      ∙ ap (λ (l : List BlockEntry). blocks_entries b.blocks ++ l)
          (no_entries w.collector.entries empty)
      ∙ append-nil (blocks_entries b.blocks)

  pub Built-small :
      (entries : List BlockEntry) (b : Built entries w) → length (blocks_bytes b.blocks) < 2 ^ 31
  Built-small entries b =
      omega (arith, small, length-file_of w, ap (λ (l : Bytes). length l) b.bytes)

  Built-FitsIndex :
      (entries : List BlockEntry) (b : Built entries w)
      → All FitsBlock (blocks_entries b.blocks)
      → All FitsIndex w.index_entries
  Built-FitsIndex entries b fits =
      subst (λ l. All FitsIndex l) (sym b.indexed)
        (index_of-Fits 0 b.blocks fits (omega (arith, Built-small entries b)))

  Built-iterates :
      (entries : List BlockEntry) (b : Built entries w)
      → All FitsBlock (blocks_entries b.blocks)
      → new_block_iterator (file_of w) w.index_entries ≡ ok (blocks_entries b.blocks)
  Built-iterates entries b fits =
      let behind = encode_index w.index_entries ++ (bloom_section w ++ footer_of w) in
      ap (λ (l : Bytes). new_block_iterator (l ++ behind) w.index_entries) b.bytes
      ∙ ap (λ (index : List IndexEntry). new_block_iterator (blocks_bytes b.blocks ++ behind) index)
          b.indexed
      ∙ new_block_iterator-index_of [] b.blocks behind fits (omega (arith, Built-small entries b))

-- The writer behind the last flush, on these entries.
abbrev pub written : BloomFilter → List BlockEntry → TableWriter
written bloom entries =
    flush_current (collect_all (new_table_writer (bloom_all bloom entries)) entries)

pub written-Built :
    (bloom : BloomFilter) (entries : List BlockEntry)
    → Built entries (written bloom entries) × (length (written bloom entries).collector.entries ≡ 0)
written-Built bloom entries =
    let start = new_table_writer (bloom_all bloom entries) in
    flush_current-Built entries (collect_all start entries)
      (collect_all-Built [] entries start (new_table_writer-Built (bloom_all bloom entries)))

-- How long the file is.
pub length-write :
    (bloom : BloomFilter) (entries : List BlockEntry)
    → IsSized bloom
    → length (write_from_block_entries bloom entries).0
      ≡ length (written bloom entries).writer
        + index_size (written bloom entries).index_entries
        + (8 + (bloom.size + 7) / 8)
        + 24
unfolding write_from_block_entries finish
length-write bloom entries is_sized =
    let w = written bloom entries in
    let filled = collect_all (new_table_writer (bloom_all bloom entries)) entries in
    let filter : w.bloom ≡ bloom_all bloom entries =
      flush_current-bloom filled
      ∙ collect_all-bloom (new_table_writer (bloom_all bloom entries)) entries in
    let whole : length (write_from_block_entries bloom entries).0 ≡ length (file_of w) = refl in
    omega (
      arith,
      whole,
      length-file_of w,
      length-serialize w.bloom,
      ap (λ (bf : BloomFilter). length bf.bits) filter,
      (bloom_all-IsSized bloom entries is_sized).sized,
      (bloom_all-IsSame bloom entries).size,
    )

-- A filter has a bit for every position and its two numbers fit 32 bits. A table whose entries have keys and values shorter than 2^32 bytes, and whose file is shorter than 2^31 bytes, is opened with exactly the index and the filter that its writer returned, its blocks hold exactly its entries in order, and its filter answers true for the user key of each.
pub open_table-write :
    (bloom : BloomFilter) (entries : List BlockEntry)
    → IsSized bloom
    → bloom.size < 2 ^ 32
    → bloom.num_hash < 2 ^ 32
    → All Block.Fits entries
    → length (write_from_block_entries bloom entries).0 < 2 ^ 31
    → let (file, sst) = write_from_block_entries bloom entries in
      (open_table file ≡ ok sst)
      × (new_block_iterator file sst.index ≡ ok entries)
      × All (λ e. might_contain sst.bloom (user_key_of e) ≡ true) entries
unfolding write_from_block_entries finish
open_table-write bloom entries is_sized size num_hash fits small =
    let w = written bloom entries in
    let filled = collect_all (new_table_writer (bloom_all bloom entries)) entries in
    let (b, empty) = written-Built bloom entries in
    let filter : w.bloom ≡ bloom_all bloom entries =
      flush_current-bloom filled
      ∙ collect_all-bloom (new_table_writer (bloom_all bloom entries)) entries in
    let same = bloom_all-IsSame bloom entries in
    let whole = all_in_blocks w b.offset small entries b empty in
    let fits_blocks = subst (λ l. All FitsBlock l) whole fits in
    (
      finish_opens w b.offset small (Built-FitsIndex w b.offset small entries b fits_blocks)
          (subst (λ (bf : BloomFilter). length bf.bits ≡ bf.size) (sym filter)
            (bloom_all-IsSized bloom entries is_sized).sized)
          (subst (λ (bf : BloomFilter). bf.size < 2 ^ 32) (sym filter) (omega (arith, same.size)))
          (subst (λ (bf : BloomFilter). bf.num_hash < 2 ^ 32) (sym filter)
            (omega (arith, same.num_hash))),
      Built-iterates w b.offset small entries b fits_blocks
          ∙ ap (λ (l : List BlockEntry). ok l) (sym whole),
      subst (λ (bf : BloomFilter). All (λ e. might_contain bf (user_key_of e) ≡ true) entries)
          (sym filter) (bloom_all_contains bloom entries is_sized),
    )
