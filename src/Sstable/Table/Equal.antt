-- ===== src/Sstable/Table/Equal.antt =====
-- The two writers of tables (sstable/writer.go, write_from_entries.go).
use hcdb.Prelude.{
  ◌+◌, ◌%◌, ◌^◌, ◌≡◌, refl, ap, ◌∙◌, arith, List, [], ◌∷◌, ◌++◌, length, leb, ltb, ◌==◌, true,
  false, inl, inr, Bool-cases, length-append, append_assoc,
}
use hcdb.Binary.{Bytes}
use hcdb.Binary.Uint.{put_uint}
use hcdb.Config.{default_block_size}
use hcdb.Bloom.{BloomFilter, add, serialize}
use hcdb.Sstable.Index.{encode_index, index_size, encode_footer_with_bloom}
use hcdb.Sstable.Block.{BlockEntry}
use hcdb.Sstable.Table.{
  TableWriter, new_table_writer, collect_entry, put_block, add_to_block, flush_current, ascend_step,
  ascend_all, flush_remaining, finish_flush, SsTable, bloom_all, collect_all, finish, flush_table,
  write_from_block_entries, user_key_of,
}

abbrev with_bloom : BloomFilter → TableWriter → TableWriter
with_bloom bloom w = record w { bloom = bloom }

-- What Flush writes inline is what flushCurrent of the other writer does.
flush_remaining-flush_current : (w : TableWriter) → flush_remaining w ≡ flush_current w
unfolding flush_remaining flush_current put_block
flush_remaining-flush_current w = elim (Bool-cases (length w.collector.entries == 0)) [
  | inl empty ↦
      let no_block : ltb 0 (length w.collector.entries) ≡ false = ground (arith, empty) in
      rw (flush_remaining, no_block, flush_current, empty) refl
  | inr some_left ↦
      let block : ltb 0 (length w.collector.entries) ≡ true = ground (arith, some_left) in
      rw (flush_remaining, block, flush_current, some_left) refl
]

-- The filter does not steer the blocks.
flush_current-with_bloom :
    (bloom : BloomFilter) (w : TableWriter)
    → flush_current (with_bloom bloom w) ≡ with_bloom bloom (flush_current w)
unfolding flush_current put_block
flush_current-with_bloom bloom w = elim (Bool-cases (length w.collector.entries == 0)) [
  | inl empty ↦ rw (flush_current, empty) refl
  | inr some_left ↦ rw (flush_current, some_left) refl
]

add_to_block-with_bloom :
    (bloom : BloomFilter) (w : TableWriter) (e : BlockEntry)
    → add_to_block (with_bloom bloom w) e ≡ with_bloom bloom (add_to_block w e)
unfolding add_to_block
add_to_block-with_bloom bloom w e =
    elim (Bool-cases (leb default_block_size (collect_entry w.collector e).size_estimate)) [
      | inl full ↦
          rw (add_to_block, full)
            (flush_current-with_bloom bloom (record w { collector = collect_entry w.collector e }))
      | inr room ↦ rw (add_to_block, room) refl
    ]

-- Behind collector.add the collector is not empty.
ascend_step-add_to_block :
    (w : TableWriter) (e : BlockEntry)
    → ascend_step w e ≡ add_to_block (with_bloom (add w.bloom (user_key_of e)) w) e
unfolding ascend_step add_to_block flush_current put_block collect_entry
ascend_step-add_to_block w e =
    elim (Bool-cases (leb default_block_size (collect_entry w.collector e).size_estimate)) [
      | inl full ↦
          let filled : length (w.collector.entries ++ (e ∷ [])) == 0 ≡ false =
            ground (arith, length-append w.collector.entries (e ∷ [])) in
          rw (ascend_step, full, flush_current, filled) refl
      | inr room ↦ rw (ascend_step, room) refl
    ]

pub ascend_all-collect_all :
    (w : TableWriter) (es : List BlockEntry)
    → ascend_all w es ≡ collect_all (with_bloom (bloom_all w.bloom es) w) es
unfolding ascend_all collect_all bloom_all
ascend_all-collect_all w [] = refl
ascend_all-collect_all w (e ∷ es) =
    let first = add w.bloom (user_key_of e) in
    rw
      (
        ascend_step-add_to_block w e,
        add_to_block-with_bloom first w e,
        add_to_block-with_bloom (bloom_all first es) w e,
      )
      (ascend_all-collect_all (with_bloom first (add_to_block w e)) es)

finish_flush-finish : (w : TableWriter) → finish_flush w ≡ finish w
unfolding finish_flush finish
finish_flush-finish w =
    let index = encode_index w.index_entries in
    let filter_length = put_uint 4 (length (serialize w.bloom) % 2 ^ 32) in
    let filter = serialize w.bloom in
    let footer =
      encode_footer_with_bloom w.current_offset (length w.index_entries % 2 ^ 32)
        (w.current_offset + index_size w.index_entries) in
    let table : SsTable = record { index = w.index_entries; bloom = w.bloom } in
    ap (λ (file : Bytes). (file, table))
      (cc (
        append_assoc (w.writer ++ index) filter_length filter,
        append_assoc (w.writer ++ index) (filter_length ++ filter) footer,
        append_assoc w.writer index ((filter_length ++ filter) ++ footer),
      ))

-- Flush on the entries of a memtable and WriteSSTableFromBlockEntries on the same entries, each written out on its own, write the same bytes and return the same index and filter.
pub flush_table-write_from_block_entries :
    (bloom : BloomFilter) (entries : List BlockEntry)
    → flush_table bloom entries ≡ write_from_block_entries bloom entries
unfolding flush_table write_from_block_entries
flush_table-write_from_block_entries bloom entries =
    let filled = ascend_all (new_table_writer bloom) entries in
    finish_flush-finish (flush_remaining filled)
    ∙ ap finish (flush_remaining-flush_current filled)
    ∙ ap (λ w. finish (flush_current w)) (ascend_all-collect_all (new_table_writer bloom) entries)
