-- ===== src/Sstable/Table.antt =====
-- sstable/write_block_collector.go, writer.go, write_from_entries.go, reader.go and
-- block_iterator.go: a whole table file. The two writers are modelled where no call of the operating
-- system fails: `writer` is what they have handed to the buffered writer, and the file's bytes once
-- it is flushed. A writer that fails removes its temporary file and returns no table.
pub mod Blocks
pub mod Iterate
pub mod Filter
pub mod Open
pub mod Equal
mod Tests
use hcdb.Prelude.{
  ℕ, ◌+◌, ◌-◌, ◌%◌, ◌^◌, List, [], ◌∷◌, ◌++◌, length, drop, leb, ltb, ◌==◌, if◌then◌else◌, Option,
  none, some, Result, ok, err, index_out_of_range, len_out_of_range, negative_offset, ◌>>=◌,
}
use hcdb.Config.{default_block_size}
use hcdb.Binary.{Bytes}
use hcdb.Binary.Uint.{put_uint}
use hcdb.Binary.Reader.{read_full, read_uint}
use hcdb.Base.Key.{decode_internal_key}
use hcdb.Bloom.{BloomFilter, add, serialize, deserialize}
use hcdb.Sstable.Block.{BlockEntry, encode_block, decode_block}
use hcdb.Sstable.Index.{
  IndexEntry, encode_index, index_size, decode_index, encode_footer_with_bloom,
  read_footer_with_bloom,
}

pub record BlockCollector : Type 0 where
  pub entries : List BlockEntry
  pub size_estimate : ℕ
  pub last_first_key : Bytes

abbrev pub new_block_collector : BlockCollector
new_block_collector = record { entries = []; size_estimate = 0; last_first_key = [] }

unfoldable pub collect_entry : BlockCollector → BlockEntry → BlockCollector
collect_entry bc e = record {
  entries = bc.entries ++ (e ∷ []);
  size_estimate = bc.size_estimate + (length e.key + length e.value + 8);
  last_first_key = if length bc.entries == 0 then e.key else bc.last_first_key;
}

-- drain reuses the array that it returns a slice of. Both callers encode the slice before they add
-- to the collector again, so it is a value here.
abbrev pub drain : BlockCollector → List BlockEntry × BlockCollector
drain bc = (bc.entries, record { entries = []; size_estimate = 0; last_first_key = [] })

-- The variables of Flush and of WriteSSTableFromBlockEntries.
pub record TableWriter : Type 0 where
  pub writer : Bytes
  pub bloom : BloomFilter
  pub collector : BlockCollector
  pub index_entries : List IndexEntry
  pub current_offset : ℕ

abbrev pub new_table_writer : BloomFilter → TableWriter
new_table_writer bloom = record {
  writer = [];
  bloom = bloom;
  collector = new_block_collector;
  index_entries = [];
  current_offset = 0;
}

-- flushBlock of writer.go, which both writers call: what the writer has then, and the new offset.
abbrev pub flush_block : Bytes → List BlockEntry → ℕ → Bytes × ℕ
flush_block writer entries current_offset =
    let block_bytes = encode_block entries in
    (writer ++ block_bytes, current_offset + length block_bytes)

-- flushCurrent of WriteSSTableFromBlockEntries, behind its test.
unfoldable pub put_block : TableWriter → TableWriter
put_block w =
    let first_key = w.collector.last_first_key in
    let (drained, collector) = drain w.collector in
    let (writer, new_offset) = flush_block w.writer drained w.current_offset in
    record {
      writer = writer;
      bloom = w.bloom;
      collector = collector;
      index_entries =
          w.index_entries
          ++ (record {
            first_key = first_key;
            offset = w.current_offset;
            block_length = (new_offset - w.current_offset) % 2 ^ 32;
          }
              ∷ []);
      current_offset = new_offset;
    }

abbrev pub user_key_of : BlockEntry → Bytes
user_key_of e = (decode_internal_key e.key).user_key

-- flushCurrent of WriteSSTableFromBlockEntries.
unfoldable pub flush_current : TableWriter → TableWriter
unfolding put_block
flush_current w = if length w.collector.entries == 0 then w else put_block w

-- The body of its loop.
unfoldable pub add_to_block : TableWriter → BlockEntry → TableWriter
unfolding flush_current collect_entry
add_to_block w e =
    let added = record w { collector = collect_entry w.collector e } in
    if leb default_block_size added.collector.size_estimate then flush_current added else added

-- The callback that Flush passes to Ascend.
unfoldable pub ascend_step : TableWriter → BlockEntry → TableWriter
unfolding collect_entry
ascend_step w e =
    let bloom = add w.bloom (user_key_of e) in
    let block_collector = collect_entry w.collector e in
    if leb default_block_size block_collector.size_estimate
    then (let last_first_key = block_collector.last_first_key in
        let (entries, drained) = drain block_collector in
        let (writer, offset) = flush_block w.writer entries w.current_offset in
        record {
          writer = writer;
          bloom = bloom;
          collector = drained;
          index_entries =
              w.index_entries
              ++ (record {
                first_key = last_first_key;
                offset = w.current_offset;
                block_length = (offset - w.current_offset) % 2 ^ 32;
              }
                  ∷ []);
          current_offset = offset;
        })
    else record w { bloom = bloom; collector = block_collector }

unfoldable pub ascend_all : TableWriter → List BlockEntry → TableWriter
unfolding ascend_step
ascend_all w [] = w
ascend_all w (e ∷ es) = ascend_all (ascend_step w e) es

-- `flush remaining` of Flush.
unfoldable pub flush_remaining : TableWriter → TableWriter
flush_remaining w =
    if ltb 0 (length w.collector.entries)
    then (let last_first_key = w.collector.last_first_key in
        let (entries, drained) = drain w.collector in
        let (writer, offset) = flush_block w.writer entries w.current_offset in
        record {
          writer = writer;
          bloom = w.bloom;
          collector = drained;
          index_entries =
              w.index_entries
              ++ (record {
                first_key = last_first_key;
                offset = w.current_offset;
                block_length = (offset - w.current_offset) % 2 ^ 32;
              }
                  ∷ []);
          current_offset = offset;
        })
    else w

-- for _, e := range entries { bloom.Add(...) }
pub bloom_all : BloomFilter → List BlockEntry → BloomFilter
bloom_all bloom [] = bloom
bloom_all bloom (e ∷ es) = bloom_all (add bloom (user_key_of e)) es

-- for _, e := range entries { collector.add(e) ... }
unfoldable pub collect_all : TableWriter → List BlockEntry → TableWriter
unfolding add_to_block
collect_all w [] = w
collect_all w (e ∷ es) = collect_all (add_to_block w e) es

pub record SsTable : Type 0 where
  pub index : List IndexEntry
  pub bloom : BloomFilter

-- The end of Flush: the index, the filter with its length, and the footer. The file, and the table
-- that is returned.
unfoldable pub finish_flush : TableWriter → Bytes × SsTable
finish_flush w =
    let index_offset = w.current_offset in
    let with_index = w.writer ++ encode_index w.index_entries in
    let bloom_bytes = serialize w.bloom in
    let bloom_offset = index_offset + index_size w.index_entries in
    let with_length = with_index ++ put_uint 4 (length bloom_bytes % 2 ^ 32) in
    let with_bloom = with_length ++ bloom_bytes in
    (
      with_bloom
          ++ encode_footer_with_bloom index_offset (length w.index_entries % 2 ^ 32) bloom_offset,
      record { index = w.index_entries; bloom = w.bloom },
    )

-- The end of WriteSSTableFromBlockEntries.
unfoldable pub finish : TableWriter → Bytes × SsTable
finish w =
    let index_offset = w.current_offset in
    let bloom_bytes = serialize w.bloom in
    let bloom_offset = index_offset + index_size w.index_entries in
    let num_entries = length w.index_entries % 2 ^ 32 in
    (
      w.writer
          ++ (encode_index w.index_entries
              ++ ((put_uint 4 (length bloom_bytes % 2 ^ 32) ++ bloom_bytes)
                  ++ encode_footer_with_bloom index_offset num_entries bloom_offset)),
      record { index = w.index_entries; bloom = w.bloom },
    )

-- Flush, on the entries that Ascend passes. The filter is what NewBloomFilter returns.
unfoldable pub flush_table : BloomFilter → List BlockEntry → Bytes × SsTable
unfolding ascend_all flush_remaining finish_flush
flush_table bloom entries =
    finish_flush (flush_remaining (ascend_all (new_table_writer bloom) entries))

unfoldable pub write_from_block_entries : BloomFilter → List BlockEntry → Bytes × SsTable
unfolding bloom_all collect_all flush_current finish
write_from_block_entries bloom entries =
    finish (flush_current (collect_all (new_table_writer (bloom_all bloom entries)) entries))

abbrev pub or_panic : Option BloomFilter → Result BloomFilter
or_panic none = err index_out_of_range
or_panic (some bloom) = ok bloom

pub read_bloom : Bytes → ℕ → Result BloomFilter
read_bloom file bloom_offset = do
  (bloom_len, r) ← read_uint 4 (drop bloom_offset file)
  (bloom_bytes, r) ← read_full bloom_len r
  or_panic (deserialize bloom_bytes)

-- Open, once the file is open.
pub open_table : Bytes → Result SsTable
unfolding read_bloom
open_table file = do
  (index_offset, num_entries, bloom_offset) ← read_footer_with_bloom file
  index ← decode_index file index_offset num_entries
  bloom ← read_bloom file bloom_offset
  ok (record { index = index; bloom = bloom })

-- One block, at the offset and with the length of its entry. readBlock of sstable.go reads it the
-- same way on a miss of the cache.
--
-- Seek refuses a negative offset, and make panics on a negative length. The offset is an int64 and
-- the length an int32: from the half of the range on, their bits are of a negative number.
unfoldable pub read_block : Bytes → IndexEntry → Result (List BlockEntry)
read_block file idx =
    if leb (2 ^ 63) idx.offset
    then err negative_offset
    else if leb (2 ^ 31) idx.block_length
    then err len_out_of_range
    else (do
      (block_bytes, r) ← read_full idx.block_length (drop idx.offset file)
      decode_block block_bytes)

-- NewBlockIterator: all the entries of a table.
pub new_block_iterator : Bytes → List IndexEntry → Result (List BlockEntry)
unfolding read_block
new_block_iterator file [] = ok []
new_block_iterator file (idx ∷ index) = elim (read_block file idx) [
  | err e ↦ err e
  | ok block_entries ↦ (do entries ← new_block_iterator file index; ok (block_entries ++ entries))
]
