-- ===== src/Sstable/Block/RoundTrip.antt =====
-- Encoding and then decoding a block (sstable/block.go).
use hcdb.Prelude.{
  ◌-◌, ◌%◌, ◌^◌, ◌<◌, ◌≡◌, refl, arith, List, [], ◌∷◌, ◌++◌, length, take, drop, length-append,
  take-append, drop-append, append_assoc, append-nil, All, ltb, ◌==◌, ok, true, false,
}
use hcdb.Binary.{Bytes}
use hcdb.Binary.Uint.{put_uint, uint, length-put_uint, uint-put_uint}
use hcdb.Binary.Reader.{read_full-append, read_uint-put_uint}
use hcdb.Binary.Crc.{checksum_ieee, checksum_ieee-lt}
use hcdb.Sstable.Block.{
  BlockEntry, write_block_entry, write_block_entries, encode_block, read_block_entry,
  read_block_entries, decode_block,
}

-- The lengths fit the 32-bit fields.
pub record Fits (e : BlockEntry) : Type 0 where
  pub key_fits : length e.key < 2 ^ 32
  pub value_fits : length e.value < 2 ^ 32

read_block_entry-write_block_entry :
    (e : BlockEntry) (rest : Bytes)
    → Fits e
    → read_block_entry (write_block_entry e ++ rest) ≡ ok (e, rest)
unfolding read_block_entry write_block_entry
read_block_entry-write_block_entry e rest h =
    let key_mod : length e.key % 2 ^ 32 ≡ length e.key = omega (arith, h.key_fits) in
    let value_mod : length e.value % 2 ^ 32 ≡ length e.value = omega (arith, h.value_fits) in
    let a = put_uint 4 (length e.key) in
    let b = put_uint 4 (length e.value) in
    rw (
      key_mod,
      value_mod,
      append_assoc a (b ++ (e.key ++ e.value)) rest,
      append_assoc b (e.key ++ e.value) rest,
      append_assoc e.key e.value rest,
      read_block_entry,
      read_uint-put_uint 4 (length e.key) (b ++ (e.key ++ (e.value ++ rest))) h.key_fits,
      read_uint-put_uint 4 (length e.value) (e.key ++ (e.value ++ rest)) h.value_fits,
      read_full-append (length e.key) e.key (e.value ++ rest) refl,
      read_full-append (length e.value) e.value rest refl,
    )

read_block_entries-write_block_entries :
    (es : List BlockEntry) (rest : Bytes)
    → All Fits es
    → read_block_entries (length es) (write_block_entries es ++ rest) ≡ ok es
unfolding read_block_entries write_block_entries
read_block_entries-write_block_entries [] rest h = refl
read_block_entries-write_block_entries (e ∷ es) rest h = rw (
  append_assoc (write_block_entry e) (write_block_entries es) rest,
  read_block_entries,
  read_block_entry-write_block_entry e (write_block_entries es ++ rest) h.0,
  read_block_entries-write_block_entries es rest h.1,
)

-- A block of fewer than 2^32 entries, each with a key and a value shorter than 2^32 bytes, decodes to exactly its entries, in order.
pub decode_block-encode_block :
    (es : List BlockEntry)
    → All Fits es
    → length es < 2 ^ 32
    → decode_block (encode_block es) ≡ ok es
unfolding decode_block encode_block
decode_block-encode_block es h few =
    let count_mod : length es % 2 ^ 32 ≡ length es = omega arith in
    let buf = put_uint 4 (length es) ++ write_block_entries es in
    let crc = put_uint 4 (checksum_ieee buf) in
    let cut : length (buf ++ crc) - 4 ≡ length buf =
      omega (arith, length-append buf crc, length-put_uint 4 (checksum_ieee buf)) in
    let enough : ltb (length (buf ++ crc)) 4 ≡ false =
      ground (arith, length-append buf crc, length-put_uint 4 (checksum_ieee buf)) in
    let same : (checksum_ieee (take (length buf) (buf ++ crc))
          == uint (drop (length buf) (buf ++ crc)))
        ≡ true =
      ground (
        arith,
        take-append buf crc,
        drop-append buf crc,
        uint-put_uint 4 (checksum_ieee buf) (checksum_ieee-lt buf),
      ) in
    rw
      (
        count_mod,
        decode_block,
        enough,
        cut,
        same,
        take-append buf crc,
        read_uint-put_uint 4 (length es) (write_block_entries es) few,
      )
      (rw append-nil at (read_block_entries-write_block_entries es [] h))
