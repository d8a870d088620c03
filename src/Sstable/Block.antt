-- ===== src/Sstable/Block.antt =====
-- sstable/block.go and BlockEntry of sstable_types.go: the bytes of one block.
pub mod RoundTrip
use hcdb.Prelude.{
  ℕ, zero, suc, ◌+◌, ◌-◌, ◌%◌, ◌^◌, List, [], ◌∷◌, ◌++◌, length, take, drop, ltb, ◌==◌,
  if◌then◌else◌, Result, ok, err, Error, block_too_small, block_crc_mismatch, ◌>>=◌,
}
use hcdb.Binary.{Bytes}
use hcdb.Binary.Uint.{put_uint, uint}
use hcdb.Binary.Reader.{read_full, read_uint}
use hcdb.Binary.Crc.{checksum_ieee}

pub record BlockEntry : Type 0 where
  pub key : Bytes
  pub value : Bytes

unfoldable pub write_block_entry : BlockEntry → Bytes
write_block_entry e =
    put_uint 4 (length e.key % 2 ^ 32)
    ++ (put_uint 4 (length e.value % 2 ^ 32) ++ (e.key ++ e.value))

unfoldable pub write_block_entries : List BlockEntry → Bytes
unfolding write_block_entry
write_block_entries [] = []
write_block_entries (e ∷ entries) = write_block_entry e ++ write_block_entries entries

-- The writes go to a bytes.Buffer, which never fails.
unfoldable pub encode_block : List BlockEntry → Bytes
unfolding write_block_entries
encode_block entries =
    let buf = put_uint 4 (length entries % 2 ^ 32) ++ write_block_entries entries in
    buf ++ put_uint 4 (checksum_ieee buf)

unfoldable pub read_block_entry : Bytes → Result (BlockEntry × Bytes)
read_block_entry r = do
  (key_len, r) ← read_uint 4 r
  (val_len, r) ← read_uint 4 r
  (key, r) ← read_full key_len r
  (val, r) ← read_full val_len r
  ok (record { key = key; value = val }, r)

-- for i := uint32(0); i < numEntries; i++
unfoldable pub read_block_entries : ℕ → Bytes → Result (List BlockEntry)
unfolding read_block_entry
read_block_entries zero r = ok []
read_block_entries (suc n) r = elim (read_block_entry r) [
  | err e ↦ err e
  | ok (e, r') ↦ (do entries ← read_block_entries n r'; ok (e ∷ entries))
]

unfoldable pub decode_block : Bytes → Result (List BlockEntry)
unfolding read_block_entries
decode_block block_bytes =
    if ltb (length block_bytes) 4
    then err block_too_small
    else (let n = length block_bytes - 4 in
        let stored = take n block_bytes in
        let stored_crc = uint (drop n block_bytes) in
        if checksum_ieee stored == stored_crc
        then (do (num_entries, reader) ← read_uint 4 stored; read_block_entries num_entries reader)
        else err block_crc_mismatch)
