-- ===== src/Wal/Record.antt =====
-- wal/wal_types.go and wal/append.go: entries and the bytes of their records.
use hcdb.Prelude.{ℕ, ◌+◌, ◌%◌, ◌^◌, ◌≤◌, ◌++◌, length}
use hcdb.Config.{max_key_length, max_value_length}
use hcdb.Binary.{Bytes}
use hcdb.Binary.Uint.{put_uint}
use hcdb.Binary.Crc.{checksum_ieee}
use hcdb.Base.Key.{internal_trailer_len}

pub record Entry : Type 0 where
  pub key : Bytes
  pub value : Bytes

-- A key as it is stored: the user key and its trailer.
abbrev pub max_encoded_key_len : ℕ
max_encoded_key_len = max_key_length + internal_trailer_len

-- The writes go to a bytes.Buffer, which never fails.
unfoldable pub write_data_buff : Entry → Bytes
write_data_buff e =
    let key_length = length e.key % 2 ^ 32 in
    let value_length = length e.value % 2 ^ 32 in
    put_uint 4 key_length ++ (put_uint 4 value_length ++ (e.key ++ e.value))

-- uint32(len(dataBytes)) + 4
unfoldable pub total_length : Bytes → ℕ
total_length data_bytes = (length data_bytes % 2 ^ 32 + 4) % 2 ^ 32

-- The three writes of Append, one after the other.
unfoldable pub record_bytes : Entry → Bytes
record_bytes e =
    let data_bytes = write_data_buff e in
    put_uint 4 (total_length data_bytes) ++ (data_bytes ++ put_uint 4 (checksum_ieee data_bytes))

-- The limits that db.Put and db.Delete enforce.
pub record IsStorable (e : Entry) : Type 0 where
  pub key_fits : length e.key ≤ max_encoded_key_len
  pub value_fits : length e.value ≤ max_value_length
