-- ===== src/Wal/Replay/Recovery.antt =====
-- Append followed by Replay, on one record (wal/append.go, wal/replay.go).
use hcdb.Prelude.{
  ℕ, ◌+◌, ◌-◌, ◌%◌, ◌^◌, ◌≡◌, refl, arith, [], ◌++◌, length, length-append, append-nil,
  append_assoc, take-append, drop-append, ltb, some, ok, false, ◌||◌,
}
use hcdb.Config.{max_value_length}
use hcdb.Binary.{Bytes}
use hcdb.Binary.Uint.{put_uint, length-put_uint, uint-put_uint}
use hcdb.Binary.Reader.{read_full, read_full-append, read_uint-put_uint}
use hcdb.Binary.Crc.{checksum_ieee, checksum_ieee-lt}
use hcdb.Wal.Record.{
  Entry, IsStorable, max_encoded_key_len, write_data_buff, total_length, record_bytes,
}
use hcdb.Wal.Replay.{
  entry, parse_data, parse_key_value, check_record, max_total_length, read_record_body, read_record,
}

read_full_all : (n : ℕ) (xs : Bytes) → length xs ≡ n → read_full n xs ≡ ok (xs, [])
read_full_all n xs e = rw append-nil at (read_full-append n xs [] e)

parse_data-write_data_buff : (e : Entry) → IsStorable e → parse_data (write_data_buff e) ≡ some e
unfolding write_data_buff parse_data parse_key_value
parse_data-write_data_buff e h =
    let in_range : (ltb max_encoded_key_len (length e.key) || ltb max_value_length (length e.value))
        ≡ false =
      ground (arith, h.key_fits, h.value_fits) in
    let key_mod : length e.key % 2 ^ 32 ≡ length e.key = omega (arith, h.key_fits) in
    let value_mod : length e.value % 2 ^ 32 ≡ length e.value = omega (arith, h.value_fits) in
    rw (
      key_mod,
      value_mod,
      parse_data,
      read_uint-put_uint 4 (length e.key) (put_uint 4 (length e.value) ++ (e.key ++ e.value))
          (omega (arith, h.key_fits)),
      read_uint-put_uint 4 (length e.value) (e.key ++ e.value) (omega (arith, h.value_fits)),
      parse_key_value,
      in_range,
      read_full-append (length e.key) e.key e.value refl,
      read_full_all (length e.value) e.value refl,
    )

pub length-write_data_buff :
    (e : Entry) → length (write_data_buff e) ≡ 8 + length e.key + length e.value
unfolding write_data_buff
length-write_data_buff e = simp (length-append, length-put_uint) (omega arith)

pub total_length_lem :
    (e : Entry)
    → IsStorable e
    → total_length (write_data_buff e) ≡ 12 + length e.key + length e.value
unfolding total_length
total_length_lem e h = omega (arith, length-write_data_buff e, h.key_fits, h.value_fits)

check_record-checksum :
    (d rest : Bytes) (e : Entry)
    → parse_data d ≡ some e
    → check_record (d ++ put_uint 4 (checksum_ieee d)) rest ≡ entry e rest
unfolding check_record
check_record-checksum d rest e h =
    let crc = put_uint 4 (checksum_ieee d) in
    let size : length (d ++ crc) ≡ length d + 4 =
      omega (arith, length-append d crc, length-put_uint 4 (checksum_ieee d)) in
    let cut : length (d ++ crc) - 4 ≡ length d = omega arith in
    ground (
      arith,
      size,
      cut,
      h,
      take-append d crc,
      drop-append d crc,
      uint-put_uint 4 (checksum_ieee d) (checksum_ieee-lt d),
    )

read_record_body-data :
    (e : Entry) (rest : Bytes)
    → IsStorable e
    → read_record_body
        (total_length (write_data_buff e))
        ((write_data_buff e ++ put_uint 4 (checksum_ieee (write_data_buff e))) ++ rest)
      ≡ entry e rest
unfolding read_record_body
read_record_body-data e rest h =
    let d = write_data_buff e in
    let crc = put_uint 4 (checksum_ieee d) in
    let size : length (d ++ crc) ≡ total_length d = omega (
      arith,
      length-append d crc,
      length-put_uint 4 (checksum_ieee d),
      length-write_data_buff e,
      total_length_lem e h,
    ) in
    let fits : ltb max_total_length (total_length d) ≡ false =
      ground (arith, total_length_lem e h, h.key_fits, h.value_fits) in
    rw (read_record_body, fits, read_full-append (total_length d) (d ++ crc) rest size)
      (check_record-checksum d rest e (parse_data-write_data_buff e h))

-- The next record of a log is read back whole, whatever follows it.
pub read_record-record_bytes :
    (e : Entry) (rest : Bytes) → IsStorable e → read_record (record_bytes e ++ rest) ≡ entry e rest
unfolding read_record record_bytes
read_record-record_bytes e rest h =
    let d = write_data_buff e in
    let n = total_length d in
    rw
      (
        append_assoc (put_uint 4 n) (d ++ put_uint 4 (checksum_ieee d)) rest,
        read_record,
        read_uint-put_uint 4 n ((d ++ put_uint 4 (checksum_ieee d)) ++ rest)
            (omega (arith, total_length_lem e h, h.key_fits, h.value_fits)),
      )
      (read_record_body-data e rest h)
