-- ===== src/Wal/Replay.antt =====
-- wal/replay.go: reading the log back, and cutting it at the first record that is not whole.
pub mod Recovery
pub mod Torn
pub mod Sound
use hcdb.Prelude.{
  ℕ, zero, suc, ◌+◌, ◌-◌, ◌*◌, ◌^◌, ◌≤◌, ◌<◌, List, [], ◌∷◌, ◌++◌, length, take, drop, ltb, leb,
  ◌==◌, ◌||◌, if◌then◌else◌, Option, none, some, Result, ok, err, Error, eof,
}
use hcdb.Config.{max_value_length}
use hcdb.Binary.{Bytes}
use hcdb.Binary.Uint.{uint}
use hcdb.Binary.Reader.{read_full, read_uint}
use hcdb.Binary.Crc.{checksum_ieee}
use hcdb.Wal.Record.{Entry, max_encoded_key_len}

-- One round of the loop: the log ends here, the record here is corrupt, or it holds an entry and
-- leaves the rest of the file.
pub data Round : Type 0 where
  finished corrupt : Round
  entry : Entry → Bytes → Round

-- The key and the value, once their lengths are read. What follows them is not looked at.
pub parse_key_value : ℕ → ℕ → Bytes → Option Entry
parse_key_value key_length value_length r =
    if ltb max_encoded_key_len key_length || ltb max_value_length value_length
    then none
    else (elim (read_full key_length r) [
      | err e ↦ none
      | ok (key, r') ↦ elim (read_full value_length r') [
        | err e ↦ none
        | ok (value, r'') ↦ some (record { key = key; value = value })
      ]
    ])

-- "Parse Data Part". `none` is one of the breaks that truncate.
pub parse_data : Bytes → Option Entry
parse_data data_part = elim (read_uint 4 data_part) [
  | err e ↦ none
  | ok (key_length, r) ↦ elim (read_uint 4 r) [
    | err e ↦ none
    | ok (value_length, r') ↦ parse_key_value key_length value_length r'
  ]
]

-- What follows the read of the record's bytes, on what is left of the file.
pub check_record : Bytes → Bytes → Round
check_record record_buf rest =
    if ltb (length record_buf) 4
    then corrupt
    else (let n = length record_buf - 4 in
        let data_part = take n record_buf in
        let stored_crc = uint (drop n record_buf) in
        if checksum_ieee data_part == stored_crc
        then (elim (parse_data data_part) [ none ↦ corrupt | some e ↦ entry e rest ])
        else corrupt)

abbrev pub max_total_length : ℕ
max_total_length = 4 + max_encoded_key_len + 4 + max_value_length + 4

pub read_record_body : ℕ → Bytes → Round
read_record_body total_length r =
    if ltb max_total_length total_length then corrupt else (elim (read_full total_length r) [
      | err e ↦ corrupt
      | ok (record_buf, rest) ↦ check_record record_buf rest
    ])

-- err == io.EOF ends the loop; any other error is a torn length.
abbrev length_error : Error → Round
length_error eof = finished
length_error e = corrupt

pub read_record : Bytes → Round
read_record r = elim (read_uint 4 r) [
  | err e ↦ length_error e
  | ok (n, rest) ↦ read_record_body n rest
]

-- What Replay leaves: the entries, and the file after any Truncate.
pub record Replayed : Type 0 where
  pub entries : List Entry
  pub file : Bytes

-- `whole` is the file, `r` is what is not read yet, which starts at offset len(whole) - len(r).
-- `none`: the fuel ran out.
pub replay_loop : ℕ → Bytes → Bytes → List Entry → Option Replayed
replay_loop zero whole r entries = none
replay_loop (suc fuel) whole r entries = elim (read_record r) [
  | finished ↦ some (record { entries = entries; file = whole })
  | corrupt ↦ some (record { entries = entries; file = take (length whole - length r) whole })
  | entry e rest ↦ replay_loop fuel whole rest (entries ++ (e ∷ []))
]

-- The loop of Replay on a file that was flushed and is read from its start. A round that goes on
-- takes at least four bytes, so the fuel is enough.
pub replay : Bytes → Option Replayed
replay file = replay_loop (suc (length file)) file file []
