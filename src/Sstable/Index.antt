-- ===== src/Sstable/Index.antt =====
-- sstable/index.go and IndexEntry of sstable_types.go: the index, the footer and the search for a
-- block. An int64 or int32 is held as its bit pattern, and the offsets of a file are not negative.
pub mod RoundTrip
pub mod Search
use hcdb.Prelude.{
  ℕ, zero, suc, ◌+◌, ◌-◌, ◌/◌, ◌%◌, ◌^◌, List, [], ◌∷◌, ◌++◌, length, drop, ltb, ◌==◌,
  if◌then◌else◌, Result, ok, err, Error, os_error, ◌>>=◌, Option, none, some, get_elem?, Ordering,
}
use hcdb.Binary.{Bytes}
use hcdb.Binary.Uint.{put_uint}
use hcdb.Binary.Compare.{bytes_compare}
use hcdb.Binary.Reader.{read_full, read_uint}
use hcdb.Base.Key.{InternalKey, decode_internal_key, internal_compare}

pub record IndexEntry : Type 0 where
  pub first_key : Bytes
  pub offset : ℕ
  pub block_length : ℕ

pub encode_index : List IndexEntry → Bytes
encode_index [] = []
encode_index (idx ∷ entries) =
    put_uint 4 (length idx.first_key % 2 ^ 32)
    ++ (idx.first_key
        ++ (put_uint 8 idx.offset ++ (put_uint 4 idx.block_length ++ encode_index entries)))

-- What indexSize adds up: the length of the encoded index.
unfoldable pub index_size : List IndexEntry → ℕ
index_size [] = 0
index_size (e ∷ entries) = (4 + length e.first_key + 8 + 4) + index_size entries

pub read_index_entry : Bytes → Result (IndexEntry × Bytes)
read_index_entry r = do
  (key_len, r) ← read_uint 4 r
  (key, r) ← read_full key_len r
  (offset, r) ← read_uint 8 r
  (block_length, r) ← read_uint 4 r
  ok (record { first_key = key; offset = offset; block_length = block_length }, r)

pub read_index_entries : ℕ → Bytes → Result (List IndexEntry)
unfolding read_index_entry
read_index_entries zero r = ok []
read_index_entries (suc n) r = elim (read_index_entry r) [
  | err e ↦ err e
  | ok (e, r') ↦ (do entries ← read_index_entries n r'; ok (e ∷ entries))
]

-- A seek from the start succeeds, past the end too: there the next read finds no byte.
pub decode_index : Bytes → ℕ → ℕ → Result (List IndexEntry)
unfolding read_index_entries
decode_index file index_offset num_entries = read_index_entries num_entries (drop index_offset file)

unfoldable pub encode_footer_with_bloom : ℕ → ℕ → ℕ → Bytes
encode_footer_with_bloom index_offset num_entries bloom_offset =
    put_uint 8 index_offset ++ (put_uint 4 num_entries ++ put_uint 8 bloom_offset)

abbrev pub footer_size : ℕ
footer_size = 20

-- A seek to before the start of a shorter file is an error.
pub read_footer_with_bloom : Bytes → Result (ℕ × ℕ × ℕ)
read_footer_with_bloom file = if ltb (length file) footer_size then err os_error else (do
  (index_offset, r) ← read_uint 8 (drop (length file - footer_size) file)
  (num_entries, r) ← read_uint 4 r
  (bloom_offset, r) ← read_uint 8 r
  ok (index_offset, num_entries, bloom_offset))

-- The footer without a bloom filter.
unfoldable pub encode_footer : ℕ → ℕ → Bytes
encode_footer index_offset num_entries = put_uint 8 index_offset ++ put_uint 4 num_entries

unfoldable pub read_footer : Bytes → Result (ℕ × ℕ)
read_footer file = if ltb (length file) 12 then err os_error else (do
  (index_offset, r) ← read_uint 8 (drop (length file - 12) file)
  (num_entries, r) ← read_uint 4 r
  ok (index_offset, num_entries))

-- index[i].FirstKey, decoded. The search stays in range: see Index/Search.
unfoldable pub first_key_at : List IndexEntry → ℕ → InternalKey
first_key_at index i =
    decode_internal_key (elim (get_elem? index i) [ none ↦ [] | some idx ↦ idx.first_key ])

-- firstKey <= target
abbrev pub at_or_before : InternalKey → InternalKey → Ordering
at_or_before first_key target = internal_compare bytes_compare first_key target

-- The loop of searchIndex. `end` is hi + 1, as hi can be -1; `none` is the -1 of result.
unfoldable pub search_loop : ℕ → List IndexEntry → InternalKey → ℕ → ℕ → Option ℕ → Option ℕ
search_loop zero index target lo end result = result
search_loop (suc fuel) index target lo end result =
    let mid = (lo + (end - 1)) / 2 in
    let right = search_loop fuel index target (mid + 1) end (some mid) in
    let left = search_loop fuel index target lo mid result in
    if ltb lo end
    then (elim (at_or_before (first_key_at index mid) target) [
      | Ordering.gt ↦ left
      | Ordering.lt ↦ right
      | Ordering.eq ↦ right
    ])
    else result

-- A round leaves fewer entries, so the length is fuel enough.
unfoldable pub search_index : List IndexEntry → Bytes → Option ℕ
unfolding search_loop
search_index index key =
    search_loop (length index) index (decode_internal_key key) 0 (length index) none
