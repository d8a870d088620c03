-- ===== src/Sstable/Index/RoundTrip.antt =====
-- The index and the footer, written and read (sstable/index.go).
use hcdb.Prelude.{
  ℕ, ◌+◌, ◌-◌, ◌%◌, ◌^◌, ◌<◌, ◌≡◌, refl, arith, List, [], ◌∷◌, ◌++◌, length, drop, length-append,
  drop-append, drop-append_of, append_assoc, append-nil, All, ltb, ok, false,
}
use hcdb.Binary.{Bytes}
use hcdb.Binary.Uint.{put_uint, length-put_uint}
use hcdb.Binary.Reader.{read_full-append, read_uint-put_uint}
use hcdb.Sstable.Index.{
  IndexEntry, encode_index, index_size, read_index_entry, read_index_entries, decode_index,
  encode_footer_with_bloom, read_footer_with_bloom,
}

pub record Fits (e : IndexEntry) : Type 0 where
  pub key_fits : length e.first_key < 2 ^ 32
  pub offset_fits : e.offset < 2 ^ 63
  pub length_fits : e.block_length < 2 ^ 31

read_index_entry-encode_index :
    (e : IndexEntry) (es : List IndexEntry) (rest : Bytes)
    → Fits e
    → read_index_entry (encode_index (e ∷ es) ++ rest) ≡ ok (e, encode_index es ++ rest)
unfolding read_index_entry encode_index
read_index_entry-encode_index e es rest h =
    let key_mod : length e.first_key % 2 ^ 32 ≡ length e.first_key = omega (arith, h.key_fits) in
    let a = put_uint 4 (length e.first_key) in
    let b = put_uint 8 e.offset in
    let c = put_uint 4 e.block_length in
    let more = encode_index es in
    rw (
      key_mod,
      append_assoc a (e.first_key ++ (b ++ (c ++ more))) rest,
      append_assoc e.first_key (b ++ (c ++ more)) rest,
      append_assoc b (c ++ more) rest,
      append_assoc c more rest,
      read_index_entry,
      read_uint-put_uint 4 (length e.first_key) (e.first_key ++ (b ++ (c ++ (more ++ rest))))
          h.key_fits,
      read_full-append (length e.first_key) e.first_key (b ++ (c ++ (more ++ rest))) refl,
      read_uint-put_uint 8 e.offset (c ++ (more ++ rest)) (omega (arith, h.offset_fits)),
      read_uint-put_uint 4 e.block_length (more ++ rest) (omega (arith, h.length_fits)),
    )

read_index_entries-encode_index :
    (es : List IndexEntry) (rest : Bytes)
    → All Fits es
    → read_index_entries (length es) (encode_index es ++ rest) ≡ ok es
unfolding read_index_entries
read_index_entries-encode_index [] rest h = refl
read_index_entries-encode_index (e ∷ es) rest h = rw (
  read_index_entries,
  read_index_entry-encode_index e es rest h.0,
  read_index_entries-encode_index es rest h.1,
)

-- indexSize is the length of the encoded index, so the bloom filter starts where the index ends.
pub length-encode_index : (es : List IndexEntry) → length (encode_index es) ≡ index_size es
unfolding encode_index index_size
length-encode_index [] = refl
length-encode_index (e ∷ es) =
    simp (length-append, length-put_uint) (omega (arith, length-encode_index es))

-- An index whose fields fit their widths is read back whole from the offset at which it stands in the file, whatever stands before and behind it, and what stands behind it starts indexSize bytes further on.
pub decode_index-encode_index :
    (before : Bytes) (es : List IndexEntry) (behind : Bytes)
    → All Fits es
    → (decode_index (before ++ (encode_index es ++ behind)) (length before) (length es) ≡ ok es)
      × (drop (length before + index_size es) (before ++ (encode_index es ++ behind)) ≡ behind)
unfolding decode_index
decode_index-encode_index before es behind h = (
  rw (drop-append before (encode_index es ++ behind)) (read_index_entries-encode_index es behind h),
  rw (← append_assoc before (encode_index es) behind) (
      drop-append_of (length before + index_size es) (before ++ encode_index es) behind
        (omega (arith, length-append before (encode_index es), length-encode_index es))),
)

-- The footer at the end of a file gives back the three numbers that were written, if the offsets fit 63 bits and the count 32.
pub read_footer-encode_footer :
    (file : Bytes) (index_offset num_entries bloom_offset : ℕ)
    → index_offset < 2 ^ 63
    → num_entries < 2 ^ 32
    → bloom_offset < 2 ^ 63
    → read_footer_with_bloom
        (file ++ encode_footer_with_bloom index_offset num_entries bloom_offset)
      ≡ ok (index_offset, num_entries, bloom_offset)
unfolding read_footer_with_bloom encode_footer_with_bloom
read_footer-encode_footer file i n b hi hn hb =
    let footer = put_uint 8 i ++ (put_uint 4 n ++ put_uint 8 b) in
    let size : length footer ≡ 20 = simp (length-append, length-put_uint) refl in
    let cut : length (file ++ footer) - 20 ≡ length file =
      omega (arith, length-append file footer) in
    let long : ltb (length (file ++ footer)) 20 ≡ false =
      ground (arith, length-append file footer) in
    rw (
      read_footer_with_bloom,
      long,
      cut,
      drop-append file footer,
      read_uint-put_uint 8 i (put_uint 4 n ++ put_uint 8 b) (omega arith),
      read_uint-put_uint 4 n (put_uint 8 b) hn,
      rw append-nil at (read_uint-put_uint 8 b [] (omega arith)),
    )
