-- ===== src/Sstable/Table/Iterate.antt =====
-- The blocks of a table through its index (sstable/block_iterator.go).
use hcdb.Prelude.{
  ℕ, ◌+◌, ◌%◌, ◌^◌, ◌≤◌, ◌<◌, ◌≡◌, refl, sym, subst, ap, ◌∙◌, arith, List, [], ◌∷◌, ◌++◌, length,
  append_assoc, length-append, drop-append, All, All-left, All-right, ok, leb, false,
}
use hcdb.Binary.{Bytes}
use hcdb.Binary.Uint.{length-put_uint}
use hcdb.Binary.Reader.{read_full-append}
use hcdb.Sstable.Block.{BlockEntry, write_block_entry, write_block_entries, encode_block}
use hcdb.Sstable.Block.RoundTrip as Block
use hcdb.Sstable.Block.RoundTrip.{decode_block-encode_block}
use hcdb.Sstable.Index.{IndexEntry}
use hcdb.Sstable.Index.RoundTrip as Index
use hcdb.Sstable.Index.RoundTrip.{
  length-encode_index, decode_index-encode_index, read_footer-encode_footer,
}
use hcdb.Sstable.Table.{read_block, new_block_iterator}
use hcdb.Sstable.Table.Blocks.{blocks_bytes, blocks_entries, first_key_of, block_entry, index_of}

abbrev pub FitsBlock : BlockEntry → Type 0
FitsBlock = Block.Fits

abbrev pub FitsIndex : IndexEntry → Type 0
FitsIndex = Index.Fits

length-write_block_entries : (es : List BlockEntry) → length es ≤ length (write_block_entries es)
unfolding write_block_entries write_block_entry
length-write_block_entries [] = omega arith
length-write_block_entries (e ∷ es) =
    simp (length-append, length-put_uint) (omega (arith, length-write_block_entries es))

pub length-encode_block : (es : List BlockEntry) → length es ≤ length (encode_block es)
unfolding encode_block
length-encode_block es =
    simp (length-append, length-put_uint) (omega (arith, length-write_block_entries es))

length-first_key_of : (b : List BlockEntry) → All FitsBlock b → length (first_key_of b) < 2 ^ 32
length-first_key_of [] h = omega arith
length-first_key_of (e ∷ b) h = h.0.key_fits

pub index_of-Fits :
    (offset : ℕ) (bs : List (List BlockEntry))
    → All FitsBlock (blocks_entries bs)
    → offset + length (blocks_bytes bs) < 2 ^ 31
    → All FitsIndex (index_of offset bs)
index_of-Fits offset [] h small = tt
index_of-Fits offset (b ∷ bs) h small =
    let sizes = length-append (encode_block b) (blocks_bytes bs) in
    (
      record {
        key_fits = length-first_key_of b (All-left FitsBlock b (blocks_entries bs) h);
        offset_fits = omega (arith, sizes);
        length_fits = omega (arith, sizes);
      },
      index_of-Fits (offset + length (encode_block b)) bs
          (All-right FitsBlock b (blocks_entries bs) h) (omega (arith, sizes)),
    )

pub read_block-encode_block :
    (before : Bytes) (b : List BlockEntry) (behind : Bytes)
    → All FitsBlock b
    → length before < 2 ^ 63
    → length (encode_block b) < 2 ^ 31
    → read_block (before ++ (encode_block b ++ behind)) (block_entry (length before) b) ≡ ok b
unfolding read_block
read_block-encode_block before b behind h offset small =
    let size : length (encode_block b) % 2 ^ 32 ≡ length (encode_block b) = omega arith in
    let from : leb (2 ^ 63) (length before) ≡ false = ground arith in
    let fits : leb (2 ^ 31) (length (encode_block b)) ≡ false = ground arith in
    rw (
      read_block,
      from,
      size,
      fits,
      drop-append before (encode_block b ++ behind),
      read_full-append (length (encode_block b)) (encode_block b) behind refl,
      decode_block-encode_block b h (omega (arith, length-encode_block b)),
    )

new_block_iterator_step :
    (file : Bytes) (idx : IndexEntry) (index : List IndexEntry) (b es : List BlockEntry)
    → read_block file idx ≡ ok b
    → new_block_iterator file index ≡ ok es
    → new_block_iterator file (idx ∷ index) ≡ ok (b ++ es)
unfolding new_block_iterator
new_block_iterator_step file idx index b es r i = rw (new_block_iterator, r, i)

pub new_block_iterator-index_of :
    (before : Bytes) (bs : List (List BlockEntry)) (behind : Bytes)
    → All FitsBlock (blocks_entries bs)
    → length before + length (blocks_bytes bs) < 2 ^ 31
    → new_block_iterator (before ++ (blocks_bytes bs ++ behind)) (index_of (length before) bs)
      ≡ ok (blocks_entries bs)
unfolding new_block_iterator
new_block_iterator-index_of before [] behind h small = refl
new_block_iterator-index_of before (b ∷ bs) behind h small =
    let sizes = length-append (encode_block b) (blocks_bytes bs) in
    let here = length-append before (encode_block b) in
    let more =
      new_block_iterator-index_of (before ++ encode_block b) bs behind
        (All-right FitsBlock b (blocks_entries bs) h) (omega (arith, sizes, here)) in
    let file = before ++ ((encode_block b ++ blocks_bytes bs) ++ behind) in
    let at_block : file ≡ before ++ (encode_block b ++ (blocks_bytes bs ++ behind)) =
      ap (λ (l : Bytes). before ++ l) (append_assoc (encode_block b) (blocks_bytes bs) behind) in
    let at_rest : file ≡ (before ++ encode_block b) ++ (blocks_bytes bs ++ behind) =
      at_block ∙ sym (append_assoc before (encode_block b) (blocks_bytes bs ++ behind)) in
    new_block_iterator_step file (block_entry (length before) b)
      (index_of (length before + length (encode_block b)) bs) b (blocks_entries bs)
      (ap (λ (f : Bytes). read_block f (block_entry (length before) b)) at_block
        ∙ read_block-encode_block before b (blocks_bytes bs ++ behind)
            (All-left FitsBlock b (blocks_entries bs) h) (omega (arith, sizes))
            (omega (arith, sizes)))
      (ap
          (λ (f : Bytes).
            new_block_iterator f (index_of (length before + length (encode_block b)) bs))
          at_rest
        ∙ subst
            (λ n.
              new_block_iterator ((before ++ encode_block b) ++ (blocks_bytes bs ++ behind))
                (index_of n bs)
              ≡ ok (blocks_entries bs))
            here more)
