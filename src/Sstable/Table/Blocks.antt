-- ===== src/Sstable/Table/Blocks.antt =====
-- The blocks that a table writer makes (sstable/writer.go, write_block_collector.go).
use hcdb.Prelude.{
  ℕ, ◌+◌, ◌-◌, ◌%◌, ◌^◌, ◌<◌, All, All-append, ◌≡◌, refl, sym, ap, ◌∙◌, arith, List, [], ◌∷◌, ◌++◌,
  length, leb, ◌==◌, if◌then◌else◌, ◌≢◌, inl, inr, Bool-cases, append-nil, append_assoc,
  length-append,
}
use hcdb.Config.{default_block_size}
use hcdb.Binary.{Bytes}
use hcdb.Bloom.{BloomFilter}
use hcdb.Sstable.Block.{BlockEntry, encode_block}
use hcdb.Sstable.Index.{IndexEntry}
use hcdb.Sstable.Table.{
  TableWriter, new_table_writer, collect_entry, put_block, add_to_block, flush_current, collect_all,
}

abbrev pub Block : Type 0
Block = List BlockEntry

abbrev pub blocks_bytes : List Block → Bytes
blocks_bytes [] = []
blocks_bytes (b ∷ bs) = encode_block b ++ blocks_bytes bs

abbrev pub blocks_entries : List Block → List BlockEntry
blocks_entries [] = []
blocks_entries (b ∷ bs) = b ++ blocks_entries bs

abbrev pub first_key_of : Block → Bytes
first_key_of [] = []
first_key_of (e ∷ es) = e.key

abbrev pub block_entry : ℕ → Block → IndexEntry
block_entry offset b = record {
  first_key = first_key_of b;
  offset = offset;
  block_length = length (encode_block b) % 2 ^ 32;
}

abbrev pub index_of : ℕ → List Block → List IndexEntry
index_of offset [] = []
index_of offset (b ∷ bs) = block_entry offset b ∷ index_of (offset + length (encode_block b)) bs

blocks_bytes-last :
    (bs : List Block) (b : Block)
    → blocks_bytes (bs ++ (b ∷ [])) ≡ blocks_bytes bs ++ encode_block b
blocks_bytes-last [] b = append-nil (encode_block b)
blocks_bytes-last (c ∷ bs) b =
    cc (blocks_bytes-last bs b, append_assoc (encode_block c) (blocks_bytes bs) (encode_block b))

blocks_entries-last :
    (bs : List Block) (b : Block) → blocks_entries (bs ++ (b ∷ [])) ≡ blocks_entries bs ++ b
blocks_entries-last [] b = append-nil b
blocks_entries-last (c ∷ bs) b = cc (blocks_entries-last bs b, append_assoc c (blocks_entries bs) b)

index_of-last :
    (offset : ℕ) (bs : List Block) (b : Block)
    → index_of offset (bs ++ (b ∷ []))
      ≡ index_of offset bs ++ (block_entry (offset + length (blocks_bytes bs)) b ∷ [])
index_of-last offset [] b =
    let same : offset ≡ offset + 0 = omega arith in ap (λ o. block_entry o b ∷ []) same
index_of-last offset (c ∷ bs) b =
    let here = offset + length (encode_block c) in
    let same : here + length (blocks_bytes bs)
        ≡ offset + length (encode_block c ++ blocks_bytes bs) =
      omega (arith, length-append (encode_block c) (blocks_bytes bs)) in
    ap (λ (l : List IndexEntry). block_entry offset c ∷ l)
      (index_of-last here bs b ∙ ap (λ o. index_of here bs ++ (block_entry o b ∷ [])) same)

-- The entries es were handed to the writer.
pub record Built (es : List BlockEntry) (w : TableWriter) : Type 0 where
  pub blocks : List Block
  pub bytes : w.writer ≡ blocks_bytes blocks
  pub indexed : w.index_entries ≡ index_of 0 blocks
  pub offset : w.current_offset ≡ length w.writer
  pub all_entries : es ≡ blocks_entries blocks ++ w.collector.entries
  pub full : All (λ b. 0 < length b) blocks
  pub first :
      length w.collector.entries ≢ 0 → w.collector.last_first_key ≡ first_key_of w.collector.entries

pub new_table_writer-Built : (bloom : BloomFilter) → Built [] (new_table_writer bloom)
new_table_writer-Built bloom = record {
  blocks = [];
  bytes = refl;
  indexed = refl;
  offset = refl;
  all_entries = refl;
  full = tt;
  first = λ h. absurd (h refl);
}

same_index_entry :
    {a b : IndexEntry}
    → a.first_key ≡ b.first_key
    → a.offset ≡ b.offset
    → a.block_length ≡ b.block_length
    → a ≡ b
same_index_entry p q r = cc

put_block-Built :
    (es : List BlockEntry) (w : TableWriter)
    → length w.collector.entries ≢ 0
    → Built es w
    → Built es (put_block w)
unfolding put_block
put_block-Built es w some_left b =
    let drained = w.collector.entries in
    record {
      blocks = b.blocks ++ (w.collector.entries ∷ []);
      bytes = cc (b.bytes, blocks_bytes-last b.blocks w.collector.entries);
      indexed =
          let size : w.current_offset + length (encode_block drained) - w.current_offset
              ≡ length (encode_block drained) =
            omega arith in
          let start : w.current_offset ≡ 0 + length (blocks_bytes b.blocks) =
            omega (arith, b.offset, ap (λ (l : Bytes). length l) b.bytes) in
          let added : IndexEntry = record {
            first_key = w.collector.last_first_key;
            offset = w.current_offset;
            block_length =
                (w.current_offset + length (encode_block drained) - w.current_offset) % 2 ^ 32;
          } in
          let same : added ≡ block_entry (0 + length (blocks_bytes b.blocks)) drained =
            same_index_entry (b.first some_left) start (ap (λ (n : ℕ). n % 2 ^ 32) size) in
          ap (λ (l : List IndexEntry). l ++ (added ∷ [])) b.indexed
          ∙ ap (λ (a : IndexEntry). index_of 0 b.blocks ++ (a ∷ [])) same
          ∙ sym (index_of-last 0 b.blocks drained);
      offset = omega (arith, b.offset, length-append w.writer (encode_block w.collector.entries));
      all_entries = cc (
        b.all_entries,
        blocks_entries-last b.blocks w.collector.entries,
        append-nil (blocks_entries b.blocks ++ w.collector.entries),
      );
      full = All-append (λ c. 0 < length c) b.blocks (drained ∷ []) b.full (omega arith, tt);
      first = λ h. absurd (h refl);
    }

first_key_of-last :
    (b : Block) (e : BlockEntry)
    → first_key_of (b ++ (e ∷ [])) ≡ (if length b == 0 then e.key else first_key_of b)
first_key_of-last [] e = refl
first_key_of-last (c ∷ b) e = ground arith

first_of_collected :
    (es : List BlockEntry) (w : TableWriter) (e : BlockEntry)
    → Built es w
    → (collect_entry w.collector e).last_first_key ≡ first_key_of (w.collector.entries ++ (e ∷ []))
unfolding collect_entry
first_of_collected es w e b = elim (Bool-cases (length w.collector.entries == 0)) [
  | inl empty ↦ rw (collect_entry, first_key_of-last w.collector.entries e, empty) refl
  | inr some_left ↦
      rw (collect_entry, first_key_of-last w.collector.entries e, some_left)
        (b.first (λ z. absurd (ground (arith, z, some_left))))
]

collect_entry-Built :
    (es : List BlockEntry) (w : TableWriter) (e : BlockEntry)
    → Built es w
    → Built (es ++ (e ∷ [])) (record w { collector = collect_entry w.collector e })
unfolding collect_entry
collect_entry-Built es w e b = record {
  blocks = b.blocks;
  bytes = b.bytes;
  indexed = b.indexed;
  offset = b.offset;
  all_entries =
      cc (b.all_entries, append_assoc (blocks_entries b.blocks) w.collector.entries (e ∷ []));
  full = b.full;
  first = λ h. cc (first_of_collected es w e b);
}

-- All that was handed over is in blocks.
pub flush_current-Built :
    (es : List BlockEntry) (w : TableWriter)
    → Built es w
    → Built es (flush_current w) × (length (flush_current w).collector.entries ≡ 0)
unfolding flush_current put_block
flush_current-Built es w b = elim (Bool-cases (length w.collector.entries == 0)) [
  | inl empty ↦ rw (flush_current, empty) (b, ground (arith, empty))
  | inr some_left ↦
      rw (flush_current, some_left)
        (put_block-Built es w (λ z. absurd (ground (arith, z, some_left))) b, refl)
]

add_to_block-Built :
    (es : List BlockEntry) (w : TableWriter) (e : BlockEntry)
    → Built es w
    → Built (es ++ (e ∷ [])) (add_to_block w e)
unfolding add_to_block collect_entry
add_to_block-Built es w e b =
    let added = record w { collector = collect_entry w.collector e } in
    let g = collect_entry-Built es w e b in
    elim (Bool-cases (leb default_block_size added.collector.size_estimate)) [
      | inl full ↦ rw (add_to_block, full) (flush_current-Built (es ++ (e ∷ [])) added g).0
      | inr room ↦ rw (add_to_block, room) g
    ]

pub collect_all-Built :
    (done es : List BlockEntry) (w : TableWriter)
    → Built done w
    → Built (done ++ es) (collect_all w es)
unfolding collect_all
collect_all-Built done [] w b = rw append-nil b
collect_all-Built done (e ∷ es) w b =
    rw (← append_assoc done (e ∷ []) es)
      (collect_all-Built (done ++ (e ∷ [])) es (add_to_block w e) (add_to_block-Built done w e b))
