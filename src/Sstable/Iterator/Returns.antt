-- ===== src/Sstable/Iterator/Returns.antt =====
-- NewIterator on the tables whose lengths make accepts (sstable/iterator.go, sstable.go, block.go).
use hcdb.Prelude.{
  ℕ, zero, suc, ◌-◌, ◌^◌, ◌≤◌, ◌<◌, ◌≡◌, refl, subst, arith, List, ◌∷◌, length, take, drop,
  get_elem?, ltb, leb, ◌==◌, false, inl, inr, Bool-cases, Option-cases, Result-cases, All,
  All-get_elem?, Result, ok, err, ◌>>=◌, is_panic,
}
use hcdb.Binary.{Bytes}
use hcdb.Binary.Uint.{uint}
use hcdb.Binary.Crc.{checksum_ieee}
use hcdb.Binary.Reader.{read_full, read_uint}
use hcdb.Base.Key.{SeqNum}
use hcdb.Sstable.Block.{BlockEntry, read_block_entry, read_block_entries, decode_block}
use hcdb.Sstable.Index.{IndexEntry}
use hcdb.Sstable.Table.{SsTable, read_block}
use hcdb.Sstable.Iterator.{Iterator, load_block, new_iterator}
use hcdb.Sstable.Iterator.Readable.{readable}
use hcdb.Sstable.Iterator.Seeks.{
  drop_while, is_before, is_invisible, start_block, unset, seek_key_of, Opens, new_iterator-Opens,
}

-- No length in the index is a negative int32.
abbrev pub HasLengths : SsTable → Type 0
HasLengths sst = All (λ (idx : IndexEntry). idx.block_length < 2 ^ 31) sst.index

-- The call returns, with a value or with an error.
abbrev pub Calm : {A : Type 0} → Result A → Type 0
Calm (ok a) = Unit {0}
Calm (err e) = is_panic e ≡ false

Calm-bind :
    {A B : Type 0} (m : Result A) (next : A → Result B)
    → Calm m
    → ((a : A) → Calm (next a))
    → Calm (m >>= next)
Calm-bind (ok a) next h go = go a
Calm-bind (err e) next h go = h

read_full-Calm : (n : ℕ) (r : Bytes) → Calm (read_full n r)
unfolding read_full
read_full-Calm n r = elim (Bool-cases (leb n (length r))) [
  | inl enough ↦ rw (read_full, enough) tt
  | inr short ↦ elim (Bool-cases (length r == 0)) [
    | inl empty ↦ rw (read_full, short, empty) refl
    | inr some_left ↦ rw (read_full, short, some_left) refl
  ]
]

read_uint-Calm : (k : ℕ) (r : Bytes) → Calm (read_uint k r)
unfolding read_uint
read_uint-Calm k r =
    Calm-bind (read_full k r) (λ ((bs, rest) : Bytes × Bytes). ok (uint bs, rest))
      (read_full-Calm k r) (λ p. tt)

read_block_entry-Calm : (r : Bytes) → Calm (read_block_entry r)
unfolding read_block_entry
read_block_entry-Calm r = Calm-bind (read_uint 4 r) _ (read_uint-Calm 4 r) (λ (key_len, r).
    Calm-bind (read_uint 4 r) _ (read_uint-Calm 4 r) (λ (val_len, r).
      Calm-bind (read_full key_len r) _ (read_full-Calm key_len r)
        (λ (key, r). Calm-bind (read_full val_len r) _ (read_full-Calm val_len r) (λ p. tt))))

read_block_entries-Calm : (n : ℕ) (r : Bytes) → Calm (read_block_entries n r)
unfolding read_block_entries
read_block_entries-Calm zero r = tt
read_block_entries-Calm (suc n) r = elim (Result-cases (read_block_entry r)) [
  | inr (e, fails) ↦ rw (read_block_entries, fails) (subst Calm fails (read_block_entry-Calm r))
  | inl ((x, r'), reads) ↦
      rw (read_block_entries, reads)
        (Calm-bind (read_block_entries n r') (λ (xs : List BlockEntry). ok (x ∷ xs))
          (read_block_entries-Calm n r') (λ xs. tt))
]

decode_block-Calm : (block_bytes : Bytes) → Calm (decode_block block_bytes)
unfolding decode_block
decode_block-Calm block_bytes =
    let n = length block_bytes - 4 in
    let stored = take n block_bytes in
    elim (Bool-cases (ltb (length block_bytes) 4)) [
      | inl small ↦ rw (decode_block, small) refl
      | inr room ↦ elim (Bool-cases (checksum_ieee stored == uint (drop n block_bytes))) [
        | inr differs ↦ rw (decode_block, room, differs) refl
        | inl same ↦
            rw (decode_block, room, same)
              (Calm-bind (read_uint 4 stored)
                (λ ((num_entries, reader) : ℕ × Bytes). read_block_entries num_entries reader)
                (read_uint-Calm 4 stored)
                (λ ((num_entries, reader) : ℕ × Bytes). read_block_entries-Calm num_entries reader))
      ]
    ]

read_block-Calm :
    (file : Bytes) (idx : IndexEntry) → idx.block_length < 2 ^ 31 → Calm (read_block file idx)
unfolding read_block
read_block-Calm file idx fits =
    let small : leb (2 ^ 31) idx.block_length ≡ false = ground arith in
    elim (Bool-cases (leb (2 ^ 63) idx.offset)) [
      | inl negative ↦ rw (read_block, negative) refl
      | inr from ↦
          rw (read_block, from, small)
            (Calm-bind (read_full idx.block_length (drop idx.offset file))
              (λ ((block_bytes, r) : Bytes × Bytes). decode_block block_bytes)
              (read_full-Calm idx.block_length (drop idx.offset file))
              (λ ((block_bytes, r) : Bytes × Bytes). decode_block-Calm block_bytes))
    ]

module _ (file : Bytes) (sst : SsTable) where
  load_block-Calm : HasLengths sst → (it : Iterator) → Calm (load_block file sst it)
  unfolding load_block
  load_block-Calm lengths it = elim (Option-cases (get_elem? sst.index it.block_idx)) [
    | inl past ↦ rw (load_block, past) tt
    | inr (idx, here) ↦
        rw (load_block, here)
          (Calm-bind (read_block file idx) _
            (read_block-Calm file idx (
              All-get_elem? (λ (i : IndexEntry). i.block_length < 2 ^ 31) sst.index it.block_idx
                lengths here))
            (λ entries. tt))
  ]

  -- What NewIterator returns, and that no block which its loops load makes it panic.
  pub record Returns (fuel : ℕ) (k : Bytes) (s : SeqNum) : Type 0 where
    pub opens :
        Opens file sst
          (drop_while (is_invisible s) (
            drop_while
              (is_before (seek_key_of k s))
              (readable file (drop (start_block file sst k s) sst.index))))
          (load_block file sst (unset file sst k s))
          (new_iterator file sst fuel k s)
    pub loads : (it : Iterator) → Calm (load_block file sst it)

  -- A table file, whatever it holds, as long as no length in its index is a negative int32, and fuel for the entries that can be read from the block where the search starts. No block makes NewIterator panic. The iterator has left what is readable from there, without what sorts before the lower bound and then without what the snapshot does not see up to the first entry that it does; or the block where it starts cannot be read and NewIterator returns that error.
  pub new_iterator-Returns :
      (fuel : ℕ) (k : Bytes) (s : SeqNum)
      → HasLengths sst
      → length (readable file (drop (start_block file sst k s) sst.index)) ≤ fuel
      → Returns fuel k s
  new_iterator-Returns fuel k s lengths enough = record {
    opens = new_iterator-Opens file sst fuel k s enough;
    loads = load_block-Calm lengths;
  }
