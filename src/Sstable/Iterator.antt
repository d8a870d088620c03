-- ===== src/Sstable/Iterator.antt =====
-- sstable/iterator.go, and Lookup of sstable.go: one table as a source of entries. A block is read
-- from the file of the table, as when it misses the block cache. The two fields sst and snapshot of
-- the struct are the parameters of its methods here.
pub mod Readable
pub mod Seeks
pub mod Returns
pub mod Blocks
pub mod Lookup
pub mod Written
pub mod Dropped
mod Tests
use hcdb.Prelude.{
  ℕ, zero, suc, ◌+◌, List, [], length, get_elem?, not, ltb, ◌==◌, if◌then◌else◌, Bool, true, false,
  Option, none, some, Ordering, Result, ok, err, ◌>>=◌,
}
use mathlib.Core.Option.{get_or}
use hcdb.Binary.{Bytes, bytes_equal}
use hcdb.Binary.Compare.{bytes_compare}
use hcdb.Base.Key.{
  SeqNum, KeyLookup, key_absent, key_found, key_deleted, InternalKey, decode_internal_key,
  internal_compare, make_search_key_at, encode_new, kind, kind_delete, visible,
}
use hcdb.Bloom.{might_contain}
use hcdb.Sstable.Block.{BlockEntry}
use hcdb.Sstable.Index.{search_index}
use hcdb.Sstable.Table.{SsTable, read_block}

pub record Iterator : Type 0 where
  pub block_idx : ℕ
  pub entries : List BlockEntry
  pub pos : ℕ
  pub valid : Bool

-- it.entries[it.pos]. A valid iterator is in range: `IsInRange` of Iterator/Readable.
abbrev pub current : Iterator → BlockEntry
current it = get_or (get_elem? it.entries it.pos) (record { key = []; value = [] })

abbrev pub current_key : Iterator → InternalKey
current_key it = decode_internal_key (current it).key

unfoldable pub encode_search_key_at : Bytes → SeqNum → Bytes
encode_search_key_at user_key snapshot = encode_new (make_search_key_at user_key snapshot)

-- The end of advance, on what loadBlock returned: `err != nil || !it.valid`. It is no recover: where
-- loadBlock panics, Go never gets here, and Returns says when that cannot be.
abbrev pub loaded : Iterator → Result Iterator → Bool × Iterator
loaded it (err e) = (false, record it { valid = false })
loaded it (ok next) = (next.valid, next)

-- it.blockIdx after the search, where -1 becomes 0.
abbrev pub first_block : Option ℕ → ℕ
first_block none = 0
first_block (some i) = i

-- What Lookup returns once it has its iterator.
unfoldable pub found_at : Bytes → Iterator → Bytes × KeyLookup
found_at user_key it =
    if not it.valid
    then ([], key_absent)
    else if not (bytes_equal (current_key it).user_key user_key)
    then ([], key_absent)
    else if kind (current_key it) == kind_delete
    then ([], key_deleted)
    else ((current it).value, key_found)

module _ (file : Bytes) (sst : SsTable) where
  -- loadBlock, which leaves the iterator as it is when it returns an error.
  unfoldable pub load_block : Iterator → Result Iterator
  load_block it = elim (get_elem? sst.index it.block_idx) [
    | none ↦ ok (record it { valid = false })
    | some idx ↦ (do
      entries ← read_block file idx
      ok (record {
        block_idx = it.block_idx;
        entries = entries;
        pos = 0;
        valid = not (length entries == 0);
      }))
  ]

  unfoldable pub advance : Iterator → Bool × Iterator
  advance it =
      let step = record it { pos = it.pos + 1 } in
      let over = record step { block_idx = it.block_idx + 1 } in
      if ltb step.pos (length it.entries) then (true, step) else loaded over (load_block over)

  -- The loop of NewIterator. A round that goes on takes one entry.
  unfoldable pub seek_loop : ℕ → InternalKey → Iterator → Iterator
  seek_loop zero seek_key it = it
  seek_loop (suc fuel) seek_key it =
      let (more, next) = advance it in
      let rest = seek_loop fuel seek_key next in
      if it.valid
      then elim (internal_compare bytes_compare (current_key it) seek_key) [
        | Ordering.lt ↦ if more then rest else next
        | _ ↦ it
      ]
      else it

  unfoldable pub skip_invisible : ℕ → SeqNum → Iterator → Iterator
  skip_invisible zero snapshot it = it
  skip_invisible (suc fuel) snapshot it =
      let (more, next) = advance it in
      let rest = skip_invisible fuel snapshot next in
      if it.valid
      then (if visible (current_key it) snapshot then it else (if more then rest else next))
      else it

  -- `fuel` bounds the rounds of each of the two loops.
  unfoldable pub new_iterator : ℕ → Bytes → SeqNum → Result Iterator
  new_iterator fuel lower_bound snapshot =
      let encoded_seek = encode_search_key_at lower_bound snapshot in
      let it : Iterator = record {
        block_idx = first_block (search_index sst.index encoded_seek);
        entries = [];
        pos = 0;
        valid = false;
      } in
      (do
        it ← load_block it
        ok (skip_invisible fuel snapshot (seek_loop fuel (decode_internal_key encoded_seek) it)))

  unfoldable pub next : ℕ → SeqNum → Iterator → Iterator
  next fuel snapshot it =
      let (more, it) = advance it in if more then skip_invisible fuel snapshot it else it

  unfoldable pub lookup : ℕ → Bytes → SeqNum → Result (Bytes × KeyLookup)
  lookup fuel user_key snapshot =
      if not (might_contain sst.bloom user_key)
      then ok ([], key_absent)
      else (do it ← new_iterator fuel user_key snapshot; ok (found_at user_key it))
