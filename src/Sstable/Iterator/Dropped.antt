-- ===== src/Sstable/Iterator/Dropped.antt =====
-- Lookup when a later block cannot be read (sstable/iterator.go, sstable.go).
use hcdb.Prelude.{
  ℕ, suc, Bool, ◌≤◌, ◌≡◌, refl, ap, ◌∙◌, arith, List, [], ◌∷◌, length, drop, get_elem?, true, some,
  All, ok, err, Error, append-nil, is_panic, false,
}
use hcdb.Binary.{Bytes}
use hcdb.Base.Key.{SeqNum, key_absent}
use hcdb.Bloom.{might_contain}
use hcdb.Sstable.Block.{BlockEntry}
use hcdb.Sstable.Index.{IndexEntry}
use hcdb.Sstable.Table.{SsTable, read_block}
use hcdb.Sstable.Iterator.{load_block, new_iterator, lookup}
use hcdb.Sstable.Iterator.Readable.{readable, drop-get_elem?}
use hcdb.Sstable.Iterator.Seeks.{
  drop_while, is_before, is_invisible, start_block, unset, seek_key_of, new_iterator-Opens,
}
use hcdb.Sstable.Iterator.Lookup.{entry_answer, head_version, opened_answer}

drop_while_all :
    (test : BlockEntry → Bool) (es : List BlockEntry)
    → All (λ e. test e ≡ true) es
    → drop_while test es ≡ []
unfolding drop_while
drop_while_all test [] h = refl
drop_while_all test (e ∷ es) h = rw (drop_while, h.0) (drop_while_all test es h.1)

module _ (file : Bytes) (sst : SsTable) (k : Bytes) (s : SeqNum) (idx later : IndexEntry)
    (b : List BlockEntry) (e : Error)
    (first : get_elem? sst.index (start_block file sst k s) ≡ some idx)
    (reads : read_block file idx ≡ ok b)
    (second : get_elem? sst.index (suc (start_block file sst k s)) ≡ some later)
    (fails : read_block file later ≡ err e) (returned : is_panic e ≡ false) where
  one_readable : readable file (drop (start_block file sst k s) sst.index) ≡ b
  unfolding readable
  one_readable =
      rw
        (
          drop-get_elem? sst.index (start_block file sst k s) idx first,
          drop-get_elem? sst.index (suc (start_block file sst k s)) later second,
        )
        (from_first b reads)
    where
      from_first :
          (c : List BlockEntry)
          → read_block file idx ≡ ok c
          → readable file (idx ∷ later ∷ drop (suc (suc (start_block file sst k s))) sst.index) ≡ c
      from_first [] r = rw (readable, r) refl
      from_first (x ∷ xs) r = rw (readable, r, readable, fails) (ap (λ l. x ∷ l) (append-nil xs))

  first_loads : (f : Error) → load_block file sst (unset file sst k s) ≡ err f → ⊥
  unfolding load_block
  first_loads f h = absurd (cc (rw (load_block, first, reads) at h))

  -- The filter lets the key pass, the search leads to a block that can be read and all of whose entries sort before the sought version, and the next block, which may hold that version, cannot be read: reading it returns an error and does not panic. Then Lookup returns no error: it answers that the key is absent.
  pub lookup_drops_error :
      (fuel : ℕ)
      → might_contain sst.bloom k ≡ true
      → All (λ x. is_before (seek_key_of k s) x ≡ true) b
      → length b ≤ fuel
      → lookup file sst fuel k s ≡ ok ([], key_absent)
  unfolding lookup entry_answer drop_while
  lookup_drops_error fuel passes before enough =
      let none_left : drop_while (is_before (seek_key_of k s))
            (readable file (drop (start_block file sst k s) sst.index))
          ≡ [] =
        ap (drop_while (is_before (seek_key_of k s))) one_readable
        ∙ drop_while_all (is_before (seek_key_of k s)) b before in
      let rest = readable file (drop (start_block file sst k s) sst.index) in
      rw (lookup, passes)
        (opened_answer file sst k
            (drop_while (is_invisible s) (drop_while (is_before (seek_key_of k s)) rest))
            (load_block file sst (unset file sst k s)) (new_iterator file sst fuel k s) first_loads
            (new_iterator-Opens file sst fuel k s
              (omega (arith, enough, ap (λ (l : List BlockEntry). length l) one_readable)))
          ∙ ap (λ l. ok (entry_answer (head_version k (drop_while (is_invisible s) l)))) none_left)
