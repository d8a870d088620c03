-- ===== src/Sstable/Iterator/Seeks.antt =====
-- The two loops of an iterator, and NewIterator and Next (sstable/iterator.go).
use hcdb.Prelude.{
  ℕ, zero, suc, ◌≤◌, ◌<◌, ◌≡◌, refl, sym, ap, Error, ◌∙◌, arith, List, [], ◌∷◌, length, drop, not,
  Bool, true, false, if◌then◌else◌, inl, inr, Bool-cases, Ordering, Ordering-cases, Result, ok, err,
  Result-cases,
}
use hcdb.Binary.{Bytes}
use hcdb.Binary.Compare.{bytes_compare}
use hcdb.Base.Key.{SeqNum, InternalKey, decode_internal_key, internal_compare, visible}
use hcdb.Sstable.Block.{BlockEntry}
use hcdb.Sstable.Index.{search_index}
use hcdb.Sstable.Table.{SsTable}
use hcdb.Sstable.Iterator.{
  Iterator, current, current_key, first_block, encode_search_key_at, load_block, advance, seek_loop,
  skip_invisible, new_iterator, next,
}
use hcdb.Sstable.Iterator.Readable.{IsInRange, left, readable, load_block-left, advance-left}

-- From the first entry on that the test does not pass over.
unfoldable pub drop_while : (BlockEntry → Bool) → List BlockEntry → List BlockEntry
drop_while test [] = []
drop_while test (e ∷ es) = let rest = drop_while test es in if test e then rest else e ∷ es

unfoldable pub is_before : InternalKey → BlockEntry → Bool
is_before seek_key e = elim (internal_compare bytes_compare (decode_internal_key e.key) seek_key) [
  | Ordering.lt ↦ true
  | _ ↦ false
]

unfoldable pub is_invisible : SeqNum → BlockEntry → Bool
is_invisible snapshot e = not (visible (decode_internal_key e.key) snapshot)

abbrev pub seek_key_of : Bytes → SeqNum → InternalKey
seek_key_of lower_bound snapshot = decode_internal_key (encode_search_key_at lower_bound snapshot)

pub length-drop_while :
    (test : BlockEntry → Bool) (es : List BlockEntry) → length (drop_while test es) ≤ length es
unfolding drop_while
length-drop_while test [] = omega arith
length-drop_while test (e ∷ es) = ground (arith, length-drop_while test es)

module _ (file : Bytes) (sst : SsTable) where
  abbrev rest_of : Iterator → List BlockEntry
  rest_of = left file sst

  -- The iterator stands where dropping by the test leads to.
  pub record Lands (test : BlockEntry → Bool) (it there : Iterator) : Type 0 where
    pub lands : left file sst there ≡ drop_while test (left file sst it)
    pub in_range : IsInRange there

  invalid-left : (it : Iterator) → it.valid ≡ false → left file sst it ≡ []
  unfolding left
  invalid-left it e = rw (left, e) refl

  invalid-Lands : (test : BlockEntry → Bool) (it : Iterator) → it.valid ≡ false → Lands test it it
  unfolding drop_while
  invalid-Lands test it e = record {
    lands = rw (invalid-left it e) refl;
    in_range = λ v. absurd (cc);
  }

  -- One round of either loop.
  stops-Lands :
      (test : BlockEntry → Bool) (it : Iterator)
      → it.valid ≡ true
      → IsInRange it
      → test (current it) ≡ false
      → Lands test it it
  unfolding drop_while
  stops-Lands test it valid h here = record {
    lands = let step = (advance-left file sst it valid h).steps in rw (step, drop_while, here) refl;
    in_range = h;
  }

  passes-Lands :
      (test : BlockEntry → Bool) (it there : Iterator)
      → it.valid ≡ true
      → IsInRange it
      → test (current it) ≡ true
      → Lands test (advance file sst it).1 there
      → Lands test it there
  unfolding drop_while
  passes-Lands test it there valid h here l = record {
    lands =
        l.lands
        ∙ (let step = (advance-left file sst it valid h).steps in rw (step, drop_while, here) refl);
    in_range = l.in_range;
  }

  fewer :
      (fuel : ℕ) (it : Iterator)
      → it.valid ≡ true
      → IsInRange it
      → length (rest_of it) ≤ suc fuel
      → length (rest_of (advance file sst it).1) ≤ fuel
  fewer fuel it valid h enough =
      omega (arith, ap (λ (l : List BlockEntry). length l) (advance-left file sst it valid h).steps)

  no_fuel :
      (test : BlockEntry → Bool) (it : Iterator)
      → IsInRange it
      → length (rest_of it) ≤ 0
      → Lands test it it
  no_fuel test it h enough = elim (Bool-cases it.valid) [
    | inr invalid ↦ invalid-Lands test it invalid
    | inl valid ↦ absurd (
        omega
          (arith, ap (λ (l : List BlockEntry). length l) (advance-left file sst it valid h).steps))
  ]

  pub seek_loop-Lands :
      (fuel : ℕ) (seek_key : InternalKey) (it : Iterator)
      → IsInRange it
      → length (rest_of it) ≤ fuel
      → Lands (is_before seek_key) it (seek_loop file sst fuel seek_key it)
  unfolding seek_loop is_before
  seek_loop-Lands zero k it h enough = no_fuel (is_before k) it h enough
  seek_loop-Lands (suc fuel) k it h enough = elim (Bool-cases it.valid) [
    | inr invalid ↦ simp (seek_loop, invalid) (invalid-Lands (is_before k) it invalid)
    | inl valid ↦
        let there = (advance file sst it).1 in
        let step = advance-left file sst it valid h in
        elim (Ordering-cases (internal_compare bytes_compare (current_key it) k)) [
          | inr (inl eq) ↦
              simp (seek_loop, valid, eq)
                (stops-Lands (is_before k) it valid h (rw (is_before, eq) refl))
          | inr (inr gt) ↦
              simp (seek_loop, valid, gt)
                (stops-Lands (is_before k) it valid h (rw (is_before, gt) refl))
          | inl lt ↦ elim (Bool-cases (advance file sst it).0) [
            | inl more ↦
                simp (seek_loop, valid, lt, more)
                  (passes-Lands (is_before k) it (seek_loop file sst fuel k there) valid h
                    (rw (is_before, lt) refl)
                    (seek_loop-Lands fuel k there step.in_range (fewer fuel it valid h enough)))
            | inr ends ↦
                simp (seek_loop, valid, lt, ends)
                  (passes-Lands (is_before k) it there valid h (rw (is_before, lt) refl)
                    (invalid-Lands (is_before k) there (step.goes_on ∙ ends)))
          ]
        ]
  ]

  pub skip_invisible-Lands :
      (fuel : ℕ) (s : SeqNum) (it : Iterator)
      → IsInRange it
      → length (rest_of it) ≤ fuel
      → Lands (is_invisible s) it (skip_invisible file sst fuel s it)
  unfolding skip_invisible is_invisible
  skip_invisible-Lands zero s it h enough = no_fuel (is_invisible s) it h enough
  skip_invisible-Lands (suc fuel) s it h enough = elim (Bool-cases it.valid) [
    | inr invalid ↦ simp (skip_invisible, invalid) (invalid-Lands (is_invisible s) it invalid)
    | inl valid ↦
        let there = (advance file sst it).1 in
        let step = advance-left file sst it valid h in
        elim (Bool-cases (visible (current_key it) s)) [
          | inl seen ↦
              simp (skip_invisible, valid, seen)
                (stops-Lands (is_invisible s) it valid h (rw (is_invisible, seen) refl))
          | inr hidden ↦ elim (Bool-cases (advance file sst it).0) [
            | inl more ↦
                simp (skip_invisible, valid, hidden, more)
                  (passes-Lands (is_invisible s) it (skip_invisible file sst fuel s there) valid h
                    (rw (is_invisible, hidden) refl)
                    (skip_invisible-Lands fuel s there step.in_range
                      (fewer fuel it valid h enough)))
            | inr ends ↦
                simp (skip_invisible, valid, hidden, ends)
                  (passes-Lands (is_invisible s) it there valid h (rw (is_invisible, hidden) refl)
                    (invalid-Lands (is_invisible s) there (step.goes_on ∙ ends)))
          ]
        ]
  ]

  -- The block that NewIterator starts in.
  abbrev pub start_block : Bytes → SeqNum → ℕ
  start_block lower_bound snapshot =
      first_block (search_index sst.index (encode_search_key_at lower_bound snapshot))

  -- What NewIterator returns: an iterator with these entries left, or the error of its first block.
  pub data Opens (entries : List BlockEntry) (first : Result Iterator)
      : Result Iterator → Type 0 where
    opened :
        (it : Iterator) → left file sst it ≡ entries → IsInRange it → Opens entries first (ok it)
    failed : (e : Error) → first ≡ err e → Opens entries first (err e)

  abbrev pub unset : Bytes → SeqNum → Iterator
  unset lower_bound snapshot = record {
    block_idx = start_block lower_bound snapshot;
    entries = [];
    pos = 0;
    valid = false;
  }

  -- What NewIterator returns, in the model: see Returns for what it needs of the table.
  pub new_iterator-Opens :
      (fuel : ℕ) (k : Bytes) (s : SeqNum)
      → length (readable file (drop (start_block k s) sst.index)) ≤ fuel
      → Opens
          (drop_while (is_invisible s) (
            drop_while
              (is_before (seek_key_of k s))
              (readable file (drop (start_block k s) sst.index))))
          (load_block file sst (unset k s))
          (new_iterator file sst fuel k s)
  unfolding new_iterator
  new_iterator-Opens fuel k s enough = elim (Result-cases (load_block file sst (unset k s))) [
    | inr (e, fails) ↦ rw (new_iterator, fails) (failed e refl)
    | inl (it, loads) ↦
        let l = load_block-left file sst (unset k s) it loads in
        let sought =
          seek_loop-Lands fuel (seek_key_of k s) it l.in_range
            (omega (arith, enough, ap (λ (es : List BlockEntry). length es) l.loads)) in
        let there = seek_loop file sst fuel (seek_key_of k s) it in
        let shown = skip_invisible-Lands fuel s there sought.in_range (
          omega (
            arith,
            enough,
            ap (λ (es : List BlockEntry). length es) l.loads,
            ap (λ (es : List BlockEntry). length es) sought.lands,
            length-drop_while (is_before (seek_key_of k s)) (rest_of it),
          )) in
        rw (new_iterator, loads)
          (opened (skip_invisible file sst fuel s there)
            (shown.lands
              ∙ ap (λ es. drop_while (is_invisible s) es)
                  (sought.lands ∙ ap (λ es. drop_while (is_before (seek_key_of k s)) es) l.loads))
            shown.in_range)
  ]

  -- Next passes over the current entry and then over what the snapshot does not see.
  pub next-left :
      (fuel : ℕ) (s : SeqNum) (it : Iterator)
      → it.valid ≡ true
      → IsInRange it
      → length (left file sst it) ≤ suc fuel
      → let it' = next file sst fuel s it in
        (left file sst it' ≡ drop_while (is_invisible s) (drop 1 (left file sst it)))
        × (it'.valid ≡ true → it'.pos < length it'.entries)
  unfolding next
  next-left fuel s it valid h enough =
      let step = advance-left file sst it valid h in
      let there = (advance file sst it).1 in
      let rest : drop 1 (rest_of it) ≡ rest_of there = rw step.steps refl in
      elim (Bool-cases (advance file sst it).0) [
        | inl more ↦
            let shown =
              skip_invisible-Lands fuel s there step.in_range (fewer fuel it valid h enough) in
            simp (next, more)
              (shown.lands ∙ ap (λ es. drop_while (is_invisible s) es) (sym rest), shown.in_range)
        | inr ends ↦
            let l = invalid-Lands (is_invisible s) there (step.goes_on ∙ ends) in
            simp (next, ends)
              (l.lands ∙ ap (λ es. drop_while (is_invisible s) es) (sym rest), l.in_range)
      ]
