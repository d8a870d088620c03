-- ===== src/Sstable/Iterator/Readable.antt =====
-- What an iterator has left to yield (loadBlock and advance of sstable/iterator.go).
use hcdb.Prelude.{
  ℕ, zero, suc, ◌+◌, ◌≤◌, ◌<◌, ◌≡◌, refl, sym, subst, Bool, ap, ◌∙◌, arith, List, [], ◌∷◌, ◌++◌,
  length, drop, get_elem?, ltb, ◌==◌, not, if◌then◌else◌, true, false, none, some, inl, inr,
  Option-cases, Result-cases, Bool-cases, ok, err, Error, ltb→lt,
}
use mathlib.Core.Option.{get_or}
use native.Mathlib.Numerals.{add-one}
use hcdb.Binary.{Bytes}
use hcdb.Sstable.Block.{BlockEntry}
use hcdb.Sstable.Index.{IndexEntry}
use hcdb.Sstable.Table.{SsTable, read_block}
use hcdb.Sstable.Iterator.{Iterator, current, load_block, advance}

module _ {ℓ} {A : Type ℓ} where
  pub drop-get_elem? :
      (xs : List A) (i : ℕ) (a : A) → get_elem? xs i ≡ some a → drop i xs ≡ a ∷ drop (suc i) xs
  drop-get_elem? [] i a e = absurd (cc)
  drop-get_elem? (x ∷ xs) zero a e = cc
  drop-get_elem? (x ∷ xs) (suc i) a e = drop-get_elem? xs i a e

  pub drop_past : (xs : List A) (i : ℕ) → length xs ≤ i → drop i xs ≡ []
  drop_past [] zero h = refl
  drop_past [] (suc i) h = refl
  drop_past (x ∷ xs) zero h = absurd (omega arith)
  drop_past (x ∷ xs) (suc i) h = drop_past xs i (omega arith)

  pub get_elem?_past : (xs : List A) (i : ℕ) → get_elem? xs i ≡ none → length xs ≤ i
  get_elem?_past [] i e = omega arith
  get_elem?_past (x ∷ xs) zero e = absurd (cc)
  get_elem?_past (x ∷ xs) (suc i) e = omega (arith, get_elem?_past xs i e)

drop-get_or :
    (entries : List BlockEntry) (pos : ℕ) (other : BlockEntry)
    → pos < length entries
    → drop pos entries ≡ get_or (get_elem? entries pos) other ∷ drop (suc pos) entries
drop-get_or [] pos other h = absurd (omega arith)
drop-get_or (e ∷ es) zero other h = refl
drop-get_or (e ∷ es) (suc pos) other h = drop-get_or es pos other (omega arith)

-- The entries of the blocks in the order of the index, up to a block that cannot be read or is empty.
unfoldable pub readable : Bytes → List IndexEntry → List BlockEntry
readable file [] = []
readable file (idx ∷ index) =
    let rest = readable file index in
    elim (read_block file idx) [ err e ↦ [] | ok [] ↦ [] | ok (e ∷ es) ↦ e ∷ (es ++ rest) ]

abbrev pub IsInRange : Iterator → Type 0
IsInRange it = it.valid ≡ true → it.pos < length it.entries

module _ (file : Bytes) (sst : SsTable) where
  -- What the iterator yields from where it stands.
  unfoldable pub left : Iterator → List BlockEntry
  left it =
      if it.valid
      then drop it.pos it.entries ++ readable file (drop (suc it.block_idx) sst.index)
      else []

  pub record Loads (it next : Iterator) : Type 0 where
    pub loads : left next ≡ readable file (drop it.block_idx sst.index)
    pub in_range : IsInRange next

  past_end :
      (it : Iterator)
      → get_elem? sst.index it.block_idx ≡ none
      → Loads it (record it { valid = false })
  unfolding left readable
  past_end it past = record {
    loads =
        ap (readable file)
          (sym (drop_past sst.index it.block_idx (get_elem?_past sst.index it.block_idx past)));
    in_range = λ v. absurd (cc);
  }

  one_block :
      (it : Iterator) (idx : IndexEntry) (es : List BlockEntry)
      → get_elem? sst.index it.block_idx ≡ some idx
      → read_block file idx ≡ ok es
      → Loads it
          (record { block_idx = it.block_idx; entries = es; pos = 0; valid = not (length es == 0) })
  unfolding left readable
  one_block it idx [] here reads = record {
    loads = rw (drop-get_elem? sst.index it.block_idx idx here, readable, reads) refl;
    in_range = λ v. absurd (cc);
  }
  one_block it idx (x ∷ xs) here reads = record {
    loads = rw (drop-get_elem? sst.index it.block_idx idx here, readable, reads) (ground arith);
    in_range = λ v. omega arith;
  }

  pub load_block-left : (it next : Iterator) → load_block file sst it ≡ ok next → Loads it next
  unfolding load_block
  load_block-left it next e = elim (Option-cases (get_elem? sst.index it.block_idx)) [
    | inl past ↦
        (let p : record it { valid = false } ≡ next = cc (rw (load_block, past) at e) in
          subst (λ n. Loads it n) p (past_end it past))
    | inr (idx, here) ↦ elim (Result-cases (read_block file idx)) [
      | inr (f, fails) ↦ absurd (cc (rw (load_block, here, fails) at e))
      | inl (es, reads) ↦
          (let p : record {
            block_idx = it.block_idx;
            entries = es;
            pos = 0;
            valid = not (length es == 0);
          }
                ≡ next =
              cc (rw (load_block, here, reads) at e) in
            subst (λ n. Loads it n) p (one_block it idx es here reads))
    ]
  ]

  pub load_block_fails :
      (it : Iterator) (f : Error)
      → load_block file sst it ≡ err f
      → readable file (drop it.block_idx sst.index) ≡ []
  unfolding load_block readable
  load_block_fails it f e = elim (Option-cases (get_elem? sst.index it.block_idx)) [
    | inl past ↦ absurd (cc (rw (load_block, past) at e))
    | inr (idx, here) ↦ elim (Result-cases (read_block file idx)) [
      | inr (g, fails) ↦ rw (drop-get_elem? sst.index it.block_idx idx here, readable, fails) refl
      | inl (xs, reads) ↦ absurd (cc (rw (load_block, here, reads) at e))
    ]
  ]

  -- One step from a valid iterator: it had the current entry and what the next one has.
  pub record Steps (it : Iterator) (more : Bool) (next : Iterator) : Type 0 where
    pub steps : left it ≡ current it ∷ left next
    pub in_range : IsInRange next
    pub goes_on : next.valid ≡ more

  pub advance-left :
      (it : Iterator)
      → it.valid ≡ true
      → IsInRange it
      → Steps it (advance file sst it).0 (advance file sst it).1
  unfolding advance left
  advance-left it valid h =
      let other : BlockEntry = record { key = []; value = [] } in
      let over : Iterator = record it { pos = it.pos + 1; block_idx = it.block_idx + 1 } in
      let one = drop-get_or it.entries it.pos other (h valid) in
      elim (Bool-cases (ltb (it.pos + 1) (length it.entries))) [
        | inl within ↦
            rw (advance, within)
              (record {
                steps = rw (left, valid, one) (rw add-one refl);
                in_range = λ v. ltb→lt (it.pos + 1) (length it.entries) within;
                goes_on = valid;
              })
        | inr ends ↦
            let none_here : drop (suc it.pos) it.entries ≡ [] =
              drop_past it.entries (suc it.pos) (ground arith) in
            let last : left it ≡ current it ∷ readable file (drop (suc it.block_idx) sst.index) =
              rw (left, valid, one, none_here) refl in
            let rest_at : readable file (drop (suc it.block_idx) sst.index)
                ≡ readable file (drop over.block_idx sst.index) =
              rw add-one refl in
            elim (Result-cases (load_block file sst over)) [
              | inl (next, loads) ↦
                  (let l = load_block-left over next loads in
                    rw (advance, ends, loads)
                      (record {
                        steps = last ∙ ap (λ l. current it ∷ l) (rest_at ∙ sym l.loads);
                        in_range = l.in_range;
                        goes_on = refl;
                      }))
              | inr (f, fails) ↦
                  rw (advance, ends, fails)
                    (record {
                      steps =
                          last ∙ ap (λ l. current it ∷ l) (rest_at ∙ load_block_fails over f fails);
                      in_range = λ v. absurd (cc);
                      goes_on = refl;
                    })
            ]
      ]
