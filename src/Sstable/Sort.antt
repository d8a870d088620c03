-- ===== src/Sstable/Sort.antt =====
-- sstable/sort_entries.go: SortEntries calls sort.Slice with the order of internal keys. sort.Slice
-- need not keep the order of equal keys, so it is any function with the laws of a Sorter. Insertion
-- is one.
use hcdb.Prelude.{
  ◌≡◌, ◌≢◌, refl, subst, ap, ◌∙◌, List, [], ◌∷◌, All, Ordering, inl, inr, Ordering-cases,
}
use mathlib.Core.List.{Permᴰ}
use mathlib.Core.List.Permᴰ
use hcdb.Binary.{Bytes}
use hcdb.Binary.Compare.{flip}
use hcdb.Base.Key.{decode_internal_key}
use hcdb.Base.Key.Order.{key_compare, key_compare-eq, key_compare-flip, key_compare-lt_trans}
use hcdb.Sstable.Block.{BlockEntry}
use hcdb.Versions.Newest.{IsSorted, All-map}

abbrev pub entry_key : BlockEntry → Bytes
entry_key e = e.key

pub record Sorter : Type 0 where
  pub sort_slice : List BlockEntry → List BlockEntry
  pub permutes : (es : List BlockEntry) → Permᴰ (sort_slice es) es
  pub sorts : (es : List BlockEntry) → IsSorted entry_key (sort_slice es)

pub All-Permᴰ {κ} :
    {A : Type 0} (P : A → Type κ) {xs ys : List A} → Permᴰ xs ys → All P xs → All P ys
All-Permᴰ P Permᴰ.nil h = tt
All-Permᴰ P (Permᴰ.cons e p) h = (subst P e h.0, All-Permᴰ P p h.1)
All-Permᴰ P (Permᴰ.swap e f) h = (subst P f h.1.0, (subst P e h.0, h.1.1))
All-Permᴰ P (Permᴰ.trans p q) h = All-Permᴰ P q (All-Permᴰ P p h)

abbrev comes : BlockEntry → BlockEntry → Ordering
comes a b = key_compare (decode_internal_key a.key) (decode_internal_key b.key)

insert : BlockEntry → List BlockEntry → List BlockEntry
insert e [] = e ∷ []
insert e (x ∷ xs) =
    let rest = insert e xs in elim (comes x e) [ Ordering.lt ↦ x ∷ rest | _ ↦ e ∷ x ∷ xs ]

insertion : List BlockEntry → List BlockEntry
insertion [] = []
insertion (e ∷ es) = insert e (insertion es)

insert-Permᴰ : (e : BlockEntry) (xs : List BlockEntry) → Permᴰ (insert e xs) (e ∷ xs)
unfolding insert
insert-Permᴰ e [] = Permᴰ.refl (e ∷ [])
insert-Permᴰ e (x ∷ xs) = elim (Ordering-cases (comes x e)) [
  | inl before ↦
      rw (insert, before) (Permᴰ.trans (Permᴰ.cons refl (insert-Permᴰ e xs)) (Permᴰ.swap refl refl))
  | inr (inl same) ↦ rw (insert, same) (Permᴰ.refl (e ∷ x ∷ xs))
  | inr (inr behind) ↦ rw (insert, behind) (Permᴰ.refl (e ∷ x ∷ xs))
]

insertion-Permᴰ : (es : List BlockEntry) → Permᴰ (insertion es) es
unfolding insertion
insertion-Permᴰ [] = Permᴰ.nil
insertion-Permᴰ (e ∷ es) =
    Permᴰ.trans (insert-Permᴰ e (insertion es)) (Permᴰ.cons refl (insertion-Permᴰ es))

-- Of two keys that do not stand the wrong way round, and a third behind the second.
not_before_trans :
    (a b c : BlockEntry)
    → comes b a ≢ Ordering.lt
    → comes c b ≢ Ordering.lt
    → comes c a ≢ Ordering.lt
not_before_trans a b c p q r = elim (Ordering-cases (comes a b)) [
  | inl lt ↦ q (
      key_compare-lt_trans (decode_internal_key c.key) (decode_internal_key a.key)
        (decode_internal_key b.key) r lt)
  | inr (inl same) ↦ q (
      subst (λ k. key_compare (decode_internal_key c.key) k ≡ Ordering.lt)
        (key_compare-eq (decode_internal_key a.key) (decode_internal_key b.key) same) r)
  | inr (inr gt) ↦
      p (key_compare-flip (decode_internal_key a.key) (decode_internal_key b.key) ∙ ap flip gt)
]

not_lt-flip : (a b : BlockEntry) → comes a b ≡ Ordering.lt → comes b a ≢ Ordering.lt
not_lt-flip a b lt r =
    absurd
      (cc (key_compare-flip (decode_internal_key a.key) (decode_internal_key b.key), ap flip lt))

-- In front of a sorted list whose first entry does not sort before it.
front-IsSorted :
    (e x : BlockEntry) (xs : List BlockEntry)
    → comes x e ≢ Ordering.lt
    → IsSorted entry_key (x ∷ xs)
    → IsSorted entry_key (e ∷ x ∷ xs)
front-IsSorted e x xs fits h =
    ((fits, All-map entry_key (λ y. not_before_trans e x y fits) xs h.0), h)

insert-IsSorted :
    (e : BlockEntry) (xs : List BlockEntry)
    → IsSorted entry_key xs
    → IsSorted entry_key (insert e xs)
unfolding insert
insert-IsSorted e [] h = (tt, tt)
insert-IsSorted e (x ∷ xs) h = elim (Ordering-cases (comes x e)) [
  | inl before ↦
      rw (insert, before)
        (
          All-Permᴰ (λ y. comes y x ≢ Ordering.lt) (Permᴰ.symm (insert-Permᴰ e xs))
              (not_lt-flip x e before, h.0),
          insert-IsSorted e xs h.1,
        )
  | inr (inl same) ↦ rw (insert, same) (front-IsSorted e x xs (λ r. absurd (cc)) h)
  | inr (inr behind) ↦ rw (insert, behind) (front-IsSorted e x xs (λ r. absurd (cc)) h)
]

insertion-IsSorted : (es : List BlockEntry) → IsSorted entry_key (insertion es)
unfolding insertion
insertion-IsSorted [] = tt
insertion-IsSorted (e ∷ es) = insert-IsSorted e (insertion es) (insertion-IsSorted es)

pub insertion_sorter : Sorter
insertion_sorter = record {
  sort_slice = insertion;
  permutes = insertion-Permᴰ;
  sorts = insertion-IsSorted;
}
