-- ===== src/Binary/Compare.antt =====
-- bytes.Compare: lexicographic order, with Go's -1, 0 and +1 as lt, eq and gt.
use hcdb.Prelude.{◌≡◌, refl, arith, [], ◌∷◌, compare, Ordering}
use hcdb.Binary.{Bytes}

unfoldable pub bytes_compare : Bytes → Bytes → Ordering
bytes_compare [] [] = Ordering.eq
bytes_compare [] (y ∷ ys) = Ordering.lt
bytes_compare (x ∷ xs) [] = Ordering.gt
bytes_compare (x ∷ xs) (y ∷ ys) =
    let rest = bytes_compare xs ys in
    elim (compare x y) [
      | Ordering.lt ↦ Ordering.lt
      | Ordering.gt ↦ Ordering.gt
      | Ordering.eq ↦ rest
    ]

-- The comparison with its arguments exchanged.
abbrev pub flip : Ordering → Ordering
flip Ordering.lt = Ordering.gt
flip Ordering.eq = Ordering.eq
flip Ordering.gt = Ordering.lt

pub bytes_compare_refl : (xs : Bytes) → bytes_compare xs xs ≡ Ordering.eq
unfolding bytes_compare
bytes_compare_refl [] = refl
bytes_compare_refl (x ∷ xs) = ground (arith, bytes_compare_refl xs)

pub bytes_compare-eq : (xs ys : Bytes) → bytes_compare xs ys ≡ Ordering.eq → xs ≡ ys
unfolding bytes_compare
bytes_compare-eq [] [] h = refl
bytes_compare-eq [] (y ∷ ys) h = ground arith
bytes_compare-eq (x ∷ xs) [] h = ground arith
bytes_compare-eq (x ∷ xs) (y ∷ ys) h = ground (arith, bytes_compare-eq xs ys)

pub bytes_compare-flip : (xs ys : Bytes) → bytes_compare ys xs ≡ flip (bytes_compare xs ys)
unfolding bytes_compare
bytes_compare-flip [] [] = refl
bytes_compare-flip [] (y ∷ ys) = refl
bytes_compare-flip (x ∷ xs) [] = refl
bytes_compare-flip (x ∷ xs) (y ∷ ys) = ground (arith, bytes_compare-flip xs ys)

pub bytes_compare-lt_trans :
    (xs ys zs : Bytes)
    → bytes_compare xs ys ≡ Ordering.lt
    → bytes_compare ys zs ≡ Ordering.lt
    → bytes_compare xs zs ≡ Ordering.lt
unfolding bytes_compare
bytes_compare-lt_trans [] [] zs p q = ground arith
bytes_compare-lt_trans [] (y ∷ ys) [] p q = ground arith
bytes_compare-lt_trans [] (y ∷ ys) (z ∷ zs) p q = refl
bytes_compare-lt_trans (x ∷ xs) [] zs p q = ground arith
bytes_compare-lt_trans (x ∷ xs) (y ∷ ys) [] p q = ground arith
bytes_compare-lt_trans (x ∷ xs) (y ∷ ys) (z ∷ zs) p q =
    ground (arith, bytes_compare-lt_trans xs ys zs)
