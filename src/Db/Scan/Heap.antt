-- ===== src/Db/Scan/Heap.antt =====
-- The sources on the heap of a scan and the entries that they have left (db/iterator.go).
use hcdb.Prelude.{
  ℕ, ◌+◌, ◌≡◌, ◌≢◌, ◌⊎◌, inl, inr, sym, subst, ap, ◌∙◌, List, [], ◌∷◌, length, true, false,
  Bool-cases, Ordering, Ordering-cases, All,
}
use hcdb.Binary.{Bytes}
use hcdb.Binary.Compare.{bytes_compare, flip}
use hcdb.Base.Key.{InternalKey, decode_internal_key, internal_compare}
use hcdb.Base.Key.Order.{key_compare-eq, key_compare-flip, key_compare-lt_trans}
use hcdb.Versions.Newest.{IsSorted, All-map}
use hcdb.Sstable.Block.{BlockEntry}
use hcdb.Sstable.Sort.{entry_key}
use hcdb.Db.Scan.{Source, is_valid, source_key, source_value, next_source, MergeItem, less, push}

-- The source has exactly these entries left.
unfoldable pub Holds : Source → List BlockEntry → Type 0
Holds src [] = is_valid src ≡ false
Holds src (e ∷ es) =
    (is_valid src ≡ true)
    × (source_key src ≡ e.key)
    × (source_value src ≡ e.value)
    × Holds (next_source src) es

-- The first key does not sort before the second.
unfoldable pub NotBefore : Bytes → Bytes → Type 0
NotBefore y x =
    internal_compare bytes_compare (decode_internal_key y) (decode_internal_key x) ≢ Ordering.lt

pub NotBefore-trans : (x y z : Bytes) → NotBefore y x → NotBefore z y → NotBefore z x
unfolding NotBefore
NotBefore-trans x y z yx zy zx =
    let a = decode_internal_key x in
    let b = decode_internal_key y in
    let c = decode_internal_key z in
    elim (Ordering-cases (internal_compare bytes_compare b a)) [
      | inl lt ↦ yx lt
      | inr (inl eq) ↦ zy (
          subst (λ (k : InternalKey). internal_compare bytes_compare c k ≡ Ordering.lt)
            (sym (key_compare-eq b a eq)) zx)
      | inr (inr gt) ↦ zy (key_compare-lt_trans c a b zx (key_compare-flip b a ∙ ap flip gt))
    ]

less-NotBefore : (x y : MergeItem) → less x y ≡ true → NotBefore y.key x.key
unfolding less NotBefore
less-NotBefore x y l below =
    let a = decode_internal_key x.key in
    let b = decode_internal_key y.key in
    let gt : internal_compare bytes_compare a b ≡ Ordering.gt =
      key_compare-flip b a ∙ ap flip below in
    absurd (cc (rw (less, gt) at l))

not_less-NotBefore : (x y : MergeItem) → less x y ≡ false → NotBefore x.key y.key
unfolding less NotBefore
not_less-NotBefore x y l below = absurd (cc (rw (less, below) at l))

unfoldable pub Among : BlockEntry → List BlockEntry → Type 0
Among e [] = ⊥
Among e (x ∷ xs) = (e ≡ x) ⊎ Among e xs

-- The entry is left in one of the sources.
unfoldable pub IsIn : BlockEntry → List (List BlockEntry) → Type 0
IsIn e [] = ⊥
IsIn e (r ∷ rs) = Among e r ⊎ IsIn e rs

unfoldable pub total : List (List BlockEntry) → ℕ
total [] = 0
total (r ∷ rs) = length r + total rs

-- An item of the heap, with the entries that its source has left.
unfoldable pub IsRun : MergeItem → List BlockEntry → Type 0
IsRun x [] = ⊥
IsRun x (e ∷ es) = (x.key ≡ e.key) × Holds x.src (e ∷ es) × IsSorted entry_key (e ∷ es)

unfoldable pub Shows : List MergeItem → List (List BlockEntry) → Type 0
Shows [] [] = Unit
Shows [] (r ∷ rs) = ⊥
Shows (x ∷ h) [] = ⊥
Shows (x ∷ h) (r ∷ rs) = IsRun x r × Shows h rs

-- No item sorts before an earlier one.
unfoldable pub IsOrdered : List MergeItem → Type 0
IsOrdered [] = Unit
IsOrdered (x ∷ h) = All (λ y. NotBefore y.key x.key) h × IsOrdered h

-- The heap holds sources with these entries left.
pub record Stocks (h : List MergeItem) (rs : List (List BlockEntry)) : Type 0 where
  pub shows : Shows h rs
  pub ordered : IsOrdered h

All-push :
    (P : MergeItem → Type 0) (x : MergeItem) (h : List MergeItem) → P x → All P h → All P (push x h)
unfolding push
All-push P x [] p all = (p, tt)
All-push P x (y ∷ h) p all = elim (Bool-cases (less x y)) [
  | inl first ↦ rw (push, first) (p, all)
  | inr behind ↦ rw (push, behind) (all.0, All-push P x h p all.1)
]

pub push-IsOrdered : (x : MergeItem) (h : List MergeItem) → IsOrdered h → IsOrdered (push x h)
unfolding push IsOrdered
push-IsOrdered x [] o = (tt, tt)
push-IsOrdered x (y ∷ h) o = elim (Bool-cases (less x y)) [
  | inl first ↦
      let below = less-NotBefore x y first in
      rw (push, first)
        (
          (
            below,
            All-map (λ (i : MergeItem). i.key) (λ z. NotBefore-trans x.key y.key z.key below) h o.0,
          ),
          o,
        )
  | inr behind ↦
      rw (push, behind)
        (
          All-push (λ z. NotBefore z.key y.key) x h (not_less-NotBefore x y behind) o.0,
          push-IsOrdered x h o.1,
        )
]
