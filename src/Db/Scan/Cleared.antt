-- ===== src/Db/Scan/Cleared.antt =====
-- The entries that Next skips over (db/iterator.go).
use hcdb.Prelude.{
  ℕ, zero, suc, ◌≤◌, ◌≡◌, ◌≢◌, inl, inr, refl, sym, subst, ap, ◌∙◌, arith, List, [], ◌∷◌, false,
  Bool-cases, Ordering, Ordering-cases, All,
}
use hcdb.Binary.{Bytes, bytes_equal, eq→bytes_equal, bytes_equal→eq}
use hcdb.Binary.Compare.{
  bytes_compare, flip, bytes_compare-eq, bytes_compare-flip, bytes_compare-lt_trans,
  bytes_compare_refl,
}
use hcdb.Base.Key.{decode_internal_key}
use hcdb.Memtable.Seek.{users_lt}
use hcdb.Sstable.Block.{BlockEntry}
use hcdb.Db.Scan.{MergeItem, user_key, skip_past, skip_others, superseded}
use hcdb.Db.Scan.Heap.{
  NotBefore, Among, IsIn, total, IsRun, Shows, IsOrdered, Stocks, NotBefore-trans,
}
use hcdb.Db.Scan.Skips.{user_of, Skipped, skip_past-Skipped, All-Among, NotBefore-self}

pub NotBefore-users :
    (y x : Bytes) → NotBefore y x → bytes_compare (user_key y) (user_key x) ≢ Ordering.lt
unfolding NotBefore
NotBefore-users y x h lt = h (users_lt (decode_internal_key y) (decode_internal_key x) lt)

user_above :
    (k x e : Bytes)
    → bytes_compare k x ≡ Ordering.lt
    → bytes_compare e x ≢ Ordering.lt
    → bytes_compare k e ≡ Ordering.lt
user_above k x e below h = elim (Ordering-cases (bytes_compare e x)) [
  | inl lt ↦ absurd (h lt)
  | inr (inl eq) ↦
      subst (λ (u : Bytes). bytes_compare k u ≡ Ordering.lt) (sym (bytes_compare-eq e x eq)) below
  | inr (inr gt) ↦ bytes_compare-lt_trans k x e below (bytes_compare-flip e x ∙ ap flip gt)
]

exceeds :
    (u k : Bytes)
    → bytes_compare u k ≢ Ordering.lt
    → bytes_equal u k ≡ false
    → bytes_compare k u ≡ Ordering.lt
exceeds u k h other = elim (Ordering-cases (bytes_compare u k)) [
  | inl lt ↦ absurd (h lt)
  | inr (inl eq) ↦ absurd (cc (other, eq→bytes_equal u k (bytes_compare-eq u k eq)))
  | inr (inr gt) ↦ bytes_compare-flip u k ∙ ap flip gt
]

pub not_below_itself : (k u : Bytes) → u ≡ k → bytes_compare k u ≢ Ordering.lt
not_below_itself k u same lt =
    cc (subst (λ (v : Bytes). bytes_compare k v ≡ Ordering.lt) same lt, bytes_compare_refl k)

-- What is not before the items of a heap is not before any entry in it.
heap-NotBefore :
    (c : Bytes) (h : List MergeItem) (rs : List (List BlockEntry))
    → Shows h rs
    → All (λ y. NotBefore y.key c) h
    → (e : BlockEntry) → IsIn e rs
    → NotBefore e.key c
unfolding Shows IsRun IsIn Among NotBefore
heap-NotBefore c [] [] shows all e i = absurd i
heap-NotBefore c [] (r ∷ rs) shows all e i = absurd shows
heap-NotBefore c (y ∷ h) [] shows all e i = absurd shows
heap-NotBefore c (y ∷ h) ([] ∷ rs) shows all e i = absurd shows.0
heap-NotBefore c (y ∷ h) ((d ∷ ds) ∷ rs) shows all e i =
    let first : NotBefore d.key c = subst (λ (k : Bytes). NotBefore k c) shows.0.0 all.0 in
    elim i [
      | inl (inl same) ↦ subst (λ (a : BlockEntry). NotBefore a.key c) (sym same) first
      | inl (inr later) ↦
          NotBefore-trans c d.key e.key first
            (All-Among (λ a. NotBefore a.key d.key) e ds shows.0.2.0 later)
      | inr other ↦ heap-NotBefore c h rs shows.1 all.1 e other
    ]

-- The first item of a heap is not behind any entry in it.
pub top-NotBefore :
    (x : MergeItem) (h : List MergeItem) (rs : List (List BlockEntry))
    → Stocks (x ∷ h) rs
    → (e : BlockEntry) → IsIn e rs
    → NotBefore e.key x.key
unfolding IsOrdered
top-NotBefore x h rs stocks =
    heap-NotBefore x.key (x ∷ h) rs stocks.shows (NotBefore-self x.key, stocks.ordered.0)

-- A skip over a user key that leaves only greater ones.
pub record Cleared (k : Bytes) (rs : List (List BlockEntry)) (h : List MergeItem) : Type 0 where
  pub skipped : Skipped k rs h
  pub above : (e : BlockEntry) → IsIn e skipped.runs → bytes_compare k (user_of e) ≡ Ordering.lt

empty-Cleared : (k : Bytes) → Cleared k [] []
unfolding Shows IsOrdered IsIn
empty-Cleared k = record {
  skipped = record {
    runs = [];
    stocks = record { shows = tt; ordered = tt };
    kept = λ e i. i;
    complete = λ e i. inr i;
    fewer = omega arith;
  };
  above = λ e i. absurd i;
}

then-Cleared :
    (k : Bytes) (rs : List (List BlockEntry)) (h₁ h₂ : List MergeItem) (s : Skipped k rs h₁)
    → Cleared k s.runs h₂
    → Cleared k rs h₂
then-Cleared k rs h₁ h₂ s c = record {
  skipped = record {
    runs = c.skipped.runs;
    stocks = c.skipped.stocks;
    kept = λ e i. s.kept e (c.skipped.kept e i);
    complete = λ e i. elim (s.complete e i) [
      | inl keyed ↦ inl keyed
      | inr left ↦ c.skipped.complete e left
    ];
    fewer = omega (arith, s.fewer, c.skipped.fewer);
  };
  above = c.above;
}

skip_others-Cleared :
    (bound fuel : ℕ) (k : Bytes) (h : List MergeItem) (rs : List (List BlockEntry))
    → Stocks h rs
    → total rs ≤ fuel
    → total rs ≤ bound
    → ((e : BlockEntry) → IsIn e rs → bytes_compare (user_of e) k ≢ Ordering.lt)
    → Cleared k rs (skip_others bound fuel k h)
unfolding skip_others Shows total IsIn Among IsRun
skip_others-Cleared bound zero k [] [] stocks enough few low = empty-Cleared k
skip_others-Cleared bound zero k [] (r ∷ rs) stocks enough few low = absurd stocks.shows
skip_others-Cleared bound zero k (x ∷ h) [] stocks enough few low = absurd stocks.shows
skip_others-Cleared bound zero k (x ∷ h) ([] ∷ rs) stocks enough few low = absurd stocks.shows.0
skip_others-Cleared bound zero k (x ∷ h) ((e ∷ es) ∷ rs) stocks enough few low =
    absurd (omega arith)
skip_others-Cleared bound (suc fuel) k [] [] stocks enough few low = empty-Cleared k
skip_others-Cleared bound (suc fuel) k [] (r ∷ rs) stocks enough few low = absurd stocks.shows
skip_others-Cleared bound (suc fuel) k (x ∷ h) [] stocks enough few low = absurd stocks.shows
skip_others-Cleared bound (suc fuel) k (x ∷ h) ([] ∷ rs) stocks enough few low =
    absurd stocks.shows.0
skip_others-Cleared bound (suc fuel) k (x ∷ h) ((d ∷ ds) ∷ rs) stocks enough few low =
    elim (Bool-cases (bytes_equal (user_key x.key) k)) [
      | inl same ↦
          let (s, less) =
            skip_past-Skipped bound k x h (d ∷ ds) rs stocks few
              (bytes_equal→eq (user_key x.key) k same) in
          rw (skip_others, same)
            (then-Cleared k ((d ∷ ds) ∷ rs) (skip_past bound k x h)
              (skip_others bound fuel k (skip_past bound k x h)) s
              (skip_others-Cleared bound fuel k (skip_past bound k x h) s.runs s.stocks
                (omega arith) (omega arith) (λ e i. low e (s.kept e i))))
      | inr other ↦
          rw (skip_others, other)
            (record {
              skipped = record {
                runs = (d ∷ ds) ∷ rs;
                stocks = stocks;
                kept = λ e i. i;
                complete = λ e i. inr i;
                fewer = omega arith;
              };
              above = λ e i.
                  user_above k (user_key x.key) (user_of e)
                    (exceeds (user_key x.key) k
                      (subst (λ (u : Bytes). bytes_compare (user_key u) k ≢ Ordering.lt)
                        (sym stocks.shows.0.0) (low d (inl (inl refl))))
                      other)
                    (NotBefore-users e.key x.key (top-NotBefore x h ((d ∷ ds) ∷ rs) stocks e i));
            })
    ]

pub superseded-Cleared :
    (bound : ℕ) (x : MergeItem) (h : List MergeItem) (r : List BlockEntry)
    (rs : List (List BlockEntry))
    → Stocks (x ∷ h) (r ∷ rs)
    → total (r ∷ rs) ≤ bound
    → (c : Cleared (user_key x.key) (r ∷ rs) (superseded bound x h)) × (suc (total c.skipped.runs)
        ≤ total (r ∷ rs))
unfolding superseded total then-Cleared
superseded-Cleared bound x h r rs stocks enough =
    let k = user_key x.key in
    let (s, less) = skip_past-Skipped bound k x h r rs stocks enough refl in
    let low : (e : BlockEntry) → IsIn e s.runs → bytes_compare (user_of e) k ≢ Ordering.lt =
      λ e i. NotBefore-users e.key x.key (top-NotBefore x h (r ∷ rs) stocks e (s.kept e i)) in
    let rest =
      skip_others-Cleared bound bound k (skip_past bound k x h) s.runs s.stocks (omega arith)
        (omega arith) low in
    (
      then-Cleared k (r ∷ rs) (skip_past bound k x h) (superseded bound x h) s rest,
      omega (arith, rest.skipped.fewer, less),
    )
