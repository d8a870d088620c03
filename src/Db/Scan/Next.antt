-- ===== src/Db/Scan/Next.antt =====
-- MergeIterator.Next (db/iterator.go).
use hcdb.Prelude.{
  ℕ, zero, suc, ◌≤◌, ◌≡◌, ◌≢◌, inl, inr, refl, sym, subst, ap, ◌∙◌, arith, List, [], ◌∷◌, ◌==◌,
  true, false, Bool-cases, Ordering, Option,
}
use hcdb.Binary.{Bytes, bytes_equal→eq}
use hcdb.Binary.Compare.{bytes_compare}
use hcdb.Base.Key.{decode_internal_key, kind, kind_delete}
use hcdb.Memtable.{is_past}
use hcdb.Memtable.Scan.{is_past_behind}
use hcdb.Sstable.Block.{BlockEntry}
use hcdb.Db.Scan.{source_value, MergeItem, MergeIterator, user_key, superseded, next_loop, next}
use hcdb.Db.Scan.Heap.{Holds, NotBefore, Among, IsIn, total, IsRun, Shows, Stocks}
use hcdb.Db.Scan.Skips.{user_of, has_key}
use hcdb.Db.Scan.Cleared.{
  NotBefore-users, not_below_itself, top-NotBefore, Cleared, superseded-Cleared,
}
use hcdb.Db.Scan.Answers.{IsNewest, IsDeleted, StandsAt, Answers, stands, ended, Answers-above}

module _ (bound : ℕ) (x : MergeItem) (h : List MergeItem) (e : BlockEntry) (es : List BlockEntry)
    (rs : List (List BlockEntry)) (stocks : Stocks (x ∷ h) ((e ∷ es) ∷ rs)) where
  abbrev all : List (List BlockEntry)
  all = (e ∷ es) ∷ rs

  top-IsIn : IsIn e all
  unfolding IsIn Among
  top-IsIn = inl (inl refl)

  top_key : x.key ≡ e.key
  unfolding Shows IsRun
  top_key = stocks.shows.0.0

  top-IsNewest : IsNewest all e
  top-IsNewest d i same =
      subst (λ (key : Bytes). NotBefore d.key key) top_key (top-NotBefore x h all stocks d i)

  top-IsDeleted :
      (kind (decode_internal_key x.key) == kind_delete) ≡ true → IsDeleted all (user_key x.key)
  top-IsDeleted deletes = record {
    tombstone = e;
    is_in = top-IsIn;
    of_key = ap user_key (sym top_key);
    deletes =
        subst (λ (key : Bytes). (kind (decode_internal_key key) == kind_delete) ≡ true) top_key
          deletes;
    newest = top-IsNewest;
  }

  -- Behind a key that is past the upper bound there is none within it.
  none_within :
      (upper : Option Bytes)
      → is_past upper (user_key x.key) ≡ true
      → (d : BlockEntry) → IsIn d all
      → is_past upper (user_of d) ≢ false
  none_within upper past d i within = cc (
    within,
    is_past_behind upper (user_key x.key) (user_of d) past
        (NotBefore-users d.key x.key (top-NotBefore x h all stocks d i)),
  )

  top-StandsAt :
      (m : MergeIterator) (h' : List MergeItem) (c : Cleared (user_key x.key) all h')
      → is_past m.upper_bound (user_key x.key) ≡ false
      → (kind (decode_internal_key x.key) == kind_delete) ≡ false
      → suc (total c.skipped.runs) ≤ total all
      → StandsAt m.upper_bound all e
          (record m { heap = h'; key = user_key x.key; val = source_value x.src; valid = true })
  unfolding Shows IsRun Holds has_key
  top-StandsAt m h' c within live less =
      let above : (d : BlockEntry)
          → IsIn d c.skipped.runs
          → bytes_compare (user_of e) (user_of d) ≡ Ordering.lt =
        λ d i.
          subst (λ (key : Bytes). bytes_compare (user_key key) (user_of d) ≡ Ordering.lt) top_key
            (c.above d i) in
      record {
        is_in = top-IsIn;
        newest = top-IsNewest;
        is_live =
            subst (λ (key : Bytes). (kind (decode_internal_key key) == kind_delete) ≡ false) top_key
              live;
        within =
            subst (λ (key : Bytes). is_past m.upper_bound (user_key key) ≡ false) top_key within;
        valid = refl;
        key = ap user_key top_key;
        val = stocks.shows.0.1.2;
        bound = refl;
        left = c.skipped.runs;
        stocks = c.skipped.stocks;
        fewer = less;
        kept = c.skipped.kept;
        above = above;
        complete = λ d i lt. elim (c.skipped.complete d i) [
          | inl keyed ↦ absurd (
              not_below_itself (user_of e) (user_of d)
                (bytes_equal→eq (user_of d) (user_key x.key) keyed ∙ ap user_key top_key) lt)
          | inr there ↦ there
        ];
        passed = λ d i lt. absurd (NotBefore-users d.key e.key (below d i) lt);
      }
    where
      below : (d : BlockEntry) → IsIn d all → NotBefore d.key e.key
      below d i =
          subst (λ (key : Bytes). NotBefore d.key key) top_key (top-NotBefore x h all stocks d i)

module _ (bound : ℕ) where
  next_loop-Answers :
      (fuel : ℕ) (h : List MergeItem) (rs : List (List BlockEntry)) (m : MergeIterator)
      → Stocks h rs
      → total rs ≤ fuel
      → total rs ≤ bound
      → Answers m.upper_bound rs (next_loop bound fuel h m)
  unfolding next_loop Shows IsRun IsIn total
  next_loop-Answers zero [] [] m stocks enough few = ended _ refl (λ d i within. absurd i)
  next_loop-Answers zero [] (r ∷ rs) m stocks enough few = absurd stocks.shows
  next_loop-Answers zero (x ∷ h) [] m stocks enough few = absurd stocks.shows
  next_loop-Answers zero (x ∷ h) ([] ∷ rs) m stocks enough few = absurd stocks.shows.0
  next_loop-Answers zero (x ∷ h) ((e ∷ es) ∷ rs) m stocks enough few = absurd (omega arith)
  next_loop-Answers (suc fuel) [] [] m stocks enough few = ended _ refl (λ d i within. absurd i)
  next_loop-Answers (suc fuel) [] (r ∷ rs) m stocks enough few = absurd stocks.shows
  next_loop-Answers (suc fuel) (x ∷ h) [] m stocks enough few = absurd stocks.shows
  next_loop-Answers (suc fuel) (x ∷ h) ([] ∷ rs) m stocks enough few = absurd stocks.shows.0
  next_loop-Answers (suc fuel) (x ∷ h) ((e ∷ es) ∷ rs) m stocks enough few =
      let k = user_key x.key in
      let left = superseded bound x h in
      let (c, less) = superseded-Cleared bound x h (e ∷ es) rs stocks few in
      elim (Bool-cases (is_past m.upper_bound k)) [
        | inl past ↦
            rw (next_loop, past)
              (ended _ refl (λ d i within.
                absurd (none_within bound x h e es rs stocks m.upper_bound past d i within)))
        | inr within ↦ elim (Bool-cases (kind (decode_internal_key x.key) == kind_delete)) [
          | inl deletes ↦
              rw (next_loop, within, deletes)
                (Answers-above k ((e ∷ es) ∷ rs) left c
                  (top-IsDeleted bound x h e es rs stocks deletes) m.upper_bound
                  (next_loop bound fuel left m)
                  (next_loop-Answers fuel left c.skipped.runs m c.skipped.stocks (omega arith)
                    (omega arith)))
          | inr live ↦
              rw (next_loop, within, live)
                (stands _ e (top-StandsAt bound x h e es rs stocks m left c within live less))
        ]
      ]

  -- The sources of a MergeIterator have these entries left, each in order, and the fuel is their number. Next returns true exactly if a user key within the upper bound is not deleted, at the newest version of the smallest such key: its key and value are those of that entry, every smaller key has a tombstone as its newest version, and exactly the entries of greater keys are left. If it returns false, every key within the bound is deleted.
  pub next-Answers :
      (m : MergeIterator) (rs : List (List BlockEntry))
      → Stocks m.heap rs
      → total rs ≤ bound
      → Answers m.upper_bound rs (next bound m)
  unfolding next
  next-Answers m rs stocks enough = next_loop-Answers bound m.heap rs m stocks enough enough
