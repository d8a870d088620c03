-- ===== src/Db/Scan/Skips.antt =====
-- heap.Push and skipPast on the entries that the sources have left (db/iterator.go).
use hcdb.Prelude.{
  ℕ, zero, suc, ◌+◌, ◌≤◌, ◌≡◌, ◌⊎◌, inl, inr, refl, sym, subst, ap, ◌∙◌, arith, List, [], ◌∷◌,
  length, Bool, true, Bool-cases, All,
}
use hcdb.Binary.{Bytes, bytes_equal, eq→bytes_equal}
use hcdb.Base.Key.{decode_internal_key}
use hcdb.Base.Key.Order.{key_compare_refl}
use hcdb.Versions.Newest.{IsSorted}
use hcdb.Sstable.Block.{BlockEntry}
use hcdb.Sstable.Sort.{entry_key}
use hcdb.Sstable.Iterator.Seeks.{drop_while, length-drop_while}
use hcdb.Db.Scan.{
  Source, is_valid, source_key, next_source, MergeItem, less, push, push_valid, user_key, skip_loop,
  skip_past,
}
use hcdb.Db.Scan.Heap.{
  Holds, NotBefore, Among, IsIn, total, IsRun, Shows, IsOrdered, Stocks, push-IsOrdered,
}

abbrev pub user_of : BlockEntry → Bytes
user_of e = user_key e.key

unfoldable pub has_key : Bytes → BlockEntry → Bool
has_key k e = bytes_equal (user_key e.key) k

-- The heap shows the entries of one source and of the others.
pub record Merges (r : List BlockEntry) (rs : List (List BlockEntry)) (h : List MergeItem)
    : Type 0 where
  pub runs : List (List BlockEntry)
  pub shows : Shows h runs
  pub into : (e : BlockEntry) → Among e r ⊎ IsIn e rs → IsIn e runs
  pub from : (e : BlockEntry) → IsIn e runs → Among e r ⊎ IsIn e rs
  pub counted : total runs ≡ length r + total rs

push-Merges :
    (x : MergeItem) (r : List BlockEntry) (h : List MergeItem) (rs : List (List BlockEntry))
    → IsRun x r
    → Shows h rs
    → Merges r rs (push x h)
unfolding push Shows IsIn total
push-Merges x r [] [] run shows = record {
  runs = r ∷ [];
  shows = (run, tt);
  into = λ e m. m;
  from = λ e m. m;
  counted = refl;
}
push-Merges x r [] (s ∷ rs) run shows = absurd shows
push-Merges x r (y ∷ h) [] run shows = absurd shows
push-Merges x r (y ∷ h) (s ∷ rs) run shows = elim (Bool-cases (less x y)) [
  | inl first ↦
      rw (push, first)
        (record {
          runs = r ∷ s ∷ rs;
          shows = (run, shows);
          into = λ e m. m;
          from = λ e m. m;
          counted = refl;
        })
  | inr behind ↦
      let m = push-Merges x r h rs run shows.1 in
      rw (push, behind)
        (record {
          runs = s ∷ m.runs;
          shows = (shows.0, m.shows);
          into = λ e o. elim o [
            | inl a ↦ inr (m.into e (inl a))
            | inr (inl b) ↦ inl b
            | inr (inr c) ↦ inr (m.into e (inr c))
          ];
          from = λ e o. elim o [
            | inl b ↦ inr (inl b)
            | inr c ↦ elim (m.from e c) [ inl a ↦ inl a | inr d ↦ inr (inr d) ]
          ];
          counted = omega (arith, m.counted);
        })
]

pub push_valid-Merges :
    (priority : ℕ) (src : Source) (es : List BlockEntry) (h : List MergeItem)
    (rs : List (List BlockEntry))
    → Holds src es
    → IsSorted entry_key es
    → Shows h rs
    → Merges es rs (push_valid priority src h)
unfolding push_valid Holds IsRun Among
push_valid-Merges priority src [] h rs holds sorted shows =
    rw (push_valid, holds)
      (record {
        runs = rs;
        shows = shows;
        into = λ e o. elim o [ inl none_there ↦ absurd none_there | inr m ↦ m ];
        from = λ e m. inr m;
        counted = omega arith;
      })
push_valid-Merges priority src (e ∷ es) h rs holds sorted shows =
    rw (push_valid, holds.0)
      (push-Merges (record { key = source_key src; priority = priority; src = src }) (e ∷ es) h rs
        (holds.1, holds, sorted) shows)

pub push_valid-IsOrdered :
    (priority : ℕ) (src : Source) (h : List MergeItem)
    → IsOrdered h
    → IsOrdered (push_valid priority src h)
unfolding push_valid
push_valid-IsOrdered priority src h o = elim (Bool-cases (is_valid src)) [
  | inl valid ↦
      rw (push_valid, valid)
        (push-IsOrdered (record { key = source_key src; priority = priority; src = src }) h o)
  | inr ends ↦ rw (push_valid, ends) o
]

skip_loop-Holds :
    (fuel : ℕ) (k : Bytes) (src : Source) (es : List BlockEntry)
    → length es ≤ fuel
    → Holds src es
    → Holds (skip_loop fuel k src) (drop_while (has_key k) es)
unfolding skip_loop Holds drop_while has_key
skip_loop-Holds zero k src [] enough holds = holds
skip_loop-Holds zero k src (e ∷ es) enough holds = absurd (omega arith)
skip_loop-Holds (suc fuel) k src [] enough holds = rw (skip_loop, holds) holds
skip_loop-Holds (suc fuel) k src (e ∷ es) enough holds =
    elim (Bool-cases (bytes_equal (user_key e.key) k)) [
      | inl same ↦
          rw (skip_loop, holds.0, holds.1, same)
            (skip_loop-Holds fuel k (next_source src) es (omega arith) holds.3)
      | inr other ↦ rw (skip_loop, holds.0, holds.1, other) holds
    ]

drop_while-IsSorted :
    (test : BlockEntry → Bool) (es : List BlockEntry)
    → IsSorted entry_key es
    → IsSorted entry_key (drop_while test es)
unfolding drop_while
drop_while-IsSorted test [] s = tt
drop_while-IsSorted test (e ∷ es) s = elim (Bool-cases (test e)) [
  | inl passed ↦ rw (drop_while, passed) (drop_while-IsSorted test es s.1)
  | inr stays ↦ rw (drop_while, stays) s
]

Among-drop_while :
    (test : BlockEntry → Bool) (e : BlockEntry) (es : List BlockEntry)
    → (Among e (drop_while test es) → Among e es)
      × (Among e es → (test e ≡ true) ⊎ Among e (drop_while test es))
unfolding drop_while Among
Among-drop_while test e [] = (λ m. m, λ m. inr m)
Among-drop_while test e (x ∷ es) =
    let rest = Among-drop_while test e es in
    elim (Bool-cases (test x)) [
      | inl passed ↦
          rw (drop_while, passed)
            (
              λ m. inr (rest.0 m),
              λ m. elim m [ inl same ↦ inl (ap test same ∙ passed) | inr later ↦ rest.1 later ],
            )
      | inr stays ↦ rw (drop_while, stays) (λ m. m, λ m. inr m)
    ]

-- What a skip over a user key made of the heap: nothing else is lost.
pub record Skipped (k : Bytes) (rs : List (List BlockEntry)) (h : List MergeItem) : Type 0 where
  pub runs : List (List BlockEntry)
  pub stocks : Stocks h runs
  pub kept : (e : BlockEntry) → IsIn e runs → IsIn e rs
  pub complete : (e : BlockEntry) → IsIn e rs → (has_key k e ≡ true) ⊎ IsIn e runs
  pub fewer : total runs ≤ total rs

-- skipPast on the item that was taken off the heap.
pub skip_past-Skipped :
    (bound : ℕ) (k : Bytes) (x : MergeItem) (h : List MergeItem) (r : List BlockEntry)
    (rs : List (List BlockEntry))
    → Stocks (x ∷ h) (r ∷ rs)
    → total (r ∷ rs) ≤ bound
    → user_key x.key ≡ k
    → (s : Skipped k (r ∷ rs) (skip_past bound k x h)) × (suc (total s.runs) ≤ total (r ∷ rs))
unfolding skip_past Shows IsOrdered IsRun Holds total IsIn Among has_key
skip_past-Skipped bound k x h [] rs stocks enough same = absurd stocks.shows.0
skip_past-Skipped bound k x h (e ∷ es) rs stocks enough same =
    let run = stocks.shows.0 in
    let holds : Holds (next_source x.src) es = run.1.3 in
    let here : has_key k e ≡ true =
      eq→bytes_equal (user_key e.key) k (ap user_key (sym run.0) ∙ same) in
    let m =
      push_valid-Merges x.priority (skip_loop bound k (next_source x.src))
        (drop_while (has_key k) es) h rs
        (skip_loop-Holds bound k (next_source x.src) es (omega arith) holds)
        (drop_while-IsSorted (has_key k) es run.2.1) stocks.shows.1 in
    (
      record {
        runs = m.runs;
        stocks = record {
          shows = m.shows;
          ordered =
              push_valid-IsOrdered x.priority (skip_loop bound k (next_source x.src)) h
                stocks.ordered.1;
        };
        kept = λ d i. elim (m.from d i) [
          | inl a ↦ inl (inr ((Among-drop_while (has_key k) d es).0 a))
          | inr b ↦ inr b
        ];
        complete = λ d i. elim i [
          | inl (inl first) ↦ inl (ap (has_key k) first ∙ here)
          | inl (inr later) ↦ elim ((Among-drop_while (has_key k) d es).1 later) [
            | inl keyed ↦ inl keyed
            | inr left ↦ inr (m.into d (inl left))
          ]
          | inr other ↦ inr (m.into d (inr other))
        ];
        fewer = omega (arith, m.counted, length-drop_while (has_key k) es);
      },
      omega (arith, m.counted, length-drop_while (has_key k) es),
    )

pub All-Among :
    (P : BlockEntry → Type 0) (e : BlockEntry) (es : List BlockEntry) → All P es → Among e es → P e
unfolding Among
All-Among P e [] all m = absurd m
All-Among P e (x ∷ es) all m = elim m [
  | inl same ↦ subst P (sym same) all.0
  | inr later ↦ All-Among P e es all.1 later
]

pub NotBefore-self : (x : Bytes) → NotBefore x x
unfolding NotBefore
NotBefore-self x lt = cc (lt, key_compare_refl (decode_internal_key x))
