-- ===== src/Db/Scan/Listing.antt =====
-- A scan that is walked to its end (db/iterator.go, doScan of server/dispatch.go).
use hcdb.Prelude.{
  ℕ, zero, suc, ◌≤◌, ◌≡◌, ◌⊎◌, inl, inr, refl, sym, subst, ap, ◌∙◌, arith, List, [], ◌∷◌, ◌==◌,
  Bool, false, Ordering, Ordering-cases, All, Option,
}
use hcdb.Binary.{Bytes}
use hcdb.Binary.Compare.{bytes_compare, flip, bytes_compare-eq, bytes_compare-flip}
use hcdb.Base.Key.{InternalKey, decode_internal_key, internal_compare, kind, kind_delete}
use hcdb.Base.Key.Order.{key_compare-eq, key_compare-flip}
use hcdb.Memtable.{is_past}
use hcdb.Sstable.Block.{BlockEntry}
use hcdb.Db.Scan.{MergeIterator, next, collect}
use hcdb.Db.Scan.Heap.{NotBefore, IsIn, total, Stocks}
use hcdb.Db.Scan.Skips.{user_of}
use hcdb.Db.Scan.Answers.{IsNewest, IsDeleted, StandsAt, Answers, stands, ended}
use hcdb.Db.Scan.Next.{next-Answers}

-- The entry is the newest version of its user key, is no tombstone, and is not past the bound.
pub record IsLive (upper : Option Bytes) (rs : List (List BlockEntry)) (e : BlockEntry)
    : Type 0 where
  pub is_in : IsIn e rs
  pub newest : IsNewest rs e
  pub is_live : (kind (decode_internal_key e.key) == kind_delete) ≡ false
  pub within : is_past upper (user_of e) ≡ false

abbrev pub Pair : Type 0
Pair = Bytes × Bytes

-- The pair is the user key and the value of a live entry.
abbrev pub IsListed : Option Bytes → List (List BlockEntry) → Pair → Type 0
IsListed upper rs p = (e : BlockEntry) × IsLive upper rs e × (p ≡ (user_of e, e.value))

-- The key is above.
abbrev pub IsAbove : Bytes → Pair → Type 0
IsAbove k p = bytes_compare k p.0 ≡ Ordering.lt

unfoldable pub IsAscending : List Pair → Type 0
IsAscending [] = Unit
IsAscending (p ∷ ps) = All (IsAbove p.0) ps × IsAscending ps

unfoldable pub HasKey : Bytes → List Pair → Type 0
HasKey k [] = ⊥
HasKey k (p ∷ ps) = (p.0 ≡ k) ⊎ HasKey k ps

-- The pairs are those of the live entries, each user key once, in ascending order.
pub record Lists (upper : Option Bytes) (rs : List (List BlockEntry)) (ps : List Pair)
    : Type 0 where
  pub ascending : IsAscending ps
  pub sound : All (IsListed upper rs) ps
  pub complete : (e : BlockEntry) → IsLive upper rs e → HasKey (user_of e) ps

-- Two keys of which neither sorts before the other are the same.
same_place :
    (x y : Bytes) → NotBefore x y → NotBefore y x → decode_internal_key x ≡ decode_internal_key y
unfolding NotBefore
same_place x y xy yx =
    let a = decode_internal_key x in
    let b = decode_internal_key y in
    elim (Ordering-cases (internal_compare bytes_compare a b)) [
      | inl lt ↦ absurd (xy lt)
      | inr (inl eq) ↦ key_compare-eq a b eq
      | inr (inr gt) ↦ absurd (yx (key_compare-flip a b ∙ ap flip gt))
    ]

-- A key whose newest version is a tombstone has no live entry.
IsLive-not_deleted :
    (upper : Option Bytes) (rs : List (List BlockEntry)) (e : BlockEntry)
    → IsLive upper rs e
    → IsDeleted rs (user_of e)
    → ⊥
IsLive-not_deleted upper rs e l d =
    let t = d.tombstone in
    let same =
      same_place e.key t.key (d.newest e l.is_in (sym d.of_key)) (l.newest t d.is_in d.of_key) in
    cc (l.is_live, d.deletes, ap (λ (k : InternalKey). kind k == kind_delete) same)

module _ (upper : Option Bytes) (rs : List (List BlockEntry)) (e : BlockEntry) (m : MergeIterator)
    (s : StandsAt upper rs e m) where
  -- What is live among the entries that are left is live among all.
  IsLive-above : (d : BlockEntry) → IsLive upper s.left d → IsLive upper rs d
  IsLive-above d l = record {
    is_in = s.kept d l.is_in;
    newest = λ c i same.
        l.newest c
          (s.complete c i (
            subst (λ (u : Bytes). bytes_compare (user_of e) u ≡ Ordering.lt) (sym same)
              (s.above d l.is_in)))
          same;
    is_live = l.is_live;
    within = l.within;
  }

  IsLive-left :
      (d : BlockEntry)
      → IsLive upper rs d
      → bytes_compare (user_of e) (user_of d) ≡ Ordering.lt
      → IsLive upper s.left d
  IsLive-left d l lt = record {
    is_in = s.complete d l.is_in lt;
    newest = λ c i same. l.newest c (s.kept c i) same;
    is_live = l.is_live;
    within = l.within;
  }

  IsListed-IsAbove :
      (ps : List Pair)
      → All (IsListed upper s.left) ps
      → All (IsListed upper rs) ps × All (IsAbove m.key) ps
  IsListed-IsAbove [] all = (tt, tt)
  IsListed-IsAbove (p ∷ ps) all =
      let (d, l, is) = all.0 in
      let rest = IsListed-IsAbove ps all.1 in
      (
        ((d, IsLive-above d l, is), rest.0),
        (
          subst (λ (q : Pair). bytes_compare m.key q.0 ≡ Ordering.lt) (sym is)
              (subst (λ (u : Bytes). bytes_compare u (user_of d) ≡ Ordering.lt) (sym s.key)
                (s.above d l.is_in)),
          rest.1,
        ),
      )

  stands-Lists : (ps : List Pair) → Lists upper s.left ps → Lists upper rs ((m.key, m.val) ∷ ps)
  unfolding IsAscending HasKey
  stands-Lists ps l =
      let above = IsListed-IsAbove ps l.sound in
      record {
        ascending = (above.1, l.ascending);
        sound = (
          (
            e,
            record { is_in = s.is_in; newest = s.newest; is_live = s.is_live; within = s.within },
            cc (s.key, s.val),
          ),
          above.0,
        );
        complete = λ d live. elim (Ordering-cases (bytes_compare (user_of e) (user_of d))) [
          | inl lt ↦ inr (l.complete d (IsLive-left d live lt))
          | inr (inl eq) ↦ inl (s.key ∙ bytes_compare-eq (user_of e) (user_of d) eq)
          | inr (inr gt) ↦ absurd (
              IsLive-not_deleted upper rs d live
                (s.passed d live.is_in (bytes_compare-flip (user_of e) (user_of d) ∙ ap flip gt)))
        ];
      }

module _ (bound : ℕ) where
  collect_step :
      (fuel : ℕ) (m : MergeIterator) (upper : Option Bytes) (rs : List (List BlockEntry))
      (a : Bool × MergeIterator)
      → next bound m ≡ a
      → Answers upper rs a
      → ((e : BlockEntry)
          → (s : StandsAt upper rs e a.1) → Lists upper s.left (collect bound fuel a.1))
      → Lists upper rs (collect bound (suc fuel) m)
  unfolding collect IsAscending
  collect_step fuel m upper rs _ is (stands m' e s) later =
      rw (collect, is) (stands-Lists upper rs e m' s (collect bound fuel m') (later e s))
  collect_step fuel m upper rs _ is (ended m' invalid rest) later =
      rw (collect, is)
        (record {
          ascending = tt;
          sound = tt;
          complete = λ e l. absurd (IsLive-not_deleted upper rs e l (rest e l.is_in l.within));
        })

  -- The sources of a MergeIterator have these entries left, each in order, and the fuel is at least their number. Walking it to its end lists exactly the user keys within the upper bound that have an entry and whose newest version is no tombstone, each once, in strictly ascending order, with the value of a newest version.
  pub collect-Lists :
      (fuel : ℕ) (m : MergeIterator) (rs : List (List BlockEntry))
      → Stocks m.heap rs
      → total rs ≤ bound
      → suc (total rs) ≤ fuel
      → Lists m.upper_bound rs (collect bound fuel m)
  collect-Lists zero m rs stocks few enough = absurd (omega arith)
  collect-Lists (suc fuel) m rs stocks few enough =
      collect_step fuel m m.upper_bound rs (next bound m) refl (next-Answers bound m rs stocks few)
        (λ e s.
          subst (λ u. Lists u s.left (collect bound fuel (next bound m).1)) s.bound
            (collect-Lists fuel (next bound m).1 s.left s.stocks (omega (arith, s.fewer))
              (omega (arith, s.fewer))))
