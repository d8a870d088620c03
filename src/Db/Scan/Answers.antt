-- ===== src/Db/Scan/Answers.antt =====
-- What Next answers, and how the answer over what is left carries to all (db/iterator.go).
use hcdb.Prelude.{
  suc, ◌≤◌, ◌≡◌, ◌⊎◌, inl, inr, sym, subst, ◌∙◌, arith, List, ◌==◌, Bool, true, false, Ordering,
  Option,
}
use hcdb.Binary.{Bytes, bytes_equal→eq}
use hcdb.Binary.Compare.{bytes_compare, bytes_compare-lt_trans}
use hcdb.Base.Key.{decode_internal_key, kind, kind_delete}
use hcdb.Memtable.{is_past}
use hcdb.Sstable.Block.{BlockEntry}
use hcdb.Db.Scan.{MergeItem, MergeIterator}
use hcdb.Db.Scan.Heap.{NotBefore, IsIn, total, Stocks}
use hcdb.Db.Scan.Skips.{user_of, has_key}
use hcdb.Db.Scan.Cleared.{not_below_itself, Cleared}

-- No version of its user key sorts before the entry.
abbrev pub IsNewest : List (List BlockEntry) → BlockEntry → Type 0
IsNewest rs e = (d : BlockEntry) → IsIn d rs → user_of d ≡ user_of e → NotBefore d.key e.key

-- The newest version of the user key is a tombstone.
pub record IsDeleted (rs : List (List BlockEntry)) (k : Bytes) : Type 0 where
  pub tombstone : BlockEntry
  pub is_in : IsIn tombstone rs
  pub of_key : user_of tombstone ≡ k
  pub deletes : (kind (decode_internal_key tombstone.key) == kind_delete) ≡ true
  pub newest : IsNewest rs tombstone

-- Next stands at the entry: the newest version of its user key, which is no tombstone and not past
-- the upper bound. Every smaller user key is deleted, and exactly the greater ones are left.
pub record StandsAt (upper : Option Bytes) (rs : List (List BlockEntry)) (e : BlockEntry)
    (m : MergeIterator) : Type 0 where
  pub is_in : IsIn e rs
  pub newest : IsNewest rs e
  pub is_live : (kind (decode_internal_key e.key) == kind_delete) ≡ false
  pub within : is_past upper (user_of e) ≡ false
  pub valid : m.valid ≡ true
  pub key : m.key ≡ user_of e
  pub val : m.val ≡ e.value
  pub bound : m.upper_bound ≡ upper
  pub left : List (List BlockEntry)
  pub stocks : Stocks m.heap left
  pub fewer : suc (total left) ≤ total rs
  pub kept : (d : BlockEntry) → IsIn d left → IsIn d rs
  pub above : (d : BlockEntry) → IsIn d left → bytes_compare (user_of e) (user_of d) ≡ Ordering.lt
  pub complete :
      (d : BlockEntry)
      → IsIn d rs
      → bytes_compare (user_of e) (user_of d) ≡ Ordering.lt
      → IsIn d left
  pub passed :
      (d : BlockEntry)
      → IsIn d rs
      → bytes_compare (user_of d) (user_of e) ≡ Ordering.lt
      → IsDeleted rs (user_of d)

pub data Answers (upper : Option Bytes) (rs : List (List BlockEntry))
    : Bool × MergeIterator → Type 0 where
  stands : (m : MergeIterator) (e : BlockEntry) → StandsAt upper rs e m → Answers upper rs (true, m)
  ended :
      (m : MergeIterator)
      → m.valid ≡ false
      → ((d : BlockEntry)
          → IsIn d rs
          → is_past upper (user_of d) ≡ false
          → IsDeleted rs (user_of d))
      → Answers upper rs (false, m)

-- From what is left above a deleted key to all the entries.
module _ (k : Bytes) (rs : List (List BlockEntry)) (h : List MergeItem) (c : Cleared k rs h)
    (gone : IsDeleted rs k) where
  of_cleared : (d : BlockEntry) → IsIn d rs → (user_of d ≡ k) ⊎ IsIn d c.skipped.runs
  unfolding has_key
  of_cleared d i = elim (c.skipped.complete d i) [
    | inl keyed ↦ inl (bytes_equal→eq (user_of d) k keyed)
    | inr there ↦ inr there
  ]

  IsNewest-above :
      (e : BlockEntry) → IsIn e c.skipped.runs → IsNewest c.skipped.runs e → IsNewest rs e
  IsNewest-above e there newest d i same = elim (of_cleared d i) [
    | inl keyed ↦ absurd (not_below_itself k (user_of e) (sym same ∙ keyed) (c.above e there))
    | inr above ↦ newest d above same
  ]

  IsDeleted-above : (u : Bytes) → IsDeleted c.skipped.runs u → IsDeleted rs u
  IsDeleted-above u d = record {
    tombstone = d.tombstone;
    is_in = c.skipped.kept d.tombstone d.is_in;
    of_key = d.of_key;
    deletes = d.deletes;
    newest = IsNewest-above d.tombstone d.is_in d.newest;
  }

  IsDeleted-here : (u : Bytes) → u ≡ k → IsDeleted rs u
  IsDeleted-here u same = subst (IsDeleted rs) (sym same) gone

  StandsAt-above :
      (upper : Option Bytes) (e : BlockEntry) (m : MergeIterator)
      → StandsAt upper c.skipped.runs e m
      → StandsAt upper rs e m
  StandsAt-above upper e m s = record {
    is_in = c.skipped.kept e s.is_in;
    newest = IsNewest-above e s.is_in s.newest;
    is_live = s.is_live;
    within = s.within;
    valid = s.valid;
    key = s.key;
    val = s.val;
    bound = s.bound;
    left = s.left;
    stocks = s.stocks;
    fewer = omega (arith, s.fewer, c.skipped.fewer);
    kept = λ d i. c.skipped.kept d (s.kept d i);
    above = s.above;
    complete = λ d i lt. elim (of_cleared d i) [
      | inl keyed ↦ absurd (
          not_below_itself k (user_of d) keyed
            (bytes_compare-lt_trans k (user_of e) (user_of d) (c.above e s.is_in) lt))
      | inr there ↦ s.complete d there lt
    ];
    passed = λ d i lt. elim (of_cleared d i) [
      | inl keyed ↦ IsDeleted-here (user_of d) keyed
      | inr there ↦ IsDeleted-above (user_of d) (s.passed d there lt)
    ];
  }

  pub Answers-above :
      (upper : Option Bytes) (a : Bool × MergeIterator)
      → Answers upper c.skipped.runs a
      → Answers upper rs a
  Answers-above upper (true, _) (stands m e s) = stands m e (StandsAt-above upper e m s)
  Answers-above upper (false, _) (ended m invalid rest) = ended m invalid (λ d i within.
      elim (of_cleared d i) [
        | inl keyed ↦ IsDeleted-here (user_of d) keyed
        | inr there ↦ IsDeleted-above (user_of d) (rest d there within)
      ])
