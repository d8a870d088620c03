-- ===== src/Versions/Newest.antt =====
-- Reads of entries in order: the specification in Versions on ordered lists.
use hcdb.Prelude.{
  ◌≤◌, ◌≡◌, ◌≢◌, refl, sym, subst, ◌∙◌, arith, List, [], ◌∷◌, true, false, none, some, inl, inr,
  Bool-cases, All, Ordering,
}
use hcdb.Binary.{Bytes, bytes_equal→eq}
use hcdb.Binary.Compare.{bytes_compare, bytes_compare_refl}
use hcdb.Base.Key.{SeqNum, InternalKey, decode_internal_key, internal_compare}
use hcdb.Versions.{is_version, newest_version}

pub is_version_user_key :
    (k : Bytes) (s : SeqNum) (key : Bytes)
    → is_version k s key ≡ true
    → (decode_internal_key key).user_key ≡ k
unfolding is_version
is_version_user_key k s key h = bytes_equal→eq (decode_internal_key key).user_key k (ground arith)

pub same_internal_key :
    (a b : InternalKey) → a.user_key ≡ b.user_key → a.trailer ≡ b.trailer → a ≡ b
same_internal_key a b p q = cc

module _ {A : Type 0} (key_of : A → Bytes) where
  abbrev pub decoded : A → InternalKey
  decoded a = decode_internal_key (key_of a)

  -- Of two entries of one user key, the earlier one has a trailer that is not smaller.
  abbrev pub IsNewestFirst : List A → Type 0
  IsNewestFirst [] = Unit {0}
  IsNewestFirst (x ∷ xs) =
      All
        (λ y.
          (decoded y).user_key ≡ (decoded x).user_key → (decoded y).trailer ≤ (decoded x).trailer)
        xs
      × IsNewestFirst xs

  -- No entry sorts before an earlier one: what sort.Slice leaves.
  abbrev pub IsSorted : List A → Type 0
  IsSorted [] = Unit {0}
  IsSorted (x ∷ xs) =
      All (λ y. internal_compare bytes_compare (decoded y) (decoded x) ≢ Ordering.lt) xs
      × IsSorted xs

  pub All-map {κ μ} :
      {P : A → Type κ} {Q : A → Type μ} (f : (a : A) → P a → Q a) (xs : List A)
      → All P xs
      → All Q xs
  All-map f [] h = tt
  All-map f (x ∷ xs) h = (f x h.0, All-map f xs h.1)

  not_before :
      (x y : A)
      → internal_compare bytes_compare (decoded y) (decoded x) ≢ Ordering.lt
      → (decoded y).user_key ≡ (decoded x).user_key
      → (decoded y).trailer ≤ (decoded x).trailer
  unfolding internal_compare
  not_before x y h same =
      let users : bytes_compare (decoded y).user_key (decoded x).user_key ≡ Ordering.eq =
        subst (λ (u : Bytes). bytes_compare (decoded y).user_key u ≡ Ordering.eq) same
          (bytes_compare_refl (decoded y).user_key) in
      ground (arith, users, h)

  pub IsSorted-IsNewestFirst : (xs : List A) → IsSorted xs → IsNewestFirst xs
  IsSorted-IsNewestFirst [] h = tt
  IsSorted-IsNewestFirst (x ∷ xs) h = (All-map (not_before x) xs h.0, IsSorted-IsNewestFirst xs h.1)

  module _ (k : Bytes) (s : SeqNum) where
    abbrev pub Sees : A → Type 0
    Sees a = is_version k s (key_of a) ≡ true

    pub All-read {κ} :
        (P : A → Type κ) (xs : List A) (e : A)
        → All P xs
        → newest_version key_of k s xs ≡ some e
        → P e × Sees e
    unfolding newest_version
    All-read P [] e h r = absurd (cc)
    All-read P (x ∷ xs) e h r = elim (Bool-cases (is_version k s (key_of x))) [
      | inl sees ↦
          (let same : x ≡ e = cc (rw (newest_version, sees) at r) in
            (subst P same h.0, subst Sees same sees))
      | inr hidden ↦ All-read P xs e h.1 (rw (newest_version, hidden) at r)
    ]

    pub read_none :
        (xs : List A)
        → newest_version key_of k s xs ≡ none
        → All (λ y. is_version k s (key_of y) ≡ false) xs
    unfolding newest_version
    read_none [] r = tt
    read_none (x ∷ xs) r = elim (Bool-cases (is_version k s (key_of x))) [
      | inl sees ↦ absurd (cc (rw (newest_version, sees) at r))
      | inr hidden ↦ (hidden, read_none xs (rw (newest_version, hidden) at r))
    ]

    pub none_read :
        (xs : List A)
        → All (λ y. is_version k s (key_of y) ≡ false) xs
        → newest_version key_of k s xs ≡ none
    unfolding newest_version
    none_read [] h = refl
    none_read (x ∷ xs) h = rw (newest_version, h.0) (none_read xs h.1)

    pub read_newest :
        (xs : List A) (e : A)
        → IsNewestFirst xs
        → newest_version key_of k s xs ≡ some e
        → All (λ y. Sees y → (decoded y).trailer ≤ (decoded e).trailer) xs
    unfolding newest_version
    read_newest [] e h r = tt
    read_newest (x ∷ xs) e h r = elim (Bool-cases (is_version k s (key_of x))) [
      | inl sees ↦
          let same : x ≡ e = cc (rw (newest_version, sees) at r) in
          let user_key_of : (y : A) → Sees y → (decoded y).user_key ≡ k =
            λ y. is_version_user_key k s (key_of y) in
          subst (λ a. All (λ y. Sees y → (decoded y).trailer ≤ (decoded a).trailer) (x ∷ xs)) same
            (
              λ v. omega arith,
              All-map (λ y f v. f (user_key_of y v ∙ sym (user_key_of x sees))) xs h.0,
            )
      | inr hidden ↦ (λ v. absurd (cc), read_newest xs e h.1 (rw (newest_version, hidden) at r))
    ]
