-- ===== src/Versions.antt =====
-- The specification of a read: of the entries that a level holds, the first one in their order that
-- is a version of the user key and visible at the snapshot.
pub mod Newest
use hcdb.Prelude.{
  ℕ, ◌≡◌, ◌≢◌, refl, arith, List, [], ◌∷◌, ◌++◌, ◌&&◌, Bool, true, false, if◌then◌else◌, Option,
  none, some, ◌⊎◌, inl, inr, Bool-cases,
}
use hcdb.Binary.{Bytes, bytes_equal}
use hcdb.Base.Key.{SeqNum, decode_internal_key, visible}

-- The encoded internal key is a version of the user key that the snapshot sees.
unfoldable pub is_version : Bytes → SeqNum → Bytes → Bool
is_version user_key snapshot key =
    bytes_equal (decode_internal_key key).user_key user_key
    && visible (decode_internal_key key) snapshot

unfoldable pub or_else : {A : Type 0} → Option A → Option A → Option A
or_else none second = second
or_else (some a) second = some a

pub or_else_found : {A : Type 0} (o p : Option A) → o ≢ none → or_else o p ≡ o
unfolding or_else
or_else_found none p h = absurd (h refl)
or_else_found (some a) p h = refl

pub or_else-none : {A : Type 0} (o : Option A) → or_else o none ≡ o
unfolding or_else
or_else-none none = refl
or_else-none (some a) = refl

pub or_else-some : {A : Type 0} (o : Option A) (a : A) → or_else o (some a) ≢ none
unfolding or_else
or_else-some none a e = cc
or_else-some (some b) a e = cc

pub or_else_fails : {A : Type 0} (o p : Option A) → or_else o p ≡ none → o ≡ none
unfolding or_else
or_else_fails none p e = refl
or_else_fails (some a) p e = cc

module _ {A : Type 0} (key_of : A → Bytes) where
  unfoldable pub newest_version : Bytes → SeqNum → List A → Option A
  newest_version user_key snapshot [] = none
  newest_version user_key snapshot (e ∷ es) =
      let rest = newest_version user_key snapshot es in
      if is_version user_key snapshot (key_of e) then some e else rest

  pub newest_version-append :
      (k : Bytes) (s : SeqNum) (xs ys : List A)
      → newest_version k s (xs ++ ys) ≡ or_else (newest_version k s xs) (newest_version k s ys)
  unfolding newest_version or_else
  newest_version-append k s [] ys = refl
  newest_version-append k s (x ∷ xs) ys = elim (Bool-cases (is_version k s (key_of x))) [
    | inl here ↦ rw (newest_version, here) refl
    | inr not_here ↦ rw (newest_version, not_here) (newest_version-append k s xs ys)
  ]
