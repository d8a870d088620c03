-- ===== src/Server/Deletes.antt =====
-- DEL (server/dispatch.go).
use hcdb.Prelude.{
  ℕ, suc, ◌+◌, ◌≡◌, List, [], ◌∷◌, ◌++◌, none, some, Error, Bool, false, ◌||◌, if◌then◌else◌, ◌⊎◌,
}
use hcdb.Binary.{Bytes, bytes_equal}
use hcdb.Resp.{Value, integer}
use hcdb.Resp.Decimal.{pos}
use hcdb.Server.{Database, failure, is_some}

unfoldable pub is_in : Bytes → List Bytes → Bool
is_in key [] = false
is_in key (k ∷ keys) = bytes_equal k key || is_in key keys

-- What a client may expect of a database that is good for some more deletes: a Delete hides its key
-- and no other, and one that fails hides at most that.
pub record IsMap (db : Database) (IsGoodFor : ℕ → db.State → Type 0) : Type 0 where
  pub get_deleted :
      (n : ℕ) (k j : Bytes) (d : db.State)
      → IsGoodFor (suc n) d
      → (db.delete k d).0 ≡ none
      → db.get j (db.delete k d).1 ≡ (if bytes_equal k j then none else db.get j d)
  pub good_after :
      (n : ℕ) (k : Bytes) (d : db.State)
      → IsGoodFor (suc n) d
      → (db.delete k d).0 ≡ none
      → IsGoodFor n (db.delete k d).1
  pub get_failed :
      (n : ℕ) (k : Bytes) (d : db.State) (e : Error)
      → IsGoodFor (suc n) d
      → (db.delete k d).0 ≡ some e
      → ((j : Bytes) → db.get j (db.delete k d).1 ≡ db.get j d)
        ⊎ ((j : Bytes)
            → db.get j (db.delete k d).1 ≡ (if bytes_equal k j then none else db.get j d))

module _ (db : Database) where
  -- How many different keys of the list have a value, without those that were seen.
  unfoldable pub present : List Bytes → List Bytes → db.State → ℕ
  present seen [] d = 0
  present seen (key ∷ keys) d =
      let rest = present (key ∷ seen) keys d in
      if is_in key seen then rest else (if is_some db (db.get key d) then suc rest else rest)

  -- The state hides exactly the keys of the two lists.
  abbrev pub Hides : List Bytes → List Bytes → db.State → db.State → Type 0
  Hides keys seen d after =
      (j : Bytes) → db.get j after ≡ (if is_in j keys || is_in j seen then none else db.get j d)

  -- The reply and the state of a DEL of these keys, when others were deleted before: all of them are
  -- deleted, and those that had a value counted; or some first ones are, and the next one failed,
  -- which may have hidden its key or not.
  pub data Deleted (seen : List Bytes) (removed : ℕ) (keys : List Bytes) (d : db.State)
      : Value × db.State → Type 0 where
    all_deleted :
        (after : db.State)
        → Hides keys seen d after
        → Deleted seen removed keys d (integer (pos (removed + present seen keys d)), after)
    failed :
        (e : Error) (front : List Bytes) (key : Bytes) (back : List Bytes) (after : db.State)
        → keys ≡ front ++ (key ∷ back)
        → (Hides front seen d after ⊎ Hides (front ++ (key ∷ [])) seen d after)
        → Deleted seen removed keys d (failure db e, after)

  -- The count after one more key.
  counted : ℕ → List Bytes → Bytes → db.State → ℕ
  counted removed seen key d =
      if is_in key seen
      then removed
      else (if is_some db (db.get key d) then removed + 1 else removed)
