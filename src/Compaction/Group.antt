-- ===== src/Compaction/Group.antt =====
-- compaction/is_similar_size.go and group_by_similar_size.go. The size of a table's file is what
-- os.Stat says, or 0 if it fails.
pub mod Partition
use hcdb.Prelude.{
  ℕ, zero, suc, ◌/◌, List, [], ◌∷◌, length, map, ltb, leb, ◌==◌, ◌||◌, if◌then◌else◌, Bool, true,
  false,
}
use hcdb.Config.{default_similar_size_ratio}

unfoldable pub is_similar_size : ℕ → ℕ → Bool
is_similar_size a b =
    if a == 0 || b == 0
    then false
    else (if ltb a b
        then leb (b / a) default_similar_size_ratio
        else leb (a / b) default_similar_size_ratio)

-- tables[i], sizes[i] and used[i].
pub record Slot (T : Type 0) : Type 0 where
  pub table : T
  pub size : ℕ
  pub used : Bool

module _ {T : Type 0} where
  -- The loop over j: what it appends to the group, and the slots with their flags set.
  unfoldable pub collect : ℕ → List (Slot T) → List T × List (Slot T)
  collect size [] = ([], [])
  collect size (slot ∷ slots) =
      let (group, rest) = collect size slots in
      if slot.used
      then (group, slot ∷ rest)
      else (if is_similar_size size slot.size
          then (slot.table ∷ group, record slot { used = true } ∷ rest)
          else (group, slot ∷ rest))

  -- The loop over i. A round takes one slot off, so their number is fuel enough.
  unfoldable pub group_loop : ℕ → List (Slot T) → List (List T)
  unfolding collect
  group_loop zero slots = []
  group_loop (suc fuel) [] = []
  group_loop (suc fuel) (slot ∷ slots) = elim slot.used [
    | true ↦ group_loop fuel slots
    | false ↦
        let (group, rest) = collect slot.size slots in (slot.table ∷ group) ∷ group_loop fuel rest
  ]

  abbrev pub new_slot : (T → ℕ) → T → Slot T
  new_slot file_size table = record { table = table; size = file_size table; used = false }

  unfoldable pub group_by_similar_size : (T → ℕ) → List T → List (List T)
  unfolding group_loop
  group_by_similar_size file_size tables =
      group_loop (length tables) (map (new_slot file_size) tables)
