-- ===== src/Compaction/Group/Partition.antt =====
-- The groups as a whole (compaction/group_by_similar_size.go).
use hcdb.Prelude.{
  ℕ, zero, suc, ◌≤◌, ◌≡◌, refl, subst, arith, List, [], ◌∷◌, ◌++◌, length, map, true, if◌then◌else◌,
  inl, inr, Bool-cases, All,
}
use mathlib.Core.List.{Perm, Permᴰ}
use mathlib.Core.List.Permᴰ
use hcdb.Compaction.Group.{
  is_similar_size, Slot, collect, group_loop, new_slot, group_by_similar_size,
}

module _ {T : Type 0} where
  abbrev pub members : List (List T) → List T
  members [] = []
  members (g ∷ groups) = g ++ members groups

  -- The tables that no group has taken yet.
  free : List (Slot T) → List T
  free [] = []
  free (slot ∷ slots) = if slot.used then free slots else slot.table ∷ free slots

  collect-length : (size : ℕ) (slots : List (Slot T)) → length (collect size slots).1 ≡ length slots
  unfolding collect
  collect-length size [] = refl
  collect-length size (slot ∷ slots) = ground (arith, collect-length size slots)

  collect-free :
      (size : ℕ) (slots : List (Slot T))
      → Permᴰ ((collect size slots).0 ++ free (collect size slots).1) (free slots)
  unfolding collect free
  collect-free size [] = Permᴰ.nil
  collect-free size (slot ∷ slots) =
      let (group, rest) = collect size slots in
      let ih = collect-free size slots in
      elim (Bool-cases slot.used) [
        | inl used ↦ rw (collect, free, used) ih
        | inr unused ↦ elim (Bool-cases (is_similar_size size slot.size)) [
          | inl similar ↦ rw (collect, free, unused, similar) (Permᴰ.cons refl ih)
          | inr other ↦
              rw (collect, free, unused, other)
                (Permᴰ.trans (Permᴰ.middle slot.table group (free rest)) (Permᴰ.cons refl ih))
        ]
      ]

  group_loop-free :
      (fuel : ℕ) (slots : List (Slot T))
      → length slots ≤ fuel
      → Permᴰ (members (group_loop fuel slots)) (free slots)
  unfolding group_loop free
  group_loop-free zero [] le = Permᴰ.nil
  group_loop-free zero (slot ∷ slots) le = absurd (omega arith)
  group_loop-free (suc fuel) [] le = Permᴰ.nil
  group_loop-free (suc fuel) (slot ∷ slots) le = elim (Bool-cases slot.used) [
    | inl used ↦ rw (group_loop, free, used) (group_loop-free fuel slots (omega arith))
    | inr unused ↦
        rw (group_loop, free, unused)
          (Permᴰ.cons refl (
            Permᴰ.trans
              (Permᴰ.append_left (collect slot.size slots).0 (
                group_loop-free fuel (collect slot.size slots).1
                  (omega (arith, collect-length slot.size slots))))
              (collect-free slot.size slots)))
  ]

  free-new_slot :
      (file_size : T → ℕ) (tables : List T) → free (map (new_slot file_size) tables) ≡ tables
  unfolding free
  free-new_slot file_size [] = refl
  free-new_slot file_size (t ∷ tables) = cc (free-new_slot file_size tables)

  length-new_slot :
      (file_size : T → ℕ) (tables : List T)
      → length (map (new_slot file_size) tables) ≡ length tables
  length-new_slot file_size [] = refl
  length-new_slot file_size (t ∷ tables) = omega (arith, length-new_slot file_size tables)

  -- A group is its first table and tables of a size similar to that one's.
  abbrev pub IsGroup : (T → ℕ) → List T → Type 0
  IsGroup file_size [] = ⊥
  IsGroup file_size (first ∷ others) =
      All (λ t. is_similar_size (file_size first) (file_size t) ≡ true) others

  module _ (file_size : T → ℕ) where
    abbrev IsMeasured : Slot T → Type 0
    IsMeasured slot = slot.size ≡ file_size slot.table

    collect-IsMeasured :
        (size : ℕ) (slots : List (Slot T))
        → All IsMeasured slots
        → All IsMeasured (collect size slots).1
    unfolding collect
    collect-IsMeasured size [] h = tt
    collect-IsMeasured size (slot ∷ slots) h = elim (Bool-cases slot.used) [
      | inl used ↦ rw (collect, used) (h.0, collect-IsMeasured size slots h.1)
      | inr unused ↦ elim (Bool-cases (is_similar_size size slot.size)) [
        | inl similar ↦ rw (collect, unused, similar) (h.0, collect-IsMeasured size slots h.1)
        | inr other ↦ rw (collect, unused, other) (h.0, collect-IsMeasured size slots h.1)
      ]
    ]

    collect_similar :
        (size : ℕ) (slots : List (Slot T))
        → All IsMeasured slots
        → All (λ t. is_similar_size size (file_size t) ≡ true) (collect size slots).0
    unfolding collect
    collect_similar size [] h = tt
    collect_similar size (slot ∷ slots) h = elim (Bool-cases slot.used) [
      | inl used ↦ rw (collect, used) (collect_similar size slots h.1)
      | inr unused ↦ elim (Bool-cases (is_similar_size size slot.size)) [
        | inl similar ↦
            rw (collect, unused, similar) (cc (similar, h.0), collect_similar size slots h.1)
        | inr other ↦ rw (collect, unused, other) (collect_similar size slots h.1)
      ]
    ]

    group_loop-IsGroup :
        (fuel : ℕ) (slots : List (Slot T))
        → All IsMeasured slots
        → All (IsGroup file_size) (group_loop fuel slots)
    unfolding group_loop
    group_loop-IsGroup zero slots h = tt
    group_loop-IsGroup (suc fuel) [] h = tt
    group_loop-IsGroup (suc fuel) (slot ∷ slots) h = elim (Bool-cases slot.used) [
      | inl used ↦ rw (group_loop, used) (group_loop-IsGroup fuel slots h.1)
      | inr unused ↦
          rw (group_loop, unused)
            (
              subst
                  (λ n.
                    All (λ t. is_similar_size n (file_size t) ≡ true) (collect slot.size slots).0)
                  h.0 (collect_similar slot.size slots h.1),
              group_loop-IsGroup fuel (collect slot.size slots).1
                  (collect-IsMeasured slot.size slots h.1),
            )
    ]

    new_slot-IsMeasured : (tables : List T) → All IsMeasured (map (new_slot file_size) tables)
    new_slot-IsMeasured [] = tt
    new_slot-IsMeasured (t ∷ tables) = (refl, new_slot-IsMeasured tables)

-- The groups hold every table exactly once, no group is empty, and every table of a group is similar in size to the group's first.
pub group_by_similar_size_partition :
    {T : Type 0} (file_size : T → ℕ) (tables : List T)
    → Perm (members (group_by_similar_size file_size tables)) tables
      × All (IsGroup file_size) (group_by_similar_size file_size tables)
unfolding group_by_similar_size
group_by_similar_size_partition file_size tables =
    let slots = map (new_slot file_size) tables in
    (
      ∣ subst (λ (l : List _). Permᴰ (members (group_loop (length tables) slots)) l)
          (free-new_slot file_size tables)
          (group_loop-free (length tables) slots
            (omega (arith, length-new_slot file_size tables))) ∣₁,
      group_loop-IsGroup file_size (length tables) slots (new_slot-IsMeasured file_size tables),
    )
