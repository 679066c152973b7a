-- ===== src/Marshal/Table/FreeSlot.antt =====
-- The search for a free slot in a new table of byterun/extern.c.
use mathlib.Core.Path.{subst}
use ocamil.Prelude.{
  ℕ, zero, suc, ◌≤◌, ◌<◌, ◌≡◌, refl, inl, inr, some, List, ltb, leb, length, get_elem?, arith,
  Bool-cases,
}
use ocamil.Machine.Value.{Value}
use ocamil.Marshal.Table.{ExternObj, free_slot, next_slot}
use ocamil.Marshal.Table.Walk.{walk, next_slot-lt}
use ocamil.Marshal.Table.Insert.{DeadAt, Busy, get_elem?-some}

-- In a new table every slot that is not live is 0.
abbrev pub Clean : (initial_ofs : ℕ) → List ExternObj → Type 0
Clean initial_ofs slots =
    (i ofs : ℕ) (obj : Value) → get_elem? slots i ≡ some (ofs, obj) → ofs < initial_ofs → ofs ≡ 0

module _ (initial_ofs : ℕ) (positive : 0 < initial_ofs) where
  pub free_slot_lem :
      (f k : ℕ) (slots : List ExternObj) (h : ℕ)
      → h < length slots
      → Clean initial_ofs slots
      → DeadAt initial_ofs slots (walk (length slots) k h)
      → k < f
      → (j : ℕ) × (j ≤ k)
        × Busy initial_ofs slots h j
        × DeadAt initial_ofs slots (walk (length slots) j h)
        × ((address : Value → ℕ)
            → free_slot address initial_ofs f slots h ≡ some (walk (length slots) j h))
  unfolding free_slot walk
  free_slot_lem zero k slots h b clean dead l = absurd (omega arith)
  free_slot_lem (suc f) k slots h b clean dead l =
      let ((ofs, obj), e) = get_elem?-some slots h b in
      elim (Bool-cases (ltb 0 ofs)) [
        | inr t ↦ (
          0,
          omega arith,
          λ j none_before. absurd (omega arith),
          (ofs, obj, e, ground arith),
          λ address. rw (e, t) refl,
        )
        | inl t ↦
            let live : initial_ofs ≤ ofs = busy_live ofs obj e (ground arith) in
            let (k', is) = later k dead ofs obj e live in
            let (j, le, busy, dead', run) =
              free_slot_lem f k' slots (next_slot (length slots) h)
                (next_slot-lt (length slots) h b) clean
                (subst (λ x. DeadAt initial_ofs slots (walk (length slots) x h)) is dead)
                (omega (arith, is)) in
            (
              suc j,
              omega (arith, is),
              one_more j ofs obj e live busy,
              dead',
              λ address. rw (e, t) (run address),
            )
      ]
    where
      busy_live :
          (ofs : ℕ) (obj : Value)
          → get_elem? slots h ≡ some (ofs, obj)
          → 0 < ofs
          → initial_ofs ≤ ofs
      busy_live ofs obj e l = elim (Bool-cases (leb initial_ofs ofs)) [
        | inl t ↦ ground arith
        | inr t ↦ let z = clean h ofs obj e (ground arith) in absurd (omega (arith, z))
      ]

      later :
          (k : ℕ)
          → DeadAt initial_ofs slots (walk (length slots) k h)
          → (ofs : ℕ) (obj : Value) → get_elem? slots h ≡ some (ofs, obj)
          → initial_ofs ≤ ofs
          → (k' : ℕ) × (k ≡ suc k')
      later zero (o, x, e, d) ofs obj e' l = absurd (ground arith)
      later (suc k) d ofs obj e l = (k, refl)

      one_more :
          (j ofs : ℕ) (obj : Value)
          → get_elem? slots h ≡ some (ofs, obj)
          → initial_ofs ≤ ofs
          → Busy initial_ofs slots (next_slot (length slots) h) j
          → Busy initial_ofs slots h (suc j)
      one_more j ofs obj e l busy zero b = (ofs, obj, e, l)
      one_more j ofs obj e l busy (suc i) b = busy i (omega arith)
