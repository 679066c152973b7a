-- ===== src/Marshal/Table/Walk.antt =====
-- The slots that a search of byterun/extern.c passes, from one on around the table.
use native.Mathlib.Nat.{mod_self, mod-lt, mod-eq_of_lt}
use ocamil.Prelude.{
  ℕ, zero, suc, ◌+◌, ◌-◌, ◌%◌, ◌≤◌, ◌<◌, ◌≡◌, refl, ap, ◌∙◌, inl, inr, leb, arith, Bool-cases,
}
use ocamil.Marshal.Table.{next_slot}

pub next_slot-lt : (size h : ℕ) → h < size → next_slot size h < size
unfolding next_slot
next_slot-lt size h l = mod-lt (h + 1) (omega arith)

next_slot_inside : (size h : ℕ) → suc h < size → next_slot size h ≡ suc h
unfolding next_slot
next_slot_inside size h l =
    let e : h + 1 ≡ suc h = omega arith in ap (λ n. n % size) e ∙ mod-eq_of_lt l

next_slot_wraps : (size h : ℕ) → suc h ≡ size → next_slot size h ≡ 0
unfolding next_slot
next_slot_wraps size h l =
    let e : h + 1 ≡ size = omega arith in ap (λ n. n % size) e ∙ mod_self size

-- The slot after so many steps.
unfoldable pub walk : (size k h : ℕ) → ℕ
walk size zero h = h
walk size (suc k) h = walk size k (next_slot size h)

pub walk-lt : (size k h : ℕ) → h < size → walk size k h < size
unfolding walk
walk-lt size zero h l = l
walk-lt size (suc k) h l = walk-lt size k (next_slot size h) (next_slot-lt size h l)

walk_add : (size a b h : ℕ) → walk size (a + b) h ≡ walk size b (walk size a h)
unfolding walk
walk_add size zero b h = let e : 0 + b ≡ b = omega arith in rw e refl
walk_add size (suc a) b h =
    let e : suc a + b ≡ suc (a + b) = omega arith in rw e (walk_add size a b (next_slot size h))

walk_up : (size k h : ℕ) → h + k < size → walk size k h ≡ h + k
unfolding walk
walk_up size zero h l = omega arith
walk_up size (suc k) h l =
    rw (next_slot_inside size h (omega arith)) (walk_up size k (suc h) (omega arith) ∙ omega arith)

walk_around : (size j h : ℕ) → h + suc j ≡ size → walk size (suc j) h ≡ 0
unfolding walk
walk_around size zero h l = next_slot_wraps size h (omega arith)
walk_around size (suc j) h l =
    rw (next_slot_inside size h (omega arith)) (walk_around size j (suc h) (omega arith))

-- Every slot is passed.
pub walk_covers : (size h i : ℕ) → h < size → i < size → (k : ℕ) × (k < size) × (walk size k h ≡ i)
walk_covers size h i l r = elim (Bool-cases (leb h i)) [
  | inl up ↦
      let le : h ≤ i = ground arith in
      (i - h, omega arith, walk_up size (i - h) h (omega arith) ∙ omega arith)
  | inr down ↦
      let lt : i < h = ground arith in
      let j = size - h - 1 in
      let here : walk size (suc j) h ≡ 0 = walk_around size j h (omega arith) in
      (
        suc j + i,
        omega arith,
        walk_add size (suc j) i h
            ∙ (ap (λ x. walk size i x) here ∙ (walk_up size i 0 (omega arith) ∙ omega arith)),
      )
]
