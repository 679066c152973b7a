-- ===== src/Parsing/Recovery.antt =====
-- The recovery loop of `parse_engine`: which states it discards.
use mathlib.Core.Path.{subst}
use ocamil.Prelude.{
  min, refl, Bool-cases, tests, ℕ, zero, suc, ◌≤◌, ◌≡◌, ◌⊎◌, Option, some, none, inl, inr, arith,
  leb, Option-cases, List,
}
use ocamil.Prelude.Int.{ℤ}
use ocamil.Parsing.{ParserTables}
use ocamil.Parsing.Engine.{discard, shifts_error}

-- The states above `low`, down from `sp`, do not shift the error token.
abbrev pub NoneShifts : ParserTables → List ℤ → (low sp : ℕ) → Type 0
NoneShifts tables s_stack low sp =
    (i : ℕ) → low ≤ i → i ≤ sp → shifts_error tables s_stack i ≡ some none

-- What the outcome of the loop says of the stack.
abbrev pub Discarded : ParserTables → List ℤ → (stackbase sp : ℕ) → Option (ℕ × ℕ) → Type 0
Discarded tables s_stack stackbase sp (some (depth, n2)) =
    (shifts_error tables s_stack depth ≡ some (some n2))
    × (depth ≤ sp)
    × ((depth ≡ sp) ⊎ (stackbase ≤ depth))
    × NoneShifts tables s_stack (suc depth) sp
Discarded tables s_stack stackbase sp none = NoneShifts tables s_stack (min stackbase sp) sp

module _ (tables : ParserTables) (s_stack : List ℤ) (stackbase : ℕ) where
  -- One more state that does not shift.
  NoneShifts-suc :
      (low sp : ℕ)
      → shifts_error tables s_stack (suc sp) ≡ some none
      → NoneShifts tables s_stack low sp
      → NoneShifts tables s_stack low (suc sp)
  NoneShifts-suc low sp e h i h₁ h₂ =
      let split : (i ≤ sp) ⊎ (i ≡ suc sp) = omega arith in
      elim split [ inl h₃ ↦ h i h₁ h₃ | inr h₃ ↦ rw h₃ e ]

  NoneShifts-one :
      (low sp : ℕ)
      → sp ≤ low
      → shifts_error tables s_stack sp ≡ some none
      → NoneShifts tables s_stack low sp
  NoneShifts-one low sp h e i h₁ h₂ = let same : i ≡ sp = omega arith in rw same e

  Discarded-suc :
      (sp : ℕ) (found : Option (ℕ × ℕ))
      → stackbase ≤ sp
      → shifts_error tables s_stack (suc sp) ≡ some none
      → Discarded tables s_stack stackbase sp found
      → Discarded tables s_stack stackbase (suc sp) found
  Discarded-suc sp none le e h =
      let same : min stackbase (suc sp) ≡ min stackbase sp = omega arith in
      rw same (NoneShifts-suc (min stackbase sp) sp e h)
  Discarded-suc sp (some (depth, n2)) le e (at, h₁, h₂, h₃) =
      (at, omega arith, inr (omega arith), NoneShifts-suc (suc depth) sp e h₃)

  -- The predicate on an outcome that may be a fault.
  unfoldable OnFound : (sp : ℕ) → Option (Option (ℕ × ℕ)) → Type 0
  OnFound sp none = Unit
  OnFound sp (some found) = Discarded tables s_stack stackbase sp found

  OnFound-suc :
      (sp : ℕ) (outcome : Option (Option (ℕ × ℕ)))
      → stackbase ≤ sp
      → shifts_error tables s_stack (suc sp) ≡ some none
      → OnFound sp outcome
      → OnFound (suc sp) outcome
  unfolding OnFound
  OnFound-suc sp none le e h = tt
  OnFound-suc sp (some found) le e h = Discarded-suc sp found le e h

  discard-OnFound : (sp : ℕ) → OnFound sp (discard tables s_stack stackbase sp)
  unfolding discard OnFound
  discard-OnFound zero = elim (Option-cases (shifts_error tables s_stack 0)) [
    | inl e ↦ rw (e, discard, OnFound) tt
    | inr (none, e) ↦ rw (e, discard, OnFound) (NoneShifts-one (min stackbase 0) 0 (omega arith) e)
    | inr (some n2, e) ↦
        rw (e, discard, OnFound) (e, omega arith, inl refl, λ i h₁ h₂. absurd (omega arith))
  ]
  discard-OnFound (suc sp) = elim (Option-cases (shifts_error tables s_stack (suc sp))) [
    | inl e ↦ rw (e, discard, OnFound) tt
    | inr (none, e) ↦
        rw (e, discard, OnFound)
          (elim (Bool-cases (leb (suc sp) stackbase)) [
            | inl e₁ ↦
                rw e₁ (NoneShifts-one (min stackbase (suc sp)) (suc sp) (omega (tests, e₁)) e)
            | inr e₁ ↦ rw e₁ (
                OnFound-suc sp (discard tables s_stack stackbase sp) (ground arith) e
                  (discard-OnFound sp))
          ])
    | inr (some n2, e) ↦
        rw (e, discard, OnFound) (e, omega arith, inl refl, λ i h₁ h₂. absurd (omega arith))
  ]

  -- When the recovery loop ends without a fault, it stands at the topmost state that shifts the
  -- error token, with its entry of the table, and that is the state it began at or not below
  -- `stackbase`; or it gives up, and then no state shifts the token, down to `stackbase`.
  pub discard-Discarded :
      (sp : ℕ) (found : Option (ℕ × ℕ))
      → discard tables s_stack stackbase sp ≡ some found
      → Discarded tables s_stack stackbase sp found
  unfolding OnFound
  discard-Discarded sp found e = subst (OnFound sp) e (discard-OnFound sp)
