-- ===== src/Stacks/Growth.antt =====
-- `realloc_stack` of byterun/stacks.c: the size that it comes to.
use ocamil.Prelude.{ℕ, zero, suc, ◌+◌, ◌*◌, ◌≤◌, ◌<◌, inl, inr, arith, ltb, leb, Bool-cases}
use ocamil.Stacks.{StackSizes, Grown, sized, stack_overflow, out_of_fuel, double, realloc_stack}

-- What growing promises: enough room, below twice the maximum; and it gives up only where the
-- space that is asked for, or the area that there was, exceeds the maximum.
abbrev pub Grows : (max need size : ℕ) → Grown → Type 0
Grows max need size (sized n) = (need ≤ n) × (n < 2 * max) × (2 * size ≤ n)
Grows max need size stack_overflow = size < max → max < need
Grows max need size out_of_fuel = ⊥

Grows-double :
    {max need size : ℕ} (g : Grown)
    → Grows max need (2 * size) g
    → size < max
    → 2 * size < need
    → Grows max need size g
Grows-double (sized n) h p q = ground arith
Grows-double stack_overflow h p q = ground arith
Grows-double out_of_fuel h p q = h

double-Grows :
    (f max need size : ℕ)
    → 0 < f
    → 0 < size
    → max < f + size
    → Grows max need size (double f max need size)
unfolding double
double-Grows zero max need size q p h = elim q [ ]
double-Grows (suc f) max need size q p h = elim (Bool-cases (leb max size)) [
  | inl full ↦ rw (full, double) (λ r. ground arith)
  | inr small ↦ elim (Bool-cases (ltb (2 * size) need)) [
    | inl short ↦
        rw (small, double)
          (rw (short, double)
            (Grows-double _
              (double-Grows f max need (2 * size) (ground arith) (omega arith) (ground arith))
              (ground arith) (ground arith)))
    | inr enough ↦
        rw (small, double) (rw (enough, double) (ground arith, ground arith, ground arith))
  ]
]

-- Growing a stack that is not empty makes room for the space that is asked for, within a size that
-- at least doubles and stays below twice the maximum, and it always comes to an end. It reports an
-- overflow only if the area had reached the maximum before, or if the depth with the space that is
-- asked for is above the maximum.
pub realloc_stack-Grows :
    (depth required : ℕ) (s : StackSizes)
    → 0 < s.size
    → Grows s.max_stack_size (depth + required) s.size (realloc_stack depth required s)
unfolding realloc_stack
realloc_stack-Grows depth required s p =
    double-Grows (s.max_stack_size + 1) s.max_stack_size (depth + required) s.size (omega arith) p
      (omega arith)
