-- ===== src/Interp/Exec/Integers.antt =====
-- The integer instructions of byterun/interp.c and the integers that their words stand for.
use ocamil.Prelude.{ℕ, ◌+◌, ◌<◌, ◌≡◌, ◌≢◌, refl, false, arith, some, List, ◌∷◌}
use ocamil.Prelude.Int.{ℤ, pos, negsuc, pos_part, neg_part, ◌+ℤ◌, ◌-ℤ◌, ◌*ℤ◌}
use ocamil.Machine.Word.Tagging.{IsInt, long_val-val_long}
use ocamil.Machine.Value.{Value, val_int}
use ocamil.Interp.Instr.{Instr}
use ocamil.Interp.State.{State, next}
use ocamil.Interp.Arith.{
  quotient, remainder, binary, divide, Test, order, comparison, val_bool, is_zero,
}
use ocamil.Interp.Arith.Tagged.{addint-val_long, subint-val_long, mulint-val_long, signed-val_long}
use ocamil.Interp.Control.{Runtime}
use ocamil.Interp.Exec.{exec}

is_zero-false : (b : ℤ) → b ≢ pos 0 → is_zero b ≡ false
is_zero-false (pos n) h = ground arith
is_zero-false (negsuc n) h = refl

abbrev pub magnitude : ℤ → ℕ
magnitude n = pos_part n + neg_part n

-- A remainder is 0 or has the sign of the dividend.
abbrev pub HasSignOf : ℤ → ℤ → Type 0
HasSignOf r (pos _) = neg_part r ≡ 0
HasSignOf r (negsuc _) = pos_part r ≡ 0

quotient-remainder : (a b : ℤ) → b ≢ pos 0 → quotient a b *ℤ b +ℤ remainder a b ≡ a
unfolding quotient remainder ◌*ℤ◌ ◌+ℤ◌
quotient-remainder (pos a) (pos b) h = grind arith
quotient-remainder (pos a) (negsuc b) h = grind arith
quotient-remainder (negsuc a) (pos b) h = grind arith
quotient-remainder (negsuc a) (negsuc b) h = grind arith

magnitude-remainder : (a b : ℤ) → b ≢ pos 0 → magnitude (remainder a b) < magnitude b
unfolding remainder
magnitude-remainder (pos a) (pos b) h = grind arith
magnitude-remainder (pos a) (negsuc b) h = grind arith
magnitude-remainder (negsuc a) (pos b) h = grind arith
magnitude-remainder (negsuc a) (negsuc b) h = grind arith

remainder-HasSignOf : (a b : ℤ) → HasSignOf (remainder a b) a
unfolding remainder
remainder-HasSignOf (pos a) (pos b) = refl
remainder-HasSignOf (pos a) (negsuc b) = refl
remainder-HasSignOf (negsuc a) (pos b) = ground arith
remainder-HasSignOf (negsuc a) (negsuc b) = ground arith

abbrev pub comparison_instr : Test → Instr
comparison_instr Test.lt = Instr.ltint
comparison_instr Test.le = Instr.leint
comparison_instr Test.gt = Instr.gtint
comparison_instr Test.ge = Instr.geint

module _ (rt : Runtime) (prog : List ℕ) (s : State) (a b : ℤ) (rest : List Value)
    (accu : s.accu ≡ val_int a) (stack : s.stack ≡ val_int b ∷ rest) where
  abbrev result : ℤ → State
  result n = record s { accu = val_int n; stack = rest }

  -- Sum, difference and product of the accumulator and the integer on top of the stack, which is
  -- popped. The instructions work on the tagged words, and what they leave is the tagged result,
  -- modulo the size of an integer, for operands in the range of integers.
  pub exec_arithmetic :
      IsInt a
      → IsInt b
      → (exec rt prog Instr.addint s ≡ some (next (result (a +ℤ b))))
        × (exec rt prog Instr.subint s ≡ some (next (result (a -ℤ b))))
        × (exec rt prog Instr.mulint s ≡ some (next (result (a *ℤ b))))
  unfolding exec binary
  exec_arithmetic h k = (
    rw (accu, stack, addint-val_long),
    rw (accu, stack, subint-val_long),
    rw (accu, stack, mulint-val_long a b h k),
  )

  -- For a divisor other than 0 and operands in the range of integers, `DIVINT` and `MODINT` leave
  -- the tagged quotient and remainder, and pop the divisor. The quotient times the divisor, plus the
  -- remainder, is the dividend; the remainder is smaller than the divisor in magnitude, and has the
  -- sign of the dividend or is 0.
  pub exec_division :
      IsInt a
      → IsInt b
      → b ≢ pos 0
      → (exec rt prog Instr.divint s ≡ some (next (result (quotient a b))))
        × (exec rt prog Instr.modint s ≡ some (next (result (remainder a b))))
        × (quotient a b *ℤ b +ℤ remainder a b ≡ a)
        × (magnitude (remainder a b) < magnitude b)
        × HasSignOf (remainder a b) a
  unfolding exec divide
  exec_division h k nonzero =
      let zero : is_zero b ≡ false = is_zero-false b nonzero in
      (
        rw (accu, stack, long_val-val_long b k, zero, long_val-val_long a h),
        rw (accu, stack, long_val-val_long b k, zero, long_val-val_long a h),
        quotient-remainder a b nonzero,
        magnitude-remainder a b nonzero,
        remainder-HasSignOf a b,
      )

  -- The signed comparisons of the tagged words give the order of the integers, as a boolean, for
  -- operands in the range of integers; the operand on the stack is popped.
  pub exec_comparison :
      IsInt a
      → IsInt b
      → (t : Test)
      → exec rt prog (comparison_instr t) s
        ≡ some (next (record s { accu = val_bool (order t a b); stack = rest }))
  unfolding exec comparison
  exec_comparison h k Test.lt = rw (accu, stack, signed-val_long Test.lt a b h k)
  exec_comparison h k Test.le = rw (accu, stack, signed-val_long Test.le a b h k)
  exec_comparison h k Test.gt = rw (accu, stack, signed-val_long Test.gt a b h k)
  exec_comparison h k Test.ge = rw (accu, stack, signed-val_long Test.ge a b h k)
