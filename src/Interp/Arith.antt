-- ===== src/Interp/Arith.antt =====
-- Integer arithmetic on tagged words, comparisons, and comparisons with a branch
-- (byterun/interp.c). Sums and differences are taken on the tagged words.
pub mod Tagged
use Prim.Native.Nat.{bit_and, bit_or, bit_xor}
use ocamil.Prelude.{
  ℕ, ◌+◌, ◌-◌, ◌*◌, ◌/◌, ◌%◌, ◌^◌, Bool, true, false, Option, some, none, List, [], ◌∷◌, ltb, leb,
  ◌==◌, not, if◌then◌else◌, ◌&&◌, get_elem?, ◌>>=◌, ◌>>◌, require,
}
use ocamil.Prelude.Int.{ℤ, pos, negsuc, ◌*ℤ◌, ltb_ℤ, pos_part, neg_part, sub_ℕ}
use ocamil.Machine.Word.{signed, wrap, sar, val_long, long_val, natural}
use ocamil.Machine.Value.{
  Value, word, ptr, code, trap, atom, val_int, val_unit, as_word, is_long, field, set_field,
}
use ocamil.Interp.State.{
  State, Outcome, go, push, peek, pop_words, operand, skip, raise_predefined, zero_divide_exn,
}
use ocamil.Interp.Control.{branch}

-- `2 - accu`
unfoldable pub negint : ℕ → ℕ
negint a = (2 ^ 32 + 2 - a) % 2 ^ 32

-- `accu + *sp - 1`
unfoldable pub addint : ℕ → ℕ → ℕ
addint a b = (a + b + (2 ^ 32 - 1)) % 2 ^ 32

-- `accu - *sp + 1`
unfoldable pub subint : ℕ → ℕ → ℕ
subint a b = (a + (2 ^ 32 - b) + 1) % 2 ^ 32

-- `Val_long(Long_val(accu) * Long_val(*sp))`; a product that overflows wraps.
unfoldable pub mulint : ℕ → ℕ → ℕ
unfolding val_long long_val ◌*ℤ◌
mulint a b = val_long (long_val a *ℤ long_val b)

-- Division of a `long` truncates towards zero.
unfoldable pub quotient : ℤ → ℤ → ℤ
quotient (pos a) (pos b) = pos (a / b)
quotient (pos a) (negsuc b) = sub_ℕ 0 (a / (b + 1))
quotient (negsuc a) (pos b) = sub_ℕ 0 ((a + 1) / b)
quotient (negsuc a) (negsuc b) = pos ((a + 1) / (b + 1))

-- The remainder has the sign of the dividend.
unfoldable pub remainder : ℤ → ℤ → ℤ
remainder (pos a) (pos b) = pos (a % b)
remainder (pos a) (negsuc b) = pos (a % (b + 1))
remainder (negsuc a) (pos b) = sub_ℕ 0 ((a + 1) % b)
remainder (negsuc a) (negsuc b) = sub_ℕ 0 ((a + 1) % (b + 1))

-- A shift by a negative number, or by the size of a word or more, is undefined: a fault.
unfoldable pub shift_count : ℤ → Option ℕ
shift_count n = do k ← natural n; require (ltb k 32); some k

-- `((accu - 1) << k) + 1`
unfoldable pub lslint : ℕ → ℕ → ℕ
lslint a k = ((a - 1) * 2 ^ k + 1) % 2 ^ 32

-- `((unsigned long) accu - 1) >> k | 1`
unfoldable pub lsrint : ℕ → ℕ → ℕ
lsrint a k = bit_or ((a - 1) / 2 ^ k) 1

-- `(accu - 1) >> k | 1`
unfoldable pub asrint : ℕ → ℕ → ℕ
asrint a k = bit_or (sar (a - 1) k) 1

-- `accu ^ *sp | 1`
unfoldable pub xorint : ℕ → ℕ → ℕ
xorint a b = bit_or (bit_xor a b) 1

-- An operation on the accumulator and the word that is popped.
unfoldable pub binary : (ℕ → ℕ → Option ℕ) → State → Option State
unfolding pop_words
binary op s = do
  a ← as_word s.accu
  v ← peek s 0
  b ← as_word v
  w ← op a b
  rest ← pop_words 1 s.stack
  some (record s { accu = word w; stack = rest })

abbrev pub total : (ℕ → ℕ → ℕ) → ℕ → ℕ → Option ℕ
total op a b = some (op a b)

-- The count of a shift is the integer that is popped.
abbrev pub shifted : (ℕ → ℕ → ℕ) → ℕ → ℕ → Option ℕ
shifted op a b = do k ← shift_count (long_val b); some (op a k)

abbrev pub is_zero : ℤ → Bool
is_zero (pos n) = n == 0
is_zero (negsuc _) = false

-- `DIVINT` and `MODINT`: a divisor of zero, which is popped, raises `Division_by_zero`.
unfoldable pub divide : (ℤ → ℤ → ℤ) → State → Option Outcome
unfolding pop_words long_val val_long raise_predefined
divide op s = do
  a ← as_word s.accu
  v ← peek s 0
  b ← as_word v
  rest ← pop_words 1 s.stack
  if is_zero (long_val b)
      then raise_predefined zero_divide_exn (record s { stack = s.env ∷ rest })
      else go (some (record s { accu = val_int (op (long_val a) (long_val b)); stack = rest }))

unfoldable pub unary : (ℕ → ℕ) → State → Option State
unary op s = do a ← as_word s.accu; some (record s { accu = word (op a) })

-- Two values as machine words: pointers are compared for identity alone.
unfoldable pub same_value : Value → Value → Bool
same_value (word a) (word b) = a == b
same_value (ptr a i) (ptr b j) = (a == b) && (i == j)
same_value (atom a) (atom b) = a == b
same_value (code a) (code b) = a == b
same_value (trap a) (trap b) = a == b
same_value _ _ = false

abbrev pub val_bool : Bool → Value
val_bool true = word 3
val_bool false = word 1

-- `EQ` and `NEQ`
unfoldable pub equality : (Bool → Bool) → State → Option State
unfolding same_value pop_words
equality sense s = do
  v ← peek s 0
  rest ← pop_words 1 s.stack
  some (record s { accu = val_bool (sense (same_value s.accu v)); stack = rest })

-- The tests of two words.
pub data Test : Type 0 where
  lt le gt ge : Test

abbrev pub order : Test → ℤ → ℤ → Bool
order Test.lt a b = ltb_ℤ a b
order Test.le a b = not (ltb_ℤ b a)
order Test.gt a b = ltb_ℤ b a
order Test.ge a b = not (ltb_ℤ a b)

-- `Integer_comparison`, on the tagged words: the order of words is not that of addresses, so a
-- pointer is a fault.
unfoldable pub comparison : (ℕ → ℕ → Bool) → State → Option State
unfolding pop_words
comparison tst s = do
  a ← as_word s.accu
  v ← peek s 0
  b ← as_word v
  rest ← pop_words 1 s.stack
  some (record s { accu = val_bool (tst a b); stack = rest })

abbrev pub signed_test : Test → ℕ → ℕ → Bool
signed_test t a b = order t (signed a) (signed b)

-- `Integer_branch_comparison`: the operand against the untagged accumulator.
unfoldable pub branch_comparison : (ℕ → ℕ → Bool) → List ℕ → State → Option State
unfolding long_val branch
branch_comparison tst prog s = do
  n ← operand prog s 0
  a ← as_word s.accu
  if tst n (wrap (long_val a)) then branch prog (skip 1 s) else some (skip 2 s)

-- `accu += *pc << 1`
unfoldable pub offsetint : List ℕ → State → Option State
offsetint prog s = do
  n ← operand prog s 0
  a ← as_word s.accu
  some (record (skip 1 s) { accu = word ((a + 2 * n) % 2 ^ 32) })

-- `Field(accu, 0) += *pc << 1`
unfoldable pub offsetref : List ℕ → State → Option State
unfolding field set_field
offsetref prog s = do
  n ← operand prog s 0
  v ← field s.heap s.accu 0
  a ← as_word v
  h ← set_field s.heap s.accu 0 (word ((a + 2 * n) % 2 ^ 32))
  some (record (skip 1 s) { heap = h; accu = val_unit })

unfoldable pub isint : State → State
isint s = record s { accu = if is_long s.accu then val_int (pos 1) else val_int (pos 0) }
