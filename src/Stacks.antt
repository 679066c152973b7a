-- ===== src/Stacks.antt =====
-- The stack of the interpreter, byterun/stacks.c. The stack itself is a list with the word at `sp`
-- first, and a pointer into it is counted from `stack_high`, so that copying the stack to a larger
-- area, and shifting the pointers, leaves both as they are. What is left are the sizes, in words.
pub mod Growth
mod Tests
use ocamil.Prelude.{ℕ, zero, suc, ◌+◌, ◌*◌, leb, ltb, if◌then◌else◌}

-- `stack_high - stack_low` and `max_stack_size`
pub record StackSizes : Type 0 where
  pub size : ℕ
  pub max_stack_size : ℕ

-- `Stack_size` and `Stack_threshold`, in words
abbrev pub stack_size : ℕ
stack_size = 4096

abbrev pub stack_threshold : ℕ
stack_threshold = 256

unfoldable pub init_stack : ℕ → StackSizes
init_stack initial_max_size = record { size = stack_size; max_stack_size = initial_max_size }

pub data Grown : Type 0 where
  sized : ℕ → Grown
  stack_overflow : Grown
  out_of_fuel : Grown

-- The `do ... while` of `realloc_stack`; `need` is the depth with the space that is asked for.
unfoldable pub double : ℕ → (max need size : ℕ) → Grown
double zero max need size = out_of_fuel
double (suc f) max need size =
    let more = double f max need (2 * size) in
    if leb max size then stack_overflow else if ltb (2 * size) need then more else sized (2 * size)

-- The size doubles, so that it passes the maximum within that many rounds.
unfoldable pub realloc_stack : (depth required : ℕ) → StackSizes → Grown
unfolding double
realloc_stack depth required s =
    double (s.max_stack_size + 1) s.max_stack_size (depth + required) s.size

unfoldable pub ensure_stack_capacity : (depth required : ℕ) → StackSizes → Grown
unfolding realloc_stack
ensure_stack_capacity depth required s =
    if ltb s.size (depth + required) then realloc_stack depth required s else sized s.size

unfoldable pub change_max_stack_size : (depth new_max_size : ℕ) → StackSizes → StackSizes
change_max_stack_size depth new_max_size s =
    let size = depth + stack_threshold in
    record s { max_stack_size = if ltb new_max_size size then size else new_max_size }
