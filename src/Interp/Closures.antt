-- ===== src/Interp/Closures.antt =====
-- Making closures, and one block for the closures of a recursive definition (byterun/interp.c).
use ocamil.Prelude.{
  ℕ, zero, suc, ◌+◌, ◌-◌, ◌*◌, Option, some, List, [], ◌∷◌, ◌++◌, ltb, ◌==◌, if◌then◌else◌,
  get_elem?, ◌>>=◌, ◌>>◌, require, not, length,
}
use ocamil.Machine.Value.{
  Value, word, code, ptr, fields, alloc, closure_tag, infix_tag, make_header,
}
use ocamil.Interp.State.{State, push_accu, pop_words, top_words, operand, skip, target}

-- `if (nvars > 0) *--sp = accu`, and the variables are then the words from `sp` on.
abbrev pub push_vars : ℕ → State → State
push_vars nvars s = if ltb 0 nvars then push_accu s else s

unfoldable pub closure : List ℕ → State → Option State
unfolding top_words pop_words target alloc
closure prog s = do
  nvars ← operand prog s 0
  offset ← operand prog s 1
  start ← target (s.pc + 1) offset
  vars ← top_words nvars (push_vars nvars s).stack
  rest ← pop_words nvars (push_vars nvars s).stack
  let made = alloc s.heap (fields closure_tag (code start ∷ vars))
  some (record (skip 2 s) { accu = made.0; heap = made.1; stack = rest })

-- The code of functions `i`, …, and before each the header of an infix block; `pc` is where the
-- offsets stand.
unfoldable pub infix_words : List ℕ → (pc i n : ℕ) → Option (List Value)
unfolding target
infix_words prog pc i zero = some []
infix_words prog pc i (suc n) = do
  offset ← get_elem? prog (pc + i)
  start ← target pc offset
  words ← infix_words prog pc (i + 1) n
  some (word (make_header (2 * i) infix_tag) ∷ code start ∷ words)

-- Pushes the pointers to functions `i`, …, `i + n - 1`.
unfoldable pub push_functions : (block i n : ℕ) → List Value → List Value
push_functions block i zero stack = stack
push_functions block i (suc n) stack = push_functions block (i + 1) n (ptr block (2 * i) ∷ stack)

unfoldable pub closurerec : List ℕ → State → Option State
unfolding top_words pop_words target alloc infix_words push_functions
closurerec prog s = do
  nfuncs ← operand prog s 0
  require (not (nfuncs == 0))
  nvars ← operand prog s 1
  vars ← top_words nvars (push_vars nvars s).stack
  rest ← pop_words nvars (push_vars nvars s).stack
  offset ← operand prog s 2
  start ← target (s.pc + 2) offset
  words ← infix_words prog (s.pc + 2) 1 (nfuncs - 1)
  let made = alloc s.heap (fields closure_tag ((code start ∷ words) ++ vars))
  let stack = push_functions (length s.heap) 1 (nfuncs - 1) (made.0 ∷ rest)
  some (record (skip (2 + nfuncs) s) { accu = made.0; heap = made.1; stack = stack })
