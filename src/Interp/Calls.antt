-- ===== src/Interp/Calls.antt =====
-- Function application, tail calls and returns (byterun/interp.c). What `check_stacks` does after a
-- call is in Interp/Control.antt.
pub mod Return
pub mod Partial
use ocamil.Prelude.{
  ℕ, zero, suc, ◌+◌, ◌-◌, Bool, Option, some, none, List, [], ◌∷◌, ◌++◌, ◌&&◌, not, length,
  get_elem?, ltb, leb, ◌==◌, if◌then◌else◌, ◌>>=◌, ◌>>◌, require,
}
use ocamil.Machine.Value.{
  Value, ptr, code, fields, Block, Heap, field, code_val, wosize_val, index_of, alloc, closure_tag,
  val_int, block_fields,
}
use ocamil.Interp.State.{State, push, pop_words, top_words, operand, skip, target, saved_args}

unfoldable pub push_retaddr : List ℕ → State → Option State
unfolding target
push_retaddr prog s = do
  n ← operand prog s 0
  ret ← target s.pc n
  some (record (skip 1 s) { stack = code ret ∷ s.env ∷ saved_args s.extra_args ∷ s.stack })

-- `pc = Code_val(accu); env = accu`
unfoldable pub enter : State → Option State
unfolding code_val
enter s = do pc ← code_val s.heap s.accu; some (record s { pc = pc; env = s.accu })

-- `extra_args = *pc - 1`, on a count of at least one
unfoldable pub apply : List ℕ → State → Option State
unfolding enter
apply prog s = do
  n ← operand prog s 0
  if n == 0 then none else enter (record s { extra_args = n - 1 })

-- `APPLY1`, `APPLY2` and `APPLY3`: a return frame goes in below the `n` arguments.
unfoldable pub apply_args : ℕ → State → Option State
unfolding top_words pop_words enter
apply_args n s = do
  args ← top_words n s.stack
  rest ← pop_words n s.stack
  enter (record s {
    stack = args ++ (code s.pc ∷ s.env ∷ saved_args s.extra_args ∷ rest);
    extra_args = n - 1;
  })

-- A tail call: the `nargs` words from `sp` on replace the `slotsize` words of the frame.
unfoldable pub slide : (nargs slotsize : ℕ) → State → Option State
unfolding top_words pop_words enter
slide nargs slotsize s = do
  args ← top_words nargs s.stack
  rest ← pop_words slotsize s.stack
  enter (record s { stack = args ++ rest; extra_args = s.extra_args + (nargs - 1) })

unfoldable pub appterm : List ℕ → State → Option State
unfolding slide
appterm prog s = do
  nargs ← operand prog s 0
  slotsize ← operand prog s 1
  if leb nargs slotsize && not (nargs == 0) then slide nargs slotsize s else none

-- `APPTERM1`, `APPTERM2` and `APPTERM3`
unfoldable pub appterm_args : List ℕ → ℕ → State → Option State
unfolding slide
appterm_args prog nargs s = do
  slotsize ← operand prog s 0
  if leb nargs slotsize then slide nargs slotsize s else none

-- Back to the caller: its frame is at `sp`.
unfoldable pub pop_frame : State → List Value → Option State
pop_frame s (code pc ∷ env ∷ extra ∷ rest) = do
  n ← index_of extra
  some (record s { pc = pc; env = env; extra_args = n; stack = rest })
pop_frame s _ = none

-- With arguments left, the value is a function, and takes them.
unfoldable pub return : List ℕ → State → Option State
unfolding pop_words enter pop_frame
return prog s = do
  n ← operand prog s 0
  rest ← pop_words n s.stack
  if ltb 0 s.extra_args
      then enter (record s { stack = rest; extra_args = s.extra_args - 1 })
      else pop_frame s rest

-- The arguments that a partial application holds, from field 2 of its closure on.
unfoldable pub saved_fields : Heap → Value → Option (List Value)
unfolding wosize_val pop_words
saved_fields h (ptr b zero) = do block ← get_elem? h b; vs ← block_fields block; pop_words 2 vs
saved_fields h _ = none

unfoldable pub restart : State → Option State
unfolding saved_fields field
restart s = do
  args ← saved_fields s.heap s.env
  env ← field s.heap s.env 1
  some (record s { stack = args ++ s.stack; env = env; extra_args = s.extra_args + length args })

-- Too few arguments: a closure holds those that there are, and its code is the `RESTART` that
-- stands before this instruction (two words before the operand, at which `pc` stands here).
unfoldable pub suspend : State → Option State
unfolding top_words pop_words pop_frame alloc
suspend s = do
  require (leb 2 s.pc)
  args ← top_words (1 + s.extra_args) s.stack
  rest ← pop_words (1 + s.extra_args) s.stack
  let made = alloc s.heap (fields closure_tag (code (s.pc - 2) ∷ s.env ∷ args))
  pop_frame (record s { accu = made.0; heap = made.1 }) rest

unfoldable pub grab : List ℕ → State → Option State
unfolding suspend
grab prog s = do
  required ← operand prog s 0
  if leb required s.extra_args
      then some (record (skip 1 s) { extra_args = s.extra_args - required })
      else suspend s
