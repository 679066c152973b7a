-- ===== src/Interp/Control.antt =====
-- Branches, exceptions, the stack check, signals, calls of C functions, method lookup
-- (byterun/interp.c).
pub mod Traps
use ocamil.Prelude.{
  ℕ, zero, suc, ◌+◌, ◌-◌, ◌*◌, ◌/◌, ◌%◌, ◌^◌, Bool, true, false, Option, some, none, List, [], ◌∷◌,
  ltb, leb, ◌==◌, if◌then◌else◌, get_elem?, length, not, ◌>>=◌, ◌>>◌, require,
}
use ocamil.Prelude.Int.{ℤ, pos, negsuc}
use ocamil.Machine.Word.{sar}
use ocamil.Machine.Value.{
  Value, word, ptr, code, trap, atom, val_unit, Heap, field, tag_val, as_word, index_of, is_long,
}
use ocamil.Stacks.{
  StackSizes, Grown, sized, stack_overflow, out_of_fuel, realloc_stack, stack_threshold,
}
use ocamil.Interp.State.{
  State, Outcome, next, stopped, go, push, push_accu, peek, pop_words, top_words, operand, skip,
  target, saved_args, raise_exception, raise_predefined, stack_overflow_exn,
}

-- A C function returns a value, or it raises an exception (byterun/fail.c, `mlraise`).
pub data Reply : Type 0 where
  returned : Value → Reply
  raised : Value → Reply

-- What the interpreter calls: the table of primitives, on their arguments, and `process_event`,
-- which runs signal handlers and the collector. Either may change the heap.
pub record Runtime : Type 0 where
  pub primitive : ℕ → List Value → Heap → Option (Reply × Heap)
  pub process_event : Heap → Option (Reply × Heap)

-- `pc += pc[k]`
unfoldable pub branch : List ℕ → State → Option State
unfolding target
branch prog s = do n ← operand prog s 0; pc ← target s.pc n; some (record s { pc = pc })

-- `if (taken) pc += *pc; else pc++`
abbrev pub branch_if : Bool → List ℕ → State → Option State
branch_if true prog s = branch prog s
branch_if false prog s = some (skip 1 s)

abbrev pub is_false : Value → Bool
is_false (word w) = w == 1
is_false _ = false

unfoldable pub branchif : List ℕ → State → Option State
unfolding branch
branchif prog s = branch_if (not (is_false s.accu)) prog s

unfoldable pub branchifnot : List ℕ → State → Option State
unfolding branch
branchifnot prog s = branch_if (is_false s.accu) prog s

-- `pc += pc[i]`
unfoldable pub jump_table : List ℕ → State → ℕ → Option State
unfolding target
jump_table prog s i = do n ← operand prog s i; pc ← target s.pc n; some (record s { pc = pc })

-- The table holds the constant constructors, and then the tags of the blocks. The assertions of the
-- code are preconditions.
unfoldable pub switch : List ℕ → State → Option State
unfolding tag_val index_of jump_table
switch prog s = do
  sizes ← operand prog s 0
  if is_long s.accu
      then (do i ← index_of s.accu; require (ltb i (sizes % 2 ^ 16)); jump_table prog (skip 1 s) i)
      else (do
        tag ← tag_val s.heap s.accu
        require (ltb tag (sizes / 2 ^ 16))
        jump_table prog (skip 1 s) (sizes % 2 ^ 16 + tag))

-- `Val_not(x)` is `Val_false + Val_true - x`.
unfoldable pub boolnot : State → Option State
boolnot s = do w ← as_word s.accu; some (record s { accu = word ((2 ^ 32 + 4 - w) % 2 ^ 32) })

-- A trap frame: the handler, the link to the frame below, and what to restore.
unfoldable pub pushtrap : List ℕ → State → Option State
unfolding target
pushtrap prog s = do
  n ← operand prog s 0
  pc ← target s.pc n
  some (record (skip 1 s) {
    stack = code pc ∷ trap s.trapsp ∷ s.env ∷ saved_args s.extra_args ∷ s.stack;
    trapsp = length s.stack + 4;
  })

-- The frame is dropped, and the one below is current again.
unfoldable pub drop_trap : State → List Value → Option State
drop_trap s (pc ∷ trap link ∷ env ∷ extra ∷ rest) = some (record s { stack = rest; trapsp = link })
drop_trap s _ = none

-- `Lookup(obj, lab)`
unfoldable pub lookup : Heap → Value → ℕ → Option Value
unfolding field
lookup h obj lab = do
  methods ← field h obj 0
  bucket ← field h methods (sar lab 16 / 4)
  field h bucket (lab / 4 % 256)

unfoldable pub getmethod : State → Option State
unfolding lookup
getmethod s = do
  obj ← peek s 0
  lab ← as_word s.accu
  m ← lookup s.heap obj lab
  some (record s { accu = m })

-- The result of `realloc_stack` is the new size, or `Stack_overflow`.
unfoldable pub grown : Grown → State → Option Outcome
unfolding raise_predefined
grown (sized n) s = some (next (record s { sizes = record s.sizes { size = n } }))
grown stack_overflow s = raise_predefined stack_overflow_exn s
grown out_of_fuel s = none

-- `sp < stack_threshold`: little room is left.
abbrev pub is_low : State → Bool
is_low s = ltb s.sizes.size (length s.stack + stack_threshold)

module _ (rt : Runtime) where
  -- The label `process_signal`. The event frame holds the registers while the handler runs, which
  -- it leaves as they were; an exception of the handler is raised with the frame on the stack.
  unfoldable pub after_event : State → Reply × Heap → Option Outcome
  unfolding raise_exception
  after_event s (returned v, h) = some (next (record s { heap = h }))
  after_event s (raised exn, h) = raise_exception exn (record s {
    heap = h;
    stack = s.accu ∷ val_unit ∷ val_unit ∷ code s.pc ∷ s.env ∷ saved_args s.extra_args ∷ s.stack;
  })

  unfoldable pub process_signal : State → Option Outcome
  unfolding after_event
  process_signal s = do
    reply ← rt.process_event s.heap
    after_event (record s { something_to_do = false }) reply

  unfoldable pub check_signals : State → Option Outcome
  unfolding process_signal
  check_signals s = if s.something_to_do then process_signal s else some (next s)

  -- The label `check_stacks`, which a call goes on to. An overflow does not come back here.
  unfoldable pub check_stacks : State → Option Outcome
  unfolding check_signals grown realloc_stack
  check_stacks s =
      if is_low s
      then elim (realloc_stack (length s.stack) stack_threshold s.sizes) [
        | sized n ↦ check_signals (record s { sizes = record s.sizes { size = n } })
        | g ↦ grown g s
      ]
      else check_signals s

  abbrev pub check_after : Option State → Option Outcome
  check_after none = none
  check_after (some s) = check_stacks s

  -- A pending signal is served first, and the instruction is run again.
  unfoldable pub poptrap : State → Option Outcome
  unfolding process_signal drop_trap
  poptrap s =
      if s.something_to_do
      then process_signal (record s { pc = s.pc - 1 })
      else go (drop_trap s s.stack)

  -- `Setup_for_c_call` pushes the environment; what is below are the arguments but the first.
  unfoldable pub after_c_call : ℕ → State → Reply × Heap → Option Outcome
  unfolding pop_words raise_exception
  after_c_call popped s (returned v, h) = do
    rest ← pop_words popped s.stack
    some (next (record (skip 1 s) { accu = v; heap = h; stack = rest }))
  after_c_call popped s (raised exn, h) = raise_exception exn (record (push s.env s) { heap = h })

  -- `C_CALL1` to `C_CALL5`
  unfoldable pub c_call : List ℕ → ℕ → State → Option Outcome
  unfolding top_words after_c_call
  c_call prog nargs s = do
    n ← operand prog s 0
    args ← top_words (nargs - 1) s.stack
    reply ← rt.primitive n (s.accu ∷ args) s.heap
    after_c_call (nargs - 1) s reply

  -- All the arguments of `C_CALLN` are on the stack.
  unfoldable pub c_calln : List ℕ → State → Option Outcome
  unfolding top_words after_c_call
  c_calln prog s = do
    nargs ← operand prog s 0
    n ← operand prog s 1
    args ← top_words nargs (push_accu s).stack
    reply ← rt.primitive n args s.heap
    after_c_call nargs (push_accu (skip 1 s)) reply
