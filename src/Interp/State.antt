-- ===== src/Interp/State.antt =====
-- The registers of the abstract machine of byterun/interp.c, and what an instruction leads to.
pub mod Frames
use ocamil.Prelude.{
  ℕ, zero, suc, ◌+◌, ◌-◌, Bool, Option, some, none, List, [], ◌∷◌, length, get_elem?, set, drop,
  leb, ltb, if◌then◌else◌, ◌>>=◌,
}
use ocamil.Prelude.Int.{ℤ, pos, negsuc, ◌+ℤ◌}
use ocamil.Machine.Word.{signed, natural}
use ocamil.Machine.Value.{
  Value, word, code, trap, val_int, Block, Heap, index_of, alloc, fields, field,
}
use ocamil.Stacks.{StackSizes}

-- The program is read-only, and `pc` and each code pointer is an index into it. The stack has the
-- word at `sp` first; `trapsp` and `initial_sp`, the `sp` at which `interprete` was entered, are
-- depths. `globals` is `global_data`.
pub record State : Type 0 where
  pub pc : ℕ
  pub accu : Value
  pub env : Value
  pub extra_args : ℕ
  pub stack : List Value
  pub trapsp : ℕ
  pub initial_sp : ℕ
  pub globals : Value
  pub heap : Heap
  pub sizes : StackSizes
  pub something_to_do : Bool

-- An instruction is followed by the next one, or the interpreter returns: at `STOP`, or as no
-- handler is left for an exception (`Make_exception_result`).
pub data Outcome : Type 0 where
  next : State → Outcome
  stopped : Value → State → Outcome
  uncaught : Value → State → Outcome

abbrev pub go : Option State → Option Outcome
go none = none
go (some s) = some (next s)

-- `*--sp = v`
abbrev pub push : Value → State → State
push v s = record s { stack = v ∷ s.stack }

abbrev pub push_accu : State → State
push_accu s = push s.accu s

-- `sp[i]`
abbrev pub peek : State → ℕ → Option Value
peek s i = get_elem? s.stack i

-- `sp += n`: popping more than there is, is a fault.
unfoldable pub pop_words : ℕ → List Value → Option (List Value)
pop_words zero vs = some vs
pop_words (suc n) [] = none
pop_words (suc n) (v ∷ vs) = pop_words n vs

-- The first `n` words from `sp` on.
unfoldable pub top_words : ℕ → List Value → Option (List Value)
top_words zero vs = some []
top_words (suc n) [] = none
top_words (suc n) (v ∷ vs) = do rest ← top_words n vs; some (v ∷ rest)

-- `pc[k]`, the operands that follow the opcode.
abbrev pub operand : List ℕ → State → ℕ → Option ℕ
operand prog s k = get_elem? prog (s.pc + k)

abbrev pub skip : ℕ → State → State
skip k s = record s { pc = s.pc + k }

-- `pc + n` for an operand `n`
unfoldable pub target : ℕ → ℕ → Option ℕ
target pc n = natural (pos pc +ℤ signed n)

-- A return frame: the return address, the environment and the extra arguments of the caller.
abbrev pub saved_args : ℕ → Value
saved_args n = val_int (pos n)

-- `raise_constant(Field(global_data, n))` of byterun/fail.c: the exception's bucket.
unfoldable pub exn_bucket : ℕ → State → Option (Value × Heap)
unfolding field alloc
exn_bucket n s = do exn ← field s.heap s.globals n; some (alloc s.heap (fields 0 (exn ∷ [])))

abbrev pub zero_divide_exn : ℕ
zero_divide_exn = 5

abbrev pub stack_overflow_exn : ℕ
stack_overflow_exn = 8

-- The trap frame at `sp`: the handler's address, the link to the frame below, and the environment
-- and extra arguments to restore.
unfoldable pub resume_trap : Value → State → List Value → Option State
resume_trap exn s (code pc ∷ trap link ∷ env ∷ extra ∷ rest) = do
  n ← index_of extra
  some (record s { pc = pc; accu = exn; env = env; extra_args = n; stack = rest; trapsp = link })
resume_trap exn s _ = none

-- `raise_exception`. Without a handler above the stack that `interprete` was entered with, the
-- stack is cut down to that, and the exception is the result.
unfoldable pub raise_exception : Value → State → Option Outcome
unfolding pop_words resume_trap
raise_exception exn s =
    if leb s.trapsp s.initial_sp
    then (do
      rest ← pop_words (length s.stack - s.initial_sp) s.stack
      some (uncaught exn (record s { accu = exn; stack = rest })))
    else if leb s.trapsp (length s.stack)
    then (do frame ← pop_words (length s.stack - s.trapsp) s.stack; go (resume_trap exn s frame))
    else none

-- A C function raises one of the predefined exceptions.
unfoldable pub raise_predefined : ℕ → State → Option Outcome
unfolding exn_bucket raise_exception
raise_predefined n s = do
  (bucket, heap) ← exn_bucket n s
  raise_exception bucket (record s { heap = heap })
