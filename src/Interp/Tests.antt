-- ===== src/Interp/Tests.antt =====
-- Small programs, and the theorems on them.

use ocamil.Prelude.{ℕ, ◌+◌, ◌-◌, ◌<◌, ◌≡◌, refl, false, some, List, [], ◌∷◌, ◌++◌, arith}
use ocamil.Prelude.Int.{ℤ, pos, negsuc, ◌+ℤ◌, ◌-ℤ◌, ◌*ℤ◌}
use ocamil.Machine.Word.{val_long}
use ocamil.Machine.Value.{
  word, ptr, atom, code, trap, fields, closure_tag, Heap, val_int, code_val, index_of,
}
use ocamil.Interp.State.{State, next, stopped, go, saved_args, target, raise_exception}
use ocamil.Interp.Instr
use ocamil.Interp.Access.{constint}
use ocamil.Interp.Blocks.{makeblock_args}
use ocamil.Interp.Arith.{binary, addint}
use ocamil.Interp.Calls.{grab, apply, apply_args, push_retaddr, return}
use ocamil.Interp.Calls.Return.{return-apply_args, apply-push_retaddr}
use ocamil.Interp.Control.{Runtime, returned, pushtrap, poptrap}
use ocamil.Interp.Control.Traps.{raise_exception-pushtrap, poptrap-pushtrap}
use ocamil.Interp.Arith.{quotient, remainder, Test, val_bool}
use ocamil.Interp.Exec.{exec, steps}
use ocamil.Interp.Exec.Currying.{steps-grab-grab}
use ocamil.Interp.Exec.Integers.{
  exec_arithmetic, exec_division, exec_comparison, magnitude, HasSignOf,
}

abbrev runtime : Runtime
runtime = record {
  primitive = λ n args h. some (returned (word 1), h);
  process_event = λ h. some (returned (word 1), h);
}

-- Adds 5 and 7, and makes a block of the sum and 7.
abbrev program : List ℕ
program = 103 ∷ 7 ∷ 9 ∷ 9 ∷ 103 ∷ 5 ∷ 110 ∷ 64 ∷ 0 ∷ 141 ∷ []

abbrev globals : Heap
globals = fields 0 (word 1 ∷ word 3 ∷ word 5 ∷ word 7 ∷ word 9 ∷ word 11 ∷ []) ∷ []

abbrev start : State
start = record {
  pc = 0;
  accu = word 1;
  env = atom 0;
  extra_args = 0;
  stack = [];
  trapsp = 0;
  initial_sp = 0;
  globals = ptr 0 0;
  heap = globals;
  sizes = record { size = 4096; max_stack_size = 262144 };
  something_to_do = false;
}

program_run :
    steps runtime program 7 start
    ≡ some (
        stopped (ptr 1 0) (record start {
          pc = 10;
          accu = ptr 1 0;
          heap = globals ++ (fields 0 (val_int (pos 12) ∷ val_int (pos 7) ∷ []) ∷ []);
        }))
unfolding steps constint binary makeblock_args val_long addint
program_run = refl

-- The integer instructions at 17 and -5.
abbrev dividing : State
dividing = record start { accu = val_int (pos 17); stack = val_int (negsuc 4) ∷ word 1 ∷ [] }

abbrev divided : ℤ → State
divided n = record dividing { accu = val_int n; stack = word 1 ∷ [] }

exec_arithmetic_example :
    (exec runtime program Instr.addint dividing ≡ some (next (divided (pos 17 +ℤ negsuc 4))))
    × (exec runtime program Instr.subint dividing ≡ some (next (divided (pos 17 -ℤ negsuc 4))))
    × (exec runtime program Instr.mulint dividing ≡ some (next (divided (pos 17 *ℤ negsuc 4))))
exec_arithmetic_example =
    exec_arithmetic runtime program dividing (pos 17) (negsuc 4) (word 1 ∷ []) refl refl
      (omega arith) (omega arith)

exec_division_example :
    (exec runtime program Instr.divint dividing
      ≡ some (next (divided (quotient (pos 17) (negsuc 4)))))
    × (exec runtime program Instr.modint dividing
        ≡ some (next (divided (remainder (pos 17) (negsuc 4)))))
    × (quotient (pos 17) (negsuc 4) *ℤ negsuc 4 +ℤ remainder (pos 17) (negsuc 4) ≡ pos 17)
    × (magnitude (remainder (pos 17) (negsuc 4)) < 5)
    × HasSignOf (remainder (pos 17) (negsuc 4)) (pos 17)
exec_division_example =
    exec_division runtime program dividing (pos 17) (negsuc 4) (word 1 ∷ []) refl refl (omega arith)
      (omega arith) (ground arith)

exec_comparison_example :
    exec runtime program Instr.ltint dividing
    ≡ some (next (record dividing { accu = val_bool false; stack = word 1 ∷ [] }))
exec_comparison_example =
    exec_comparison runtime program dividing (pos 17) (negsuc 4) (word 1 ∷ []) refl refl
      (omega arith) (omega arith) Test.lt

quotient_run : quotient (pos 17) (negsuc 4) ≡ negsuc 2
unfolding quotient
quotient_run = refl

-- A trap whose handler is at 5, and an exception raised with two words above it.
abbrev trapping : List ℕ
trapping = 5 ∷ []

abbrev guarded : State
guarded = record start { stack = word 9 ∷ []; extra_args = 2 }

abbrev trapped : State
trapped = record guarded {
  pc = 1;
  stack = code 5 ∷ trap 0 ∷ atom 0 ∷ saved_args 2 ∷ word 9 ∷ [];
  trapsp = 5;
}

trapped_run : pushtrap trapping guarded ≡ some trapped
unfolding pushtrap ◌+ℤ◌
trapped_run = refl

handler_run : target 0 5 ≡ some 5
unfolding target ◌+ℤ◌
handler_run = refl

raise_exception-pushtrap_example :
    raise_exception
      (word 77)
      (record trapped { pc = 9; extra_args = 1; stack = word 1 ∷ word 3 ∷ trapped.stack })
    ≡ some (
        next (record trapped {
          pc = 5;
          accu = word 77;
          env = atom 0;
          extra_args = 2;
          stack = word 9 ∷ [];
          trapsp = 0;
        }))
raise_exception-pushtrap_example =
    raise_exception-pushtrap trapping guarded trapped 5 5 (omega arith) refl handler_run trapped_run
      (word 77) (record trapped { pc = 9; extra_args = 1; stack = word 1 ∷ word 3 ∷ trapped.stack })
      (word 1 ∷ word 3 ∷ []) refl refl (omega arith)

poptrap-pushtrap_example :
    poptrap runtime trapped ≡ some (next (record trapped { stack = word 9 ∷ []; trapsp = 0 }))
poptrap-pushtrap_example =
    poptrap-pushtrap trapping guarded trapped 5 5 (omega arith) refl handler_run trapped_run runtime
      trapped refl refl

-- A closure whose code is at 0, called with the argument 77, and its `RETURN` at 1.
abbrev closures : Heap
closures = fields closure_tag (code 0 ∷ []) ∷ []

abbrev calling : State
calling = record start { pc = 8; accu = ptr 0 0; heap = closures; stack = word 77 ∷ word 1 ∷ [] }

abbrev called : State
called = record calling {
  pc = 0;
  env = ptr 0 0;
  stack = word 77 ∷ code 8 ∷ atom 0 ∷ saved_args 0 ∷ word 1 ∷ [];
}

called_run : apply_args 1 calling ≡ some called
unfolding apply_args
called_run = refl

closure_code : code_val closures (ptr 0 0) ≡ some 0
unfolding code_val
closure_code = refl

-- One local is above the argument.
abbrev returning : State
returning = record called { pc = 1; accu = word 5; stack = word 3 ∷ called.stack }

abbrev return_two : List ℕ
return_two = 40 ∷ 2 ∷ []

return-apply_args_example :
    (called.pc ≡ 0)
    × (called.env ≡ calling.accu)
    × (called.extra_args ≡ 1 - 1)
    × (called.stack ≡ (word 77 ∷ []) ++ (code 8 ∷ atom 0 ∷ saved_args 0 ∷ word 1 ∷ []))
    × (return return_two returning
        ≡ some (record returning { pc = 8; env = atom 0; extra_args = 0; stack = word 1 ∷ [] }))
return-apply_args_example =
    return-apply_args return_two calling (word 77 ∷ []) (word 1 ∷ []) 0 called returning
      (word 3 ∷ []) (omega arith) refl closure_code called_run refl refl refl

-- The same call through `PUSH_RETADDR`, at 1 with the return address 8, and `APPLY` at 3.
abbrev general : List ℕ
general = 31 ∷ 7 ∷ 32 ∷ 1 ∷ []

abbrev preparing : State
preparing = record calling { pc = 1; stack = word 1 ∷ [] }

abbrev prepared : State
prepared = record preparing { pc = 2; stack = code 8 ∷ atom 0 ∷ saved_args 0 ∷ word 1 ∷ [] }

prepared_run : push_retaddr general preparing ≡ some prepared
unfolding push_retaddr ◌+ℤ◌
prepared_run = refl

target_run : target 1 7 ≡ some 8
unfolding target ◌+ℤ◌
target_run = refl

apply-push_retaddr_example :
    apply general (record prepared { pc = 3; stack = word 77 ∷ prepared.stack })
    ≡ apply_args 1
        (record prepared { pc = 8; env = atom 0; extra_args = 0; stack = word 77 ∷ word 1 ∷ [] })
apply-push_retaddr_example =
    apply-push_retaddr general preparing (word 77 ∷ []) 7 8 prepared
      (record prepared { pc = 3; stack = word 77 ∷ prepared.stack }) refl target_run prepared_run
      refl refl (λ e. cc e)

-- A function of two arguments: `RESTART` at 0, `GRAB` at 1. It gets the first one.
abbrev curried : List ℕ
curried = 41 ∷ 42 ∷ 1 ∷ 141 ∷ []

abbrev function : Heap
function = fields closure_tag (code 1 ∷ []) ∷ []

abbrev first_call : State
first_call = record start {
  pc = 2;
  heap = function;
  env = ptr 0 0;
  stack = word 77 ∷ code 9 ∷ atom 0 ∷ saved_args 4 ∷ word 1 ∷ [];
}

abbrev caller : State
caller = record start { extra_args = 4 }

abbrev suspended_at : State
suspended_at = record first_call {
  pc = 9;
  accu = ptr 1 0;
  env = atom 0;
  extra_args = 4;
  stack = word 1 ∷ [];
  heap = function ++ (fields closure_tag (code 0 ∷ ptr 0 0 ∷ word 77 ∷ []) ∷ []);
}

suspended_run : grab curried first_call ≡ some suspended_at
unfolding grab index_of val_long
suspended_run = refl

abbrev second_call : State
second_call = record suspended_at {
  pc = 0;
  env = ptr 1 0;
  extra_args = 0;
  stack = word 99 ∷ word 1 ∷ [];
}

steps-grab-grab_example :
    (suspended_at.pc ≡ 9)
    × (suspended_at.env ≡ caller.env)
    × (suspended_at.extra_args ≡ 4)
    × (suspended_at.stack ≡ word 1 ∷ [])
    × (code_val second_call.heap second_call.env ≡ some (2 - 2))
    × (steps runtime curried 2 second_call
        ≡ go (
            grab curried (record second_call {
              pc = 2;
              env = ptr 0 0;
              stack = (word 77 ∷ []) ++ second_call.stack;
              extra_args = 0 + (1 + 0);
            })))
steps-grab-grab_example =
    steps-grab-grab runtime curried 1 9 first_call caller suspended_at second_call (word 77 ∷ [])
      (word 1 ∷ []) (omega arith) refl (omega arith) refl refl (omega arith) refl refl suspended_run
      refl refl refl
