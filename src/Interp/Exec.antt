-- ===== src/Interp/Exec.antt =====
-- Dispatch of the instructions, one step, and runs of byterun/interp.c. The debugger's
-- instructions EVENT and BREAK, which restart the saved instruction, are faults.
pub mod Currying
pub mod Integers
use Prim.Native.Nat.{bit_and, bit_or}
use ocamil.Prelude.{
  ℕ, zero, suc, ◌+◌, Option, some, none, List, ltb, leb, ◌==◌, not, get_elem?, ◌>>=◌,
}
use ocamil.Prelude.Int.{pos, negsuc}
use ocamil.Interp.Instr
use ocamil.Interp.Instr.{Instr, instr_of}
use ocamil.Interp.State.{
  State, Outcome, next, stopped, uncaught, go, push_accu, skip, raise_exception,
}
use ocamil.Interp.Access.{
  acc, acc_operand, pop, assign, envacc, envacc_operand, offsetclosure, offsetclosure_operand,
  getglobal, getglobalfield, setglobal, const, constint, atom_of, atom_operand,
}
use ocamil.Interp.Calls.{
  push_retaddr, apply, apply_args, appterm, appterm_args, return, restart, grab,
}
use ocamil.Interp.Closures.{closure, closurerec}
use ocamil.Interp.Blocks.{
  makeblock, makeblock_args, makefloatblock, getfield, getfield_operand, getfloatfield, setfield,
  setfield_operand, setfloatfield, vectlength, getvectitem, setvectitem, getstringchar,
  setstringchar,
}
use ocamil.Interp.Control.{
  Runtime, branch, branchif, branchifnot, switch, boolnot, pushtrap, poptrap, getmethod,
  check_after, check_signals, c_call, c_calln,
}
use ocamil.Interp.Arith.{
  negint, addint, subint, mulint, quotient, remainder, lslint, lsrint, asrint, xorint, binary,
  unary, total, shifted, divide, equality, comparison, Test, signed_test, branch_comparison,
  offsetint, offsetref, isint,
}

abbrev pub follow : (State → Option Outcome) → Outcome → Option Outcome
follow k (next s) = k s
follow k (stopped v s) = some (stopped v s)
follow k (uncaught v s) = some (uncaught v s)

module _ (rt : Runtime) (prog : List ℕ) where
  unfoldable pub exec : Instr → State → Option Outcome
  exec Instr.acc0 s = go (acc 0 s)
  exec Instr.acc1 s = go (acc 1 s)
  exec Instr.acc2 s = go (acc 2 s)
  exec Instr.acc3 s = go (acc 3 s)
  exec Instr.acc4 s = go (acc 4 s)
  exec Instr.acc5 s = go (acc 5 s)
  exec Instr.acc6 s = go (acc 6 s)
  exec Instr.acc7 s = go (acc 7 s)
  exec Instr.push s = go (some (push_accu s))
  exec Instr.pushacc0 s = go (some (push_accu s))
  exec Instr.pushacc1 s = go (acc 1 (push_accu s))
  exec Instr.pushacc2 s = go (acc 2 (push_accu s))
  exec Instr.pushacc3 s = go (acc 3 (push_accu s))
  exec Instr.pushacc4 s = go (acc 4 (push_accu s))
  exec Instr.pushacc5 s = go (acc 5 (push_accu s))
  exec Instr.pushacc6 s = go (acc 6 (push_accu s))
  exec Instr.pushacc7 s = go (acc 7 (push_accu s))
  exec Instr.pushacc s = go (acc_operand prog (push_accu s))
  exec Instr.acc s = go (acc_operand prog s)
  exec Instr.pop s = go (pop prog s)
  exec Instr.assign s = go (assign prog s)
  exec Instr.envacc1 s = go (envacc 1 s)
  exec Instr.envacc2 s = go (envacc 2 s)
  exec Instr.envacc3 s = go (envacc 3 s)
  exec Instr.envacc4 s = go (envacc 4 s)
  exec Instr.pushenvacc1 s = go (envacc 1 (push_accu s))
  exec Instr.pushenvacc2 s = go (envacc 2 (push_accu s))
  exec Instr.pushenvacc3 s = go (envacc 3 (push_accu s))
  exec Instr.pushenvacc4 s = go (envacc 4 (push_accu s))
  exec Instr.pushenvacc s = go (envacc_operand prog (push_accu s))
  exec Instr.envacc s = go (envacc_operand prog s)
  exec Instr.push_retaddr s = go (push_retaddr prog s)
  exec Instr.apply s = check_after rt (apply prog s)
  exec Instr.apply1 s = check_after rt (apply_args 1 s)
  exec Instr.apply2 s = check_after rt (apply_args 2 s)
  exec Instr.apply3 s = check_after rt (apply_args 3 s)
  exec Instr.appterm s = check_after rt (appterm prog s)
  exec Instr.appterm1 s = check_after rt (appterm_args prog 1 s)
  exec Instr.appterm2 s = check_after rt (appterm_args prog 2 s)
  exec Instr.appterm3 s = check_after rt (appterm_args prog 3 s)
  exec Instr.return s = go (return prog s)
  exec Instr.restart s = go (restart s)
  exec Instr.grab s = go (grab prog s)
  exec Instr.closure s = go (closure prog s)
  exec Instr.closurerec s = go (closurerec prog s)
  exec Instr.pushoffsetclosure s = go (offsetclosure_operand prog (push_accu s))
  exec Instr.offsetclosure s = go (offsetclosure_operand prog s)
  exec Instr.pushoffsetclosurem2 s = go (offsetclosure (negsuc 1) (push_accu s))
  exec Instr.offsetclosurem2 s = go (offsetclosure (negsuc 1) s)
  exec Instr.pushoffsetclosure0 s = go (offsetclosure (pos 0) (push_accu s))
  exec Instr.offsetclosure0 s = go (offsetclosure (pos 0) s)
  exec Instr.pushoffsetclosure2 s = go (offsetclosure (pos 2) (push_accu s))
  exec Instr.offsetclosure2 s = go (offsetclosure (pos 2) s)
  exec Instr.pushgetglobal s = go (getglobal prog (push_accu s))
  exec Instr.getglobal s = go (getglobal prog s)
  exec Instr.pushgetglobalfield s = go (getglobalfield prog (push_accu s))
  exec Instr.getglobalfield s = go (getglobalfield prog s)
  exec Instr.setglobal s = go (setglobal prog s)
  exec Instr.pushatom0 s = go (some (atom_of 0 (push_accu s)))
  exec Instr.atom0 s = go (some (atom_of 0 s))
  exec Instr.pushatom s = go (atom_operand prog (push_accu s))
  exec Instr.atom s = go (atom_operand prog s)
  exec Instr.makeblock s = go (makeblock prog s)
  exec Instr.makeblock1 s = go (makeblock_args prog 1 s)
  exec Instr.makeblock2 s = go (makeblock_args prog 2 s)
  exec Instr.makeblock3 s = go (makeblock_args prog 3 s)
  exec Instr.makefloatblock s = go (makefloatblock prog s)
  exec Instr.getfield0 s = go (getfield 0 s)
  exec Instr.getfield1 s = go (getfield 1 s)
  exec Instr.getfield2 s = go (getfield 2 s)
  exec Instr.getfield3 s = go (getfield 3 s)
  exec Instr.getfield s = go (getfield_operand prog s)
  exec Instr.getfloatfield s = go (getfloatfield prog s)
  exec Instr.setfield0 s = go (setfield 0 s)
  exec Instr.setfield1 s = go (setfield 1 s)
  exec Instr.setfield2 s = go (setfield 2 s)
  exec Instr.setfield3 s = go (setfield 3 s)
  exec Instr.setfield s = go (setfield_operand prog s)
  exec Instr.setfloatfield s = go (setfloatfield prog s)
  exec Instr.vectlength s = go (vectlength s)
  exec Instr.getvectitem s = go (getvectitem s)
  exec Instr.setvectitem s = go (setvectitem s)
  exec Instr.getstringchar s = go (getstringchar s)
  exec Instr.setstringchar s = go (setstringchar s)
  exec Instr.branch s = go (branch prog s)
  exec Instr.branchif s = go (branchif prog s)
  exec Instr.branchifnot s = go (branchifnot prog s)
  exec Instr.switch s = go (switch prog s)
  exec Instr.boolnot s = go (boolnot s)
  exec Instr.pushtrap s = go (pushtrap prog s)
  exec Instr.poptrap s = poptrap rt s
  exec Instr.raise s = raise_exception s.accu s
  exec Instr.check_signals s = check_signals rt s
  exec Instr.c_call1 s = c_call rt prog 1 s
  exec Instr.c_call2 s = c_call rt prog 2 s
  exec Instr.c_call3 s = c_call rt prog 3 s
  exec Instr.c_call4 s = c_call rt prog 4 s
  exec Instr.c_call5 s = c_call rt prog 5 s
  exec Instr.c_calln s = c_calln rt prog s
  exec Instr.const0 s = go (some (const (pos 0) s))
  exec Instr.const1 s = go (some (const (pos 1) s))
  exec Instr.const2 s = go (some (const (pos 2) s))
  exec Instr.const3 s = go (some (const (pos 3) s))
  exec Instr.pushconst0 s = go (some (const (pos 0) (push_accu s)))
  exec Instr.pushconst1 s = go (some (const (pos 1) (push_accu s)))
  exec Instr.pushconst2 s = go (some (const (pos 2) (push_accu s)))
  exec Instr.pushconst3 s = go (some (const (pos 3) (push_accu s)))
  exec Instr.pushconstint s = go (constint prog (push_accu s))
  exec Instr.constint s = go (constint prog s)
  exec Instr.negint s = go (unary negint s)
  exec Instr.addint s = go (binary (total addint) s)
  exec Instr.subint s = go (binary (total subint) s)
  exec Instr.mulint s = go (binary (total mulint) s)
  exec Instr.divint s = divide quotient s
  exec Instr.modint s = divide remainder s
  exec Instr.andint s = go (binary (total bit_and) s)
  exec Instr.orint s = go (binary (total bit_or) s)
  exec Instr.xorint s = go (binary (total xorint) s)
  exec Instr.lslint s = go (binary (shifted lslint) s)
  exec Instr.lsrint s = go (binary (shifted lsrint) s)
  exec Instr.asrint s = go (binary (shifted asrint) s)
  exec Instr.eq s = go (equality (λ b. b) s)
  exec Instr.neq s = go (equality not s)
  exec Instr.ltint s = go (comparison (signed_test Test.lt) s)
  exec Instr.leint s = go (comparison (signed_test Test.le) s)
  exec Instr.gtint s = go (comparison (signed_test Test.gt) s)
  exec Instr.geint s = go (comparison (signed_test Test.ge) s)
  exec Instr.ultint s = go (comparison ltb s)
  exec Instr.ugeint s = go (comparison (λ a b. leb b a) s)
  exec Instr.beq s = go (branch_comparison (λ a b. a == b) prog s)
  exec Instr.bneq s = go (branch_comparison (λ a b. not (a == b)) prog s)
  exec Instr.bltint s = go (branch_comparison (signed_test Test.lt) prog s)
  exec Instr.bleint s = go (branch_comparison (signed_test Test.le) prog s)
  exec Instr.bgtint s = go (branch_comparison (signed_test Test.gt) prog s)
  exec Instr.bgeint s = go (branch_comparison (signed_test Test.ge) prog s)
  exec Instr.bultint s = go (branch_comparison ltb prog s)
  exec Instr.bugeint s = go (branch_comparison (λ a b. leb b a) prog s)
  exec Instr.offsetint s = go (offsetint prog s)
  exec Instr.offsetref s = go (offsetref prog s)
  exec Instr.isint s = go (some (isint s))
  exec Instr.getmethod s = go (getmethod s)
  exec Instr.stop s = some (stopped s.accu s)
  exec Instr.event s = none
  exec Instr.break s = none

  -- Fetches the instruction at `pc` and executes it.
  unfoldable pub step : State → Option Outcome
  unfolding exec instr_of
  step s = do opcode ← get_elem? prog s.pc; i ← instr_of opcode; exec i (skip 1 s)

  -- A number of steps, each of which goes on to the next instruction.
  unfoldable pub steps : ℕ → State → Option Outcome
  unfolding step
  steps zero s = some (next s)
  steps (suc n) s = step s >>= follow (steps n)
