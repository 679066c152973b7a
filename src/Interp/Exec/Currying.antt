-- ===== src/Interp/Exec/Currying.antt =====
-- A function that takes its arguments in portions, as the interpreter runs it.
use ocamil.Prelude.{
  ℕ, ◌+◌, ◌-◌, ◌^◌, ◌≤◌, ◌<◌, ◌≡◌, refl, Option, none, some, List, [], ◌∷◌, ◌++◌, arith, length,
  get_elem?, ◌>>=◌, ◌∙◌, ap,
}
use ocamil.Machine.Value.{Value, ptr, code_val}
use ocamil.Interp.State.{State, next, go, operand, skip}
use ocamil.Interp.Calls.{grab, restart}
use ocamil.Interp.Calls.Return.{frame}
use ocamil.Interp.Calls.Partial.{suspended, grab-few, restart-suspended, get_elem?-snoc}
use ocamil.Interp.Control.{Runtime}
use ocamil.Interp.Exec.{steps, step, follow}

-- The opcodes of `RESTART` and `GRAB`.
abbrev pub restart_opcode : ℕ
restart_opcode = 41

abbrev pub grab_opcode : ℕ
grab_opcode = 42

module _ (rt : Runtime) (prog : List ℕ) (s : State) where
  step-restart :
      get_elem? prog s.pc ≡ some restart_opcode → step rt prog s ≡ go (restart (skip 1 s))
  unfolding step
  step-restart e = rw e

  step-grab : get_elem? prog s.pc ≡ some grab_opcode → step rt prog s ≡ go (grab prog (skip 1 s))
  unfolding step
  step-grab e = rw e

follow-go : (o : Option State) → (go o >>= follow (λ s. some (next s))) ≡ go o
follow-go none = refl
follow-go (some s) = refl

module _ (rt : Runtime) (prog : List ℕ) (u : State) (env : Value) (args : List Value)
    (b pc : ℕ) where
  -- The code of a suspended application is `RESTART` and then the `GRAB`.
  steps-suspended :
      get_elem? prog pc ≡ some restart_opcode
      → get_elem? prog (pc + 1) ≡ some grab_opcode
      → get_elem? u.heap b ≡ some (suspended pc env args)
      → u.env ≡ ptr b 0
      → u.pc ≡ pc
      → steps rt prog 2 u
        ≡ go (
            grab prog (record u {
              pc = pc + 1 + 1;
              env = env;
              stack = args ++ u.stack;
              extra_args = u.extra_args + length args;
            }))
  unfolding steps
  steps-suspended is_restart is_grab block e at_pc =
      let first = step-restart rt prog u (rw at_pc is_restart) in
      let pushed = restart-suspended (skip 1 u) env args b pc block e in
      let t : State = record (skip 1 u) {
        env = env;
        stack = args ++ u.stack;
        extra_args = u.extra_args + length args;
      } in
      let second = step-grab rt prog t (rw at_pc is_grab) in
      rw (first, pushed, second, follow-go)
        (ap (λ i. go (grab prog (record t { pc = i + 1 + 1 }))) at_pc)

-- Giving a function its arguments in two portions is the same as giving them at once. Let `GRAB`,
-- in the state `s`, find fewer arguments than it requires, return `s1` to the caller, and let the
-- closure that it made be called later, in a state `u` with the closure's block still in the heap.
-- Then `RESTART` and `GRAB`, run from the closure's code, do what `GRAB` does for a call with the
-- environment of `s`, its arguments, and behind them those of `u`: whether these are enough, or the
-- function is suspended once more. `s1` is the caller's frame, with the closure as its result.
pub steps-grab-grab :
    (rt : Runtime) (prog : List ℕ) (required ret : ℕ) (s caller s1 u : State)
    (args rest : List Value)
    → caller.extra_args < 2 ^ 30
    → operand prog s 0 ≡ some required
    → s.extra_args < required
    → length args ≡ 1 + s.extra_args
    → s.stack ≡ args ++ (frame prog caller ret ++ rest)
    → 2 ≤ s.pc
    → get_elem? prog (s.pc - 2) ≡ some restart_opcode
    → get_elem? prog (s.pc - 2 + 1) ≡ some grab_opcode
    → grab prog s ≡ some s1
    → get_elem? u.heap (length s.heap) ≡ get_elem? s1.heap (length s.heap)
    → u.env ≡ s1.accu
    → u.pc ≡ s.pc - 2
    → (s1.pc ≡ ret)
      × (s1.env ≡ caller.env)
      × (s1.extra_args ≡ caller.extra_args)
      × (s1.stack ≡ rest)
      × (code_val u.heap u.env ≡ some (s.pc - 2))
      × (steps rt prog 2 u
          ≡ go (
              grab prog (record u {
                pc = s.pc;
                env = s.env;
                stack = args ++ u.stack;
                extra_args = u.extra_args + (1 + s.extra_args);
              })))
unfolding code_val
steps-grab-grab rt prog required ret s caller s1 u args rest few o lack count e two is_restart
      is_grab grabbed kept at_env at_pc =
    let known = grab-few prog required s args rest caller few o two lack count ret e in
    let heap : s1.heap ≡ s.heap ++ (suspended (s.pc - 2) s.env args ∷ []) = ground arith in
    let block : get_elem? u.heap (length s.heap) ≡ some (suspended (s.pc - 2) s.env args) =
      kept ∙ ap (λ h. get_elem? h (length s.heap)) heap ∙ get_elem?-snoc s.heap _ in
    let env : u.env ≡ ptr (length s.heap) 0 = ground arith in
    let after : s.pc - 2 + 1 + 1 ≡ s.pc = omega arith in
    let run =
      steps-suspended rt prog u s.env args (length s.heap) (s.pc - 2) is_restart is_grab block env
        at_pc in
    (
      ground arith,
      ground arith,
      ground arith,
      ground arith,
      rw (env, block),
      rw (← count, ← after) run,
    )
