-- ===== src/Interp/Control/Traps.antt =====
-- `PUSHTRAP`, `POPTRAP` and `RAISE`: the discipline of trap frames.
use ocamil.Prelude.{
  ℕ, ◌+◌, ◌-◌, ◌^◌, ◌≤◌, ◌<◌, ◌≡◌, ◌∙◌, true, false, some, List, ◌∷◌, ◌++◌, arith, length,
  length-append, leb,
}
use ocamil.Machine.Value.{Value, code, trap}
use ocamil.Interp.State.{
  State, next, operand, target, saved_args, pop_words, resume_trap, raise_exception,
}
use ocamil.Interp.State.Frames.{pop_words-append, index_of-saved_args}
use ocamil.Interp.Control.{Runtime, pushtrap, drop_trap, poptrap}

-- The words above a suffix of the stack are those that a longer stack has more.
pop_words-above :
    (xs ys : List Value) (n : ℕ)
    → n ≡ length ys
    → pop_words (length (xs ++ ys) - n) (xs ++ ys) ≡ some ys
pop_words-above xs ys n e =
    let count : length (xs ++ ys) - n ≡ length xs = omega (arith, length-append xs ys) in
    rw count (pop_words-append xs ys)

module _ (prog : List ℕ) (s s1 : State) (n h : ℕ) (few : s.extra_args < 2 ^ 30)
    (offset : operand prog s 0 ≡ some n) (handler : target s.pc n ≡ some h)
    (pushed : pushtrap prog s ≡ some s1) where
  abbrev frame : List Value
  frame = code h ∷ trap s.trapsp ∷ s.env ∷ saved_args s.extra_args ∷ s.stack

  pushtrap-frame : (s1.stack ≡ frame) × (s1.trapsp ≡ length s.stack + 4)
  unfolding pushtrap
  pushtrap-frame = ground arith

  -- Raising an exception runs the handler of the innermost `PUSHTRAP`. Take any state that is
  -- reached with that frame current and below whatever is on the stack: the exception is in the
  -- accumulator, the code goes on at the handler, and the stack, the environment, the extra
  -- arguments and the trap pointer are those of the `PUSHTRAP`. The heap and the globals are not
  -- rolled back.
  pub raise_exception-pushtrap :
      (exn : Value) (t : State) (above : List Value)
      → t.stack ≡ above ++ s1.stack
      → t.trapsp ≡ s1.trapsp
      → t.initial_sp ≤ length s.stack
      → raise_exception exn t
        ≡ some (
            next (record t {
              pc = h;
              accu = exn;
              env = s.env;
              extra_args = s.extra_args;
              stack = s.stack;
              trapsp = s.trapsp;
            }))
  unfolding pushtrap raise_exception resume_trap
  raise_exception-pushtrap exn t above e e' low =
      let (f, g) = pushtrap-frame in
      let stack : t.stack ≡ above ++ frame = rw (← f) e in
      let count = pop_words-above above frame t.trapsp (omega arith) in
      let at_frame : pop_words (length t.stack - t.trapsp) t.stack ≡ some frame = rw stack count in
      let high : leb t.trapsp t.initial_sp ≡ false = ground arith in
      let inside : leb t.trapsp (length t.stack) ≡ true =
        rw stack (ground (arith, length-append above frame)) in
      rw (high, inside, at_frame, index_of-saved_args s.extra_args few)

  -- With no signal pending, `POPTRAP` on that frame takes it off: the stack and the trap pointer are
  -- those of the `PUSHTRAP`, and nothing else changes.
  pub poptrap-pushtrap :
      (rt : Runtime) (t : State)
      → t.stack ≡ s1.stack
      → t.something_to_do ≡ false
      → poptrap rt t ≡ some (next (record t { stack = s.stack; trapsp = s.trapsp }))
  unfolding poptrap drop_trap
  poptrap-pushtrap rt t e quiet = let stack : t.stack ≡ frame = e ∙ pushtrap-frame.0 in ground arith
