-- ===== src/Interp/Calls/Return.antt =====
-- A call and its return.
use ocamil.Prelude.{
  ℕ, ◌+◌, ◌-◌, ◌^◌, ◌<◌, ◌≡◌, refl, false, ◌==◌, some, List, [], ◌∷◌, ◌++◌, arith, length,
  length-append, ap, sym, ◌∙◌, ◌≢◌,
}
use ocamil.Machine.Value.{Value, code, code_val}
use ocamil.Interp.State.{State, operand, saved_args, target, pop_words, top_words}
use ocamil.Interp.State.Frames.{pop_words-append, top_words-append, index_of-saved_args}
use ocamil.Interp.Calls.{apply_args, enter, return, pop_frame, push_retaddr, apply}
use mathlib.Core.List.{append_assoc}

length-ne-zero : (args : List Value) → args ≢ [] → (length args == 0) ≡ false
length-ne-zero [] h = absurd (h refl)
length-ne-zero (x ∷ xs) h = ground arith

module _ (prog : List ℕ) (s : State) where
  -- The return frame of a call in the state `s`, with the return address.
  abbrev pub frame : ℕ → List Value
  frame ret = code ret ∷ s.env ∷ saved_args s.extra_args ∷ []

  -- `APPLY1`, `APPLY2` and `APPLY3` put the return frame in below the arguments and enter the code
  -- of the closure: it becomes the environment, and all but one of the arguments are extra.
  apply_args-frame :
      (args rest : List Value) (entry : ℕ)
      → s.stack ≡ args ++ rest
      → code_val s.heap s.accu ≡ some entry
      → apply_args (length args) s
        ≡ some (record s {
          pc = entry;
          env = s.accu;
          stack = args ++ (frame s.pc ++ rest);
          extra_args = length args - 1;
        })
  unfolding apply_args enter
  apply_args-frame args rest entry e c =
      let top : top_words (length args) s.stack ≡ some args = rw e (top_words-append args rest) in
      let low : pop_words (length args) s.stack ≡ some rest = rw e (pop_words-append args rest) in
      rw (top, low, c)

  return-frame :
      (t : State) (locals rest : List Value) (ret : ℕ)
      → s.extra_args < 2 ^ 30
      → t.stack ≡ locals ++ (frame ret ++ rest)
      → operand prog t 0 ≡ some (length locals)
      → t.extra_args ≡ 0
      → return prog t
        ≡ some (record t { pc = ret; env = s.env; extra_args = s.extra_args; stack = rest })
  unfolding return pop_frame
  return-frame t locals rest ret few e o none_left =
      let popped : pop_words (length locals) t.stack ≡ some (frame ret ++ rest) =
        rw e (pop_words-append locals (frame ret ++ rest)) in
      ground (arith, index_of-saved_args s.extra_args few)

  -- A call of one to three arguments, and the return from it. The callee starts at its code, with
  -- itself as the environment, all arguments but one extra, and the arguments on top of the stack.
  -- If it comes to its `RETURN` with no argument left and with only `locals` above the stack that it
  -- started with, then the caller goes on behind the call: its address, environment and extra
  -- arguments are restored, and the arguments are gone from its stack. The accumulator is the result.
  pub return-apply_args :
      (args rest : List Value) (entry : ℕ) (s1 t : State) (locals : List Value)
      → s.extra_args < 2 ^ 30
      → s.stack ≡ args ++ rest
      → code_val s.heap s.accu ≡ some entry
      → apply_args (length args) s ≡ some s1
      → t.stack ≡ locals ++ s1.stack
      → operand prog t 0 ≡ some (length locals + length args)
      → t.extra_args ≡ 0
      → (s1.pc ≡ entry)
        × (s1.env ≡ s.accu)
        × (s1.extra_args ≡ length args - 1)
        × (s1.stack ≡ args ++ (frame s.pc ++ rest))
        × (return prog t
            ≡ some (record t { pc = s.pc; env = s.env; extra_args = s.extra_args; stack = rest }))
  return-apply_args args rest entry s1 t locals few e c called e' o none_left =
      let start = apply_args-frame args rest entry e c in
      let pc : s1.pc ≡ entry = ground arith in
      let stack : s1.stack ≡ args ++ (frame s.pc ++ rest) = ground arith in
      let above : t.stack ≡ (locals ++ args) ++ (frame s.pc ++ rest) =
        e' ∙ ap (λ xs. locals ++ xs) stack ∙ sym (append_assoc locals args (frame s.pc ++ rest)) in
      let count : operand prog t 0 ≡ some (length (locals ++ args)) = rw (length-append) o in
      (
        pc,
        ground arith,
        ground arith,
        stack,
        return-frame t (locals ++ args) rest s.pc few above count none_left,
      )

  -- A general call, whose return frame `PUSH_RETADDR` has put on the stack before the arguments, is
  -- the short form of the call, which puts it in behind them, with the return address that was
  -- given. Both fail where the accumulator is no closure.
  pub apply-push_retaddr :
      (args : List Value) (offset ret : ℕ) (s1 t : State)
      → operand prog s 0 ≡ some offset
      → target s.pc offset ≡ some ret
      → push_retaddr prog s ≡ some s1
      → t.stack ≡ args ++ s1.stack
      → operand prog t 0 ≡ some (length args)
      → args ≢ []
      → apply prog t
        ≡ apply_args
            (length args)
            (record t { pc = ret; env = s.env; extra_args = s.extra_args; stack = args ++ s.stack })
  unfolding apply apply_args push_retaddr enter
  apply-push_retaddr args offset ret s1 t o r pushed e o' some_args =
      let low = pop_words-append args s.stack in
      let top = top_words-append args s.stack in
      let stack : s1.stack ≡ frame ret ++ s.stack = ground arith in
      let whole : t.stack ≡ args ++ (frame ret ++ s.stack) = e ∙ ap (λ xs. args ++ xs) stack in
      let count : (length args == 0) ≡ false = length-ne-zero args some_args in
      rw (o', count, top, low, whole)
