-- ===== src/Interp/Safety/Closures.antt =====
-- Pointers and the closures that byterun/interp.c makes.
use ocamil.Prelude.{
  ℕ, zero, suc, ◌+◌, ◌-◌, ◌<◌, List, ◌∷◌, ◌++◌, ltb, ◌==◌, not, get_elem?, length, Bool-cases, inl,
  inr, require,
}
use ocamil.Machine.Value.{Value, code, Block, fields, alloc, closure_tag}
use ocamil.Interp.State.{State, operand, target}
use ocamil.Interp.Closures.{push_vars, closure, infix_words, push_functions, closurerec}
use ocamil.Interp.Safety.{Holds, holds, AllIn, Closed, IsClosed}
use ocamil.Interp.Safety.Lists.{bind, bind_any, append-AllIn, pop_words-AllIn, top_words-AllIn}
use ocamil.Interp.Safety.Access.{with_stack, allocated}

infix_words-AllIn : (m : ℕ) (prog : List ℕ) (pc i n : ℕ) → Holds (AllIn m) (infix_words prog pc i n)
unfolding infix_words
infix_words-AllIn m prog pc i zero = holds tt
infix_words-AllIn m prog pc i (suc n) = bind_any (AllIn m) (get_elem? prog (pc + i)) _ λ offset.
    bind_any (AllIn m) (target pc offset) _ λ start.
      bind (AllIn m) (AllIn m) _ _ (infix_words-AllIn m prog pc (i + 1) n)
        λ words h. holds (tt, (tt, h))

push_functions-AllIn :
    (m block i n : ℕ) (vs : List Value)
    → block < m
    → AllIn m vs
    → AllIn m (push_functions block i n vs)
unfolding push_functions
push_functions-AllIn m block i zero vs h k = k
push_functions-AllIn m block i (suc n) vs h k = push_functions-AllIn m block (i + 1) n _ h (h, k)

module _ (prog : List ℕ) (s : State) (c : IsClosed s) where
  push_vars-AllIn : (nvars : ℕ) → AllIn (length s.heap) (push_vars nvars s).stack
  push_vars-AllIn nvars = elim (Bool-cases (ltb 0 nvars)) [
    | inl e ↦ rw e (c.accu_in, c.stack_in)
    | inr e ↦ rw e c.stack_in
  ]

  pub closure-IsClosed : Holds IsClosed (closure prog s)
  unfolding closure
  closure-IsClosed = bind_any IsClosed (operand prog s 0) _ λ nvars.
      bind_any IsClosed (operand prog s 1) _ λ offset.
        bind_any IsClosed (target (s.pc + 1) offset) _ λ start.
          bind (AllIn (length s.heap)) IsClosed _ _
            (top_words-AllIn (length s.heap) nvars _ (push_vars-AllIn nvars))
            λ vars h.
              bind (AllIn (length s.heap)) IsClosed _ _
                (pop_words-AllIn (length s.heap) nvars _ (push_vars-AllIn nvars))
                λ rest k.
                  holds
                    (allocated (with_stack c k) (fields closure_tag (code start ∷ vars)) (tt, h))

  pub closurerec-IsClosed : Holds IsClosed (closurerec prog s)
  unfolding closurerec
  closurerec-IsClosed = bind_any IsClosed (operand prog s 0) _ λ nfuncs.
      bind_any IsClosed (require (not (nfuncs == 0))) _ λ _.
        bind_any IsClosed (operand prog s 1) _ λ nvars.
          bind (AllIn (length s.heap)) IsClosed _ _
            (top_words-AllIn (length s.heap) nvars _ (push_vars-AllIn nvars))
            λ vars h.
              bind (AllIn (length s.heap)) IsClosed _ _
                (pop_words-AllIn (length s.heap) nvars _ (push_vars-AllIn nvars))
                λ rest k. bind_any IsClosed (operand prog s 2) _ λ offset.
                  bind_any IsClosed (target (s.pc + 2) offset) _ λ start.
                    bind (AllIn (length s.heap)) IsClosed _ _
                      (infix_words-AllIn (length s.heap) prog (s.pc + 2) 1 (nfuncs - 1))
                      λ words p. holds (made nfuncs vars rest words start h k p)
    where
      made :
          (nfuncs : ℕ) (vars rest words : List Value) (start : ℕ)
          → AllIn (length s.heap) vars
          → AllIn (length s.heap) rest
          → AllIn (length s.heap) words
          → let block : Block = fields closure_tag ((code start ∷ words) ++ vars) in
            Closed
              (alloc s.heap block).0
              s.env
              s.globals
              (push_functions (length s.heap) 1 (nfuncs - 1) ((alloc s.heap block).0 ∷ rest))
              (alloc s.heap block).1
      made nfuncs vars rest words start h k p =
          let block : Block = fields closure_tag ((code start ∷ words) ++ vars) in
          let whole =
            allocated (with_stack c k) block (tt, append-AllIn (length s.heap) words vars p h) in
          with_stack whole (
            push_functions-AllIn _ (length s.heap) 1 (nfuncs - 1) _ whole.accu_in
              (whole.accu_in, whole.stack_in))
