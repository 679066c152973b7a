-- ===== src/Interp/Safety/Calls.antt =====
-- Pointers and the calls and returns of byterun/interp.c.
use ocamil.Prelude.{
  ℕ, zero, suc, ◌+◌, ◌-◌, Option, List, [], ◌∷◌, ◌++◌, ◌&&◌, not, ◌==◌, length, leb, ltb,
  if◌then◌else◌, Bool, true, false, require,
}
use ocamil.Machine.Value.{
  Value, word, ptr, atom, code, trap, Block, fields, code_val, alloc, index_of, closure_tag,
}
use ocamil.Interp.State.{State, top_words, operand, target, saved_args}
use ocamil.Interp.Calls.{
  push_retaddr, enter, apply, apply_args, slide, appterm, appterm_args, pop_frame, return,
  saved_fields, restart, suspend, grab,
}
use ocamil.Interp.Safety.{Holds, fault, holds, InHeap, AllIn, BlockIn, IsClosed}
use ocamil.Interp.Safety.Lists.{bind, bind_any, append-AllIn, pop_words-AllIn, top_words-AllIn}
use ocamil.Interp.Safety.Heaps.{get_elem?-BlockIn, block_fields-AllIn, field-InHeap}
use ocamil.Interp.Safety.Access.{with_stack, with_env, allocated, popped}

-- A test that guards code that may fault.
pub if-Holds {ℓ κ} :
    {A : Type ℓ} {P : A → Type κ} (b : Bool) {x y : Option A}
    → Holds P x
    → Holds P y
    → Holds P (if b then x else y)
if-Holds true h k = h
if-Holds false h k = k

module _ (s : State) (c : IsClosed s) where
  pub enter-IsClosed : Holds IsClosed (enter s)
  unfolding enter
  enter-IsClosed = bind_any IsClosed (code_val s.heap s.accu) _ (λ pc. holds (with_env c c.accu_in))

  pub top : (k : ℕ) → Holds (AllIn (length s.heap)) (top_words k s.stack)
  top k = top_words-AllIn (length s.heap) k s.stack c.stack_in

  pub pop_frame-IsClosed :
      (vs : List Value) → AllIn (length s.heap) vs → Holds IsClosed (pop_frame s vs)
  unfolding pop_frame
  pop_frame-IsClosed [] h = fault
  pop_frame-IsClosed (word _ ∷ vs) h = fault
  pop_frame-IsClosed (ptr _ _ ∷ vs) h = fault
  pop_frame-IsClosed (atom _ ∷ vs) h = fault
  pop_frame-IsClosed (trap _ ∷ vs) h = fault
  pop_frame-IsClosed (code pc ∷ []) h = fault
  pop_frame-IsClosed (code pc ∷ env ∷ []) h = fault
  pop_frame-IsClosed (code pc ∷ env ∷ extra ∷ rest) h =
      bind_any IsClosed (index_of extra) _ (λ n. holds (with_stack (with_env c h.1.0) h.1.1.1))

  saved_fields-AllIn : (v : Value) → Holds (AllIn (length s.heap)) (saved_fields s.heap v)
  unfolding saved_fields
  saved_fields-AllIn (ptr b zero) =
      bind (BlockIn (length s.heap)) (AllIn (length s.heap)) _ _
        (get_elem?-BlockIn (length s.heap) s.heap b c.heap_in)
        λ block h.
          bind (AllIn (length s.heap)) (AllIn (length s.heap)) _ _
            (block_fields-AllIn (length s.heap) block h)
            λ vs k. pop_words-AllIn (length s.heap) 2 vs k
  saved_fields-AllIn (ptr b (suc _)) = fault
  saved_fields-AllIn (word _) = fault
  saved_fields-AllIn (atom _) = fault
  saved_fields-AllIn (code _) = fault
  saved_fields-AllIn (trap _) = fault

  pub restart-IsClosed : Holds IsClosed (restart s)
  unfolding restart
  restart-IsClosed = bind (AllIn (length s.heap)) IsClosed _ _ (saved_fields-AllIn s.env) λ args h.
      bind (InHeap (length s.heap)) IsClosed _ _
        (field-InHeap (length s.heap) s.heap s.env 1 c.heap_in)
        λ env k.
          holds (with_env (with_stack c (append-AllIn (length s.heap) args s.stack h c.stack_in)) k)

module _ (s : State) (c : IsClosed s) where
  pub apply_args-IsClosed : (n : ℕ) → Holds IsClosed (apply_args n s)
  unfolding apply_args
  apply_args-IsClosed n = bind (AllIn (length s.heap)) IsClosed _ _ (top s c n) λ args h.
      bind (AllIn (length s.heap)) IsClosed _ _ (popped s c n) λ rest k.
        enter-IsClosed
          (record s {
            stack = args ++ (code s.pc ∷ s.env ∷ saved_args s.extra_args ∷ rest);
            extra_args = n - 1;
          })
          (with_stack c (append-AllIn (length s.heap) args _ h (tt, (c.env_in, (tt, k)))))

  pub slide-IsClosed : (nargs slotsize : ℕ) → Holds IsClosed (slide nargs slotsize s)
  unfolding slide
  slide-IsClosed nargs slotsize =
      bind (AllIn (length s.heap)) IsClosed _ _ (top s c nargs) λ args h.
        bind (AllIn (length s.heap)) IsClosed _ _ (popped s c slotsize) λ rest k.
          enter-IsClosed
            (record s { stack = args ++ rest; extra_args = s.extra_args + (nargs - 1) })
            (with_stack c (append-AllIn (length s.heap) args rest h k))

  pub suspend-IsClosed : Holds IsClosed (suspend s)
  unfolding suspend
  suspend-IsClosed = bind_any IsClosed (require (leb 2 s.pc)) _ λ _.
      bind (AllIn (length s.heap)) IsClosed _ _ (top s c (1 + s.extra_args)) λ args h.
        bind (AllIn (length s.heap)) IsClosed _ _ (popped s c (1 + s.extra_args)) λ rest k.
          let block : Block = fields closure_tag (code (s.pc - 2) ∷ s.env ∷ args) in
          let args_in : BlockIn (length s.heap) block = (tt, (c.env_in, h)) in
          pop_frame-IsClosed
            (record s { accu = (alloc s.heap block).0; heap = (alloc s.heap block).1 })
            (allocated c block args_in) rest (allocated (with_stack c k) block args_in).stack_in

module _ (prog : List ℕ) (s : State) (c : IsClosed s) where
  pub push_retaddr-IsClosed : Holds IsClosed (push_retaddr prog s)
  unfolding push_retaddr
  push_retaddr-IsClosed = bind_any IsClosed (operand prog s 0) _ λ n.
      bind_any IsClosed (target s.pc n) _
        λ ret. holds (with_stack c (tt, (c.env_in, (tt, c.stack_in))))

  pub apply-IsClosed : Holds IsClosed (apply prog s)
  unfolding apply
  apply-IsClosed =
      bind_any IsClosed (operand prog s 0) _
        λ n. if-Holds (n == 0) fault (enter-IsClosed (record s { extra_args = n - 1 }) c)

  pub appterm-IsClosed : Holds IsClosed (appterm prog s)
  unfolding appterm
  appterm-IsClosed = bind_any IsClosed (operand prog s 0) _ λ nargs.
      bind_any IsClosed (operand prog s 1) _ λ slotsize.
        if-Holds (leb nargs slotsize && not (nargs == 0)) (slide-IsClosed s c nargs slotsize) fault

  pub appterm_args-IsClosed : (nargs : ℕ) → Holds IsClosed (appterm_args prog nargs s)
  unfolding appterm_args
  appterm_args-IsClosed nargs =
      bind_any IsClosed (operand prog s 0) _
        λ slotsize. if-Holds (leb nargs slotsize) (slide-IsClosed s c nargs slotsize) fault

  pub return-IsClosed : Holds IsClosed (return prog s)
  unfolding return
  return-IsClosed = bind_any IsClosed (operand prog s 0) _ λ n.
      bind (AllIn (length s.heap)) IsClosed _ _ (popped s c n) λ rest h.
        if-Holds (ltb 0 s.extra_args)
          (enter-IsClosed (record s { stack = rest; extra_args = s.extra_args - 1 })
            (with_stack c h))
          (pop_frame-IsClosed s c rest h)

  pub grab-IsClosed : Holds IsClosed (grab prog s)
  unfolding grab
  grab-IsClosed =
      bind_any IsClosed (operand prog s 0) _
        λ required. if-Holds (leb required s.extra_args) (holds c) (suspend-IsClosed s c)
