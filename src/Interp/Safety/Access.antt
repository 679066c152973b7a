-- ===== src/Interp/Safety/Access.antt =====
-- Pointers and the loads and stores of byterun/interp.c.
use ocamil.Prelude.{
  ℕ, ◌+◌, ◌≤◌, ◌≡◌, List, [], ◌∷◌, ◌++◌, arith, length, length-append, ltb, Bool-cases, inl, inr,
}
use ocamil.Prelude.Int.{ℤ}
use ocamil.Machine.Word.{signed}
use ocamil.Machine.Value.{Value, word, ptr, atom, code, trap, Block, Heap, field, alloc}
use ocamil.Interp.State.{State, push_accu, peek, pop_words, operand, skip}
use ocamil.Interp.Access.{
  acc, acc_operand, pop, assign, envacc, envacc_operand, offset_env, offsetclosure,
  offsetclosure_operand, getglobal, getglobalfield, setglobal, constint, atom_operand,
}
use ocamil.Interp.Safety.{Holds, fault, holds, InHeap, AllIn, BlockIn, HeapIn, Closed, IsClosed}
use ocamil.Interp.Safety.Lists.{
  bind, bind_any, InHeap-mono, AllIn-mono, get_elem?-InHeap, set-AllIn, pop_words-AllIn,
}
use ocamil.Interp.Safety.Heaps.{HeapIn-mono, append-HeapIn, field-InHeap, Stored, set_field-Stored}

module _ {accu env globals : Value} {stack : List Value} {heap : Heap}
    (c : Closed accu env globals stack heap) where
  pub with_accu : {v : Value} → InHeap (length heap) v → Closed v env globals stack heap
  with_accu h = record {
    accu_in = h;
    env_in = c.env_in;
    globals_in = c.globals_in;
    stack_in = c.stack_in;
    heap_in = c.heap_in;
  }

  pub with_stack : {vs : List Value} → AllIn (length heap) vs → Closed accu env globals vs heap
  with_stack h = record {
    accu_in = c.accu_in;
    env_in = c.env_in;
    globals_in = c.globals_in;
    stack_in = h;
    heap_in = c.heap_in;
  }

  pub with_env : {v : Value} → InHeap (length heap) v → Closed accu v globals stack heap
  with_env h = record {
    accu_in = c.accu_in;
    env_in = h;
    globals_in = c.globals_in;
    stack_in = c.stack_in;
    heap_in = c.heap_in;
  }

  -- A larger heap.
  pub with_heap :
      (h : Heap) → length heap ≤ length h → HeapIn (length h) h → Closed accu env globals stack h
  with_heap h le k = record {
    accu_in = InHeap-mono (length heap) (length h) accu le c.accu_in;
    env_in = InHeap-mono (length heap) (length h) env le c.env_in;
    globals_in = InHeap-mono (length heap) (length h) globals le c.globals_in;
    stack_in = AllIn-mono (length heap) (length h) stack le c.stack_in;
    heap_in = k;
  }

  pub stored : (h : Heap) → Stored (length heap) heap h → Closed accu env globals stack h
  stored h (k, same) = with_heap h (omega arith) (rw same k)

  -- A new block, and the pointer to it.
  pub allocated :
      (b : Block)
      → BlockIn (length heap) b
      → Closed (alloc heap b).0 env globals stack (alloc heap b).1
  unfolding alloc
  allocated b h =
      let grown : length (heap ++ (b ∷ [])) ≡ length heap + 1 = length-append heap (b ∷ []) in
      let le : length heap ≤ length (heap ++ (b ∷ [])) = omega arith in
      record {
        accu_in = omega arith;
        env_in = InHeap-mono (length heap) _ env le c.env_in;
        globals_in = InHeap-mono (length heap) _ globals le c.globals_in;
        stack_in = AllIn-mono (length heap) _ stack le c.stack_in;
        heap_in = HeapIn-mono (length heap) _ _ le (append-HeapIn (length heap) heap b c.heap_in h);
      }

module _ (s : State) (c : IsClosed s) where
  pub push_accu-IsClosed : IsClosed (push_accu s)
  push_accu-IsClosed = with_stack c (c.accu_in, c.stack_in)

  pub peek-InHeap : (i : ℕ) → Holds (InHeap (length s.heap)) (peek s i)
  peek-InHeap i = get_elem?-InHeap (length s.heap) s.stack i c.stack_in

  pub popped : (k : ℕ) → Holds (AllIn (length s.heap)) (pop_words k s.stack)
  popped k = pop_words-AllIn (length s.heap) k s.stack c.stack_in

  pub acc-IsClosed : (n : ℕ) → Holds IsClosed (acc n s)
  unfolding acc
  acc-IsClosed n =
      bind (InHeap (length s.heap)) IsClosed _ _ (peek-InHeap n) (λ v h. holds (with_accu c h))

  pub field_of : (v : Value) (i : ℕ) → Holds (InHeap (length s.heap)) (field s.heap v i)
  field_of v i = field-InHeap (length s.heap) s.heap v i c.heap_in

  pub envacc-IsClosed : (n : ℕ) → Holds IsClosed (envacc n s)
  unfolding envacc
  envacc-IsClosed n =
      bind (InHeap (length s.heap)) IsClosed _ _ (field_of s.env n) (λ v h. holds (with_accu c h))

  offset_env-InHeap :
      (k : ℤ) (v : Value)
      → InHeap (length s.heap) v
      → Holds (InHeap (length s.heap)) (offset_env k v)
  unfolding offset_env
  offset_env-InHeap k (ptr b o) h = bind_any (InHeap (length s.heap)) _ _ (λ o'. holds h)
  offset_env-InHeap k (word _) h = fault
  offset_env-InHeap k (atom _) h = fault
  offset_env-InHeap k (code _) h = fault
  offset_env-InHeap k (trap _) h = fault

  pub offsetclosure-IsClosed : (k : ℤ) → Holds IsClosed (offsetclosure k s)
  unfolding offsetclosure
  offsetclosure-IsClosed k =
      bind (InHeap (length s.heap)) IsClosed _ _ (offset_env-InHeap k s.env c.env_in)
        (λ v h. holds (with_accu c h))

module _ (prog : List ℕ) (s : State) (c : IsClosed s) where
  pub acc_operand-IsClosed : Holds IsClosed (acc_operand prog s)
  unfolding acc_operand
  acc_operand-IsClosed = bind_any IsClosed (operand prog s 0) _ (λ n. acc-IsClosed (skip 1 s) c n)

  pub envacc_operand-IsClosed : Holds IsClosed (envacc_operand prog s)
  unfolding envacc_operand
  envacc_operand-IsClosed =
      bind_any IsClosed (operand prog s 0) _ (λ n. envacc-IsClosed (skip 1 s) c n)

  pub offsetclosure_operand-IsClosed : Holds IsClosed (offsetclosure_operand prog s)
  unfolding offsetclosure_operand
  offsetclosure_operand-IsClosed =
      bind_any IsClosed (operand prog s 0) _ (λ n. offsetclosure-IsClosed (skip 1 s) c (signed n))

  pub pop-IsClosed : Holds IsClosed (pop prog s)
  unfolding pop
  pop-IsClosed =
      bind_any IsClosed (operand prog s 0) _ λ n.
        bind (AllIn (length s.heap)) IsClosed _ _ (popped s c n) (λ vs h. holds (with_stack c h))

  pub assign-IsClosed : Holds IsClosed (assign prog s)
  unfolding assign
  assign-IsClosed = bind_any IsClosed (operand prog s 0) _ λ n.
      elim (Bool-cases (ltb n (length s.stack))) [
        | inl e ↦ rw e (
            holds (
              with_accu
                (with_stack c (set-AllIn (length s.heap) s.stack n s.accu c.stack_in c.accu_in))
                tt))
        | inr e ↦ rw e fault
      ]

  pub getglobal-IsClosed : Holds IsClosed (getglobal prog s)
  unfolding getglobal
  getglobal-IsClosed = bind_any IsClosed (operand prog s 0) _ λ n.
      bind (InHeap (length s.heap)) IsClosed _ _ (field_of s c s.globals n)
        (λ v h. holds (with_accu c h))

  pub getglobalfield-IsClosed : Holds IsClosed (getglobalfield prog s)
  unfolding getglobalfield
  getglobalfield-IsClosed = bind_any IsClosed (operand prog s 0) _ λ n.
      bind_any IsClosed (field s.heap s.globals n) _ λ v.
        bind_any IsClosed (operand prog s 1) _ λ i.
          bind (InHeap (length s.heap)) IsClosed _ _ (field_of s c v i)
            (λ w h. holds (with_accu c h))

  pub setglobal-IsClosed : Holds IsClosed (setglobal prog s)
  unfolding setglobal
  setglobal-IsClosed = bind_any IsClosed (operand prog s 0) _ λ n.
      bind (Stored (length s.heap) s.heap) IsClosed _ _
        (set_field-Stored (length s.heap) s.heap s.globals n s.accu c.heap_in c.accu_in)
        (λ h k. holds (with_accu (stored c h k) tt))

  pub constint-IsClosed : Holds IsClosed (constint prog s)
  unfolding constint
  constint-IsClosed = bind_any IsClosed (operand prog s 0) _ (λ n. holds (with_accu c tt))

  pub atom_operand-IsClosed : Holds IsClosed (atom_operand prog s)
  unfolding atom_operand
  atom_operand-IsClosed = bind_any IsClosed (operand prog s 0) _ (λ n. holds (with_accu c tt))
