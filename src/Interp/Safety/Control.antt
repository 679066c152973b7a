-- ===== src/Interp/Safety/Control.antt =====
-- Pointers and the branches, exceptions, signals and C calls of byterun/interp.c.
use ocamil.Prelude.{
  ℕ, ◌+◌, ◌-◌, ◌≤◌, ◌%◌, ◌/◌, ◌^◌, Bool, true, false, not, Option, none, some, List, [], ◌∷◌,
  length, length-append, ltb, leb, require, arith,
}
use ocamil.Machine.Word.{sar}
use ocamil.Machine.Value.{
  Value, word, ptr, atom, code, trap, Block, Heap, fields, field, alloc, tag_val, as_word, index_of,
  is_long, val_unit,
}
use ocamil.Stacks.{Grown, sized, stack_overflow, out_of_fuel, realloc_stack, stack_threshold}
use ocamil.Interp.State.{
  State, go, push, push_accu, operand, skip, target, peek, saved_args, exn_bucket, resume_trap,
  raise_exception, raise_predefined, stack_overflow_exn,
}
use ocamil.Interp.Control.{
  Reply, returned, raised, Runtime, branch, branch_if, branchif, branchifnot, is_false, jump_table,
  switch, boolnot, pushtrap, drop_trap, lookup, getmethod, grown, is_low, after_event,
  process_signal, check_signals, check_stacks, check_after, poptrap, after_c_call, c_call, c_calln,
}
use ocamil.Interp.Safety.{Holds, fault, holds, InHeap, AllIn, HeapIn, IsClosed, OutcomeClosed}
use ocamil.Interp.Safety.Lists.{bind, bind_any, pop_words-AllIn}
use ocamil.Interp.Safety.Access.{
  with_accu, with_stack, with_env, with_heap, allocated, popped, field_of, push_accu-IsClosed,
}
use ocamil.Interp.Safety.Calls.{if-Holds, top}

-- What a C function may do to the heap: it gives no dangling pointer, and takes no block away.
abbrev pub ReplyClosed : Heap → Reply × Heap → Type 0
ReplyClosed h (returned v, h') =
    (length h ≤ length h') × HeapIn (length h') h' × InHeap (length h') v
ReplyClosed h (raised v, h') = (length h ≤ length h') × HeapIn (length h') h' × InHeap (length h') v

pub record IsSafe (rt : Runtime) : Type 0 where
  pub primitive_safe :
      (n : ℕ) (args : List Value) (h : Heap)
      → HeapIn (length h) h
      → AllIn (length h) args
      → Holds (ReplyClosed h) (rt.primitive n args h)
  pub event_safe : (h : Heap) → HeapIn (length h) h → Holds (ReplyClosed h) (rt.process_event h)

pub go-Closed : (o : Option State) → Holds IsClosed o → Holds OutcomeClosed (go o)
go-Closed none h = fault
go-Closed (some s) (holds h) = holds h

module _ (s : State) (c : IsClosed s) where
  resume_trap-IsClosed :
      (exn : Value) (vs : List Value)
      → InHeap (length s.heap) exn
      → AllIn (length s.heap) vs
      → Holds IsClosed (resume_trap exn s vs)
  unfolding resume_trap
  resume_trap-IsClosed exn [] k h = fault
  resume_trap-IsClosed exn (word _ ∷ vs) k h = fault
  resume_trap-IsClosed exn (ptr _ _ ∷ vs) k h = fault
  resume_trap-IsClosed exn (atom _ ∷ vs) k h = fault
  resume_trap-IsClosed exn (trap _ ∷ vs) k h = fault
  resume_trap-IsClosed exn (code pc ∷ []) k h = fault
  resume_trap-IsClosed exn (code pc ∷ word _ ∷ vs) k h = fault
  resume_trap-IsClosed exn (code pc ∷ ptr _ _ ∷ vs) k h = fault
  resume_trap-IsClosed exn (code pc ∷ atom _ ∷ vs) k h = fault
  resume_trap-IsClosed exn (code pc ∷ code _ ∷ vs) k h = fault
  resume_trap-IsClosed exn (code pc ∷ trap link ∷ []) k h = fault
  resume_trap-IsClosed exn (code pc ∷ trap link ∷ env ∷ []) k h = fault
  resume_trap-IsClosed exn (code pc ∷ trap link ∷ env ∷ extra ∷ rest) k h =
      bind_any IsClosed (index_of extra) _
        λ n. holds (with_accu (with_stack (with_env c h.1.1.0) h.1.1.1.1) k)

  pub raise_exception-Closed :
      (exn : Value) → InHeap (length s.heap) exn → Holds OutcomeClosed (raise_exception exn s)
  unfolding raise_exception
  raise_exception-Closed exn k =
      if-Holds (leb s.trapsp s.initial_sp)
        (bind (AllIn (length s.heap)) OutcomeClosed _ _ (popped s c (length s.stack - s.initial_sp))
          λ rest h. holds (k, with_accu (with_stack c h) k))
        (if-Holds (leb s.trapsp (length s.stack))
          (bind (AllIn (length s.heap)) OutcomeClosed _ _ (popped s c (length s.stack - s.trapsp))
            λ frame h. go-Closed _ (resume_trap-IsClosed exn frame k h))
          fault)

  pub drop_trap-IsClosed :
      (vs : List Value) → AllIn (length s.heap) vs → Holds IsClosed (drop_trap s vs)
  unfolding drop_trap
  drop_trap-IsClosed [] h = fault
  drop_trap-IsClosed (pc ∷ []) h = fault
  drop_trap-IsClosed (pc ∷ word _ ∷ vs) h = fault
  drop_trap-IsClosed (pc ∷ ptr _ _ ∷ vs) h = fault
  drop_trap-IsClosed (pc ∷ atom _ ∷ vs) h = fault
  drop_trap-IsClosed (pc ∷ code _ ∷ vs) h = fault
  drop_trap-IsClosed (pc ∷ trap link ∷ []) h = fault
  drop_trap-IsClosed (pc ∷ trap link ∷ env ∷ []) h = fault
  drop_trap-IsClosed (pc ∷ trap link ∷ env ∷ extra ∷ rest) h = holds (with_stack c h.1.1.1.1)

  pub boolnot-IsClosed : Holds IsClosed (boolnot s)
  unfolding boolnot
  boolnot-IsClosed = bind_any IsClosed (as_word s.accu) _ λ w. holds (with_accu c tt)

  lookup-InHeap : (obj : Value) (lab : ℕ) → Holds (InHeap (length s.heap)) (lookup s.heap obj lab)
  unfolding lookup
  lookup-InHeap obj lab = bind_any (InHeap (length s.heap)) (field s.heap obj 0) _ λ methods.
      bind_any (InHeap (length s.heap)) (field s.heap methods (sar lab 16 / 4)) _
        λ bucket. field_of s c bucket (lab / 4 % 256)

  pub getmethod-IsClosed : Holds IsClosed (getmethod s)
  unfolding getmethod
  getmethod-IsClosed = bind_any IsClosed (peek s 0) _ λ obj.
      bind_any IsClosed (as_word s.accu) _ λ lab.
        bind (InHeap (length s.heap)) IsClosed _ _ (lookup-InHeap obj lab)
          λ m h. holds (with_accu c h)

module _ (s : State) (c : IsClosed s) where
  -- The bucket and the heap that it is in.
  abbrev BucketClosed : Value × Heap → Type 0
  BucketClosed (v, h) = InHeap (length h) v × IsClosed (record s { heap = h })

  exn_bucket-Closed : (n : ℕ) → Holds BucketClosed (exn_bucket n s)
  unfolding exn_bucket
  exn_bucket-Closed n =
      bind (InHeap (length s.heap)) BucketClosed _ _ (field_of s c s.globals n) λ exn h.
        let block : Block = fields 0 (exn ∷ []) in
        let made = allocated c block (h, tt) in
        let grown = length-append s.heap (block ∷ []) in
        holds (made.accu_in, with_heap c (alloc s.heap block).1 (omega arith) made.heap_in)

  pub raise_predefined-Closed : (n : ℕ) → Holds OutcomeClosed (raise_predefined n s)
  unfolding raise_predefined
  raise_predefined-Closed n =
      bind BucketClosed OutcomeClosed _ _ (exn_bucket-Closed n)
        λ (v, h) k. raise_exception-Closed (record s { heap = h }) k.1 v k.0

  pub grown-Closed : (g : Grown) → Holds OutcomeClosed (grown g s)
  unfolding grown
  grown-Closed (sized n) = holds c
  grown-Closed stack_overflow = raise_predefined-Closed stack_overflow_exn
  grown-Closed out_of_fuel = fault

module _ (prog : List ℕ) (s : State) (c : IsClosed s) where
  pub branch-IsClosed : Holds IsClosed (branch prog s)
  unfolding branch
  branch-IsClosed =
      bind_any IsClosed (operand prog s 0) _ λ n. bind_any IsClosed (target s.pc n) _ λ pc. holds c

  pub branch_if-IsClosed : (b : Bool) → Holds IsClosed (branch_if b prog s)
  branch_if-IsClosed true = branch-IsClosed
  branch_if-IsClosed false = holds c

  pub branchif-IsClosed : Holds IsClosed (branchif prog s)
  unfolding branchif
  branchif-IsClosed = branch_if-IsClosed (not (is_false s.accu))

  pub branchifnot-IsClosed : Holds IsClosed (branchifnot prog s)
  unfolding branchifnot
  branchifnot-IsClosed = branch_if-IsClosed (is_false s.accu)

  pub jump_table-IsClosed : (i : ℕ) → Holds IsClosed (jump_table prog s i)
  unfolding jump_table
  jump_table-IsClosed i =
      bind_any IsClosed (operand prog s i) _ λ n. bind_any IsClosed (target s.pc n) _ λ pc. holds c

  pub pushtrap-IsClosed : Holds IsClosed (pushtrap prog s)
  unfolding pushtrap
  pushtrap-IsClosed = bind_any IsClosed (operand prog s 0) _ λ n.
      bind_any IsClosed (target s.pc n) _
        λ pc. holds (with_stack c (tt, (tt, (c.env_in, (tt, c.stack_in)))))

pub switch-IsClosed : (prog : List ℕ) (s : State) → IsClosed s → Holds IsClosed (switch prog s)
unfolding switch
switch-IsClosed prog s c = bind_any IsClosed (operand prog s 0) _ λ sizes.
    if-Holds (is_long s.accu)
      (bind_any IsClosed (index_of s.accu) _ λ i.
        bind_any IsClosed (require (ltb i (sizes % 2 ^ 16))) _
          λ _. jump_table-IsClosed prog (skip 1 s) c i)
      (bind_any IsClosed (tag_val s.heap s.accu) _ λ tag.
        bind_any IsClosed (require (ltb tag (sizes / 2 ^ 16))) _
          λ _. jump_table-IsClosed prog (skip 1 s) c (sizes % 2 ^ 16 + tag))

module _ (rt : Runtime) (safe : IsSafe rt) (s : State) (c : IsClosed s) where
  after_event-Closed :
      (r : Reply × Heap) → ReplyClosed s.heap r → Holds OutcomeClosed (after_event rt s r)
  unfolding after_event
  after_event-Closed (returned v, h) k = holds (with_heap c h k.0 k.1)
  after_event-Closed (raised exn, h) k =
      let c' = with_heap c h k.0 k.1 in
      raise_exception-Closed
        (record s {
          heap = h;
          stack =
              s.accu ∷ val_unit ∷ val_unit ∷ code s.pc ∷ s.env ∷ saved_args s.extra_args ∷ s.stack;
        })
        (with_stack c' (c'.accu_in, (tt, (tt, (tt, (c'.env_in, (tt, c'.stack_in))))))) exn k.2

module _ (rt : Runtime) (safe : IsSafe rt) where
  pub process_signal-Closed : (s : State) → IsClosed s → Holds OutcomeClosed (process_signal rt s)
  unfolding process_signal
  process_signal-Closed s c =
      bind (ReplyClosed s.heap) OutcomeClosed _ _ (safe.event_safe s.heap c.heap_in)
        λ r k. after_event-Closed rt safe (record s { something_to_do = false }) c r k

  pub check_signals-Closed : (s : State) → IsClosed s → Holds OutcomeClosed (check_signals rt s)
  unfolding check_signals
  check_signals-Closed s c = if-Holds s.something_to_do (process_signal-Closed s c) (holds c)

  pub check_stacks-Closed : (s : State) → IsClosed s → Holds OutcomeClosed (check_stacks rt s)
  unfolding check_stacks
  check_stacks-Closed s c =
      if-Holds (is_low s) (after (realloc_stack (length s.stack) stack_threshold s.sizes))
        (check_signals-Closed s c)
    where
      after :
          (g : Grown)
          → Holds OutcomeClosed (elim g [
            | sized n ↦ check_signals rt (record s { sizes = record s.sizes { size = n } })
            | g' ↦ grown g' s
          ])
      after (sized n) = check_signals-Closed (record s { sizes = record s.sizes { size = n } }) c
      after stack_overflow = grown-Closed s c stack_overflow
      after out_of_fuel = grown-Closed s c out_of_fuel

  pub check_after-Closed :
      (o : Option State) → Holds IsClosed o → Holds OutcomeClosed (check_after rt o)
  check_after-Closed none h = fault
  check_after-Closed (some s) (holds c) = check_stacks-Closed s c

  pub poptrap-Closed : (s : State) → IsClosed s → Holds OutcomeClosed (poptrap rt s)
  unfolding poptrap
  poptrap-Closed s c =
      if-Holds s.something_to_do (process_signal-Closed (record s { pc = s.pc - 1 }) c)
        (go-Closed _ (drop_trap-IsClosed s c s.stack c.stack_in))

  after_c_call-Closed :
      (n : ℕ) (s : State) (r : Reply × Heap)
      → IsClosed s
      → ReplyClosed s.heap r
      → Holds OutcomeClosed (after_c_call rt n s r)
  unfolding after_c_call
  after_c_call-Closed n s (returned v, h) c k =
      let c' = with_heap c h k.0 k.1 in
      bind (AllIn (length h)) OutcomeClosed _ _ (pop_words-AllIn (length h) n s.stack c'.stack_in)
        λ rest p. holds (with_accu (with_stack c' p) k.2)
  after_c_call-Closed n s (raised exn, h) c k =
      let c' = with_heap c h k.0 k.1 in
      raise_exception-Closed (record (push s.env s) { heap = h })
        (with_stack c' (c'.env_in, c'.stack_in)) exn k.2

  module _ (prog : List ℕ) (s : State) (c : IsClosed s) where
    pub c_call-Closed : (nargs : ℕ) → Holds OutcomeClosed (c_call rt prog nargs s)
    unfolding c_call
    c_call-Closed nargs = bind_any OutcomeClosed (operand prog s 0) _ λ n.
        bind (AllIn (length s.heap)) OutcomeClosed _ _ (top s c (nargs - 1)) λ args h.
          bind (ReplyClosed s.heap) OutcomeClosed _ _
            (safe.primitive_safe n (s.accu ∷ args) s.heap c.heap_in (c.accu_in, h))
            λ r k. after_c_call-Closed (nargs - 1) s r c k

    pub c_calln-Closed : Holds OutcomeClosed (c_calln rt prog s)
    unfolding c_calln
    c_calln-Closed = bind_any OutcomeClosed (operand prog s 0) _ λ nargs.
        bind_any OutcomeClosed (operand prog s 1) _ λ n.
          bind (AllIn (length s.heap)) OutcomeClosed _ _
            (top (push_accu s) (push_accu-IsClosed s c) nargs)
            λ args h.
              bind (ReplyClosed s.heap) OutcomeClosed _ _
                (safe.primitive_safe n args s.heap c.heap_in h)
                λ r k. after_c_call-Closed nargs (push_accu (skip 1 s)) r (push_accu-IsClosed s c) k
