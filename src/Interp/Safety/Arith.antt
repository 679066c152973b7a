-- ===== src/Interp/Safety/Arith.antt =====
-- Pointers and the arithmetic of byterun/interp.c.
use ocamil.Prelude.{ℕ, Bool, true, false, Option, List, ◌∷◌, length, if◌then◌else◌}
use ocamil.Prelude.Int.{ℤ, pos}
use ocamil.Machine.Word.{wrap, long_val}
use ocamil.Machine.Value.{val_int, as_word, is_long, field}
use ocamil.Interp.State.{State, operand, skip, peek, zero_divide_exn}
use ocamil.Interp.Arith.{
  binary, divide, is_zero, unary, equality, comparison, val_bool, branch_comparison, offsetint,
  offsetref, isint,
}
use ocamil.Interp.Safety.{Holds, holds, InHeap, AllIn, IsClosed, OutcomeClosed}
use ocamil.Interp.Safety.Lists.{bind, bind_any}
use ocamil.Interp.Safety.Heaps.{Stored, set_field-Stored}
use ocamil.Interp.Safety.Access.{with_accu, with_stack, stored, popped}
use ocamil.Interp.Safety.Calls.{if-Holds}
use ocamil.Interp.Safety.Control.{raise_predefined-Closed, branch-IsClosed}

module _ (s : State) (c : IsClosed s) where
  pub binary-IsClosed : (op : ℕ → ℕ → Option ℕ) → Holds IsClosed (binary op s)
  unfolding binary
  binary-IsClosed op = bind_any IsClosed (as_word s.accu) _ λ a. bind_any IsClosed (peek s 0) _ λ v.
      bind_any IsClosed (as_word v) _ λ b. bind_any IsClosed (op a b) _ λ w.
        bind (AllIn (length s.heap)) IsClosed _ _ (popped s c 1)
          λ rest h. holds (with_accu (with_stack c h) tt)

  pub unary-IsClosed : (op : ℕ → ℕ) → Holds IsClosed (unary op s)
  unfolding unary
  unary-IsClosed op = bind_any IsClosed (as_word s.accu) _ λ a. holds (with_accu c tt)

  pub divide-Closed : (op : ℤ → ℤ → ℤ) → Holds OutcomeClosed (divide op s)
  unfolding divide
  divide-Closed op = bind_any OutcomeClosed (as_word s.accu) _ λ a.
      bind_any OutcomeClosed (peek s 0) _ λ v. bind_any OutcomeClosed (as_word v) _ λ b.
        bind (AllIn (length s.heap)) OutcomeClosed _ _ (popped s c 1) λ rest h.
          if-Holds (is_zero (long_val b))
            (raise_predefined-Closed (record s { stack = s.env ∷ rest })
              (with_stack c (c.env_in, h)) zero_divide_exn)
            (holds (with_accu (with_stack c h) tt))

  val_bool-InHeap : (n : ℕ) (b : Bool) → InHeap n (val_bool b)
  val_bool-InHeap n true = tt
  val_bool-InHeap n false = tt

  pub equality-IsClosed : (sense : Bool → Bool) → Holds IsClosed (equality sense s)
  unfolding equality
  equality-IsClosed sense = bind_any IsClosed (peek s 0) _ λ v.
      bind (AllIn (length s.heap)) IsClosed _ _ (popped s c 1)
        λ rest h. holds (with_accu (with_stack c h) (val_bool-InHeap (length s.heap) _))

  pub comparison-IsClosed : (tst : ℕ → ℕ → Bool) → Holds IsClosed (comparison tst s)
  unfolding comparison
  comparison-IsClosed tst = bind_any IsClosed (as_word s.accu) _ λ a.
      bind_any IsClosed (peek s 0) _ λ v. bind_any IsClosed (as_word v) _ λ b.
        bind (AllIn (length s.heap)) IsClosed _ _ (popped s c 1)
          λ rest h. holds (with_accu (with_stack c h) (val_bool-InHeap (length s.heap) _))

  isint-InHeap :
      (b : Bool) → InHeap (length s.heap) (if b then val_int (pos 1) else val_int (pos 0))
  isint-InHeap true = tt
  isint-InHeap false = tt

  pub isint-IsClosed : IsClosed (isint s)
  unfolding isint
  isint-IsClosed = with_accu c (isint-InHeap (is_long s.accu))

module _ (prog : List ℕ) (s : State) (c : IsClosed s) where
  pub branch_comparison-IsClosed :
      (tst : ℕ → ℕ → Bool) → Holds IsClosed (branch_comparison tst prog s)
  unfolding branch_comparison
  branch_comparison-IsClosed tst = bind_any IsClosed (operand prog s 0) _ λ n.
      bind_any IsClosed (as_word s.accu) _
        λ a. if-Holds (tst n (wrap (long_val a))) (branch-IsClosed prog (skip 1 s) c) (holds c)

  pub offsetint-IsClosed : Holds IsClosed (offsetint prog s)
  unfolding offsetint
  offsetint-IsClosed =
      bind_any IsClosed (operand prog s 0) _
        λ n. bind_any IsClosed (as_word s.accu) _ λ a. holds (with_accu c tt)

  pub offsetref-IsClosed : Holds IsClosed (offsetref prog s)
  unfolding offsetref
  offsetref-IsClosed = bind_any IsClosed (operand prog s 0) _ λ n.
      bind_any IsClosed (field s.heap s.accu 0) _ λ v. bind_any IsClosed (as_word v) _ λ a.
        bind (Stored (length s.heap) s.heap) IsClosed _ _
          (set_field-Stored (length s.heap) s.heap s.accu 0 _ c.heap_in tt)
          λ h p. holds (with_accu (stored c h p) tt)
