-- ===== src/Interp/Safety/Blocks.antt =====
-- Pointers and the allocations and accesses to blocks of byterun/interp.c.
use ocamil.Prelude.{
  ℕ, zero, suc, ◌-◌, ◌%◌, Option, List, [], ◌∷◌, ◌==◌, not, get_elem?, length, length-set, ltb,
  require,
}
use ocamil.Machine.Word.{wrap}
use ocamil.Machine.Value.{
  Value, ptr, word, atom, code, trap, Block, fields, bytes, doubles, tag_val, wosize_val, index_of,
  long_of, double_tag, double_array_tag,
}
use ocamil.Interp.State.{State, operand, skip, peek, top_words}
use ocamil.Interp.Blocks.{
  make, makeblock, makeblock_args, double_field, double_vals, makefloatblock, getfield,
  getfield_operand, getfloatfield, modify, modify_pop, setfield, setfield_operand, write_double,
  write_byte, update_block, setfloatfield, vectlength, getvectitem, setvectitem, byte_of,
  getstringchar, setstringchar,
}
use ocamil.Interp.Safety.{Holds, fault, holds, InHeap, AllIn, BlockIn, IsClosed}
use ocamil.Interp.Safety.Lists.{bind, bind_any}
use ocamil.Interp.Safety.Heaps.{Stored, set_field-Stored, set-HeapIn}
use ocamil.Interp.Safety.Access.{
  with_accu, with_stack, allocated, stored, popped, peek-InHeap, field_of,
}
use ocamil.Interp.Safety.Calls.{if-Holds, top}

module _ (s : State) (c : IsClosed s) where
  make-IsClosed : (wosize tag : ℕ) → Holds IsClosed (make wosize tag s)
  unfolding make
  make-IsClosed wosize tag = bind_any IsClosed (require (not (wosize == 0))) _ λ _.
      bind (AllIn (length s.heap)) IsClosed _ _ (top s c (wosize - 1)) λ vs h.
        bind (AllIn (length s.heap)) IsClosed _ _ (popped s c (wosize - 1))
          λ rest k. holds (allocated (with_stack c k) (fields tag (s.accu ∷ vs)) (c.accu_in, h))

  pub getfield-IsClosed : (i : ℕ) → Holds IsClosed (getfield i s)
  unfolding getfield
  getfield-IsClosed i =
      bind (InHeap (length s.heap)) IsClosed _ _ (field_of s c s.accu i)
        (λ v h. holds (with_accu c h))

  modify-IsClosed :
      (i : ℕ) (v : Value) (rest : List Value)
      → InHeap (length s.heap) v
      → AllIn (length s.heap) rest
      → Holds IsClosed (modify i v rest s)
  unfolding modify
  modify-IsClosed i v rest h k =
      bind (Stored (length s.heap) s.heap) IsClosed _ _
        (set_field-Stored (length s.heap) s.heap s.accu i v c.heap_in h)
        λ heap p. holds (with_accu (stored (with_stack c k) heap p) tt)

  modify_pop-IsClosed :
      (i : ℕ) (vs : List Value) → AllIn (length s.heap) vs → Holds IsClosed (modify_pop i s vs)
  unfolding modify_pop
  modify_pop-IsClosed i [] h = fault
  modify_pop-IsClosed i (v ∷ vs) h = modify-IsClosed i v vs h.0 h.1

  pub setfield-IsClosed : (i : ℕ) → Holds IsClosed (setfield i s)
  unfolding setfield
  setfield-IsClosed i = modify_pop-IsClosed i s.stack c.stack_in

  pub vectlength-IsClosed : Holds IsClosed (vectlength s)
  unfolding vectlength
  vectlength-IsClosed =
      bind_any IsClosed (wosize_val s.heap s.accu) _
        λ size. bind_any IsClosed (tag_val s.heap s.accu) _ λ tag. holds (with_accu c tt)

  pub getvectitem-IsClosed : Holds IsClosed (getvectitem s)
  unfolding getvectitem
  getvectitem-IsClosed = bind_any IsClosed (peek s 0) _ λ n. bind_any IsClosed (index_of n) _ λ i.
      bind (InHeap (length s.heap)) IsClosed _ _ (field_of s c s.accu i) λ v h.
        bind (AllIn (length s.heap)) IsClosed _ _ (popped s c 1)
          λ rest k. holds (with_accu (with_stack c k) h)

  pub setvectitem-IsClosed : Holds IsClosed (setvectitem s)
  unfolding setvectitem
  setvectitem-IsClosed = bind_any IsClosed (peek s 0) _ λ n. bind_any IsClosed (index_of n) _ λ i.
      bind (InHeap (length s.heap)) IsClosed _ _ (peek-InHeap s c 1) λ v h.
        bind (AllIn (length s.heap)) IsClosed _ _ (popped s c 2)
          λ rest k. modify-IsClosed i v rest h k

  pub getstringchar-IsClosed : Holds IsClosed (getstringchar s)
  unfolding getstringchar
  getstringchar-IsClosed = bind_any IsClosed (peek s 0) _ λ n. bind_any IsClosed (index_of n) _ λ i.
      bind_any IsClosed (byte_of s.heap s.accu i) _ λ ch.
        bind (AllIn (length s.heap)) IsClosed _ _ (popped s c 1)
          λ rest k. holds (with_accu (with_stack c k) tt)

  -- Writing a double or a byte leaves all values as they are.
  update_block-Stored :
      (v : Value) (f : Block → Option Block)
      → ((b : Block) → Holds (BlockIn (length s.heap)) (f b))
      → Holds (Stored (length s.heap) s.heap) (update_block s.heap v f)
  unfolding update_block
  update_block-Stored (ptr b zero) f h =
      bind_any (Stored (length s.heap) s.heap) (get_elem? s.heap b) _ λ block.
        bind (BlockIn (length s.heap)) (Stored (length s.heap) s.heap) _ _ (h block) λ block' k.
          holds (set-HeapIn (length s.heap) s.heap b block' c.heap_in k, length-set s.heap b block')
  update_block-Stored (ptr b (suc o)) f h = fault
  update_block-Stored (word _) f h = fault
  update_block-Stored (atom _) f h = fault
  update_block-Stored (code _) f h = fault
  update_block-Stored (trap _) f h = fault

  write_double-BlockIn :
      (i d : ℕ) (b : Block) → Holds (BlockIn (length s.heap)) (write_double i d b)
  write_double-BlockIn i d (doubles t ds) = if-Holds (ltb i (length ds)) (holds tt) fault
  write_double-BlockIn i d (fields _ _) = fault
  write_double-BlockIn i d (bytes _) = fault

  write_byte-BlockIn : (i ch : ℕ) (b : Block) → Holds (BlockIn (length s.heap)) (write_byte i ch b)
  write_byte-BlockIn i ch (bytes bs) = if-Holds (ltb i (length bs)) (holds tt) fault
  write_byte-BlockIn i ch (fields _ _) = fault
  write_byte-BlockIn i ch (doubles _ _) = fault

  pub setstringchar-IsClosed : Holds IsClosed (setstringchar s)
  unfolding setstringchar
  setstringchar-IsClosed = bind_any IsClosed (peek s 0) _ λ n. bind_any IsClosed (index_of n) _ λ i.
      bind_any IsClosed (peek s 1) _ λ v. bind_any IsClosed (long_of v) _ λ ch.
        bind (Stored (length s.heap) s.heap) IsClosed _ _
          (update_block-Stored s.accu _ (write_byte-BlockIn i (wrap ch % 256)))
          λ h p.
            bind (AllIn (length s.heap)) IsClosed _ _ (popped s c 2)
              λ rest k. holds (with_accu (stored (with_stack c k) h p) tt)

module _ (prog : List ℕ) (s : State) (c : IsClosed s) where
  pub makeblock-IsClosed : Holds IsClosed (makeblock prog s)
  unfolding makeblock
  makeblock-IsClosed = bind_any IsClosed (operand prog s 0) _ λ wosize.
      bind_any IsClosed (operand prog s 1) _ λ tag. make-IsClosed (skip 2 s) c wosize (tag % 256)

  pub makeblock_args-IsClosed : (wosize : ℕ) → Holds IsClosed (makeblock_args prog wosize s)
  unfolding makeblock_args
  makeblock_args-IsClosed wosize =
      bind_any IsClosed (operand prog s 0) _ λ tag. make-IsClosed (skip 1 s) c wosize (tag % 256)

  pub makefloatblock-IsClosed : Holds IsClosed (makefloatblock prog s)
  unfolding makefloatblock
  makefloatblock-IsClosed = bind_any IsClosed (operand prog s 0) _ λ size.
      bind_any IsClosed (require (not (size == 0))) _ λ _.
        bind_any IsClosed (top_words (size - 1) s.stack) _ λ vs.
          bind (AllIn (length s.heap)) IsClosed _ _ (popped s c (size - 1)) λ rest k.
            bind_any IsClosed (double_vals s.heap (s.accu ∷ vs)) _
              λ ds. holds (allocated (with_stack c k) (doubles double_array_tag ds) tt)

  pub getfield_operand-IsClosed : Holds IsClosed (getfield_operand prog s)
  unfolding getfield_operand
  getfield_operand-IsClosed =
      bind_any IsClosed (operand prog s 0) _ λ i. getfield-IsClosed (skip 1 s) c i

  pub getfloatfield-IsClosed : Holds IsClosed (getfloatfield prog s)
  unfolding getfloatfield
  getfloatfield-IsClosed = bind_any IsClosed (operand prog s 0) _ λ i.
      bind_any IsClosed (double_field s.heap s.accu i) _
        λ d. holds (allocated c (doubles double_tag (d ∷ [])) tt)

  pub setfield_operand-IsClosed : Holds IsClosed (setfield_operand prog s)
  unfolding setfield_operand
  setfield_operand-IsClosed =
      bind_any IsClosed (operand prog s 0) _ λ i. setfield-IsClosed (skip 1 s) c i

  pub setfloatfield-IsClosed : Holds IsClosed (setfloatfield prog s)
  unfolding setfloatfield
  setfloatfield-IsClosed = bind_any IsClosed (operand prog s 0) _ λ i.
      bind_any IsClosed (peek s 0) _ λ v. bind_any IsClosed (double_field s.heap v 0) _ λ d.
        bind (Stored (length s.heap) s.heap) IsClosed _ _
          (update_block-Stored s c s.accu _ (write_double-BlockIn s c i d))
          λ h p.
            bind (AllIn (length s.heap)) IsClosed _ _ (popped s c 1)
              λ rest k. holds (with_accu (stored (with_stack c k) h p) tt)
