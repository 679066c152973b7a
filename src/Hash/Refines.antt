-- ===== src/Hash/Refines.antt =====
-- hash_aux of byterun/hash.c on a value is the hash of what the value stands for.
use ocamil.Prelude.{
  ℕ, suc, ◌/◌, ◌%◌, ◌^◌, ◌<◌, ◌≡◌, refl, inl, inr, Option, some, List, [], ◌∷◌, false, ◌==◌, length,
  get_elem?, arith, Bool-cases,
}
use ocamil.Machine.Value.{
  Value, ptr, atom, Heap, Block, fields, bytes, doubles, header, make_header, block_tag,
  block_wosize, tag_val, wosize_val, infix_tag, string_tag, double_tag, double_array_tag,
}
use ocamil.Compare.{object_tag, forward_tag, abstract_tag, custom_tag}
use ocamil.Marshal.{double_bytes}
use ocamil.Marshal.Extern.{all_double_bytes}
use ocamil.Marshal.Tree.{Tree, IsText}
use ocamil.Marshal.Blocks.{append_nil}
use ocamil.Hash.{
  Hashing, HashState, combine_small, combine_bytes, enter_call, exhausted, spend, hash_fields,
  hash_block, hash_contents, hash_aux, hash_again,
}
use ocamil.Hash.Spec.{hash_tree, hash_inside, hash_tree_lem, calls_left}

-- A call that goes on has used one.
pub calls_left-enter_call :
    (s : HashState)
    → exhausted (enter_call s) ≡ false
    → suc (calls_left (enter_call s).limit) ≡ calls_left s.limit
unfolding exhausted enter_call
calls_left-enter_call s h = ground arith

module _ (h : Heap) (b : ℕ) (block : Block) (at : get_elem? h b ≡ some block)
    (range : block_tag block < 256) where
  tag_val_lem : tag_val h (ptr b 0) ≡ some (block_tag block)
  unfolding tag_val header
  tag_val_lem =
      let e : make_header (block_wosize block) (block_tag block) % 2 ^ 8 ≡ block_tag block =
        omega arith in
      rw (at, e) refl

  wosize_val_lem : wosize_val h (ptr b 0) ≡ some (block_wosize block)
  unfolding wosize_val header
  wosize_val_lem =
      let e : make_header (block_wosize block) (block_tag block) / 2 ^ 10 ≡ block_wosize block =
        omega arith in
      rw (at, e) refl

atom_lem :
    (h : Heap) (tag : ℕ)
    → tag < 248
    → (tag_val h (atom tag) ≡ some tag) × (wosize_val h (atom tag) ≡ some 0)
unfolding tag_val wosize_val header
atom_lem h tag l =
    let e : make_header 0 tag % 2 ^ 8 ≡ tag = omega arith in
    let z : make_header 0 tag / 2 ^ 10 ≡ 0 = omega arith in (rw e refl, rw z refl)

module _ (out : Hashing) (h : Heap) (rec again : Value → HashState → Option HashState) where
  pub fields_lem :
      (obj : Value) (tag sz : ℕ) (s : HashState)
      → tag < 248
      → wosize_val h obj ≡ some sz
      → hash_block out h rec again obj tag s
        ≡ hash_fields out h rec obj sz (combine_small tag (spend s))
  unfolding hash_block
  fields_lem obj tag sz s l w =
      let n₁ : (tag == string_tag) ≡ false = ground arith in
      let n₂ : (tag == double_tag) ≡ false = ground arith in
      let n₃ : (tag == double_array_tag) ≡ false = ground arith in
      let n₄ : (tag == abstract_tag) ≡ false = ground arith in
      let n₅ : (tag == infix_tag) ≡ false = ground arith in
      let n₆ : (tag == forward_tag) ≡ false = ground arith in
      let n₇ : (tag == object_tag) ≡ false = ground arith in
      let n₈ : (tag == custom_tag) ≡ false = ground arith in
      rw (n₁, n₂, n₃, n₄, n₅, n₆, n₇, n₈, w) refl

  pub text_lem :
      (b : ℕ) (bs cs : List ℕ) (s : HashState)
      → get_elem? h b ≡ some (bytes bs)
      → IsText bs cs
      → hash_contents out h rec again (ptr b 0) s ≡ some (combine_bytes cs (spend s))
  unfolding hash_contents hash_block
  text_lem b bs cs s at x =
      rw (tag_val_lem h b (bytes bs) at (omega arith), at, x.text_length, x.text_bytes) refl

  pub double_lem :
      (b d : ℕ) (s : HashState)
      → get_elem? h b ≡ some (doubles double_tag (d ∷ []))
      → hash_contents out h rec again (ptr b 0) s
        ≡ some (combine_bytes (double_bytes 8 d) (spend s))
  unfolding hash_contents hash_block
  double_lem b d s at =
      let one = append_nil (double_bytes 8 d) in
      rw (tag_val_lem h b (doubles double_tag (d ∷ [])) at (omega arith), at, one) refl

  pub doubles_lem :
      (b : ℕ) (ds : List ℕ) (s : HashState)
      → get_elem? h b ≡ some (doubles double_array_tag ds)
      → hash_contents out h rec again (ptr b 0) s
        ≡ some (combine_bytes (all_double_bytes ds) (spend s))
  unfolding hash_contents hash_block
  doubles_lem b ds s at =
      rw (tag_val_lem h b (doubles double_array_tag ds) at (omega arith), at) refl

  pub empty_lem :
      (tag : ℕ) (s : HashState)
      → tag < 248
      → hash_contents out h rec again (atom tag) s ≡ some (combine_small tag (spend s))
  unfolding hash_contents hash_fields
  empty_lem tag s l = let (t, w) = atom_lem h tag l in rw t (fields_lem (atom tag) tag 0 s l w)

  pub node_lem :
      (b tag : ℕ) (vs : List Value) (s : HashState)
      → get_elem? h b ≡ some (fields tag vs)
      → tag < 248
      → hash_contents out h rec again (ptr b 0) s
        ≡ hash_fields out h rec (ptr b 0) (length vs) (combine_small tag (spend s))
  unfolding hash_contents
  node_lem b tag vs s at l =
      let range : tag < 256 = omega arith in
      rw (tag_val_lem h b (fields tag vs) at range)
        (fields_lem (ptr b 0) tag (length vs) s l (wosize_val_lem h b (fields tag vs) at range))

module _ (out : Hashing) (h : Heap) where
  -- A call is its test, and then what is inside.
  pub hash_aux_lem :
      (f : ℕ) (v : Value) (t : Tree) (s : HashState)
      → (exhausted (enter_call s) ≡ false
          → hash_again out h f v (enter_call s) ≡ some (hash_inside t (enter_call s)))
      → hash_aux out h (suc f) v s ≡ some (hash_tree t s)
  unfolding hash_aux
  hash_aux_lem f v t s inside = elim (Bool-cases (exhausted (enter_call s))) [
    | inl e ↦ rw (hash_tree_lem t s, e) refl
    | inr e ↦ rw (hash_tree_lem t s, e) (inside e)
  ]

  pub hash_again_lem :
      (f : ℕ) (v : Value) (s : HashState)
      → hash_again out h (suc f) v s
        ≡ hash_contents out h (hash_aux out h f) (hash_again out h f) v s
  unfolding hash_again
  hash_again_lem f v s = refl
