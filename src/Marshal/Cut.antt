-- ===== src/Marshal/Cut.antt =====
-- A message of byterun/extern.c that is cut short, read by byterun/intern.c.
use mathlib.Core.Path.{subst}
use ocamil.Prelude.{
  ℕ, suc, ◌+◌, ◌-◌, ◌%◌, ◌^◌, ◌≤◌, ◌<◌, ◌≡◌, inr, refl, sym, ap, ◌∙◌, List, ◌++◌, true, ltb, length,
  get_elem?, take, arith,
}
use ocamil.Machine.Value.{Value}
use ocamil.Marshal.{◌>>=◌, ok, raised, bytes32, magic_number, bad_block_length}
use ocamil.Marshal.Room.{Returns-bind}
use ocamil.Marshal.Extern.{Extern, extern_value, put_sizes}
use ocamil.Marshal.Intern.{Deserializers}
use ocamil.Marshal.Tree.{Tree, weight, extent, Unfolds}
use ocamil.Marshal.Leaves.{read32u-bytes32}
use ocamil.Marshal.Objects.{Setup}
use ocamil.Marshal.Copying.{IsData}
use ocamil.Marshal.Message.{
  initial_block_size, alloc_string, output_value_to_string, input_value_from_block,
}
use ocamil.Marshal.Whole.{message, framed, put_sizes_lem, length-framed}
use ocamil.Marshal.Faithful.{weight_le_extent, ok_inj}

-- A word that stays, and what is cut behind it.
cut_word : (w n : ℕ) (rest : List ℕ) → take (4 + n) (bytes32 w ++ rest) ≡ bytes32 w ++ take n rest
unfolding bytes32
cut_word w n rest =
    let far : suc (suc (suc (suc n))) ≡ 4 + n = omega arith in
    ap (λ i. take i (bytes32 w ++ rest)) (sym far)

framed_cut :
    {T : Type 0} (e : Extern T) (bs : List ℕ) (c : Deserializers) (g len : ℕ)
    → 20 + length bs < 2 ^ 32
    → 8 ≤ len
    → len < 20 + length bs
    → input_value_from_block c g (take len (framed e bs)) len ≡ raised bad_block_length
unfolding input_value_from_block
framed_cut e bs c g len h low k =
    let n = len - 8 in
    let after₂ = bytes32 e.obj_counter ++ (bytes32 e.size_32 ++ (bytes32 e.size_64 ++ bs)) in
    let after₁ = bytes32 (length bs) ++ after₂ in
    let far : 4 + (4 + n) ≡ len = omega arith in
    let cut : take len (framed e bs)
        ≡ bytes32 magic_number ++ (bytes32 (length bs) ++ take n after₂) =
      ap (λ i. take i (framed e bs)) (sym far)
      ∙ (cut_word magic_number (4 + n) after₁
          ∙ ap (λ l. bytes32 magic_number ++ l) (cut_word (length bs) n after₂)) in
    let total : (20 + length bs) % 2 ^ 32 ≡ 20 + length bs = omega arith in
    let short : ltb len ((20 + length bs) % 2 ^ 32) ≡ true = rw total (ground arith) in
    rw
      (
        cut,
        read32u-bytes32 magic_number (bytes32 (length bs) ++ take n after₂) (omega arith),
        read32u-bytes32 (length bs) (take n after₂) (omega arith),
        short,
      )
      refl

-- If a value unfolds to a finite tree of data (`IsData`) with an extent below 2^32 - 20, sharing is
-- on and the fuel is enough, then the message that output_value_to_string gives for the value is
-- refused when it is cut off anywhere behind its second word: input_value_from_block raises
-- bad_block_length, whatever its own fuel is.
pub input_value_from_block_refuses :
    (K : Setup) (t : Tree) (f g len : ℕ) (v : Value) (msg : List ℕ)
    → IsData t
    → Unfolds (get_elem? K.heap) v t
    → weight t ≤ f
    → 20 + extent t < 2 ^ 32
    → output_value_to_string K.table K.serializers K.flags K.heap f v ≡ ok msg
    → 8 ≤ len
    → len < length msg
    → input_value_from_block K.deserializers g (take len msg) len ≡ raised bad_block_length
unfolding output_value_to_string
input_value_from_block_refuses K t f g len v msg d u wf fits run low short =
    let m =
      message K initial_block_size (omega arith) t f f v d u wf wf
        (omega (arith, weight_le_extent t)) in
    let written = m.emitted (
      inr (
        Returns-bind (extern_value K.table K.serializers K.flags K.heap f v initial_block_size true)
          _ (msg, run))) in
    let rest : (alloc_string (length m.e'.written) >>= λ wosize. ok (put_sizes m.e')) ≡ ok msg =
      sym (
        ap (λ r. r >>= λ e. alloc_string (length e.written) >>= λ wosize. ok (put_sizes e)) written)
      ∙ run in
    let (wosize, allocated) =
      Returns-bind (alloc_string (length m.e'.written)) (λ wosize. ok (put_sizes m.e'))
        (msg, rest) in
    let made : output_value_to_string K.table K.serializers K.flags K.heap f v
        ≡ ok (framed m.e' m.bs) =
      rw (written, allocated) (ap ok (put_sizes_lem m.e' m.bs m.written)) in
    let same : framed m.e' m.bs ≡ msg = ok_inj (framed m.e' m.bs) msg (sym made ∙ run) in
    subst (λ l. input_value_from_block K.deserializers g (take len l) len ≡ raised bad_block_length)
      same
      (framed_cut m.e' m.bs K.deserializers g len (omega (arith, m.extended)) low
        (omega (arith, ap length same, length-framed m.e' m.bs)))
