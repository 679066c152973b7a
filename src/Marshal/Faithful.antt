-- ===== src/Marshal/Faithful.antt =====
-- What is written by byterun/extern.c is what byterun/intern.c reads.
use mathlib.Core.Path.{subst}
use ocamil.Prelude.{
  ◌+◌, ◌/◌, ltb, leb, false, Bool-cases, inl, inr, ℕ, ◌^◌, ◌*◌, ◌≤◌, ◌<◌, ◌≡◌, refl, sym, ap, ◌∙◌,
  List, [], true, length, get_elem?, arith,
}
use ocamil.Machine.Value.{Value}
use ocamil.Marshal.{Result, ok}
use ocamil.Marshal.Extern.{Extern, extern_value, put_sizes}
use ocamil.Marshal.Intern.{Intern}
use ocamil.Marshal.Tree.{
  Tree, Trees, int, empty, text, double, double_array, node, nil, cons, weight, weights, extent,
  extents, Unfolds,
}
use ocamil.Marshal.Reading.{read_dest}
use ocamil.Marshal.Objects.{Setup, intern}
use ocamil.Marshal.Copying.{IsData}
use ocamil.Marshal.Blocks.{append_nil}
use ocamil.Marshal.Message.{
  initial_block_size, alloc_shr, alloc_string, max_wosize, max_young_wosize, intern_alloc,
  output_value_to_string, input_value_from_block,
}
use ocamil.Marshal.Whole.{
  Message, message, put_sizes_lem, framed_lem, extern_value_positive, length-room,
}

mutual
  unfolding weight extent

  pub weight_le_extent : (t : Tree) → 5 * weight t ≤ extent t
  weight_le_extent (int n) = omega arith
  weight_le_extent (empty tag) = omega arith
  weight_le_extent (text cs) = omega arith
  weight_le_extent (double d) = omega arith
  weight_le_extent (double_array ds) = omega arith
  weight_le_extent (node tag ts) = omega (arith, weights_le_extents ts)

  weights_le_extents : (ts : Trees) → 5 * weights ts ≤ extents ts
  weights_le_extents nil = omega arith
  weights_le_extents (cons t ts) = omega (arith, weight_le_extent t, weights_le_extents ts)

pub ok_inj : {A : Type 0} (a b : A) → ◌≡◌ {A = Result A} (ok a) (ok b) → a ≡ b
ok_inj a b h = ground arith

-- A string that is not too long for a block.
alloc_string_lem : (len : ℕ) → len + 4 < 2 ^ 24 → alloc_string len ≡ ok ((len + 4) / 4)
unfolding alloc_string alloc_shr
alloc_string_lem len h = elim (Bool-cases (leb ((len + 4) / 4) max_young_wosize)) [
  | inl e ↦ rw e refl
  | inr e ↦ let no : ltb max_wosize ((len + 4) / 4) ≡ false = ground arith in rw (e, no) refl
]

module _ (K : Setup) (t : Tree) (f g : ℕ) (v : Value) (size : ℕ) (m : Message K f g v t size)
    (fits : 20 + extent t < 2 ^ 32) where
  read_message_lem :
      input_value_from_block K.deserializers g (put_sizes m.e') (length (put_sizes m.e'))
      ≡ ok (m.v', [], m.s')
  read_message_lem =
      let back : intern K g m.bs (intern_alloc m.e'.size_32 m.e'.obj_counter)
          ≡ ok (m.v', [], m.s') =
        ap (λ l. intern K g l (intern_alloc m.e'.size_32 m.e'.obj_counter)) (sym (append_nil m.bs))
        ∙ m.read_back [] in
      rw (put_sizes_lem m.e' m.bs m.written) (
        framed_lem m.e' m.bs K g (omega (arith, m.extended))
          (omega (arith, m.counted, weight_le_extent t)) (omega (arith, m.extended))
        ∙ back)

-- If a value unfolds to a finite tree of integers of 31 bits, empty blocks, strings, doubles, arrays
-- of doubles and blocks with tags below 248, within the sizes of the format (`IsData`), and the
-- tree has an extent (a bound of the bytes and words of its message) below 2^24 - 24, so that the
-- message is no longer than a string can be, then with sharing on and enough fuel
-- output_value_to_string gives a message, and input_value_from_block reads all of it, to a value
-- that unfolds to the same tree.
pub input_value_from_block-output_value_to_string :
    (K : Setup) (t : Tree) (f g : ℕ) (v : Value)
    → IsData t
    → Unfolds (get_elem? K.heap) v t
    → weight t ≤ f
    → weight t ≤ g
    → 24 + extent t < 2 ^ 24
    → (msg : List ℕ) × (w : Value) × (s : Intern) × (output_value_to_string K.table K.serializers
          K.flags K.heap f v
        ≡ ok msg)
      × (input_value_from_block K.deserializers g msg (length msg) ≡ ok (w, [], s))
      × Unfolds (read_dest s) w t
unfolding output_value_to_string
input_value_from_block-output_value_to_string K t f g v d u wf wg fits =
    let m =
      message K initial_block_size (omega arith) t f g v d u wf wg
        (omega (arith, weight_le_extent t)) in
    let bytes : length m.e'.written ≡ 20 + length m.bs = ap length m.written ∙ length-room m.bs in
    let run = m.emitted (inl (omega (arith, bytes, m.extended))) in
    (
      put_sizes m.e',
      m.v',
      m.s',
      rw (run, alloc_string_lem (length m.e'.written) (omega (arith, bytes, m.extended))) refl,
      read_message_lem K t f g v initial_block_size m (omega arith),
      m.unfolds,
    )

-- When a value that unfolds to such a tree is written from any initial size of the buffer, and the
-- message is read, the blocks that are read take exactly the words, and are as many, as the two
-- counters of the writer in the header say, and no byte is left.
pub input_value_from_block_fills :
    (K : Setup) (t : Tree) (f g : ℕ) (v w : Value) (size : ℕ) (e : Extern K.table.Table)
    (rest : List ℕ) (s : Intern)
    → IsData t
    → Unfolds (get_elem? K.heap) v t
    → weight t ≤ f
    → weight t ≤ g
    → 20 + extent t < 2 ^ 32
    → extern_value K.table K.serializers K.flags K.heap f v size true ≡ ok e
    → input_value_from_block K.deserializers g (put_sizes e) (length (put_sizes e))
      ≡ ok (w, rest, s)
    → (s.words ≡ e.size_32) × (length s.blocks ≡ e.obj_counter) × (rest ≡ [])
input_value_from_block_fills K t f g v w size e rest s d u wf wg fits run read =
    let run' = extern_value_positive K f v size e run in
    let m = message K size run' t f g v d u wf wg (omega (arith, weight_le_extent t)) in
    let same : m.e' ≡ e = ok_inj m.e' e (sym (m.emitted (inr (e, run))) ∙ run) in
    let read' : input_value_from_block K.deserializers g (put_sizes m.e') (length (put_sizes m.e'))
        ≡ ok (w, rest, s) =
      subst
        (λ e₁.
          input_value_from_block K.deserializers g (put_sizes e₁) (length (put_sizes e₁))
          ≡ ok (w, rest, s))
        (sym same) read in
    let results : ◌≡◌ {A = Value × List ℕ × Intern} (m.v', [], m.s') (w, rest, s) =
      ok_inj (m.v', [], m.s') (w, rest, s) (sym (read_message_lem K t f g v size m fits) ∙ read') in
    let states : m.s' ≡ s = ap (λ p. p.2) results in
    (
      sym (ap (λ s₁. s₁.words) states) ∙ (m.all_words ∙ ap (λ e₁. e₁.size_32) same),
      sym (ap (λ s₁. length s₁.blocks) states) ∙ (m.all_blocks ∙ ap (λ e₁. e₁.obj_counter) same),
      sym (ap (λ p. p.1) results),
    )
