-- ===== src/Marshal/LeafCases.antt =====
-- Integers, atoms, strings and doubles, from the value that byterun/extern.c meets to the value
-- that byterun/intern.c gives.
use ocamil.Prelude.{
  ℕ, suc, ◌+◌, ◌*◌, ◌/◌, ◌%◌, ◌^◌, ◌≤◌, ◌<◌, ◌≡◌, refl, some, List, [], ◌∷◌, false, inl, inr, ◌==◌,
  length, get_elem?, arith, Option-cases,
}
use ocamil.Machine.Word.{long_val, val_long}
use ocamil.Machine.Word.Tagging.{IsInt, long_val-val_long}
use ocamil.Machine.Value.{
  Value, word, ptr, atom, Block, bytes, doubles, header, make_header, block_tag, block_wosize,
  string_tag, double_tag, double_array_tag,
}
use ocamil.Compare.{forward_tag}
use ocamil.Marshal.Seen.{number_of}
use ocamil.Marshal.Room.{Malloced}
use ocamil.Marshal.Extern.{
  extern_rec, extern_block, extern_atom, extern_contents, extern_string, extern_double,
  extern_doubles,
}
use ocamil.Marshal.Intern.{Intern, string_block}
use ocamil.Marshal.Tree.{
  Tree, int, empty, text, double, double_array, is_immediate, extent, weight, Unfolds, IsText,
}
use ocamil.Marshal.Leaves.{int_leaf}
use ocamil.Marshal.Prefixes.{AllBelow}
use ocamil.Marshal.Contents.{Content, text-Content, double-Content, doubles-Content, atom_prefix}
use ocamil.Marshal.Reading.{read_dest, string_block-IsText}
use ocamil.Marshal.Sharing.{Ready, Sim}
use ocamil.Marshal.Objects.{Setup, Writer, extern, Stands, IsObject}
use ocamil.Marshal.Copying.{Copied, immediate-Copied, old-Copied, leaf-Copied}

module _ (K : Setup) (f g : ℕ) (e : Writer K) (seen : List (Value × ℕ)) (objs : List Value)
    (s : Intern) (sim : Sim K.table e seen objs s) where
  pub int-Copied :
      (w : ℕ)
      → IsInt (long_val w)
      → Copied K (suc f) (suc g) (word w) (int (long_val w)) e seen objs s
  unfolding Unfolds extern_rec
  int-Copied w h =
      immediate-Copied K (suc f) g e seen objs s sim (word w) (word (val_long (long_val w)))
        (int (long_val w)) (int_leaf K.deserializers e sim.malloced (long_val w) h)
        (λ rd. (val_long (long_val w), refl, long_val-val_long (long_val w) h)) refl

  extern_atom_lem : (tag : ℕ) → tag < 248 → extern K (suc f) (atom tag) e ≡ extern_atom tag e
  unfolding extern_rec extern_block header
  extern_atom_lem tag h =
      let same : make_header 0 tag % 2 ^ 8 ≡ tag = omega arith in
      let sz : make_header 0 tag / 2 ^ 10 ≡ 0 = omega arith in
      let n : (tag == forward_tag) ≡ false = ground arith in rw (same, sz, n) refl

  pub empty-Copied :
      (tag : ℕ) → tag < 248 → Copied K (suc f) (suc g) (atom tag) (empty tag) e seen objs s
  unfolding Unfolds
  empty-Copied tag h =
      immediate-Copied K (suc f) g e seen objs s sim (atom tag) (atom tag) (empty tag)
        (rw (extern_atom_lem tag h) (atom_prefix K.deserializers e sim.malloced tag (omega arith)))
        (λ rd. refl) refl

  -- A block without values is copied when its contents are.
  module _ (b bound : ℕ) (block : Block) (t : Tree) (at : get_elem? K.heap b ≡ some block)
      (stands : Stands K (ptr b 0) t) (ready : Ready K.heap bound seen objs s)
      (heavy : 0 < weight t) (later : is_immediate t ≡ false) (small : weight t ≤ bound)
      (fits : e.obj_counter + weight t ≤ 2 ^ 31) where
    block-Copied :
        (out : Block) (words : ℕ)
        → block_tag block < 256
        → IsObject (block_tag block) (block_wosize block)
        → ((e₁ : Writer K)
            → Malloced e₁
            → Content K.table.Table K.deserializers
                (extern_contents K.table K.serializers K.flags K.heap
                  (extern K f)
                  (ptr b 0)
                  (block_tag block)
                  (block_wosize block)
                  e₁)
                e₁
                out
                words
                (extent t))
        → ((s' : Intern) (b' : ℕ)
            → read_dest s' b' ≡ some out
            → Unfolds (read_dest s') (ptr b' 0) t)
        → Copied K (suc f) (suc g) (ptr b 0) t e seen objs s
    block-Copied out words tag_range o contents reads =
        elim (Option-cases (number_of seen (ptr b 0))) [
          | inl new ↦
              leaf-Copied K f g e seen objs s sim b block t at tag_range o stands heavy later out
                words contents reads (omega arith) new
          | inr (n, old) ↦
              old-Copied K f g e seen objs s sim b block t at tag_range o stands heavy later n bound
                old ready small fits
        ]

module _ (K : Setup) (f b : ℕ) (e₁ : Writer K) where
  text_contents :
      (sz : ℕ) (bs : List ℕ)
      → get_elem? K.heap b ≡ some (bytes bs)
      → extern_contents K.table K.serializers K.flags K.heap (extern K f) (ptr b 0) string_tag sz e₁
        ≡ extern_string bs e₁
  unfolding extern_contents
  text_contents sz bs at = rw at refl

  double_contents :
      (sz : ℕ) (ds : List ℕ)
      → get_elem? K.heap b ≡ some (doubles double_tag ds)
      → extern_contents K.table K.serializers K.flags K.heap (extern K f) (ptr b 0) double_tag sz e₁
        ≡ extern_double ds e₁
  unfolding extern_contents
  double_contents sz ds at = rw at refl

  doubles_contents :
      (sz : ℕ) (ds : List ℕ)
      → get_elem? K.heap b ≡ some (doubles double_array_tag ds)
      → extern_contents K.table K.serializers K.flags K.heap
          (extern K f)
          (ptr b 0)
          double_array_tag
          sz
          e₁
        ≡ extern_doubles ds e₁
  unfolding extern_contents
  doubles_contents sz ds at = rw at refl

module _ (K : Setup) (f g : ℕ) (e : Writer K) (seen : List (Value × ℕ)) (objs : List Value)
    (s : Intern) (sim : Sim K.table e seen objs s) (b bound : ℕ)
    (ready : Ready K.heap bound seen objs s) (one : 1 ≤ bound)
    (fits : e.obj_counter + 1 ≤ 2 ^ 31) where
  pub text-Copied :
      (bs cs : List ℕ)
      → get_elem? K.heap b ≡ some (bytes bs)
      → IsText bs cs
      → length cs < 2 ^ 24
      → Copied K (suc f) (suc g) (ptr b 0) (text cs) e seen objs s
  unfolding Unfolds weight extent
  text-Copied bs cs at x range =
      let enough : 0 < (length cs + 4) / 4 = omega arith in
      let size : length bs / 4 ≡ (length cs + 4) / 4 = omega (arith, x.padded) in
      block-Copied K f g e seen objs s sim b bound (bytes bs) (text cs) at (b, bs, refl, at, x)
        ready (omega arith) refl one fits (bytes (string_block cs)) ((length cs + 4) / 4)
        (omega arith)
        (record {
          not_forward = refl;
          not_infix = refl;
          not_empty = rw size (ground (arith, enough));
        })
        (λ e₁ m.
          rw (text_contents K f b e₁ (length bs / 4) bs at)
            (text-Content K.deserializers e₁ m bs cs x.text_length x.text_bytes (omega arith)))
        (λ s' b' found. (b', string_block cs, refl, found, string_block-IsText cs))

  pub double-Copied :
      (d : ℕ)
      → get_elem? K.heap b ≡ some (doubles double_tag (d ∷ []))
      → d < 2 ^ 64
      → Copied K (suc f) (suc g) (ptr b 0) (double d) e seen objs s
  unfolding Unfolds weight extent
  double-Copied d at range =
      block-Copied K f g e seen objs s sim b bound (doubles double_tag (d ∷ [])) (double d) at
        (b, refl, at) ready (omega arith) refl one fits (doubles double_tag (d ∷ [])) 2
        (omega arith) (record { not_forward = refl; not_infix = refl; not_empty = refl })
        (λ e₁ m.
          rw (double_contents K f b e₁ 2 (d ∷ []) at) (double-Content K.deserializers e₁ m d range))
        (λ s' b' found. (b', refl, found))

  pub double_array-Copied :
      (ds : List ℕ)
      → get_elem? K.heap b ≡ some (doubles double_array_tag ds)
      → 0 < length ds
      → length ds < 2 ^ 21
      → AllBelow (2 ^ 64) ds
      → Copied K (suc f) (suc g) (ptr b 0) (double_array ds) e seen objs s
  unfolding Unfolds weight extent
  double_array-Copied ds at some_doubles range h =
      block-Copied K f g e seen objs s sim b bound (doubles double_array_tag ds) (double_array ds)
        at (b, refl, at) ready (omega arith) refl one fits (doubles double_array_tag ds)
        (2 * length ds) (omega arith)
        (record { not_forward = refl; not_infix = refl; not_empty = ground arith })
        (λ e₁ m.
          rw (doubles_contents K f b e₁ (2 * length ds) ds at)
            (doubles-Content K.deserializers e₁ m ds h (omega arith)))
        (λ s' b' found. (b', refl, found))
