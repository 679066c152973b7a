-- ===== src/Marshal/RoundTrip.antt =====
-- Every value that stands for a tree is written by byterun/extern.c, and read by byterun/intern.c
-- as a value that stands for the same tree.
use mathlib.Core.Path.{subst}
use ocamil.Prelude.{
  ℕ, zero, suc, ◌+◌, ◌^◌, ◌≤◌, ◌<◌, ◌≡◌, ◌≢◌, refl, sym, some, List, [], ◌∷◌, ◌++◌, inl, inr,
  length, get_elem?, arith, length-append, Option-cases,
}
use ocamil.Machine.Word.Tagging.{IsInt}
use ocamil.Machine.Value.{Value, ptr, fields}
use ocamil.Marshal.Seen.{number_of}
use ocamil.Marshal.Intern.{Intern, building}
use ocamil.Marshal.Tree.{
  Tree, Trees, int, empty, text, double, double_array, node, nil, cons, count, weight, weights,
  Unfolds, UnfoldsAll,
}
use ocamil.Marshal.FieldsFrom.{FieldsFrom, FieldsFrom-block, FieldsFrom-head, FieldsFrom-tail}
use ocamil.Marshal.Sharing.{Ready, Ready-Step, Sim}
use ocamil.Marshal.Objects.{Setup, Writer, Stands}
use ocamil.Marshal.Copying.{Copied, IsData, AreData, old-Copied}
use ocamil.Marshal.LeafCases.{
  int-Copied, empty-Copied, text-Copied, double-Copied, double_array-Copied,
}
use ocamil.Marshal.Blocks.{
  CopiedAll, no_fields_copied, fields_copied, with_field, with_field_at, with_field-Sim,
  with_field-Step,
}
use ocamil.Marshal.Nodes.{
  node-Copied, opened, opened_seen, opened_objs, opened_at, opened-Ready, UnfoldsAll-length,
}

weight_positive : (t : Tree) → 0 < weight t
unfolding weight
weight_positive (int n) = omega arith
weight_positive (empty n) = omega arith
weight_positive (text n) = omega arith
weight_positive (double n) = omega arith
weight_positive (double_array n) = omega arith
weight_positive (node n ts) = omega arith

module _ (K : Setup) where
  mutual
    unfolding weight Unfolds IsData

    pub copied :
        (t : Tree) (f g : ℕ) (v : Value) (bound : ℕ) (e : Writer K) (seen : List (Value × ℕ))
        (objs : List Value) (s : Intern)
        → IsData t
        → Stands K v t
        → weight t ≤ f
        → weight t ≤ g
        → weight t ≤ bound
        → e.obj_counter + weight t ≤ 2 ^ 31
        → Sim K.table e seen objs s
        → Ready K.heap bound seen objs s
        → Copied K f g v t e seen objs s
    copied t zero g v bound e seen objs s d u wf wg wb fits sim ready =
        absurd (omega (arith, weight_positive t))
    copied t (suc f) zero v bound e seen objs s d u wf wg wb fits sim ready =
        absurd (omega (arith, weight_positive t))
    copied (int n) (suc f) (suc g) v bound e seen objs s d (w, is, long) wf wg wb fits sim ready =
        rw (is, sym long) (int-Copied K f g e seen objs s sim w (subst IsInt (sym long) d))
    copied (empty tag) (suc f) (suc g) v bound e seen objs s d is wf wg wb fits sim ready =
        rw is (empty-Copied K f g e seen objs s sim tag d)
    copied (text cs) (suc f) (suc g) v bound e seen objs s d (b, bs, is, at, x) wf wg wb fits sim
          ready =
        rw is (text-Copied K f g e seen objs s sim b bound ready wb fits bs cs at x d)
    copied (double x) (suc f) (suc g) v bound e seen objs s d (b, is, at) wf wg wb fits sim ready =
        rw is (double-Copied K f g e seen objs s sim b bound ready wb fits x at d)
    copied (double_array ds) (suc f) (suc g) v bound e seen objs s (d₁, d₂, d₃) (b, is, at) wf wg wb
          fits sim ready =
        rw is (double_array-Copied K f g e seen objs s sim b bound ready wb fits ds at d₁ d₂ d₃)
    copied (node tag ts) (suc f) (suc g) v bound e seen objs s (d₁, d₂, d₃, ds) (b, vs, is, at, us)
          wf wg wb fits sim ready =
        let same_size = UnfoldsAll-length (get_elem? K.heap) vs ts us in
        let stands : Stands K (ptr b 0) (node tag ts) = (b, vs, refl, at, us) in
        rw is (elim (Option-cases (number_of seen (ptr b 0))) [
          | inl new ↦
              node-Copied K f g b tag vs ts e seen objs s sim at d₁ d₂ d₃ same_size stands
                (omega arith) new
                (λ e₁ n sim₁.
                  copied_all ts f g (ptr b 0) 0 (length s.blocks) tag (count ts) vs [] (weights ts)
                    e₁ (opened_seen K f g b tag vs ts e seen objs s sim)
                    (opened_objs K f g b tag vs ts e seen objs s sim)
                    (opened K f g b tag vs ts e seen objs s sim) ds us
                    (FieldsFrom-block K.heap b tag vs at) (omega arith) (omega arith) (omega arith)
                    (omega arith) (opened_at K f g b tag vs ts e seen objs s sim) (omega arith) sim₁
                    (opened-Ready K f g b tag vs ts e seen objs s sim bound stands wb ready))
          | inr (n, old) ↦
              old-Copied K f g e seen objs s sim b (fields tag vs) (node tag ts) at (omega arith)
                (record {
                  not_forward = ground arith;
                  not_infix = ground arith;
                  not_empty = ground arith;
                })
                stands (omega arith) refl n bound old ready wb fits
        ])

    pub copied_all :
        (ts : Trees) (f g : ℕ) (v : Value) (i b tag size : ℕ) (xs ws : List Value) (bound : ℕ)
        (e : Writer K) (seen : List (Value × ℕ)) (objs : List Value) (s : Intern)
        → AreData ts
        → UnfoldsAll (get_elem? K.heap) xs ts
        → FieldsFrom K.heap v i xs
        → weights ts ≤ f
        → weights ts ≤ g
        → weights ts ≤ bound
        → e.obj_counter + weights ts ≤ 2 ^ 31
        → get_elem? s.blocks b ≡ some (building tag size ws)
        → length ws + count ts ≡ size
        → Sim K.table e seen objs s
        → Ready K.heap bound seen objs s
        → CopiedAll K f g v i ts b tag size ws e seen objs s
    copied_all nil f g v i b tag size xs ws bound e seen objs s d us from wf wg wb fits at room sim
          ready =
        no_fields_copied K f g v i b tag size ws e seen objs s at sim
    copied_all (cons t ts) f g v i b tag size xs ws bound e seen objs s (d, ds) (x, rest, is, u, us)
          from wf wg wb fits at room sim ready =
        let c =
          copied t f g x bound e seen objs s d u (omega arith) (omega arith) (omega arith)
            (omega arith) sim ready in
        let ne : length ws ≢ size = omega arith in
        let step = with_field-Step K f g v i b tag size ws e seen objs s at x t ts c ne in
        let next =
          copied_all ts f g v (suc i) b tag size rest (ws ++ (c.v' ∷ [])) bound c.e' c.seen' c.objs'
            (with_field K f g v i b tag size ws e seen objs s at x t ts c) ds us
            (FieldsFrom-tail K.heap v i x xs rest from is) (omega arith) (omega arith) (omega arith)
            (omega (arith, c.counted))
            (with_field_at K f g v i b tag size ws e seen objs s at x t ts c)
            (omega (arith, length-append ws (c.v' ∷ [])))
            (with_field-Sim K f g v i b tag size ws e seen objs s at x t ts c)
            (Ready-Step bound ready step) in
        fields_copied K f g v i b tag size ws e seen objs s at x t ts c ne
          (FieldsFrom-head K.heap v i x xs rest from is) next
