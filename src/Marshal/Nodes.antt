-- ===== src/Marshal/Nodes.antt =====
-- A block with fields, from its header to its last field, in byterun/extern.c and byterun/intern.c.
use mathlib.Core.Path.{subst}
use ocamil.Prelude.{
  ℕ, suc, ◌+◌, ◌^◌, ◌≤◌, ◌<◌, ◌≡◌, refl, sym, ap, ◌∙◌, Option, none, some, List, [], ◌∷◌, ◌++◌,
  true, false, inl, inr, ◌==◌, length, get_elem?, arith, length-append,
}
use ocamil.Machine.Value.{
  Value, ptr, Block, fields, string_tag, double_tag, double_array_tag, infix_tag,
}
use ocamil.Compare.{abstract_tag, object_tag, custom_tag}
use ocamil.Marshal.{ok, ◌>>=◌}
use ocamil.Marshal.Seen.{number_of}
use ocamil.Marshal.Room.{Malloced, Gives-bind, Gives-more, Gives-along, with_bytes}
use ocamil.Marshal.Extern.{extern_fields, extern_contents, extern_header, count_words}
use ocamil.Marshal.Intern.{Intern, building, place, push_object, intern_fields, read_block}
use ocamil.Marshal.Tree.{
  Trees, node, nil, cons, count, weight, weights, extent, Unfolds, Unfolds-unique, Unfolds-mono,
  UnfoldsAll,
}
use mathlib.Core.List.{append_assoc}
use ocamil.Marshal.Contents.{header_prefix}
use ocamil.Marshal.Reading.{
  read_dest, BlocksKept, place_self, place-BlocksKept, BlocksKept-ReadsKept, get_elem?-lt,
  get_elem?-append, get_elem?-append_end,
}
use ocamil.Marshal.Sharing.{Ready, Sim, number_of-cases}
use ocamil.Marshal.Objects.{
  Setup, Writer, extern, intern, Stands, IsObject, extern_ptr_lem, new_object, object-Step,
}
use ocamil.Marshal.Copying.{Copied}
use ocamil.Marshal.Blocks.{CopiedAll}

-- The switch on the tag, for a block with fields.
extern_fields_lem :
    (K : Setup) (f b tag sz : ℕ) (e : Writer K)
    → tag < 248
    → extern_contents K.table K.serializers K.flags K.heap (extern K f) (ptr b 0) tag sz e ≡ (
        extern_header tag sz e
        >>= extern_fields K.table K.serializers K.flags K.heap (extern K f) (ptr b 0) 0 sz)
unfolding extern_contents
extern_fields_lem K f b tag sz e h =
    let n₁ : (tag == string_tag) ≡ false = ground arith in
    let n₂ : (tag == double_tag) ≡ false = ground arith in
    let n₃ : (tag == double_array_tag) ≡ false = ground arith in
    let n₄ : (tag == abstract_tag) ≡ false = ground arith in
    let n₅ : (tag == infix_tag) ≡ false = ground arith in
    let n₆ : (tag == object_tag) ≡ false = ground arith in
    let n₇ : (tag == custom_tag) ≡ false = ground arith in rw (n₁, n₂, n₃, n₄, n₅, n₆, n₇) refl

pub UnfoldsAll-length :
    (rd : ℕ → Option Block) (vs : List Value) (ts : Trees)
    → UnfoldsAll rd vs ts
    → length vs ≡ count ts
unfolding UnfoldsAll
UnfoldsAll-length rd vs nil h = ap length h
UnfoldsAll-length rd vs (cons t ts) (x, xs, e, u, us) =
    ap length e ∙ ap suc (UnfoldsAll-length rd xs ts us)

module _ (K : Setup) (f g b tag : ℕ) (vs : List Value) (ts : Trees) (e : Writer K)
    (seen : List (Value × ℕ)) (objs : List Value) (s : Intern)
    (sim : Sim K.table e seen objs s) where
  abbrev pub opened_seen : List (Value × ℕ)
  opened_seen = (ptr b 0, length seen) ∷ seen

  abbrev pub opened_objs : List Value
  opened_objs = objs ++ (ptr (length s.blocks) 0 ∷ [])

  abbrev pub opened : Intern
  opened = (place (building tag (count ts) []) (count ts) s).1

  pub opened_at : get_elem? opened.blocks (length s.blocks) ≡ some (building tag (count ts) [])
  opened_at = place_self (building tag (count ts) []) (count ts) s

  -- The block itself is larger than its fields.
  pub opened-Ready :
      (bound : ℕ)
      → Stands K (ptr b 0) (node tag ts)
      → weight (node tag ts) ≤ bound
      → Ready K.heap bound seen objs s
      → Ready K.heap (weights ts) opened_seen opened_objs opened
  unfolding weight
  opened-Ready bound stands small ready v n t known u l =
      elim (number_of-cases (ptr b 0) v (length seen) n seen known) [
        | inl (is, _) ↦
            let u' : Stands K (ptr b 0) t = subst (λ z. Stands K z t) is u in
            let trees = Unfolds-unique (get_elem? K.heap) (ptr b 0) (node tag ts) t stands u' in
            absurd (omega (arith, ap weight trees))
        | inr old ↦
            let (w, at, x) = ready v n t old u (omega arith) in
            (
              w,
              get_elem?-append objs (ptr (length s.blocks) 0 ∷ []) n w at,
              Unfolds-mono (read_dest s) (read_dest opened) w t
                  (BlocksKept-ReadsKept s opened
                    (place-BlocksKept (building tag (count ts) []) (count ts) s))
                  x,
            )
      ]

  read_block_lem :
      (src rest : List ℕ) (s' : Intern)
      → 0 < count ts
      → intern_fields (intern K g) (length s.blocks) (count ts) src opened ≡ ok (rest, s')
      → read_block (intern K g) tag (count ts) src s ≡ ok (ptr (length s.blocks) 0, rest, s')
  unfolding read_block place
  read_block_lem src rest s' some_fields run =
      let n : (count ts == 0) ≡ false = ground arith in rw (n, run) refl

  built_lem :
      (ws : List Value) (s' : Intern)
      → length ws ≡ count ts
      → get_elem? s'.blocks (length s.blocks) ≡ some (building tag (count ts) ws)
      → read_dest s' (length s.blocks) ≡ some (fields tag ws)
  unfolding read_dest
  built_lem ws s' l at =
      let full : (length ws == count ts) ≡ true = ground arith in rw (at, full) refl

  opened-Sim :
      (e₂ : Writer K)
      → Malloced e₂
      → K.table.Represents e₂.table opened_seen
      → e₂.obj_counter ≡ suc (length seen)
      → e₂.size_32 ≡ s.words + (1 + count ts)
      → e₂.obj_counter ≤ e₂.size_32
      → Sim K.table e₂ opened_seen opened_objs opened
  unfolding place
  opened-Sim e₂ m r n size sized = record {
    malloced = m;
    represents = r;
    counter = n;
    objects = ap (push_object (ptr (length s.blocks) 0)) sim.objects;
    as_many = omega (arith, length-append objs (ptr (length s.blocks) 0 ∷ []), sim.as_many);
    same_words = omega (arith, size);
    sized = sized;
    blocks_counted =
        omega (arith, length-append s.blocks (building tag (count ts) [] ∷ []), sim.blocks_counted);
  }

  -- A new block, when its fields are copied.
  pub node-Copied :
      get_elem? K.heap b ≡ some (fields tag vs)
      → tag < 248
      → 0 < count ts
      → count ts < 2 ^ 22
      → length vs ≡ count ts
      → Stands K (ptr b 0) (node tag ts)
      → e.obj_counter < 2 ^ 31
      → number_of seen (ptr b 0) ≡ none
      → ((e₁ : Writer K)
          → e₁.obj_counter ≡ suc e.obj_counter
          → Sim K.table e₁ opened_seen opened_objs opened
          → CopiedAll K f g
              (ptr b 0)
              0
              ts
              (length s.blocks)
              tag
              (count ts)
              []
              e₁
              opened_seen
              opened_objs
              opened)
      → Copied K (suc f) (suc g) (ptr b 0) (node tag ts) e seen objs s
  unfolding Unfolds weight extent count_words extern_header
  node-Copied at tag_range some_fields size_range same_size stands few unknown copy =
      let o : IsObject tag (length vs) = record {
        not_forward = ground arith;
        not_infix = ground arith;
        not_empty = ground arith;
      } in
      let (table, run, r) =
        new_object K (extern K f) (ptr b 0) tag (length vs) e seen o sim.represents sim.counter few
          unknown in
      let e₁ = record e { table = table; obj_counter = suc e.obj_counter } in
      let sz = count ts in
      let w = ptr (length s.blocks) 0 in
      let p = header_prefix K.deserializers e₁ sim.malloced tag sz (omega arith) size_range in
      let e₂ = count_words (1 + sz) (1 + sz) (with_bytes e₁ p.bs p.size) in
      let c = copy e₂ refl (
        opened-Sim e₂ (sim.malloced.0, p.positive) r (ap suc sim.counter)
          (ap (λ n. n + (1 + sz)) sim.same_words) (omega (arith, sim.sized))) in
      let building_kept = place-BlocksKept (building tag sz []) sz s in
      let kept : BlocksKept s c.s' = λ j d found.
        let below = get_elem?-lt s.blocks j d found in
        c.others_kept j d (omega (arith, below)) (building_kept j d found) in
      let done =
        built_lem c.ws' c.s' (UnfoldsAll-length (read_dest c.s') c.ws' ts c.unfolds)
          c.being_built in
      let u : Unfolds (read_dest c.s') w (node tag ts) =
        (length s.blocks, c.ws', refl, done, c.unfolds) in
      let here : get_elem? opened_objs (length seen) ≡ some w =
        ap (get_elem? opened_objs) (sym sim.as_many) ∙ get_elem?-append_end objs w in
      record {
        bs = p.bs ++ c.bs;
        e' = c.e';
        seen' = c.seen';
        objs' = c.objs';
        s' = c.s';
        v' = w;
        emitted =
            Gives-along
              (extern_ptr_lem K f b (fields tag vs) e at (omega arith)
                ∙ (run
                    ∙ (ap
                          (λ n.
                            extern_contents K.table K.serializers K.flags K.heap (extern K f)
                              (ptr b 0) tag n e₁)
                          same_size
                        ∙ extern_fields_lem K f b tag sz e₁ tag_range)))
              (Gives-bind {m = length e₂.written} _
                (omega (arith, ap length c.written, length-append e₂.written c.bs))
                (Gives-bind {m = length e₂.written} _ (omega arith)
                  (Gives-more (omega (arith, length-append e.written p.bs)) p.emitted) (λ _. refl))
                c.emitted);
        written = c.written ∙ append_assoc e.written p.bs c.bs;
        read_back = λ rest. rw (append_assoc p.bs c.bs rest) (
            p.read_back g (c.bs ++ rest) s
            ∙ read_block_lem (c.bs ++ rest) rest c.s' some_fields (c.read_back rest));
        unfolds = u;
        sim = c.sim;
        step =
            object-Step (ptr b 0) w (length seen) (node tag ts) seen c.seen' objs c.objs' s c.s'
              stands (c.step.objs_kept (length seen) w here) u (BlocksKept-ReadsKept s c.s' kept)
              (λ m x found. c.step.objs_kept m x (get_elem?-append objs (w ∷ []) m x found))
              c.step.completed;
        blocks_kept = kept;
        counted = omega (arith, c.counted);
        grows = omega (arith, c.grows);
        extended = omega (arith, c.extended, p.short, length-append p.bs c.bs);
        anywhere = λ now. absurd (ground arith);
        numbered = λ _. omega (arith, c.grows);
      }
