-- ===== src/Marshal/Blocks.antt =====
-- Blocks with fields, written by byterun/extern.c and read by byterun/intern.c: the fields one by
-- one, and the block around them.
use ocamil.Prelude.{
  ℕ, suc, ◌+◌, ◌≤◌, ◌≡◌, ◌≢◌, refl, sym, ap, ◌∙◌, some, List, [], ◌∷◌, ◌++◌, inl, length, get_elem?,
  arith, length-append, length-set,
}
use ocamil.Machine.Value.{Value, field}
use ocamil.Marshal.{ok}
use ocamil.Marshal.Room.{Gives, Gives-bind}
use ocamil.Marshal.Extern.{extern_fields}
use ocamil.Marshal.Intern.{Intern, Dest, building, intern_fields}
use ocamil.Marshal.Tree.{Tree, Trees, nil, cons, count, weights, extents, UnfoldsAll, Unfolds-mono}
use mathlib.Core.List.{append_assoc}
use ocamil.Marshal.Reading.{
  read_dest, filled, fill_lem, filled_self, filled-other, filled-ReadsKept,
}
use ocamil.Marshal.Sharing.{Step, Step-refl, Step-trans, Sim}
use ocamil.Marshal.Objects.{Setup, Writer, extern, intern}
use ocamil.Marshal.Copying.{Copied}

-- The fields from one on are written, and read into a block that holds the fields before them.
pub record CopiedAll (K : Setup) (f g : ℕ) (v : Value) (i : ℕ) (ts : Trees) (b tag size : ℕ)
    (ws : List Value) (e : Writer K) (seen : List (Value × ℕ)) (objs : List Value) (s : Intern)
    : Type 0 where
  pub bs : List ℕ
  pub e' : Writer K
  pub seen' : List (Value × ℕ)
  pub objs' : List Value
  pub s' : Intern
  pub ws' : List Value
  pub emitted :
      Gives
        (length e'.written)
        (extern_fields K.table K.serializers K.flags K.heap (extern K f) v i (count ts) e)
        e'
  pub written : e'.written ≡ e.written ++ bs
  pub read_back :
      (rest : List ℕ) → intern_fields (intern K g) b (count ts) (bs ++ rest) s ≡ ok (rest, s')
  pub unfolds : UnfoldsAll (read_dest s') ws' ts
  pub being_built : get_elem? s'.blocks b ≡ some (building tag size (ws ++ ws'))
  pub others_kept :
      (j : ℕ) (d : Dest) → b ≢ j → get_elem? s.blocks j ≡ some d → get_elem? s'.blocks j ≡ some d
  pub sim : Sim K.table e' seen' objs' s'
  pub step : Step K.heap seen objs s seen' objs' s'
  pub counted : e'.obj_counter ≤ e.obj_counter + weights ts
  pub extended : length bs + e'.size_32 ≤ e.size_32 + extents ts
  pub grows : e.obj_counter ≤ e'.obj_counter

pub append_nil : {A : Type 0} (xs : List A) → xs ++ [] ≡ xs
append_nil [] = refl
append_nil (x ∷ xs) = ap (λ l. x ∷ l) (append_nil xs)

module _ (K : Setup) (f g : ℕ) (v : Value) (i b tag size : ℕ) (ws : List Value) (e : Writer K)
    (seen : List (Value × ℕ)) (objs : List Value) (s : Intern)
    (at : get_elem? s.blocks b ≡ some (building tag size ws)) where
  pub no_fields_copied :
      Sim K.table e seen objs s → CopiedAll K f g v i nil b tag size ws e seen objs s
  unfolding UnfoldsAll extern_fields intern_fields weights extents
  no_fields_copied sim = record {
    bs = [];
    e' = e;
    seen' = seen;
    objs' = objs;
    s' = s;
    ws' = [];
    emitted = λ _. refl;
    written = sym (append_nil e.written);
    read_back = λ rest. refl;
    unfolds = refl;
    being_built = rw (append_nil ws) at;
    others_kept = λ j d ne x. x;
    sim = sim;
    step = Step-refl seen objs s;
    counted = omega arith;
    extended = omega arith;
    grows = omega arith;
  }

  -- The state when the first of the fields is in its place.
  module _ (x : Value) (t : Tree) (ts : Trees) (c : Copied K f g x t e seen objs s) where
    pub still_at : get_elem? c.s'.blocks b ≡ some (building tag size ws)
    still_at = c.blocks_kept b (building tag size ws) at

    abbrev pub with_field : Intern
    with_field = filled c.s' b tag size ws c.v' still_at

    pub with_field_at : get_elem? with_field.blocks b ≡ some (building tag size (ws ++ (c.v' ∷ [])))
    with_field_at = filled_self c.s' b tag size ws c.v' still_at

    pub with_field-Sim : Sim K.table c.e' c.seen' c.objs' with_field
    with_field-Sim = record {
      malloced = c.sim.malloced;
      represents = c.sim.represents;
      counter = c.sim.counter;
      objects = c.sim.objects;
      as_many = c.sim.as_many;
      same_words = c.sim.same_words;
      sized = c.sim.sized;
      blocks_counted =
          length-set c.s'.blocks b (building tag size (ws ++ (c.v' ∷ []))) ∙ c.sim.blocks_counted;
    }

    pub with_field-Step : length ws ≢ size → Step K.heap seen objs s c.seen' c.objs' with_field
    with_field-Step ne = Step-trans c.step (record {
      reads_kept = filled-ReadsKept c.s' b tag size ws c.v' still_at ne;
      objs_kept = λ n w found. found;
      completed = λ y n k. inl k;
    })

    pub fields_copied :
        length ws ≢ size
        → field K.heap v i ≡ some x
        → CopiedAll K f g v
            (suc i)
            ts
            b
            tag
            size
            (ws ++ (c.v' ∷ []))
            c.e'
            c.seen'
            c.objs'
            with_field
        → CopiedAll K f g v i (cons t ts) b tag size ws e seen objs s
    unfolding UnfoldsAll extern_fields intern_fields weights extents
    fields_copied ne here r = record {
      bs = c.bs ++ r.bs;
      e' = r.e';
      seen' = r.seen';
      objs' = r.objs';
      s' = r.s';
      ws' = c.v' ∷ r.ws';
      emitted = rw here (
          Gives-bind {m = length c.e'.written} _
            (omega (arith, ap length r.written, length-append c.e'.written r.bs)) c.emitted
            r.emitted);
      written = r.written ∙ (ap (λ l. l ++ r.bs) c.written ∙ append_assoc e.written c.bs r.bs);
      read_back = λ rest.
          rw
            (
              append_assoc c.bs r.bs rest,
              c.read_back (r.bs ++ rest),
              fill_lem c.s' b tag size ws c.v' still_at,
            )
            (r.read_back rest);
      unfolds = (
        c.v',
        r.ws',
        refl,
        Unfolds-mono (read_dest c.s') (read_dest r.s') c.v' t
            (λ j block found.
              r.step.reads_kept j block
                (filled-ReadsKept c.s' b tag size ws c.v' still_at ne j block found))
            c.unfolds,
        r.unfolds,
      );
      being_built =
          r.being_built ∙ ap (λ l. some (building tag size l)) (append_assoc ws (c.v' ∷ []) r.ws');
      others_kept = λ j d other found.
          r.others_kept j d other
            (filled-other c.s' b tag size ws c.v' still_at j d other (c.blocks_kept j d found));
      sim = r.sim;
      step = Step-trans (with_field-Step ne) r.step;
      counted = omega (arith, c.counted, r.counted);
      extended = omega (arith, c.extended, r.extended, length-append c.bs r.bs);
      grows = omega (arith, c.grows, r.grows);
    }
