-- ===== src/Marshal/Copying.antt =====
-- Writing a value by byterun/extern.c and reading it by byterun/intern.c: integers, atoms, objects
-- that were written before, and blocks that hold no values.
use ocamil.Prelude.{
  ℕ, suc, ◌+◌, ◌-◌, ◌^◌, ◌≤◌, ◌<◌, ◌≡◌, refl, sym, ap, ◌∙◌, Option, none, some, List, [], ◌∷◌, ◌++◌,
  true, false, inl, length, get_elem?, arith, length-append,
}
use ocamil.Machine.Word.Tagging.{IsInt}
use ocamil.Machine.Value.{Value, ptr, Block, block_tag, block_wosize}
use ocamil.Marshal.{ok}
use ocamil.Marshal.Seen.{number_of}
use ocamil.Marshal.Room.{Malloced, Gives, Gives-more, Gives-along, with_bytes}
use ocamil.Marshal.Extern.{extern_contents, count_words}
use ocamil.Marshal.Intern.{Intern, whole, place, push_object, read_shared}
use ocamil.Marshal.Tree.{
  Tree, Trees, int, empty, text, double, double_array, node, nil, cons, count, is_immediate, extent,
  weight, Unfolds,
}
use ocamil.Marshal.Codes.{shared_prefix}
use ocamil.Marshal.Leaves.{Prefix, immediate}
use ocamil.Marshal.Prefixes.{AllBelow}
use ocamil.Marshal.Contents.{Content}
use ocamil.Marshal.Reading.{
  read_dest, BlocksKept, BlocksKept-ReadsKept, place-BlocksKept, place_self, get_elem?-append,
  get_elem?-append_end, get_elem?-lt,
}
use ocamil.Marshal.Sharing.{Ready, Step, Step-refl, Sim}
use ocamil.Marshal.Objects.{
  Setup, Writer, extern, intern, Stands, IsObject, extern_ptr_lem, old_object, new_object,
  read_shared_lem, object-Step,
}

-- The ranges of the format.
unfoldable mutual
  pub IsData : Tree → Type 0
  IsData (int n) = IsInt n
  IsData (empty tag) = tag < 248
  IsData (text cs) = length cs < 2 ^ 24
  IsData (double d) = d < 2 ^ 64
  IsData (double_array ds) = (0 < length ds) × (length ds < 2 ^ 21) × AllBelow (2 ^ 64) ds
  IsData (node tag ts) = (tag < 248) × (0 < count ts) × (count ts < 2 ^ 22) × AreData ts

  pub AreData : Trees → Type 0
  AreData nil = Unit
  AreData (cons t ts) = IsData t × AreData ts

extent_lem : (t : Tree) → 5 ≤ extent t
unfolding extent
extent_lem (int n) = omega arith
extent_lem (empty tag) = omega arith
extent_lem (text cs) = omega arith
extent_lem (double d) = omega arith
extent_lem (double_array ds) = omega arith
extent_lem (node tag ts) = omega arith

-- What needs no block is read in any state.
pub record ReadAnywhere (K : Setup) (g : ℕ) (t : Tree) (bs : List ℕ) (e e' : Writer K) (v' : Value)
    : Type 0 where
  pub no_object : e'.obj_counter ≡ e.obj_counter
  pub no_words : e'.size_32 ≡ e.size_32
  pub read_anywhere : (rest : List ℕ) (s : Intern) → intern K g (bs ++ rest) s ≡ ok (v', rest, s)
  pub unfolds_anywhere : (rd : ℕ → Option Block) → Unfolds rd v' t

-- A value is written, and what reads it has the same tree.
pub record Copied (K : Setup) (f g : ℕ) (v : Value) (t : Tree) (e : Writer K)
    (seen : List (Value × ℕ)) (objs : List Value) (s : Intern) : Type 0 where
  pub bs : List ℕ
  pub e' : Writer K
  pub seen' : List (Value × ℕ)
  pub objs' : List Value
  pub s' : Intern
  pub v' : Value
  pub emitted : Gives (length e'.written) (extern K f v e) e'
  pub written : e'.written ≡ e.written ++ bs
  pub read_back : (rest : List ℕ) → intern K g (bs ++ rest) s ≡ ok (v', rest, s')
  pub unfolds : Unfolds (read_dest s') v' t
  pub sim : Sim K.table e' seen' objs' s'
  pub step : Step K.heap seen objs s seen' objs' s'
  pub blocks_kept : BlocksKept s s'
  pub counted : e'.obj_counter ≤ e.obj_counter + weight t
  pub grows : e.obj_counter ≤ e'.obj_counter
  pub extended : length bs + e'.size_32 ≤ e.size_32 + extent t
  pub anywhere : is_immediate t ≡ true → ReadAnywhere K g t bs e e' v'
  pub numbered : is_immediate t ≡ false → 0 < e'.obj_counter

module _ (K : Setup) (f g : ℕ) (e : Writer K) (seen : List (Value × ℕ)) (objs : List Value)
    (s : Intern) (sim : Sim K.table e seen objs s) where
  -- What needs no block, and no number.
  pub immediate-Copied :
      (v w : Value) (t : Tree)
      (p : Prefix K.table.Table K.deserializers (extern K f v e) e (immediate w))
      → ((rd : ℕ → Option Block) → Unfolds rd w t)
      → is_immediate t ≡ true
      → Copied K f (suc g) v t e seen objs s
  immediate-Copied v w t p u now = record {
    bs = p.bs;
    e' = with_bytes e p.bs p.size;
    seen' = seen;
    objs' = objs;
    s' = s;
    v' = w;
    emitted = Gives-more (omega (arith, length-append e.written p.bs)) p.emitted;
    written = refl;
    read_back = λ rest. p.read_back g rest s;
    unfolds = u (read_dest s);
    sim = record {
      malloced = (sim.malloced.0, p.positive);
      represents = sim.represents;
      counter = sim.counter;
      objects = sim.objects;
      as_many = sim.as_many;
      same_words = sim.same_words;
      sized = sim.sized;
      blocks_counted = sim.blocks_counted;
    };
    step = Step-refl seen objs s;
    blocks_kept = λ i d e. e;
    counted = omega arith;
    grows = omega arith;
    extended = omega (arith, p.short, extent_lem t);
    anywhere = λ _. record {
      no_object = refl;
      no_words = refl;
      read_anywhere = λ rest s₁. p.read_back g rest s₁;
      unfolds_anywhere = u;
    };
    numbered = λ later. absurd (ground arith);
  }

  module _ (b : ℕ) (block : Block) (t : Tree) (at : get_elem? K.heap b ≡ some block)
      (tag_range : block_tag block < 256) (o : IsObject (block_tag block) (block_wosize block))
      (stands : Stands K (ptr b 0) t) (heavy : 0 < weight t) (later : is_immediate t ≡ false) where
    -- An object that was written before.
    pub old-Copied :
        (n : ℕ) (bound : ℕ)
        → number_of seen (ptr b 0) ≡ some n
        → Ready K.heap bound seen objs s
        → weight t ≤ bound
        → e.obj_counter + weight t ≤ 2 ^ 31
        → Copied K (suc f) (suc g) (ptr b 0) t e seen objs s
    old-Copied n bound known ready small fits =
        let (w, found, u) = ready (ptr b 0) n t known stands small in
        let (table, run, r) =
          old_object K (extern K f) (ptr b 0) (block_tag block) (block_wosize block) e seen o
            sim.represents sim.counter (omega arith) n known in
        let back : e.obj_counter - n ≡ length objs - n = omega (arith, sim.counter, sim.as_many) in
        let p =
          shared_prefix K.deserializers (record e { table = table }) sim.malloced
            (e.obj_counter - n) (omega arith) in
        record {
          bs = p.bs;
          e' = with_bytes (record e { table = table }) p.bs p.size;
          seen' = seen;
          objs' = objs;
          s' = s;
          v' = w;
          emitted =
              Gives-along (extern_ptr_lem K f b block e at tag_range ∙ run)
                (Gives-more (omega (arith, length-append e.written p.bs)) p.emitted);
          written = refl;
          read_back = λ rest.
              p.read_back g rest s
              ∙ (ap (λ k. read_shared k rest s) back
                  ∙ read_shared_lem objs n w rest s sim.objects found);
          unfolds = u;
          sim = record {
            malloced = (sim.malloced.0, p.positive);
            represents = r;
            counter = sim.counter;
            objects = sim.objects;
            as_many = sim.as_many;
            same_words = sim.same_words;
            sized = sim.sized;
            blocks_counted = sim.blocks_counted;
          };
          step = Step-refl seen objs s;
          blocks_kept = λ i d e. e;
          extended = omega (arith, p.short, extent_lem t);
          counted = omega arith;
          grows = omega arith;
          anywhere = λ now. absurd (ground arith);
          numbered = λ _. omega (arith, get_elem?-lt objs n w found, sim.counter, sim.as_many);
        }

    -- A new block that holds no values.
    pub leaf-Copied :
        (out : Block) (words : ℕ)
        → ((e₁ : Writer K)
            → Malloced e₁
            → Content K.table.Table K.deserializers
                (extern_contents K.table K.serializers K.flags K.heap
                  (extern K f)
                  (ptr b 0)
                  (block_tag block)
                  (block_wosize block)
                  e₁)
                e₁
                out
                words
                (extent t))
        → ((s' : Intern) (b' : ℕ)
            → read_dest s' b' ≡ some out
            → Unfolds (read_dest s') (ptr b' 0) t)
        → e.obj_counter < 2 ^ 31
        → number_of seen (ptr b 0) ≡ none
        → Copied K (suc f) (suc g) (ptr b 0) t e seen objs s
    unfolding place count_words read_dest
    leaf-Copied out words contents reads few unknown =
        let (table, run, r) =
          new_object K (extern K f) (ptr b 0) (block_tag block) (block_wosize block) e seen o
            sim.represents sim.counter few unknown in
        let e₁ = record e { table = table; obj_counter = suc e.obj_counter } in
        let p = contents e₁ sim.malloced in
        let s' = (place (whole out) words s).1 in
        let w = ptr (length s.blocks) 0 in
        let objs' = objs ++ (w ∷ []) in
        let here : get_elem? objs' (length seen) ≡ some w =
          ap (get_elem? objs') (sym sim.as_many) ∙ get_elem?-append_end objs w in
        let self : read_dest s' (length s.blocks) ≡ some out =
          rw (place_self (whole out) words s) refl in
        let u = reads s' (length s.blocks) self in
        let kept = place-BlocksKept (whole out) words s in
        record {
          bs = p.bs;
          e' = count_words (1 + words) p.words_64 (with_bytes e₁ p.bs p.size);
          seen' = (ptr b 0, length seen) ∷ seen;
          objs' = objs';
          s' = s';
          v' = w;
          emitted =
              Gives-along (extern_ptr_lem K f b block e at tag_range ∙ run)
                (Gives-more (omega (arith, length-append e.written p.bs)) p.emitted);
          written = refl;
          read_back = λ rest. p.read_back g rest s;
          unfolds = u;
          sim = record {
            malloced = (sim.malloced.0, p.positive);
            represents = r;
            counter = ap suc sim.counter;
            objects = ap (push_object w) sim.objects;
            as_many = omega (arith, length-append objs (w ∷ []), sim.as_many);
            same_words = omega (arith, sim.same_words);
            sized = omega (arith, sim.sized);
            blocks_counted =
                omega (arith, length-append s.blocks (whole out ∷ []), sim.blocks_counted);
          };
          step =
              object-Step (ptr b 0) w (length seen) t seen ((ptr b 0, length seen) ∷ seen) objs
                objs' s s' stands here u (BlocksKept-ReadsKept s s' kept)
                (λ m x found. get_elem?-append objs (w ∷ []) m x found) (λ x m k. inl k);
          blocks_kept = kept;
          extended = omega (arith, p.short);
          counted = omega arith;
          grows = omega arith;
          anywhere = λ now. absurd (ground arith);
          numbered = λ _. omega arith;
        }
