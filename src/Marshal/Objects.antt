-- ===== src/Marshal/Objects.antt =====
-- A block that byterun/extern.c meets: a number when it was written before, or its contents; and
-- what byterun/intern.c does with the number.
use mathlib.Core.Path.{subst}
use ocamil.Prelude.{
  ℕ, suc, ◌-◌, ◌/◌, ◌%◌, ◌^◌, ◌<◌, ◌≡◌, ◌⊎◌, inl, inr, refl, none, some, List, ◌∷◌, true, false,
  ◌==◌, ◌&&◌, ltb, leb, length, get_elem?, arith,
}
use ocamil.Machine.Value.{
  Value, ptr, Heap, Block, header, block_tag, block_wosize, make_header, infix_tag,
}
use ocamil.Compare.{forward_tag}
use ocamil.Marshal.{Result, ok}
use ocamil.Marshal.Seen.{SeenTable, number_of}
use ocamil.Marshal.Extern.{
  Extern, Serializers, Flags, extern_rec, extern_block, extern_contents, extern_shared, check_seen,
}
use ocamil.Marshal.Intern.{Intern, Deserializers, intern_rec, read_shared}
use ocamil.Marshal.Tree.{Tree, Unfolds, Unfolds-unique, ReadsKept}
use ocamil.Marshal.Reading.{read_dest, get_elem?-lt}
use ocamil.Marshal.Sharing.{Complete, Step, number_of-cases}

-- Both sides, with the heap that is written.
pub record Setup : Type 1 where
  pub table : SeenTable
  pub serializers : Serializers
  pub deserializers : Deserializers
  pub flags : Flags
  pub heap : Heap
  pub sharing : flags.ignore_sharing ≡ false

module _ (K : Setup) where
  abbrev pub Writer : Type 0
  Writer = Extern K.table.Table

  abbrev pub extern : ℕ → Value → Writer → Result Writer
  extern f = extern_rec K.table K.serializers K.flags K.heap f

  abbrev pub intern : ℕ → List ℕ → Intern → Result (Value × List ℕ × Intern)
  intern g = intern_rec K.deserializers g

  abbrev pub Stands : Value → Tree → Type 0
  Stands v t = Unfolds (get_elem? K.heap) v t

module _ (K : Setup) (f b : ℕ) (block : Block) (e : Writer K)
    (at : get_elem? K.heap b ≡ some block) where
  header_lem : header K.heap (ptr b 0) ≡ some (make_header (block_wosize block) (block_tag block))
  unfolding header
  header_lem = rw at refl

  pub extern_ptr_lem :
      block_tag block < 256
      → extern K (suc f) (ptr b 0) e
        ≡ extern_block K.table K.serializers K.flags K.heap
            (extern K f)
            (ptr b 0)
            (block_tag block)
            (block_wosize block)
            e
  unfolding extern_rec
  extern_ptr_lem h =
      let tag : make_header (block_wosize block) (block_tag block) % 2 ^ 8 ≡ block_tag block =
        omega arith in
      let sz : make_header (block_wosize block) (block_tag block) / 2 ^ 10 ≡ block_wosize block =
        omega arith in
      rw (header_lem, tag, sz) refl

-- A tag that extern_rec does not treat first, and a size that is not 0.
pub record IsObject (tag sz : ℕ) : Type 0 where
  pub not_forward : (tag == forward_tag) ≡ false
  pub not_infix : (tag == infix_tag) ≡ false
  pub not_empty : (sz == 0) ≡ false

module _ (K : Setup) (rec : Value → Writer K → Result (Writer K)) (v : Value) (tag sz : ℕ)
    (e : Writer K) (seen : List (Value × ℕ)) (o : IsObject tag sz)
    (represents : K.table.Represents e.table seen) (counter : e.obj_counter ≡ length seen)
    (few : e.obj_counter < 2 ^ 31) where
  check_old :
      (n : ℕ)
      → number_of seen v ≡ some n
      → (t : K.table.Table) × (check_seen K.table K.serializers K.flags K.heap v tag e
          ≡ ok (some n, record e { table = t }))
        × K.table.Represents t seen
  unfolding check_seen
  check_old n known =
      let (t, found, r) =
        K.table.find_or_record_old e.table seen v n represents (omega (arith, few, counter))
          known in
      let found' : K.table.find_or_record e.table v e.obj_counter ≡ some (some n, t) =
        rw counter found in
      (t, rw (o.not_infix, K.sharing, found') refl, r)

  check_new :
      number_of seen v ≡ none
      → (t : K.table.Table) × (check_seen K.table K.serializers K.flags K.heap v tag e
          ≡ ok (none, record e { table = t; obj_counter = suc e.obj_counter }))
        × K.table.Represents t ((v, length seen) ∷ seen)
  unfolding check_seen
  check_new unknown =
      let (t, found, r) =
        K.table.find_or_record_new e.table seen v represents (omega (arith, few, counter))
          unknown in
      let found' : K.table.find_or_record e.table v e.obj_counter ≡ some (none, t) =
        rw counter found in
      (t, rw (o.not_infix, K.sharing, found') refl, r)

  pub old_object :
      (n : ℕ)
      → number_of seen v ≡ some n
      → (t : K.table.Table) × (extern_block K.table K.serializers K.flags K.heap rec v tag sz e
          ≡ extern_shared (e.obj_counter - n) (record e { table = t }))
        × K.table.Represents t seen
  unfolding extern_block
  old_object n known =
      let (t, found, r) = check_old n known in (t, rw (o.not_forward, o.not_empty, found) refl, r)

  pub new_object :
      number_of seen v ≡ none
      → (t : K.table.Table) × (extern_block K.table K.serializers K.flags K.heap rec v tag sz e
          ≡ extern_contents K.table K.serializers K.flags K.heap rec v tag sz
              (record e { table = t; obj_counter = suc e.obj_counter }))
        × K.table.Represents t ((v, length seen) ∷ seen)
  unfolding extern_block
  new_object unknown =
      let (t, found, r) = check_new unknown in (t, rw (o.not_forward, o.not_empty, found) refl, r)

-- The number of an object counts back from the last one.
pub read_shared_lem :
    (objs : List Value) (n : ℕ) (w : Value) (rest : List ℕ) (s : Intern)
    → s.intern_obj_table ≡ some objs
    → get_elem? objs n ≡ some w
    → read_shared (length objs - n) rest s ≡ ok (w, rest, s)
unfolding read_shared
read_shared_lem objs n w rest s t at =
    let in_range = get_elem?-lt objs n w at in
    let back : length objs - (length objs - n) ≡ n = omega (arith, in_range) in
    let test : (ltb 0 (length objs - n) && leb (length objs - n) (length objs)) ≡ true =
      ground (arith, in_range) in
    rw (t, test, back, at) refl

-- An object is complete when its contents are.
pub object-Step :
    {h : Heap} (v w : Value) (n : ℕ) (t : Tree) (seen seen' : List (Value × ℕ))
    (objs objs' : List Value) (s s' : Intern)
    → Unfolds (get_elem? h) v t
    → get_elem? objs' n ≡ some w
    → Unfolds (read_dest s') w t
    → ReadsKept (read_dest s) (read_dest s')
    → ((m : ℕ) (x : Value) → get_elem? objs m ≡ some x → get_elem? objs' m ≡ some x)
    → ((x : Value) (m : ℕ)
        → number_of seen' x ≡ some m
        → (number_of ((v, n) ∷ seen) x ≡ some m) ⊎ Complete h x m objs' s')
    → Step h seen objs s seen' objs' s'
object-Step {h} v w n t seen seen' objs objs' s s' u at x reads objs_kept done = record {
  reads_kept = reads;
  objs_kept = objs_kept;
  completed = λ y m e. elim (done y m e) [
    | inr d ↦ inr d
    | inl k ↦ elim (number_of-cases v y n m seen k) [
      | inr older ↦ inl older
      | inl (same, is_n) ↦ inr (λ t' u'.
          let trees : t ≡ t' =
            Unfolds-unique (get_elem? h) v t t' u
              (subst (λ z. Unfolds (get_elem? h) z t') same u') in
          (w, rw is_n at, subst (λ z. Unfolds (read_dest s') w z) trees x))
    ]
  ];
}
