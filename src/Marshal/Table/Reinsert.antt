-- ===== src/Marshal/Table/Reinsert.antt =====
-- The live slots of a table of byterun/extern.c are put into a new one.
use mathlib.Core.Path.{subst}
use ocamil.Prelude.{
  ℕ, zero, suc, ◌+◌, ◌-◌, ◌≤◌, ◌<◌, ◌≡◌, ◌≢◌, refl, sym, ap, ◌∙◌, inl, inr, Option, some, List, [],
  ◌∷◌, true, leb, ◌==◌, length, get_elem?, set, arith, Bool-cases, get_elem?-set_self,
  get_elem?-set_ne, length-set,
}
use ocamil.Machine.Value.{Value}
use ocamil.Marshal.Seen.{number_of}
use ocamil.Marshal.Sharing.{number_of-cases}
use ocamil.Marshal.Table.{ExternObj, ExternTable, hash, free_slot, reinsert}
use ocamil.Marshal.Table.Walk.{walk, walk-lt, walk_covers}
use ocamil.Marshal.Table.Insert.{DeadAt, Busy, live_count, dead_slot, Holds, hash-lt}
use ocamil.Marshal.Table.Place.{placed, placed-Holds, number_of_head, number_of_more}
use ocamil.Marshal.Table.FreeSlot.{Clean, free_slot_lem}

module _ (initial_ofs : ℕ) (positive : 0 < initial_ofs) (address : Value → ℕ)
    (seen : List (Value × ℕ)) where
  abbrev pub Sound : List (Value × ℕ) → Type 0
  Sound acc = (v : Value) (m : ℕ) → number_of acc v ≡ some m → number_of seen v ≡ some m

  abbrev pub Listed : List ExternObj → Type 0
  Listed old =
      (i ofs : ℕ) (obj : Value)
      → get_elem? old i ≡ some (ofs, obj)
      → initial_ofs ≤ ofs
      → number_of seen obj ≡ some (ofs - initial_ofs)

  pub record Reinserted (old : List ExternObj) (t : ExternTable) (acc : List (Value × ℕ))
      : Type 0 where
    pub t' : ExternTable
    pub acc' : List (Value × ℕ)
    pub run : reinsert address initial_ofs old t ≡ some t'
    pub holds : Holds initial_ofs address t' acc'
    pub sound : Sound acc'
    pub all_there :
        (i ofs : ℕ) (obj : Value)
        → get_elem? old i ≡ some (ofs, obj)
        → initial_ofs ≤ ofs
        → (m : ℕ) × (number_of acc' obj ≡ some m)
    pub kept :
        (v : Value) (m : ℕ) → number_of acc v ≡ some m → (m' : ℕ) × (number_of acc' v ≡ some m')
    pub size : length acc' ≡ length acc + live_count initial_ofs old
    pub same_slots : length t'.slots ≡ length t.slots

  -- The slot for one object.
  slot_for :
      (t : ExternTable) (acc : List (Value × ℕ)) (obj : Value)
      → Holds initial_ofs address t acc
      → Clean initial_ofs t.slots
      → length acc < length t.slots
      → (j : ℕ) × (j < length t.slots)
        × Busy initial_ofs t.slots (hash address initial_ofs t obj) j
        × DeadAt initial_ofs t.slots (walk (length t.slots) j (hash address initial_ofs t obj))
        × (free_slot address initial_ofs (length t.slots) t.slots (hash address initial_ofs t obj)
            ≡ some (walk (length t.slots) j (hash address initial_ofs t obj)))
  slot_for t acc obj holds clean room =
      let h = hash address initial_ofs t obj in
      let below = hash-lt initial_ofs address t obj holds.power in
      let (i, b, dead) = dead_slot initial_ofs t.slots (omega (arith, holds.counted)) in
      let (k, l, at) = walk_covers (length t.slots) h i below b in
      let (j, le, busy, dead', run) =
        free_slot_lem initial_ofs positive (length t.slots) k t.slots h below clean
          (subst (λ x. DeadAt initial_ofs t.slots x) (sym at) dead) l in
      (j, omega (arith, le, l), busy, dead', run address)

  -- A live slot of the old table, and then those behind it.
  reinsert_live :
      (ofs : ℕ) (obj : Value) (old : List ExternObj) (t : ExternTable) (acc : List (Value × ℕ))
      (j : ℕ)
      → initial_ofs ≤ ofs
      → free_slot address initial_ofs (length t.slots) t.slots (hash address initial_ofs t obj)
        ≡ some (walk (length t.slots) j (hash address initial_ofs t obj))
      → number_of ((obj, ofs - initial_ofs) ∷ acc) obj ≡ some (ofs - initial_ofs)
      → Reinserted old
          (placed initial_ofs address t acc obj (ofs - initial_ofs) j)
          ((obj, ofs - initial_ofs) ∷ acc)
      → Reinserted ((ofs, obj) ∷ old) t acc
  unfolding reinsert live_count
  reinsert_live ofs obj old t acc j live run own r =
      let test : leb initial_ofs ofs ≡ true = ground arith in
      let whole_number : initial_ofs + (ofs - initial_ofs) ≡ ofs = omega arith in
      let step =
        ap
          (λ n. reinsert address initial_ofs old (record t {
            slots = set t.slots (walk (length t.slots) j (hash address initial_ofs t obj)) (n, obj);
          }))
          (sym whole_number) in
      record {
        t' = r.t';
        acc' = r.acc';
        run = rw (test, run) (step ∙ r.run);
        holds = r.holds;
        sound = r.sound;
        all_there = head_or_tail;
        kept = λ v m known.
            let (m', more) = number_of_more obj v (ofs - initial_ofs) m acc known in
            r.kept v m' more;
        size = ground (arith, r.size);
        same_slots =
            r.same_slots
            ∙ length-set t.slots (walk (length t.slots) j (hash address initial_ofs t obj))
                (initial_ofs + (ofs - initial_ofs), obj);
      }
    where
      head_or_tail :
          (i ofs' : ℕ) (obj' : Value)
          → get_elem? ((ofs, obj) ∷ old) i ≡ some (ofs', obj')
          → initial_ofs ≤ ofs'
          → (m : ℕ) × (number_of r.acc' obj' ≡ some m)
      head_or_tail zero ofs' obj' e l =
          let same : obj ≡ obj' = ground arith in
          subst (λ x. (m : ℕ) × (number_of r.acc' x ≡ some m)) same
            (r.kept obj (ofs - initial_ofs) own)
      head_or_tail (suc i) ofs' obj' e l = r.all_there i ofs' obj' e l

  placed-Clean :
      (t : ExternTable) (acc : List (Value × ℕ)) (obj : Value) (n j : ℕ)
      → Clean initial_ofs t.slots
      → walk (length t.slots) j (hash address initial_ofs t obj) < length t.slots
      → Clean initial_ofs (placed initial_ofs address t acc obj n j).slots
  placed-Clean t acc obj n j clean inside i ofs x e d =
      let p = walk (length t.slots) j (hash address initial_ofs t obj) in
      elim (Bool-cases (p == i)) [
        | inl same ↦
            let is : p ≡ i = ground arith in
            let pair : ◌≡◌ {A = Option ExternObj} (some (initial_ofs + n, obj)) (some (ofs, x)) =
              sym (get_elem?-set_self t.slots p (initial_ofs + n, obj) inside)
              ∙ (ap (get_elem? (set t.slots p (initial_ofs + n, obj))) is ∙ e) in
            absurd (ground arith)
        | inr other ↦
            let ne : p ≢ i = ground arith in
            clean i ofs x (sym (get_elem?-set_ne t.slots (initial_ofs + n, obj) ne) ∙ e) d
      ]

  Sound-more :
      (obj : Value) (n : ℕ) (acc : List (Value × ℕ))
      → number_of seen obj ≡ some n
      → Sound acc
      → Sound ((obj, n) ∷ acc)
  Sound-more obj n acc own sound v m known = elim (number_of-cases obj v n m acc known) [
    | inl (is, number) ↦ rw (is, number) own
    | inr old ↦ sound v m old
  ]

  skip_dead :
      (acc : List (Value × ℕ)) (ofs : ℕ) (obj : Value) (old : List ExternObj)
      → ofs < initial_ofs
      → ((i ofs' : ℕ) (obj' : Value)
          → get_elem? old i ≡ some (ofs', obj')
          → initial_ofs ≤ ofs'
          → (m : ℕ) × (number_of acc obj' ≡ some m))
      → (i ofs' : ℕ) (obj' : Value) → get_elem? ((ofs, obj) ∷ old) i ≡ some (ofs', obj')
      → initial_ofs ≤ ofs'
      → (m : ℕ) × (number_of acc obj' ≡ some m)
  skip_dead acc ofs obj old dead rest zero ofs' obj' e l = absurd (ground arith)
  skip_dead acc ofs obj old dead rest (suc i) ofs' obj' e l = rest i ofs' obj' e l

  pub reinsert_all :
      (old : List ExternObj) (t : ExternTable) (acc : List (Value × ℕ))
      → Holds initial_ofs address t acc
      → Clean initial_ofs t.slots
      → length acc + live_count initial_ofs old < length t.slots
      → Listed old
      → Sound acc
      → Reinserted old t acc
  unfolding reinsert live_count
  reinsert_all [] t acc holds clean room listed sound = record {
    t' = t;
    acc' = acc;
    run = refl;
    holds = holds;
    sound = sound;
    all_there = λ i ofs obj e l. absurd (ground arith);
    kept = λ v m known. (m, known);
    size = omega arith;
    same_slots = refl;
  }
  reinsert_all ((ofs, obj) ∷ old) t acc holds clean room listed sound =
      elim (Bool-cases (leb initial_ofs ofs)) [
        | inr dead ↦
            let r = reinsert_all old t acc holds clean (ground arith) (λ i. listed (suc i)) sound in
            record {
              t' = r.t';
              acc' = r.acc';
              run = rw dead r.run;
              holds = r.holds;
              sound = r.sound;
              all_there = skip_dead r.acc' ofs obj old (ground arith) r.all_there;
              kept = r.kept;
              size = ground (arith, r.size);
              same_slots = r.same_slots;
            }
        | inl test ↦
            let live : initial_ofs ≤ ofs = ground arith in
            let n = ofs - initial_ofs in
            let more : suc (length acc) + live_count initial_ofs old < length t.slots =
              ground arith in
            let (j, b, busy, dead, run) = slot_for t acc obj holds clean (ground arith) in
            let own = listed 0 ofs obj refl live in
            let same_number : (m : ℕ) → number_of acc obj ≡ some m → m ≡ n = λ m known.
              let both : ◌≡◌ {A = Option ℕ} (some m) (some n) = sym (sound obj m known) ∙ own in
              ground arith in
            let here =
              walk-lt (length t.slots) j (hash address initial_ofs t obj)
                (hash-lt initial_ofs address t obj holds.power) in
            reinsert_live ofs obj old t acc j live run (number_of_head obj n acc) (
              reinsert_all old (placed initial_ofs address t acc obj n j) ((obj, n) ∷ acc)
                (placed-Holds initial_ofs address t acc obj n j holds b busy dead same_number)
                (placed-Clean t acc obj n j clean here)
                (rw
                  (length-set t.slots (walk (length t.slots) j (hash address initial_ofs t obj))
                    (initial_ofs + n, obj))
                  more)
                (λ i. listed (suc i)) (Sound-more obj n acc own sound))
      ]
