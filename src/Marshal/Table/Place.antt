-- ===== src/Marshal/Table/Place.antt =====
-- An object is put in a slot of the table of byterun/extern.c that is not live.
use mathlib.Core.Path.{subst}
use ocamil.Prelude.{
  ℕ, suc, ◌+◌, ◌-◌, ◌≤◌, ◌<◌, ◌≡◌, ◌≢◌, refl, sym, ap, ◌∙◌, inl, inr, Option, some, List, ◌∷◌,
  false, ◌==◌, length, get_elem?, set, arith, Bool-cases, get_elem?-set_self, get_elem?-set_ne,
  length-set,
}
use ocamil.Interp.Arith.{same_value}
use ocamil.Machine.Value.{Value}
use ocamil.Marshal.Seen.{number_of}
use ocamil.Marshal.Sharing.{same_value_sound, number_of-cases}
use ocamil.Marshal.Table.{ExternObj, ExternTable, hash}
use ocamil.Marshal.Table.Walk.{walk, walk-lt}
use ocamil.Marshal.Table.Insert.{DeadAt, Busy, live_count-set, Holds, hash-lt, same_value_refl}

pub number_of_head :
    (v : Value) (n : ℕ) (seen : List (Value × ℕ)) → number_of ((v, n) ∷ seen) v ≡ some n
unfolding number_of
number_of_head v n seen = rw (same_value_refl v) refl

pub number_of_tail :
    (v u : Value) (n : ℕ) (seen : List (Value × ℕ))
    → same_value v u ≡ false
    → number_of ((v, n) ∷ seen) u ≡ number_of seen u
unfolding number_of
number_of_tail v u n seen h = rw h refl

pub number_of_more :
    (w v : Value) (n m : ℕ) (seen : List (Value × ℕ))
    → number_of seen v ≡ some m
    → (m' : ℕ) × (number_of ((w, n) ∷ seen) v ≡ some m')
unfolding number_of
number_of_more w v n m seen h = elim (Bool-cases (same_value w v)) [
  | inl s ↦ (n, rw s refl)
  | inr s ↦ (m, rw s h)
]

module _ (initial_ofs : ℕ) (slots : List ExternObj) (p : ℕ) (x : ExternObj)
    (dead : DeadAt initial_ofs slots p) where
  live_elsewhere :
      (i ofs : ℕ) (obj : Value) → get_elem? slots i ≡ some (ofs, obj) → initial_ofs ≤ ofs → p ≢ i
  live_elsewhere i ofs obj e l same =
      let (o, y, e', d) = dead in
      let clash : ◌≡◌ {A = Option ExternObj} (some (o, y)) (some (ofs, obj)) =
        sym e' ∙ (ap (get_elem? slots) same ∙ e) in
      absurd (ground arith)

  set_live :
      (i ofs : ℕ) (obj : Value)
      → get_elem? slots i ≡ some (ofs, obj)
      → initial_ofs ≤ ofs
      → get_elem? (set slots p x) i ≡ some (ofs, obj)
  set_live i ofs obj e l = get_elem?-set_ne slots x (live_elsewhere i ofs obj e l) ∙ e

  set-Busy : (h k : ℕ) → Busy initial_ofs slots h k → Busy initial_ofs (set slots p x) h k
  set-Busy h k busy j l =
      let (ofs, obj, e, live) = busy j l in
      let at : get_elem? (set slots p x) (walk (length (set slots p x)) j h) ≡ some (ofs, obj) =
        rw (length-set slots p x) (set_live (walk (length slots) j h) ofs obj e live) in
      (ofs, obj, at, live)

module _ (initial_ofs : ℕ) (address : Value → ℕ) (t : ExternTable) (seen : List (Value × ℕ))
    (v : Value) (n j : ℕ) where
  abbrev here : ℕ
  here = walk (length t.slots) j (hash address initial_ofs t v)

  abbrev pub placed : ExternTable
  placed = record t {
    slots =
        set t.slots (walk (length t.slots) j (hash address initial_ofs t v)) (initial_ofs + n, v);
  }

  placed-hash : (u : Value) → hash address initial_ofs placed u ≡ hash address initial_ofs t u
  unfolding hash
  placed-hash u = refl

  module _ (holds : Holds initial_ofs address t seen) (inside : j < length t.slots)
      (busy : Busy initial_ofs t.slots (hash address initial_ofs t v) j)
      (dead : DeadAt initial_ofs t.slots here)
      (consistent : (m : ℕ) → number_of seen v ≡ some m → m ≡ n) where
    placed_listed :
        (i ofs : ℕ) (obj : Value)
        → get_elem? placed.slots i ≡ some (ofs, obj)
        → initial_ofs ≤ ofs
        → number_of ((v, n) ∷ seen) obj ≡ some (ofs - initial_ofs)
    placed_listed i ofs obj e l = elim (Bool-cases (here == i)) [
      | inl same ↦
          let is : i ≡ here = ground arith in
          let own : get_elem? placed.slots here ≡ some (initial_ofs + n, v) =
            get_elem?-set_self t.slots here (initial_ofs + n, v)
              (walk-lt (length t.slots) j (hash address initial_ofs t v)
                (hash-lt initial_ofs address t v holds.power)) in
          let pair : ◌≡◌ {A = Option ExternObj} (some (initial_ofs + n, v)) (some (ofs, obj)) =
            sym own ∙ (ap (get_elem? placed.slots) (sym is) ∙ e) in
          let number : ofs - initial_ofs ≡ n = ground arith in
          let object : v ≡ obj = ground arith in rw (number, sym object) (number_of_head v n seen)
      | inr other ↦
          let ne : here ≢ i = ground arith in
          let old =
            holds.listed i ofs obj (sym (get_elem?-set_ne t.slots (initial_ofs + n, v) ne) ∙ e) l in
          elim (Bool-cases (same_value v obj)) [
            | inr differ ↦ number_of_tail v obj n seen differ ∙ old
            | inl s ↦
                let object = same_value_sound v obj s in
                let number = consistent (ofs - initial_ofs) (ap (number_of seen) object ∙ old) in
                rw (sym object, number) (number_of_head v n seen)
          ]
    ]

    abbrev Reached : Value → ℕ → Type 0
    Reached u m =
        (k : ℕ) × (k < length placed.slots)
        × Busy initial_ofs placed.slots (hash address initial_ofs placed u) k
        × (get_elem? placed.slots (walk (length placed.slots) k (hash address initial_ofs placed u))
            ≡ some (initial_ofs + m, u))

    reached_lem :
        (u : Value) (m k : ℕ)
        → k < length t.slots
        → Busy initial_ofs t.slots (hash address initial_ofs t u) k
        → get_elem? placed.slots (walk (length t.slots) k (hash address initial_ofs t u))
          ≡ some (initial_ofs + m, u)
        → Reached u m
    reached_lem u m k l b at =
        let same_length = length-set t.slots here (initial_ofs + n, v) in
        (
          k,
          rw same_length l,
          subst (λ x. Busy initial_ofs placed.slots x k) (sym (placed-hash u))
              (set-Busy initial_ofs t.slots here (initial_ofs + n, v) dead
                (hash address initial_ofs t u) k b),
          rw (same_length, placed-hash u) at,
        )

    placed_reachable : (u : Value) (m : ℕ) → number_of ((v, n) ∷ seen) u ≡ some m → Reached u m
    placed_reachable u m known = elim (number_of-cases v u n m seen known) [
      | inl (object, number) ↦
          let own =
            get_elem?-set_self t.slots here (initial_ofs + n, v)
              (walk-lt (length t.slots) j (hash address initial_ofs t v)
                (hash-lt initial_ofs address t v holds.power)) in
          rw (object, number) (reached_lem v n j inside busy own)
      | inr old ↦
          let (k, l, b, at) = holds.reachable u m old in
          reached_lem u m k l b (
            set_live initial_ofs t.slots here (initial_ofs + n, v) dead
              (walk (length t.slots) k (hash address initial_ofs t u)) (initial_ofs + m) u at
              (omega arith))
    ]

    pub placed-Holds : Holds initial_ofs address placed ((v, n) ∷ seen)
    placed-Holds = record {
      power = rw (length-set t.slots here (initial_ofs + n, v)) holds.power;
      listed = placed_listed;
      reachable = placed_reachable;
      counted =
          live_count-set initial_ofs t.slots here (initial_ofs + n) v dead (omega arith)
          ∙ ap suc holds.counted;
    }
