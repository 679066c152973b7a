-- ===== src/Marshal/Table/Lookup.antt =====
-- The table of byterun/extern.c does what extern_rec asks of it.
use mathlib.Core.Path.{subst}
use ocamil.Prelude.{
  ℕ, zero, suc, ◌+◌, ◌-◌, ◌*◌, ◌^◌, ◌≤◌, ◌<◌, ◌≡◌, inl, inr, refl, sym, ap, ◌∙◌, Option, none, some,
  List, [], ◌∷◌, false, leb, if◌then◌else◌, length, get_elem?, arith, Bool-cases, Option-cases,
  length-set,
}
use ocamil.Interp.Arith.{same_value}
use ocamil.Machine.Value.{Value}
use ocamil.Marshal.Seen.{SeenTable, number_of}
use ocamil.Marshal.Sharing.{same_value_sound}
use ocamil.Marshal.Table.{ExternTable, hash, resize_extern_table, find_or_record}
use ocamil.Marshal.Table.Walk.{walk, walk_covers}
use ocamil.Marshal.Table.Insert.{
  DeadAt, none_live, live_count, dead_slot, Holds, hash-lt, find_old, find_new,
}
use ocamil.Marshal.Table.Place.{placed, placed-Holds}
use ocamil.Marshal.Table.Resize.{resized}

module _ (address : Value → ℕ) (initial_ofs : ℕ) where
  -- The table holds the objects, and has been at most half full when the last of them came.
  pub record Represents (t : ExternTable) (seen : List (Value × ℕ)) : Type 0 where
    pub holds : Holds initial_ofs address t seen
    pub half_full : 2 * length seen < length t.slots + 2
    pub large : 2 ≤ length t.slots

  shift_positive : (a s : ℕ) → a * 2 ^ s ≡ 2 ^ 32 → a < 2 ^ 32 → 0 < s
  shift_positive a zero e l = absurd (omega arith)
  shift_positive a (suc s) e l = omega arith

  module _ (positive : 0 < initial_ofs) (t : ExternTable) (seen : List (Value × ℕ))
      (r : Represents t seen) (few : length seen < 2 ^ 31) where
    -- Room is made before the search.
    roomy :
        (t' : ExternTable) × ((if leb (length t.slots) (2 * length seen)
            then resize_extern_table address initial_ofs t
            else some t)
          ≡ some t')
        × Represents t' seen
        × (2 * length seen < length t'.slots)
    roomy = elim (Bool-cases (leb (length t.slots) (2 * length seen))) [
      | inr h ↦ (t, rw h refl, r, ground arith)
      | inl h ↦
          let full : length t.slots ≤ 2 * length seen = ground arith in
          let shift = shift_positive (length t.slots) t.hash_shift r.holds.power (omega arith) in
          let (t', run, holds, size) = resized initial_ofs positive address seen t shift r.holds in
          let half = r.half_full in
          let large = r.large in
          (
            t',
            rw h run,
            record { holds = holds; half_full = omega (arith, size); large = omega (arith, size) },
            omega (arith, size),
          )
    ]

    pub find_or_record_old :
        (v : Value) (n : ℕ)
        → number_of seen v ≡ some n
        → (t' : ExternTable) × (find_or_record address initial_ofs t v (length seen)
            ≡ some (some n, t'))
          × Represents t' seen
    unfolding find_or_record
    find_or_record_old v n known =
        let (t', room, r', l) = roomy in
        let (k, b, busy, at) = r'.holds.reachable v n known in
        let only : (i ofs : ℕ)
            → get_elem? t'.slots i ≡ some (ofs, v)
            → initial_ofs ≤ ofs
            → ofs ≡ initial_ofs + n =
          λ i ofs e live.
            let both : ◌≡◌ {A = Option ℕ} (some (ofs - initial_ofs)) (some n) =
              sym (r'.holds.listed i ofs v e live) ∙ known in
            let same : ofs - initial_ofs ≡ n = ground arith in omega arith in
        let search =
          find_old initial_ofs address (length t'.slots) k n t'.slots v
            (hash address initial_ofs t' v) busy at only b in
        let number : initial_ofs + n - initial_ofs ≡ n = omega arith in
        (t', rw (room, search, number) refl, r')

    pub find_or_record_new :
        (v : Value)
        → number_of seen v ≡ none
        → (t' : ExternTable) × (find_or_record address initial_ofs t v (length seen)
            ≡ some (none, t'))
          × Represents t' ((v, length seen) ∷ seen)
    unfolding find_or_record
    find_or_record_new v unknown =
        let (t', room, r', l) = roomy in
        let h = hash address initial_ofs t' v in
        let below = hash-lt initial_ofs address t' v r'.holds.power in
        let other : (i ofs : ℕ) (obj : Value)
            → get_elem? t'.slots i ≡ some (ofs, obj)
            → initial_ofs ≤ ofs
            → same_value obj v ≡ false =
          λ i ofs obj e live. elim (Bool-cases (same_value obj v)) [
            | inr differ ↦ differ
            | inl same ↦
                let clash : ◌≡◌ {A = Option ℕ} none (some (ofs - initial_ofs)) =
                  sym unknown
                  ∙ (ap (number_of seen) (sym (same_value_sound obj v same))
                      ∙ r'.holds.listed i ofs obj e live) in
                absurd (ground arith)
          ] in
        let (i, b, dead) = dead_slot initial_ofs t'.slots (omega (arith, r'.holds.counted)) in
        let (k, k_below, at) = walk_covers (length t'.slots) h i below b in
        let (j, le, busy, dead', search) =
          find_new initial_ofs address (length t'.slots) k t'.slots v h below other
            (subst (DeadAt initial_ofs t'.slots) (sym at) dead) k_below in
        let slot = walk (length t'.slots) j h in
        let same_length = length-set t'.slots slot (initial_ofs + length seen, v) in
        let large = r'.large in
        (
          placed initial_ofs address t' seen v (length seen) j,
          rw (room, search) refl,
          record {
            holds =
                placed-Holds initial_ofs address t' seen v (length seen) j r'.holds
                  (omega (arith, le, k_below)) busy dead'
                  (λ m known.
                    let clash : ◌≡◌ {A = Option ℕ} none (some m) = sym unknown ∙ known in
                    absurd (ground arith));
            half_full = omega (arith, same_length);
            large = omega (arith, same_length);
          },
        )

-- The table of a call: every slot is empty, or holds a number of an earlier call.
pub record IsFresh (initial_ofs : ℕ) (t : ExternTable) : Type 0 where
  pub first_number : 0 < initial_ofs
  pub all_dead : live_count initial_ofs t.slots ≡ 0
  pub power : length t.slots * 2 ^ t.hash_shift ≡ 2 ^ 32
  pub two_slots : 2 ≤ length t.slots

module _ (address : Value → ℕ) (initial_ofs : ℕ) (start : ExternTable)
    (fresh : IsFresh initial_ofs start) where
  pub fresh-Represents : Represents address initial_ofs start []
  unfolding number_of
  fresh-Represents =
      let large = fresh.two_slots in
      record {
        holds = record {
          power = fresh.power;
          listed = λ i ofs obj e l.
              absurd (omega (arith, none_live initial_ofs start.slots i ofs obj fresh.all_dead e));
          reachable = λ v n known. absurd (ground arith);
          counted = fresh.all_dead;
        };
        half_full = omega arith;
        large = fresh.two_slots;
      }

  -- The table of extern.c, for extern_rec.
  abbrev pub hash_table : SeenTable
  hash_table = record {
    Table = ExternTable;
    empty_table = start;
    find_or_record = find_or_record address initial_ofs;
    Represents = Represents address initial_ofs;
    empty_table_lem = fresh-Represents;
    find_or_record_old = λ t seen v n r few known.
        find_or_record_old address initial_ofs fresh.first_number t seen r few v n known;
    find_or_record_new = λ t seen v r few unknown.
        find_or_record_new address initial_ofs fresh.first_number t seen r few v unknown;
  }

-- The objects after an object was looked up.
abbrev pub recorded : (number : Option ℕ) → List (Value × ℕ) → Value → List (Value × ℕ)
recorded none seen v = (v, length seen) ∷ seen
recorded (some n) seen v = seen

-- Of fewer than 2^31 objects, a table that is represented as their list answers, for every object,
-- its number in the list, or that it is new, and then it is represented as the list with the object
-- put in front; it is enlarged where it is half full.
pub find_or_record-Represents :
    (address : Value → ℕ) (initial_ofs : ℕ) (t : ExternTable) (seen : List (Value × ℕ)) (v : Value)
    → 0 < initial_ofs
    → Represents address initial_ofs t seen
    → length seen < 2 ^ 31
    → (t' : ExternTable) × (find_or_record address initial_ofs t v (length seen)
        ≡ some (number_of seen v, t'))
      × Represents address initial_ofs t' (recorded (number_of seen v) seen v)
find_or_record-Represents address initial_ofs t seen v positive r few =
    elim (Option-cases (number_of seen v)) [
      | inl unknown ↦
          rw unknown (find_or_record_new address initial_ofs positive t seen r few v unknown)
      | inr (n, known) ↦
          rw known (find_or_record_old address initial_ofs positive t seen r few v n known)
    ]
