-- ===== src/Marshal/Table/Resize.antt =====
-- A larger table in byterun/extern.c holds the same objects.
use native.Mathlib.Nat.{pow-succ'}
use ocamil.Prelude.{
  ℕ, zero, suc, ◌+◌, ◌-◌, ◌*◌, ◌^◌, ◌≤◌, ◌<◌, ◌≡◌, refl, sym, ap, ◌∙◌, Option, some, List, [], ◌∷◌,
  false, leb, length, get_elem?, replicate, length-replicate, arith,
}
use ocamil.Machine.Value.{Value, val_unit}
use ocamil.Marshal.Seen.{number_of}
use ocamil.Marshal.Table.{ExternObj, ExternTable, hash, resize_extern_table}
use ocamil.Marshal.Table.Walk.{walk}
use ocamil.Marshal.Table.Insert.{live_count, Holds}
use ocamil.Marshal.Table.Reinsert.{Reinserted, reinsert_all}

module _ (initial_ofs : ℕ) (positive : 0 < initial_ofs) (address : Value → ℕ)
    (seen : List (Value × ℕ)) where
  -- An empty table.
  replicate_slot :
      (n i ofs : ℕ) (obj : Value)
      → get_elem? (replicate {A = ExternObj} n (0, val_unit)) i ≡ some (ofs, obj)
      → ofs ≡ 0
  replicate_slot zero i ofs obj e = absurd (ground arith)
  replicate_slot (suc n) zero ofs obj e = ground arith
  replicate_slot (suc n) (suc i) ofs obj e = replicate_slot n i ofs obj e

  pub live_count-replicate : (n : ℕ) → live_count initial_ofs (replicate n (0, val_unit)) ≡ 0
  unfolding live_count
  live_count-replicate zero = refl
  live_count-replicate (suc n) =
      let test : leb initial_ofs 0 ≡ false = ground arith in
      rw test (omega (arith, live_count-replicate n))

  live_count_le : (slots : List ExternObj) → live_count initial_ofs slots ≤ length slots
  unfolding live_count
  live_count_le [] = omega arith
  live_count_le ((ofs, obj) ∷ slots) = ground (arith, live_count_le slots)

  double_power : (a s : ℕ) → 0 < s → a * 2 ^ s ≡ 2 ^ 32 → 2 * a * 2 ^ (s - 1) ≡ 2 ^ 32
  double_power a zero h e = absurd (omega arith)
  double_power a (suc s) h e =
      let less : suc s - 1 ≡ s = omega arith in
      let power = pow-succ' 2 s in
      let moved : 2 * a * 2 ^ s ≡ a * (2 * 2 ^ s) = grind arith in
      ap (λ n. 2 * a * 2 ^ n) less ∙ (moved ∙ (ap (λ p. a * p) (sym power) ∙ e))

  not_empty : (a p : ℕ) → a * p ≡ 2 ^ 32 → 0 < a
  not_empty zero p e = absurd (omega arith)
  not_empty (suc a) p e = omega arith

  abbrev doubled : ExternTable → ExternTable
  doubled t = record {
    slots = replicate (2 * length t.slots) (0, val_unit);
    hash_shift = t.hash_shift - 1;
  }

  doubled-Holds :
      (t : ExternTable)
      → 0 < t.hash_shift
      → length t.slots * 2 ^ t.hash_shift ≡ 2 ^ 32
      → Holds initial_ofs address (doubled t) []
  unfolding number_of
  doubled-Holds t some_shift p = record {
    power =
        ap (λ n. n * 2 ^ (t.hash_shift - 1)) (length-replicate (2 * length t.slots) (0, val_unit))
        ∙ double_power (length t.slots) t.hash_shift some_shift p;
    listed =
        λ i ofs obj e l. absurd (omega (arith, replicate_slot (2 * length t.slots) i ofs obj e));
    reachable = λ v n known. absurd (ground arith);
    counted = live_count-replicate (2 * length t.slots);
  }

  reinserted :
      (t : ExternTable)
      → 0 < t.hash_shift
      → Holds initial_ofs address t seen
      → Reinserted initial_ofs positive address seen t.slots (doubled t) []
  unfolding number_of
  reinserted t some_shift holds =
      reinsert_all initial_ofs positive address seen t.slots (doubled t) []
        (doubled-Holds t some_shift holds.power)
        (λ i ofs obj e d. replicate_slot (2 * length t.slots) i ofs obj e)
        (omega (
          arith,
          live_count_le t.slots,
          not_empty (length t.slots) (2 ^ t.hash_shift) holds.power,
          length-replicate {A = ExternObj} (2 * length t.slots) (0, val_unit),
        ))
        holds.listed (λ v m known. absurd (ground arith))

  pub resized :
      (t : ExternTable)
      → 0 < t.hash_shift
      → Holds initial_ofs address t seen
      → (table : ExternTable) × (resize_extern_table address initial_ofs t ≡ some table)
        × Holds initial_ofs address table seen
        × (length table.slots ≡ 2 * length t.slots)
  unfolding resize_extern_table
  resized t some_shift holds =
      let r = reinserted t some_shift holds in
      (
        r.t',
        r.run,
        record {
          power = r.holds.power;
          listed = λ i ofs obj e l. r.sound obj (ofs - initial_ofs) (r.holds.listed i ofs obj e l);
          reachable = λ v n known.
              let (k, l, b, at) = holds.reachable v n known in
              let (m, there) =
                r.all_there (walk (length t.slots) k (hash address initial_ofs t v))
                  (initial_ofs + n) v at (omega arith) in
              let both : ◌≡◌ {A = Option ℕ} (some m) (some n) = sym (r.sound v m there) ∙ known in
              let same : m ≡ n = ground arith in r.holds.reachable v n (there ∙ ap some same);
          counted = r.holds.counted ∙ (r.size ∙ (omega arith ∙ holds.counted));
        },
        r.same_slots ∙ length-replicate (2 * length t.slots) (0, val_unit),
      )
