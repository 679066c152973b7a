-- ===== src/Marshal/Table/Insert.antt =====
-- What the table of byterun/extern.c holds, and an object more.
use mathlib.Core.Path.{subst}
use native.Mathlib.Nat.{div-lt_iff_lt-mul}
use ocamil.Prelude.{
  ℕ, zero, suc, ◌+◌, ◌-◌, ◌*◌, ◌%◌, ◌^◌, ◌≤◌, ◌<◌, ◌≡◌, refl, inl, inr, some, List, [], ◌∷◌, true,
  false, leb, if◌then◌else◌, length, get_elem?, set, arith, Bool-cases,
}
use ocamil.Interp.Arith.{same_value}
use ocamil.Machine.Value.{Value, word, ptr, atom, code, trap}
use ocamil.Marshal.Seen.{number_of}
use ocamil.Marshal.Sharing.{same_value_sound}
use ocamil.Marshal.Table.{ExternObj, ExternTable, found, free, next_slot, hash, find}
use ocamil.Marshal.Table.Walk.{walk, next_slot-lt}

pub same_value_refl : (v : Value) → same_value v v ≡ true
unfolding same_value
same_value_refl (word n) = ground arith
same_value_refl (ptr b o) = ground arith
same_value_refl (atom n) = ground arith
same_value_refl (code n) = ground arith
same_value_refl (trap n) = ground arith

pub get_elem?-some :
    {A : Type 0} (xs : List A) (i : ℕ) → i < length xs → (x : A) × (get_elem? xs i ≡ some x)
get_elem?-some [] i l = absurd (omega arith)
get_elem?-some (x ∷ xs) zero l = (x, refl)
get_elem?-some (x ∷ xs) (suc i) l = get_elem?-some xs i (omega arith)

mul_positive : (a p : ℕ) → a * p ≡ 2 ^ 32 → 0 < p
mul_positive a zero e = absurd (omega arith)
mul_positive a (suc p) e = omega arith

module _ (initial_ofs : ℕ) where
  abbrev pub LiveAt : List ExternObj → ℕ → Type 0
  LiveAt slots i =
      (ofs : ℕ) × (obj : Value) × (get_elem? slots i ≡ some (ofs, obj)) × (initial_ofs ≤ ofs)

  abbrev pub DeadAt : List ExternObj → ℕ → Type 0
  DeadAt slots i =
      (ofs : ℕ) × (obj : Value) × (get_elem? slots i ≡ some (ofs, obj)) × (ofs < initial_ofs)

  -- The slots before the k-th from one on are live.
  abbrev pub Busy : List ExternObj → (h k : ℕ) → Type 0
  Busy slots h k = (j : ℕ) → j < k → LiveAt slots (walk (length slots) j h)

  unfoldable pub live_count : List ExternObj → ℕ
  live_count [] = 0
  live_count ((ofs, obj) ∷ slots) = (if leb initial_ofs ofs then 1 else 0) + live_count slots

  pub dead_slot :
      (slots : List ExternObj)
      → live_count slots < length slots
      → (i : ℕ) × (i < length slots) × DeadAt slots i
  unfolding live_count
  dead_slot [] l = absurd (omega arith)
  dead_slot ((ofs, obj) ∷ slots) l = elim (Bool-cases (leb initial_ofs ofs)) [
    | inr h ↦ (0, omega arith, (ofs, obj, refl, ground arith))
    | inl h ↦ let (i, b, d) = dead_slot slots (ground arith) in (suc i, omega arith, d)
  ]

  pub live_count-set :
      (slots : List ExternObj) (i ofs : ℕ) (obj : Value)
      → DeadAt slots i
      → initial_ofs ≤ ofs
      → live_count (set slots i (ofs, obj)) ≡ suc (live_count slots)
  unfolding live_count
  live_count-set [] i ofs obj (_, _, e, _) l = absurd (ground arith)
  live_count-set ((ofs', obj') ∷ slots) zero ofs obj (o, x, e, d) l = ground arith
  live_count-set ((ofs', obj') ∷ slots) (suc i) ofs obj d l =
      omega (arith, live_count-set slots i ofs obj d l)

  pub none_live :
      (slots : List ExternObj) (i ofs : ℕ) (obj : Value)
      → live_count slots ≡ 0
      → get_elem? slots i ≡ some (ofs, obj)
      → ofs < initial_ofs
  unfolding live_count
  none_live [] i ofs obj z e = absurd (ground arith)
  none_live ((o, x) ∷ slots) zero ofs obj z e = ground arith
  none_live ((o, x) ∷ slots) (suc i) ofs obj z e = none_live slots i ofs obj (omega arith) e

  module _ (address : Value → ℕ) where
    -- The numbers of the objects, from the first one of this call.
    pub record Holds (t : ExternTable) (seen : List (Value × ℕ)) : Type 0 where
      pub power : length t.slots * 2 ^ t.hash_shift ≡ 2 ^ 32
      pub listed :
          (i ofs : ℕ) (obj : Value)
          → get_elem? t.slots i ≡ some (ofs, obj)
          → initial_ofs ≤ ofs
          → number_of seen obj ≡ some (ofs - initial_ofs)
      pub reachable :
          (v : Value) (n : ℕ)
          → number_of seen v ≡ some n
          → (k : ℕ) × (k < length t.slots)
            × Busy t.slots (hash address initial_ofs t v) k
            × (get_elem? t.slots (walk (length t.slots) k (hash address initial_ofs t v))
                ≡ some (initial_ofs + n, v))
      pub counted : live_count t.slots ≡ length seen

    pub hash-lt :
        (t : ExternTable) (v : Value)
        → length t.slots * 2 ^ t.hash_shift ≡ 2 ^ 32
        → hash address initial_ofs t v < length t.slots
    unfolding hash
    hash-lt t v p =
        let positive : 0 < 2 ^ t.hash_shift = mul_positive (length t.slots) (2 ^ t.hash_shift) p in
        let small : address v * 2654435769 % 2 ^ 32 < length t.slots * 2 ^ t.hash_shift =
          omega (arith, p) in
        (div-lt_iff_lt-mul positive).1 small

    pub find_old :
        (f k n : ℕ) (slots : List ExternObj) (v : Value) (h : ℕ)
        → Busy slots h k
        → get_elem? slots (walk (length slots) k h) ≡ some (initial_ofs + n, v)
        → ((i ofs : ℕ)
            → get_elem? slots i ≡ some (ofs, v)
            → initial_ofs ≤ ofs
            → ofs ≡ initial_ofs + n)
        → k < f
        → find address initial_ofs f slots v h ≡ some (found (initial_ofs + n))
    unfolding find walk
    find_old zero k n slots v h busy here only l = absurd (omega arith)
    find_old (suc f) zero n slots v h busy here only l =
        let t : leb initial_ofs (initial_ofs + n) ≡ true = ground arith in
        rw (here, t, same_value_refl v) refl
    find_old (suc f) (suc k) n slots v h busy here only l =
        let (ofs, obj, e, live) = busy 0 (omega arith) in
        let t : leb initial_ofs ofs ≡ true = ground arith in
        elim (Bool-cases (same_value obj v)) [
          | inl s ↦
              let same = same_value_sound obj v s in
              let is_n = only h ofs (rw⁻¹ same e) live in rw (e, t, s, is_n) refl
          | inr s ↦
              rw (e, t, s)
                (find_old f k n slots v (next_slot (length slots) h)
                  (λ j b. busy (suc j) (omega arith)) here only (omega arith))
        ]

    -- A search that ends at the first slot that is not live.
    pub find_new :
        (f k : ℕ) (slots : List ExternObj) (v : Value) (h : ℕ)
        → h < length slots
        → ((i ofs : ℕ) (obj : Value)
            → get_elem? slots i ≡ some (ofs, obj)
            → initial_ofs ≤ ofs
            → same_value obj v ≡ false)
        → DeadAt slots (walk (length slots) k h)
        → k < f
        → (j : ℕ) × (j ≤ k)
          × Busy slots h j
          × DeadAt slots (walk (length slots) j h)
          × (find address initial_ofs f slots v h ≡ some (free (walk (length slots) j h)))
    unfolding find walk
    find_new zero k slots v h b other dead l = absurd (omega arith)
    find_new (suc f) k slots v h b other dead l =
        let ((ofs, obj), e) = get_elem?-some slots h b in
        elim (Bool-cases (leb initial_ofs ofs)) [
          | inr t ↦ (
            0,
            omega arith,
            λ j none_before. absurd (omega arith),
            (ofs, obj, e, ground arith),
            rw (e, t) refl,
          )
          | inl t ↦
              let (k', is) = later k dead ofs obj e (ground arith) in
              let (j, le, busy, dead', run) =
                find_new f k' slots v (next_slot (length slots) h) (next_slot-lt (length slots) h b)
                  other (subst (λ x. DeadAt slots (walk (length slots) x h)) is dead)
                  (omega (arith, is)) in
              (
                suc j,
                omega (arith, is),
                one_more j ofs obj e (ground arith) busy,
                dead',
                rw (e, t, other h ofs obj e (ground arith)) run,
              )
        ]
      where
        later :
            (k : ℕ)
            → DeadAt slots (walk (length slots) k h)
            → (ofs : ℕ) (obj : Value) → get_elem? slots h ≡ some (ofs, obj)
            → initial_ofs ≤ ofs
            → (k' : ℕ) × (k ≡ suc k')
        later zero (o, x, e, d) ofs obj e' l = absurd (ground arith)
        later (suc k) d ofs obj e l = (k, refl)

        one_more :
            (j ofs : ℕ) (obj : Value)
            → get_elem? slots h ≡ some (ofs, obj)
            → initial_ofs ≤ ofs
            → Busy slots (next_slot (length slots) h) j
            → Busy slots h (suc j)
        one_more j ofs obj e l busy zero b = (ofs, obj, e, l)
        one_more j ofs obj e l busy (suc i) b = busy i (omega arith)
