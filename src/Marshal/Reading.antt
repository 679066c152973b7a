-- ===== src/Marshal/Reading.antt =====
-- The destination of byterun/intern.c as it is read: a block can be read when all its fields are
-- there.
use ocamil.Prelude.{
  ℕ, zero, suc, ◌+◌, ◌-◌, ◌*◌, ◌/◌, ◌<◌, ◌≡◌, ◌≢◌, inl, inr, refl, sym, ap, ◌∙◌, Option, none, some,
  List, [], ◌∷◌, ◌++◌, ◌==◌, if◌then◌else◌, length, take, get_elem?, get_or, set, replicate, arith,
  Bool-cases, Option-cases, length-append, length-replicate, get_elem?-set_self, get_elem?-set_ne,
}
use ocamil.Machine.Value.{Value, Block, fields}
use ocamil.Compare.{string_length}
use ocamil.Marshal.{ok}
use ocamil.Marshal.Intern.{Intern, Dest, building, whole, place, fill, string_block}
use mathlib.Core.List.{append_assoc}
use ocamil.Marshal.Tree.{IsText, ReadsKept}

abbrev pub dest_block : Dest → Option Block
dest_block (whole b) = some b
dest_block (building tag size vs) = if length vs == size then some (fields tag vs) else none

abbrev pub read_at : Option Dest → Option Block
read_at none = none
read_at (some d) = dest_block d

unfoldable pub read_dest : Intern → ℕ → Option Block
read_dest s b = read_at (get_elem? s.blocks b)

abbrev pub BlocksKept : Intern → Intern → Type 0
BlocksKept s s' =
    (i : ℕ) (d : Dest) → get_elem? s.blocks i ≡ some d → get_elem? s'.blocks i ≡ some d

pub BlocksKept-ReadsKept :
    (s s' : Intern) → BlocksKept s s' → ReadsKept (read_dest s) (read_dest s')
unfolding read_dest
BlocksKept-ReadsKept s s' k b block e = elim (Option-cases (get_elem? s.blocks b)) [
  | inl n ↦ absurd (ground arith)
  | inr (d, n) ↦ rw (k b d n) (let e' : dest_block d ≡ some block = ground arith in e')
]

module _ {A : Type 0} where
  pub get_elem?-append :
      (xs ys : List A) (i : ℕ) (a : A) → get_elem? xs i ≡ some a → get_elem? (xs ++ ys) i ≡ some a
  get_elem?-append [] ys i a h = absurd (ground arith)
  get_elem?-append (x ∷ xs) ys zero a h = h
  get_elem?-append (x ∷ xs) ys (suc i) a h = get_elem?-append xs ys i a h

  pub get_elem?-append_end : (xs : List A) (a : A) → get_elem? (xs ++ (a ∷ [])) (length xs) ≡ some a
  get_elem?-append_end [] a = refl
  get_elem?-append_end (x ∷ xs) a = get_elem?-append_end xs a

  pub get_elem?-lt : (xs : List A) (i : ℕ) (a : A) → get_elem? xs i ≡ some a → i < length xs
  get_elem?-lt [] i a h = absurd (ground arith)
  get_elem?-lt (x ∷ xs) zero a h = omega arith
  get_elem?-lt (x ∷ xs) (suc i) a h = omega (arith, get_elem?-lt xs i a h)

  pub take-append : (xs ys : List A) → take (length xs) (xs ++ ys) ≡ xs
  take-append [] [] = refl
  take-append [] (y ∷ ys) = refl
  take-append (x ∷ xs) ys = ap (λ l. x ∷ l) (take-append xs ys)

  pub get_or-append_end : (xs : List A) (a d : A) → get_or (xs ++ (a ∷ [])) (length xs) d ≡ a
  get_or-append_end [] a d = refl
  get_or-append_end (x ∷ xs) a d = get_or-append_end xs a d

pub place-BlocksKept : (d : Dest) (size : ℕ) (s : Intern) → BlocksKept s (place d size s).1
unfolding place
place-BlocksKept d size s i d' e = get_elem?-append s.blocks (d ∷ []) i d' e

pub place_self :
    (d : Dest) (size : ℕ) (s : Intern)
    → get_elem? (place d size s).1.blocks (length s.blocks) ≡ some d
unfolding place
place_self d size s = get_elem?-append_end s.blocks d

-- A string is read back from the block that it is put in.
pub string_block-IsText : (cs : List ℕ) → IsText (string_block cs) cs
unfolding string_block string_length
string_block-IsText cs =
    let size = (length cs + 4) / 4 in
    let pad = 4 * size - 1 - length cs in
    let body = cs ++ replicate pad 0 in
    let whole_block = string_block cs in
    let regroup : whole_block ≡ body ++ (pad ∷ []) =
      sym (append_assoc cs (replicate pad 0) (pad ∷ [])) in
    let body_length : length body ≡ length cs + pad =
      omega (arith, length-append cs (replicate pad 0), length-replicate {A = ℕ} pad 0) in
    let total : length whole_block ≡ length body + 1 =
      omega (arith, ap length regroup, length-append body (pad ∷ [])) in
    let last_at : length whole_block - 1 ≡ length body = omega (arith, total) in
    let last_byte : get_or whole_block (length whole_block - 1) 0 ≡ pad =
      rw (last_at, regroup) (get_or-append_end body pad 0) in
    record {
      text_length = omega (arith, last_byte, total, body_length);
      text_bytes = take-append cs (replicate pad 0 ++ (pad ∷ []));
      padded = omega (arith, total, body_length);
    }

-- A field more in a block that is not complete.
module _ (s : Intern) (i tag size : ℕ) (vs : List Value) (v : Value)
    (at : get_elem? s.blocks i ≡ some (building tag size vs)) where
  abbrev pub filled : Intern
  filled = record s { blocks = set s.blocks i (building tag size (vs ++ (v ∷ []))) }

  pub fill_lem : fill i v s ≡ ok filled
  unfolding fill
  fill_lem = rw at refl

  pub filled_self : get_elem? filled.blocks i ≡ some (building tag size (vs ++ (v ∷ [])))
  filled_self =
      get_elem?-set_self s.blocks i (building tag size (vs ++ (v ∷ [])))
        (get_elem?-lt s.blocks i (building tag size vs) at)

  pub filled-other :
      (j : ℕ) (d : Dest)
      → i ≢ j
      → get_elem? s.blocks j ≡ some d
      → get_elem? filled.blocks j ≡ some d
  filled-other j d ne e = get_elem?-set_ne s.blocks (building tag size (vs ++ (v ∷ []))) ne ∙ e

  pub filled-ReadsKept : length vs ≢ size → ReadsKept (read_dest s) (read_dest filled)
  unfolding read_dest
  filled-ReadsKept ne b block e = elim (Bool-cases (i == b)) [
    | inl h ↦
        let same : b ≡ i = ground arith in
        let incomplete : read_at (get_elem? s.blocks i) ≡ none = rw at (ground arith) in
        let e' : read_at (get_elem? s.blocks i) ≡ some block = rw (sym same) e in
        absurd (ground arith)
    | inr h ↦ elim (Option-cases (get_elem? s.blocks b)) [
      | inl n ↦ absurd (ground arith)
      | inr (d, n) ↦
          let other : i ≢ b = ground arith in
          rw (filled-other b d other n) (let e' : dest_block d ≡ some block = ground arith in e')
    ]
  ]
