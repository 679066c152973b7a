-- ===== src/Marshal/Room.antt =====
-- When a write of byterun/extern.c comes to its end: the size of the buffer is a signed `long`.
use mathlib.Core.Path.{subst}
use ocamil.Prelude.{
  ℕ, zero, suc, ◌+◌, ◌*◌, ◌^◌, ◌≤◌, ◌<◌, ◌≡◌, refl, sym, ap, ◌∙◌, List, ◌++◌, true, false, ltb, leb,
  length, length-append, arith, Bool-cases, ◌⊎◌, inl, inr,
}
use ocamil.Marshal.{Result, ok, raised, fault, out_of_fuel, ◌>>=◌}
use mathlib.Core.List.{append_assoc}
use ocamil.Marshal.Buffer.{double_until-Ensures}
use ocamil.Marshal.Extern.{Extern, double_until, resize_extern_block, writeblock}

-- There is a result.
abbrev pub Returns : {A : Type 0} → Result A → Type 0
Returns {A} r = (a : A) × (r ≡ ok a)

pub Returns-bind : {A B : Type 0} (r : Result A) (f : A → Result B) → Returns (r >>= f) → Returns r
Returns-bind (ok a) f h = (a, refl)
Returns-bind (raised x) f (b, e) = absurd (ground arith)
Returns-bind fault f (b, e) = absurd (ground arith)
Returns-bind out_of_fuel f (b, e) = absurd (ground arith)

-- The bytes in the end leave room for a size above them, or the run is known to return.
abbrev pub Roomy : {A : Type 0} → (len : ℕ) → Result A → Type 0
Roomy len r = (len < 2 ^ 30) ⊎ Returns r

-- A run that has room gives that result.
abbrev pub Gives : {A : Type 0} → (len : ℕ) → Result A → A → Type 0
Gives len r a = Roomy len r → r ≡ ok a

pub Roomy-bind :
    {A B : Type 0} {m n : ℕ} (r : Result A) (f : A → Result B)
    → m ≤ n
    → Roomy n (r >>= f)
    → Roomy m r
Roomy-bind r f l (inl h) = inl (omega arith)
Roomy-bind r f l (inr h) = inr (Returns-bind r f h)

pub Gives-bind :
    {A B : Type 0} {m n : ℕ} {r : Result A} (f : A → Result B) {a : A} {b : B}
    → m ≤ n
    → Gives m r a
    → Gives n (f a) b
    → Gives n (r >>= f) b
Gives-bind {n} {r} f l p q h =
    let e = p (Roomy-bind r f l h) in ap (λ x. x >>= f) e ∙ q (subst (λ x. Roomy n (x >>= f)) e h)

pub Gives-along :
    {A : Type 0} {n : ℕ} {r r' : Result A} {a : A} → r ≡ r' → Gives n r' a → Gives n r a
Gives-along {n} e p h = e ∙ p (subst (Roomy n) e h)

pub Gives-more : {A : Type 0} {m n : ℕ} {r : Result A} {a : A} → m ≤ n → Gives m r a → Gives n r a
Gives-more l p (inl h) = p (inl (omega arith))
Gives-more l p (inr h) = p (inr h)

module _ {T : Type 0} where
  -- The buffer of a message that is to become a string.
  abbrev pub Malloced : Extern T → Type 0
  Malloced e = (e.block_malloced ≡ true) × (0 < e.size)

double_until_small :
    (f size reqd : ℕ)
    → 0 < size
    → reqd < size + f
    → reqd < 2 ^ 30
    → (grown : ℕ) × (0 < grown) × (double_until (suc f) size reqd ≡ ok grown)
unfolding double_until
double_until_small zero size reqd h k l =
    let e : leb size reqd ≡ false = ground arith in (size, h, rw e refl)
double_until_small (suc f) size reqd h k l = elim (Bool-cases (leb size reqd)) [
  | inr e ↦ (size, h, rw e refl)
  | inl e ↦
      let lt : ltb size (2 ^ 30) ≡ true = ground arith in
      let (grown, some_bytes, run) =
        double_until_small f (2 * size) reqd (omega arith)
          (let le : size ≤ reqd = ground arith in omega arith) l in
      (grown, some_bytes, rw (e, lt) run)
]

-- The loop does not end on a buffer without bytes.
pub double_until_zero : (f reqd : ℕ) → double_until f 0 reqd ≡ out_of_fuel
unfolding double_until
double_until_zero zero reqd = refl
double_until_zero (suc f) reqd =
    let e : leb 0 reqd ≡ true = ground arith in rw e (double_until_zero f reqd)

grown_size : (r : Result ℕ) → (size : ℕ) × (0 < size) × ((g : ℕ) → r ≡ ok g → 0 < g → r ≡ ok size)
grown_size (ok zero) = (1, omega arith, λ g e h. absurd (ground arith))
grown_size (ok (suc n)) = (suc n, omega arith, λ g e h. refl)
grown_size (raised x) = (1, omega arith, λ g e h. absurd (ground arith))
grown_size fault = (1, omega arith, λ g e h. absurd (ground arith))
grown_size out_of_fuel = (1, omega arith, λ g e h. absurd (ground arith))

-- The new size of a buffer with bytes.
grown :
    (reqd old : ℕ)
    → 0 < old
    → (size : ℕ) × (0 < size) × Gives reqd (double_until (suc reqd) old reqd) size
grown reqd old h =
    let (size, some_bytes, is) = grown_size (double_until (suc reqd) old reqd) in
    (
      size,
      some_bytes,
      λ room. elim room [
        | inl small ↦
            let (g, above, run) = double_until_small reqd old reqd h (omega arith) small in
            is g run above
        | inr (g, run) ↦
            let above = (double_until-Ensures (suc reqd) old reqd).holds g run in
            is g run (omega arith)
      ],
    )

module _ {T : Type 0} where
  -- What a write leaves.
  abbrev pub with_bytes : Extern T → List ℕ → (size : ℕ) → Extern T
  with_bytes e bs size = record e { written = e.written ++ bs; size = size }

  pub writeblock_lem :
      (bs : List ℕ) (e : Extern T)
      → Malloced e
      → (size : ℕ) × (0 < size)
        × Gives (length e.written + length bs) (writeblock bs e) (with_bytes e bs size)
  unfolding writeblock resize_extern_block
  writeblock_lem bs e (m, h) = elim (Bool-cases (ltb e.size (length e.written + length bs))) [
    | inr k ↦ (e.size, h, λ room. rw k refl)
    | inl k ↦
        let reqd = length e.written + length bs in
        let (size, some_bytes, run) = grown reqd e.size h in
        (
          size,
          some_bytes,
          rw (k, m)
              (Gives-bind {m = reqd} _ (omega arith)
                (Gives-bind {m = reqd} _ (omega arith) run (λ _. refl)) (λ _. refl)),
        )
  ]

  -- Two writes, and what is made of the state.
  pub two_writes :
      (e : Extern T) (xs ys : List ℕ) {size₁ size₂ : ℕ} {r : Result (Extern T)}
      (k : Extern T → Extern T)
      → Gives (length e.written + length xs) r (with_bytes e xs size₁)
      → Gives
          (length (e.written ++ xs) + length ys)
          (writeblock ys (with_bytes e xs size₁))
          (with_bytes (with_bytes e xs size₁) ys size₂)
      → Gives
          (length e.written + length (xs ++ ys))
          (r >>= λ e'. writeblock ys e' >>= λ e''. ok (k e''))
          (k (with_bytes e (xs ++ ys) size₂))
  two_writes e xs ys {size₁} {size₂} {r} k p q = rw (sym (append_assoc e.written xs ys)) (
      Gives-bind {m = length e.written + length xs} (λ e'. writeblock ys e' >>= λ e''. ok (k e''))
        (omega (arith, length-append xs ys)) p
        (Gives-bind {m = length (e.written ++ xs) + length ys} (λ e''. ok (k e''))
          (omega (arith, length-append xs ys, length-append e.written xs)) q (λ _. refl)))
