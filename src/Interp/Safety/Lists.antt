-- ===== src/Interp/Safety/Lists.antt =====
-- Lemmas on postconditions of fallible code and on the parts of a list of values.
use ocamil.Prelude.{
  ℕ, zero, suc, ◌≤◌, Option, none, some, List, [], ◌∷◌, ◌++◌, arith, get_elem?, set, ◌>>=◌,
}
use ocamil.Machine.Value.{Value, word, ptr, atom, code, trap}
use ocamil.Interp.State.{pop_words, top_words}
use ocamil.Interp.Safety.{Holds, fault, holds, InHeap, AllIn}

pub bind {ℓ κ ι μ} :
    {A : Type ℓ} {B : Type κ} (P : A → Type ι) (Q : B → Type μ) (m : Option A) (f : A → Option B)
    → Holds P m
    → ((a : A) → P a → Holds Q (f a))
    → Holds Q (m >>= f)
bind P Q none f h k = fault
bind P Q (some a) f (holds h) k = k a h

-- A step whose result is no value of the program.
pub bind_any {ℓ κ μ} :
    {A : Type ℓ} {B : Type κ} (Q : B → Type μ) (m : Option A) (f : A → Option B)
    → ((a : A) → Holds Q (f a))
    → Holds Q (m >>= f)
bind_any Q none f k = fault
bind_any Q (some a) f k = k a

module _ (n : ℕ) where
  pub InHeap-mono : (m : ℕ) (v : Value) → n ≤ m → InHeap n v → InHeap m v
  InHeap-mono m (ptr b o) le h = omega arith
  InHeap-mono m (word _) le h = tt
  InHeap-mono m (atom _) le h = tt
  InHeap-mono m (code _) le h = tt
  InHeap-mono m (trap _) le h = tt

  pub AllIn-mono : (m : ℕ) (vs : List Value) → n ≤ m → AllIn n vs → AllIn m vs
  AllIn-mono m [] le h = tt
  AllIn-mono m (v ∷ vs) le h = (InHeap-mono m v le h.0, AllIn-mono m vs le h.1)

  pub get_elem?-InHeap : (vs : List Value) (i : ℕ) → AllIn n vs → Holds (InHeap n) (get_elem? vs i)
  get_elem?-InHeap [] i h = fault
  get_elem?-InHeap (v ∷ vs) zero h = holds h.0
  get_elem?-InHeap (v ∷ vs) (suc i) h = get_elem?-InHeap vs i h.1

  pub set-AllIn :
      (vs : List Value) (i : ℕ) (v : Value) → AllIn n vs → InHeap n v → AllIn n (set vs i v)
  set-AllIn [] i v h k = tt
  set-AllIn (x ∷ vs) zero v h k = (k, h.1)
  set-AllIn (x ∷ vs) (suc i) v h k = (h.0, set-AllIn vs i v h.1 k)

  pub append-AllIn : (vs ws : List Value) → AllIn n vs → AllIn n ws → AllIn n (vs ++ ws)
  append-AllIn [] ws h k = k
  append-AllIn (v ∷ vs) ws h k = (h.0, append-AllIn vs ws h.1 k)

  pub pop_words-AllIn : (k : ℕ) (vs : List Value) → AllIn n vs → Holds (AllIn n) (pop_words k vs)
  unfolding pop_words
  pop_words-AllIn zero vs h = holds h
  pop_words-AllIn (suc k) [] h = fault
  pop_words-AllIn (suc k) (v ∷ vs) h = pop_words-AllIn k vs h.1

  pub top_words-AllIn : (k : ℕ) (vs : List Value) → AllIn n vs → Holds (AllIn n) (top_words k vs)
  unfolding top_words
  top_words-AllIn zero vs h = holds tt
  top_words-AllIn (suc k) [] h = fault
  top_words-AllIn (suc k) (v ∷ vs) h =
      bind (AllIn n) (AllIn n) _ _ (top_words-AllIn k vs h.1) (λ ws h'. holds (h.0, h'))
