-- ===== src/Marshal/FieldsFrom.antt =====
-- The fields of a block as a list, from one of them on (byterun/mlvalues.h).
use mathlib.Core.Path.{subst}
use ocamil.Prelude.{ℕ, suc, ◌+◌, ◌≡◌, refl, some, List, ◌∷◌, get_elem?, arith}
use ocamil.Machine.Value.{Value, ptr, fields, Heap, field}

-- The fields of a block from one on.
abbrev pub FieldsFrom : Heap → Value → ℕ → List Value → Type 0
FieldsFrom h v i xs = (k : ℕ) (x : Value) → get_elem? xs k ≡ some x → field h v (i + k) ≡ some x

pub FieldsFrom-block :
    (h : Heap) (b tag : ℕ) (vs : List Value)
    → get_elem? h b ≡ some (fields tag vs)
    → FieldsFrom h (ptr b 0) 0 vs
unfolding field
FieldsFrom-block h b tag vs at k x found = let n : 0 + (0 + k) ≡ k = omega arith in rw (at, n) found

pub FieldsFrom-head :
    (h : Heap) (v : Value) (i : ℕ) (x : Value) (xs rest : List Value)
    → FieldsFrom h v i xs
    → xs ≡ x ∷ rest
    → field h v i ≡ some x
FieldsFrom-head h v i x xs rest from is =
    let n : i + 0 ≡ i = omega arith in rw⁻¹ n (from 0 x (rw is refl))

pub FieldsFrom-tail :
    (h : Heap) (v : Value) (i : ℕ) (x : Value) (xs rest : List Value)
    → FieldsFrom h v i xs
    → xs ≡ x ∷ rest
    → FieldsFrom h v (suc i) rest
FieldsFrom-tail h v i x xs rest from is k y found =
    let n : i + suc k ≡ suc i + k = omega arith in
    subst (λ j. field h v j ≡ some y) n (from (suc k) y (rw is found))
