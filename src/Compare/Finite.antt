-- ===== src/Compare/Finite.antt =====
-- The number of turns of `compare_val` in byterun/compare.c on values that unfold to finite trees.
use ocamil.Prelude.{
  ℕ, zero, suc, ◌+◌, ◌≤◌, ◌<◌, ◌≡◌, ◌≢◌, ◌⊎◌, inl, inr, refl, sym, ap, Option, none, some, List, [],
  ◌∷◌, ◌++◌, arith, Option-cases, get_elem?,
}
use ocamil.Machine.Value.{Value, word, ptr, atom, code, trap, Heap, Block, field, block_fields}
use ocamil.Compare.{
  next_item, differ, again, inside, raises, Outside, examine, examine_different, examine_mixed,
  examine_pointers, examine_blocks, examine_custom, examine_strings, examine_double,
  examine_doubles, by_difference,
}
use ocamil.Compare.Loop.{Comparing, out_of_fuel, compare_loop, compare_val}
use ocamil.Compare.Worklist.{pairs, compare_pairs, of_state, Counted, compare_loop-AgreesOrFaults}

module _ (W : ℕ → ℕ) where
  -- The size of the tree of a value, by the sizes of the trees below each block.
  abbrev pub weight : Value → ℕ
  weight (ptr b o) = suc (W b)
  weight _ = 1

  abbrev pub weights : List Value → ℕ
  weights [] = 0
  weights (v ∷ vs) = weight v + weights vs

  abbrev pub weight? : Option Value → ℕ
  weight? none = 0
  weight? (some v) = weight v

  -- Each block is at least as heavy as its fields: no value is a part of itself.
  abbrev pub Finite : Heap → Type 0
  Finite h =
      (b : ℕ) (block : Block) (vs : List Value)
      → get_elem? h b ≡ some block
      → block_fields block ≡ some vs
      → weights vs ≤ W b

  abbrev pub load : List (Option Value × Option Value) → ℕ
  load [] = 0
  load ((w1, w2) ∷ rest) = weight? w1 + weight? w2 + load rest

  load-append : (xs ys : List (Option Value × Option Value)) → load (xs ++ ys) ≡ load xs + load ys
  load-append [] ys = omega arith
  load-append ((w1, w2) ∷ xs) ys = omega (arith, load-append xs ys)

  abbrev window : List Value → (k n : ℕ) → ℕ
  window vs k zero = 0
  window vs k (suc n) = weight? (get_elem? vs k) + window vs (suc k) n

  window-cons : (v : Value) (vs : List Value) (k n : ℕ) → window (v ∷ vs) (suc k) n ≡ window vs k n
  window-cons v vs k zero = refl
  window-cons v vs k (suc n) = ap (λ x. weight? (get_elem? vs k) + x) (window-cons v vs (suc k) n)

  window_nil : (k n : ℕ) → window [] k n ≡ 0
  window_nil k zero = refl
  window_nil k (suc n) = omega (arith, window_nil (suc k) n)

  window-weights : (vs : List Value) (k n : ℕ) → window vs k n ≤ weights vs
  window-weights [] k n = omega (arith, window_nil k n)
  window-weights (v ∷ vs) zero zero = omega arith
  window-weights (v ∷ vs) zero (suc n) = omega (arith, window-cons v vs 0 n, window-weights vs 0 n)
  window-weights (v ∷ vs) (suc k) n = omega (arith, window-cons v vs k n, window-weights vs k n)

  module _ (h : Heap) where
    abbrev field_weights : Value → (i n : ℕ) → ℕ
    field_weights v i zero = 0
    field_weights v i (suc n) = weight? (field h v i) + field_weights v (suc i) n

    load-pairs :
        (v1 v2 : Value) (i n : ℕ)
        → load (pairs h v1 v2 i n) ≡ field_weights v1 i n + field_weights v2 i n
    load-pairs v1 v2 i zero = omega arith
    load-pairs v1 v2 i (suc n) = omega (arith, load-pairs v1 v2 (suc i) n)

    -- Of a block with fields, and of one without.
    field_weights-window :
        (b o i n : ℕ) (block : Block) (vs : List Value)
        → get_elem? h b ≡ some block
        → block_fields block ≡ some vs
        → field_weights (ptr b o) i n ≡ window vs (o + i) n
    unfolding field
    field_weights-window b o i zero block vs e e' = refl
    field_weights-window b o i (suc n) block vs e e' =
        let next : o + suc i ≡ suc (o + i) = omega arith in
        rw (e, e', sym next)
          (ap (λ x. weight? (get_elem? vs (o + i)) + x)
            (field_weights-window b o (suc i) n block vs e e'))

    no_fields : (v : Value) (i n : ℕ) → ((j : ℕ) → field h v j ≡ none) → field_weights v i n ≡ 0
    no_fields v i zero e = refl
    no_fields v i (suc n) e = rw (e i) (omega (arith, no_fields v (suc i) n e))

    field_weights_lt : (v : Value) (i n : ℕ) → Finite h → field_weights v i n < weight v
    unfolding field
    field_weights_lt (word x) i n fin = omega (arith, no_fields (word x) i n (λ j. refl))
    field_weights_lt (atom x) i n fin = omega (arith, no_fields (atom x) i n (λ j. refl))
    field_weights_lt (code x) i n fin = omega (arith, no_fields (code x) i n (λ j. refl))
    field_weights_lt (trap x) i n fin = omega (arith, no_fields (trap x) i n (λ j. refl))
    field_weights_lt (ptr b o) i n fin = elim (Option-cases (get_elem? h b)) [
      | inl e ↦ omega (arith, no_fields (ptr b o) i n (λ j. rw e refl))
      | inr (block, e) ↦ elim (Option-cases (block_fields block)) [
        | inl e' ↦ omega (arith, no_fields (ptr b o) i n (λ j. rw (e, e') refl))
        | inr (vs, e') ↦ omega (
          arith,
          field_weights-window b o i n block vs e e',
          window-weights vs (o + i) n,
          fin b block vs e e',
        )
      ]
    ]

    field-weight : (v w : Value) (i : ℕ) → Finite h → field h v i ≡ some w → weight w < weight v
    field-weight v w i fin e =
        let lt = field_weights_lt v i 1 fin in
        let one : field_weights v i 1 ≡ weight w = rw e (omega arith) in omega (arith, lt, one)

    module _ (o : Outside) where
      -- A pair is looked at again only with one value forwarded.
      examine-again :
          (v1 v2 w1 w2 : Value)
          → examine o h v1 v2 ≡ some (again w1 w2)
          → ((w1 ≡ v1) × (field h v2 0 ≡ some w2)) ⊎ ((field h v1 0 ≡ some w1) × (w2 ≡ v2))
      unfolding examine examine_different examine_mixed examine_pointers examine_blocks
          examine_custom examine_strings examine_double examine_doubles by_difference
      examine-again v1 v2 w1 w2 e = ground arith

      again-load :
          (v1 v2 w1 w2 : Value)
          → Finite h
          → examine o h v1 v2 ≡ some (again w1 w2)
          → weight w1 + weight w2 < weight v1 + weight v2
      again-load v1 v2 w1 w2 fin e = elim (examine-again v1 v2 w1 w2 e) [
        | inl (e₁, e₂) ↦ rw e₁ (omega (arith, field-weight v2 w2 0 fin e₂))
        | inr (e₁, e₂) ↦ rw e₂ (omega (arith, field-weight v1 w1 0 fin e₁))
      ]

      compare_pairs_returns :
          (f : ℕ) (l : List (Option Value × Option Value))
          → Finite h
          → load l ≤ f
          → compare_pairs o h f l ≢ out_of_fuel
      unfolding compare_pairs
      compare_pairs_returns f [] fin le = λ e. ground arith
      compare_pairs_returns f ((none, w2) ∷ rest) fin le = λ e. ground arith
      compare_pairs_returns f ((some v1, none) ∷ rest) fin le = λ e. ground arith
      compare_pairs_returns zero ((some v1, some v2) ∷ rest) fin le = absurd (ground arith)
      compare_pairs_returns (suc f) ((some v1, some v2) ∷ rest) fin le =
          elim (Option-cases (examine o h v1 v2)) [
            | inl e ↦ rw (e, compare_pairs) (cc)
            | inr (next_item, e) ↦
                rw (e, compare_pairs) (compare_pairs_returns f rest fin (ground arith))
            | inr (differ d, e) ↦ rw (e, compare_pairs) (cc)
            | inr (again w1 w2, e) ↦
                rw (e, compare_pairs)
                  (compare_pairs_returns f ((some w1, some w2) ∷ rest) fin
                    (omega (arith, again-load v1 v2 w1 w2 fin e)))
            | inr (inside n, e) ↦
                rw (e, compare_pairs)
                  (compare_pairs_returns f (pairs h v1 v2 0 (suc n) ++ rest) fin (
                    omega (
                      arith,
                      load-append (pairs h v1 v2 0 (suc n)) rest,
                      load-pairs v1 v2 0 (suc n),
                      field_weights_lt v1 0 (suc n) fin,
                      field_weights_lt v2 0 (suc n) fin,
                    )))
            | inr (raises x, e) ↦ rw (e, compare_pairs) (cc)
          ]

      compare_loop_returns :
          (f : ℕ) (s : Comparing)
          → Finite h
          → Counted o h s.stack
          → load (of_state o h s) ≤ f
          → compare_loop o h f s ≢ out_of_fuel
      compare_loop_returns f s fin c le = elim (compare_loop-AgreesOrFaults o h f s c) [
        | inl (inl (e, full)) ↦ rw e (cc)
        | inl (inr e) ↦ rw e (compare_pairs_returns f (of_state o h s) fin le)
        | inr (e, behind) ↦ rw e (cc)
      ]

      -- A comparison returns on values that unfold to finite trees. If each block has a weight that
      -- is not below the sum of the weights of its fields, where a pointer weighs one more than its
      -- block and any other value one, then as many turns as the two values weigh are enough, for
      -- all parameters of the code.
      pub compare_val_returns :
          (f limit : ℕ) (v1 v2 : Value)
          → Finite h
          → weight v1 + weight v2 ≤ f
          → compare_val o h f limit v1 v2 ≢ out_of_fuel
      unfolding compare_val
      compare_val_returns f limit v1 v2 fin le =
          compare_loop_returns f (record { v1 = v1; v2 = v2; stack = []; limit = limit }) fin tt
            (omega arith)
