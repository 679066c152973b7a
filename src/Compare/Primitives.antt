-- ===== src/Compare/Primitives.antt =====
-- The comparison primitives of byterun/compare.c against each other.
use ocamil.Prelude.{ℕ, ◌≡◌, ◌↔◌, ◌⊎◌, inl, true, false, arith, not}
use ocamil.Prelude.Int.{ℤ, pos, negsuc, ltb_ℤ}
use ocamil.Interp.Arith.{val_bool}
use ocamil.Machine.Word.{val_long}
use ocamil.Machine.Value.{Value, Heap, val_int}
use ocamil.Compare.{Outside, is_zero}
use ocamil.Compare.Loop.{
  Comparison, on_order, sign, primitive, compare, equal, notequal, lessthan, lessequal, greaterthan,
  greaterequal, compare_val,
}

-- A test and its negation, by the answer of `compare` that they stand for.
abbrev pub TestsFor : (answer : ℤ) → (compared test negated : Value ⊎ Comparison) → Type 0
TestsFor answer compared test negated =
    ((test ≡ inl (val_bool true)) ↔ (compared ≡ inl (val_int answer)))
    × ((negated ≡ inl (val_bool false)) ↔ (compared ≡ inl (val_int answer)))

by_order-equal :
    (c : Comparison)
    → TestsFor
        (pos 0)
        (on_order sign c)
        (on_order (λ r. val_bool (is_zero r)) c)
        (on_order (λ r. val_bool (not (is_zero r))) c)
unfolding val_long
by_order-equal c = ground arith

by_order-less :
    (c : Comparison)
    → TestsFor
        (negsuc 0)
        (on_order sign c)
        (on_order (λ r. val_bool (ltb_ℤ r (pos 0))) c)
        (on_order (λ r. val_bool (not (ltb_ℤ r (pos 0)))) c)
unfolding val_long
by_order-less c = ground arith

by_order-greater :
    (c : Comparison)
    → TestsFor
        (pos 1)
        (on_order sign c)
        (on_order (λ r. val_bool (ltb_ℤ (pos 0) r)) c)
        (on_order (λ r. val_bool (not (ltb_ℤ (pos 0) r))) c)
unfolding val_long
by_order-greater c = ground arith

-- The primitives agree: on the same values, with the same fuel and stack, `equal` and `notequal`
-- answer true and false exactly when `compare` answers 0, `lessthan` and `greaterequal` when it
-- answers -1, and `greaterthan` and `lessequal` when it answers 1.
pub compare-TestsFor :
    (o : Outside) (h : Heap) (f limit : ℕ) (v1 v2 : Value)
    → TestsFor
        (pos 0)
        (compare o h f limit v1 v2)
        (equal o h f limit v1 v2)
        (notequal o h f limit v1 v2)
      × TestsFor
          (negsuc 0)
          (compare o h f limit v1 v2)
          (lessthan o h f limit v1 v2)
          (greaterequal o h f limit v1 v2)
      × TestsFor
          (pos 1)
          (compare o h f limit v1 v2)
          (greaterthan o h f limit v1 v2)
          (lessequal o h f limit v1 v2)
unfolding compare equal notequal lessthan lessequal greaterthan greaterequal primitive
compare-TestsFor o h f limit v1 v2 =
    let c = compare_val o h f limit v1 v2 in (by_order-equal c, by_order-less c, by_order-greater c)
