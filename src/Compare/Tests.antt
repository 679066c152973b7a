-- ===== src/Compare/Tests.antt =====
-- Comparisons of two pairs, on the code of byterun/compare.c.
use ocamil.Prelude.{zero, suc, ◌≡◌, ◌≢◌, arith, refl, true, false, none, some, [], ◌∷◌}
use ocamil.Prelude.Int.{pos, negsuc, ◌-ℤ◌}
use ocamil.Machine.Word.{long_val}
use ocamil.Machine.Value.{word, ptr, fields, Heap, field, tag_val, wosize_val, header}
use ocamil.Interp.Arith.{same_value}
use ocamil.Compare.{
  Outside, examine, examine_different, examine_mixed, examine_pointers, examine_blocks,
}
use ocamil.Compare.Loop.{
  compare_val, Comparing, order, out_of_fuel, compare_loop, compare_turn, turn_for, next_turn,
  remaining, remember, room, first_fields, compare, equal, notequal, lessthan, lessequal,
  greaterthan, greaterequal,
}
use ocamil.Compare.Worklist.{compare_loop-Agrees, Agrees, compare_pairs}
use ocamil.Compare.Finite.{Finite, compare_val_returns}
use ocamil.Compare.Primitives.{compare-TestsFor, TestsFor}

abbrev no_code : Outside
no_code = record {
  double_lt = λ a b. false;
  half_address = λ v. pos 0;
  custom_compare = λ v. none;
  malloc = λ n. true;
}

-- (1, 2) and (1, 3)
abbrev two_pairs : Heap
two_pairs = fields 0 (word 3 ∷ word 5 ∷ []) ∷ fields 0 (word 3 ∷ word 7 ∷ []) ∷ []

abbrev at_pairs : Comparing
at_pairs = record { v1 = ptr 0 0; v2 = ptr 1 0; stack = []; limit = 256 }

compares : compare_loop no_code two_pairs 3 at_pairs ≡ order (negsuc 0)
unfolding compare_loop compare_turn turn_for next_turn remaining remember room first_fields examine
    same_value examine_different examine_mixed examine_pointers examine_blocks field tag_val
    wosize_val header long_val ◌-ℤ◌
compares = refl

compare_loop-Agrees_example :
    Agrees no_code two_pairs 3 at_pairs
      (compare_loop no_code two_pairs 3 at_pairs)
      (compare_pairs no_code two_pairs 3 ((some (ptr 0 0), some (ptr 1 0)) ∷ []))
compare_loop-Agrees_example = compare_loop-Agrees no_code two_pairs 3 at_pairs tt (omega arith)

compare-TestsFor_example :
    TestsFor
      (pos 0)
      (compare no_code two_pairs 3 256 (ptr 0 0) (ptr 1 0))
      (equal no_code two_pairs 3 256 (ptr 0 0) (ptr 1 0))
      (notequal no_code two_pairs 3 256 (ptr 0 0) (ptr 1 0))
    × TestsFor
        (negsuc 0)
        (compare no_code two_pairs 3 256 (ptr 0 0) (ptr 1 0))
        (lessthan no_code two_pairs 3 256 (ptr 0 0) (ptr 1 0))
        (greaterequal no_code two_pairs 3 256 (ptr 0 0) (ptr 1 0))
    × TestsFor
        (pos 1)
        (compare no_code two_pairs 3 256 (ptr 0 0) (ptr 1 0))
        (greaterthan no_code two_pairs 3 256 (ptr 0 0) (ptr 1 0))
        (lessequal no_code two_pairs 3 256 (ptr 0 0) (ptr 1 0))
compare-TestsFor_example = compare-TestsFor no_code two_pairs 3 256 (ptr 0 0) (ptr 1 0)

two_pairs-Finite : Finite (λ b. 2) two_pairs
two_pairs-Finite zero block vs e e' = ground arith
two_pairs-Finite (suc zero) block vs e e' = ground arith
two_pairs-Finite (suc (suc b)) block vs e e' = ground arith

compare_val_returns_example : compare_val no_code two_pairs 6 256 (ptr 0 0) (ptr 1 0) ≢ out_of_fuel
compare_val_returns_example =
    compare_val_returns (λ b. 2) two_pairs no_code 6 256 (ptr 0 0) (ptr 1 0) two_pairs-Finite
      (omega arith)
