-- ===== src/Hash/Tests.antt =====
-- The hash of byterun/hash.c on a block with one string twice, and on one with two equal strings.
use ocamil.Prelude.{ℕ, ◌^◌, ◌<◌, ◌≡◌, refl, none, some, List, [], ◌∷◌, length, get_elem?, arith}
use ocamil.Prelude.Int.{pos, ◌+ℤ◌, ◌*ℤ◌}
use ocamil.Machine.Word.{val_long, long_val}
use ocamil.Machine.Value.{Value, word, ptr, Heap, fields, bytes}
use ocamil.Compare.{string_length}
use ocamil.Marshal.{ok}
use ocamil.Marshal.Intern.{Intern}
use ocamil.Marshal.Message.{output_value_to_string, input_value_from_block}
use ocamil.Marshal.Tests.{twice}
use ocamil.Marshal.Tree.{Tree, text, node, nil, cons, weight, extent, Unfolds, IsText}
use ocamil.Marshal.Copying.{IsData}
use ocamil.Hash.{Hashing, hash_univ_param, hash_variant}
use ocamil.Hash.Copies.{interned_heap, hash_univ_param-input_value_from_block}
use ocamil.Hash.Trees.{hash_univ_param_agrees}

abbrev nothing_outside : Hashing
nothing_outside = record { custom_hash = λ ops. none; address = λ v. 0 }

abbrev two_strings : Tree
two_strings =
    node 0 (cons (text (97 ∷ 98 ∷ [])) (cons (text (97 ∷ 98 ∷ [])) (cons (Tree.int (pos 5)) nil)))

abbrev one_twice : Heap
one_twice = fields 0 (ptr 1 0 ∷ ptr 1 0 ∷ word 11 ∷ []) ∷ bytes (97 ∷ 98 ∷ 0 ∷ 1 ∷ []) ∷ []

abbrev two_equal : Heap
two_equal =
    bytes (97 ∷ 98 ∷ 0 ∷ 1 ∷ [])
    ∷ bytes (97 ∷ 98 ∷ 0 ∷ 1 ∷ [])
    ∷ fields 0 (ptr 0 0 ∷ ptr 1 0 ∷ word 11 ∷ [])
    ∷ []

ab-IsText : IsText (97 ∷ 98 ∷ 0 ∷ 1 ∷ []) (97 ∷ 98 ∷ [])
unfolding string_length
ab-IsText = record { text_length = refl; text_bytes = refl; padded = refl }

two_strings-IsData : IsData two_strings
unfolding IsData
two_strings-IsData =
    (omega arith, omega arith, omega arith, (omega arith, (omega arith, (omega arith, tt))))

one_twice-Unfolds : Unfolds (get_elem? one_twice) (ptr 0 0) two_strings
unfolding Unfolds long_val
one_twice-Unfolds =
    let ab : Unfolds (get_elem? one_twice) (ptr 1 0) (text (97 ∷ 98 ∷ [])) =
      (1, 97 ∷ 98 ∷ 0 ∷ 1 ∷ [], refl, refl, ab-IsText) in
    (
      0,
      ptr 1 0 ∷ ptr 1 0 ∷ word 11 ∷ [],
      refl,
      refl,
      (
        ptr 1 0,
        ptr 1 0 ∷ word 11 ∷ [],
        refl,
        ab,
        (ptr 1 0, word 11 ∷ [], refl, ab, (word 11, [], refl, (11, refl, refl), refl)),
      ),
    )

two_equal-Unfolds : Unfolds (get_elem? two_equal) (ptr 2 0) two_strings
unfolding Unfolds long_val
two_equal-Unfolds =
    let first : Unfolds (get_elem? two_equal) (ptr 0 0) (text (97 ∷ 98 ∷ [])) =
      (0, 97 ∷ 98 ∷ 0 ∷ 1 ∷ [], refl, refl, ab-IsText) in
    let second : Unfolds (get_elem? two_equal) (ptr 1 0) (text (97 ∷ 98 ∷ [])) =
      (1, 97 ∷ 98 ∷ 0 ∷ 1 ∷ [], refl, refl, ab-IsText) in
    (
      2,
      ptr 0 0 ∷ ptr 1 0 ∷ word 11 ∷ [],
      refl,
      refl,
      (
        ptr 0 0,
        ptr 1 0 ∷ word 11 ∷ [],
        refl,
        first,
        (ptr 1 0, word 11 ∷ [], refl, second, (word 11, [], refl, (11, refl, refl), refl)),
      ),
    )

hash_univ_param_agrees_example :
    (n : ℕ) × (hash_univ_param nothing_outside one_twice 201 (pos 10) (pos 100) (ptr 0 0)
      ≡ some (word (val_long (pos n))))
    × (hash_univ_param nothing_outside two_equal 201 (pos 10) (pos 100) (ptr 2 0)
        ≡ some (word (val_long (pos n))))
    × (n < 2 ^ 30)
hash_univ_param_agrees_example =
    hash_univ_param_agrees nothing_outside nothing_outside one_twice two_equal (ptr 0 0) (ptr 2 0)
      two_strings (pos 10) (pos 100) 201 201 two_strings-IsData one_twice-Unfolds two_equal-Unfolds
      (omega arith) (omega arith)

-- `A: 65, as the compiler computes it.
variant_a : hash_variant (65 ∷ []) 1 ≡ 131
unfolding hash_variant val_long long_val ◌+ℤ◌ ◌*ℤ◌
variant_a = refl

hash_univ_param-input_value_from_block_example :
    (msg : List ℕ) × (w : Value) × (s : Intern) × (n : ℕ) × (output_value_to_string twice.table
        twice.serializers twice.flags twice.heap 4
        (ptr 0 0)
      ≡ ok msg)
    × (input_value_from_block twice.deserializers 4 msg (length msg) ≡ ok (w, [], s))
    × (hash_univ_param nothing_outside twice.heap 201 (pos 10) (pos 100) (ptr 0 0)
        ≡ some (word (val_long (pos n))))
    × (hash_univ_param nothing_outside (interned_heap s) 201 (pos 10) (pos 100) w
        ≡ some (word (val_long (pos n))))
    × (n < 2 ^ 30)
unfolding weight extent
hash_univ_param-input_value_from_block_example =
    hash_univ_param-input_value_from_block twice nothing_outside two_strings (pos 10) (pos 100) 4 4
      201 (ptr 0 0) two_strings-IsData one_twice-Unfolds (omega arith) (omega arith) (omega arith)
      (omega arith)
