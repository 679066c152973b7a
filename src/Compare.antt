-- ===== src/Compare.antt =====
-- Structural comparison, byterun/compare.c, on the heap of the interpreter. The comparison of two
-- doubles, the addresses of values outside the heap, the comparison functions of custom blocks and
-- the answers of `malloc` are parameters.
pub mod Loop
pub mod Worklist
mod Primitives
mod Finite
mod Tests
use ocamil.Prelude.{
  ℕ, zero, suc, ◌+◌, ◌-◌, ◌*◌, min, Bool, true, false, ◌||◌, ◌&&◌, not, Option, none, some, List,
  [], ◌∷◌, ltb, leb, ◌==◌, if◌then◌else◌, length, get_elem?, get_or, ◌>>=◌, ◌>>◌,
}
use ocamil.Prelude.Int.{ℤ, pos, negsuc, ◌-ℤ◌}
use ocamil.Machine.Word.{long_val}
use ocamil.Interp.Arith.{same_value}
use ocamil.Machine.Value.{
  Value, word, ptr, atom, code, trap, Block, fields, bytes, doubles, Heap, closure_tag, infix_tag,
  string_tag, double_tag, double_array_tag, field, tag_val, wosize_val, long_of,
}

abbrev pub object_tag : ℕ
object_tag = 248

abbrev pub forward_tag : ℕ
forward_tag = 250

abbrev pub abstract_tag : ℕ
abstract_tag = 251

abbrev pub custom_tag : ℕ
custom_tag = 255

-- The exceptions of a comparison.
pub data CompareError : Type 0 where
  abstract_value functional_value no_custom_compare out_of_memory : CompareError

-- What one look at a pair of values finds: the pair is equal, or differs, or the pair to look at
-- instead, or blocks of the same tag and size to be compared field by field, with that many fields
-- behind the first.
pub data Examined : Type 0 where
  next_item : Examined
  differ : ℤ → Examined
  again : Value → Value → Examined
  inside : ℕ → Examined
  raises : CompareError → Examined

-- `Is_atom(v) || Is_young(v) || Is_in_heap(v)`, of what is not an integer.
abbrev pub in_heap : Value → Bool
in_heap (ptr _ _) = true
in_heap (atom _) = true
in_heap _ = false

abbrev pub is_zero : ℤ → Bool
is_zero (pos n) = n == 0
is_zero (negsuc _) = false

-- The length of a string from its last byte.
unfoldable pub string_length : List ℕ → ℕ
string_length bs = length bs - 1 - get_or bs (length bs - 1) 0

-- The first difference among that many bytes.
unfoldable pub compare_bytes : ℕ → List ℕ → List ℕ → Option ℤ
compare_bytes zero p1 p2 = none
compare_bytes (suc len) (c1 ∷ p1) (c2 ∷ p2) =
    let rest = compare_bytes len p1 p2 in if c1 == c2 then rest else some (pos c1 -ℤ pos c2)
compare_bytes (suc len) _ _ = none

unfoldable pub by_difference : Option ℤ → Examined → Examined
by_difference none e = e
by_difference (some d) e = differ d

unfoldable pub examine_strings : List ℕ → List ℕ → Examined
unfolding compare_bytes string_length by_difference
examine_strings b1 b2 =
    let len1 = string_length b1 in
    let len2 = string_length b2 in
    by_difference (compare_bytes (min len1 len2) b1 b2)
      (if len1 == len2 then next_item else differ (pos len1 -ℤ pos len2))

abbrev pub bytes_of : Block → Option (List ℕ)
bytes_of (bytes bs) = some bs
bytes_of _ = none

abbrev pub doubles_of : Block → Option (List ℕ)
doubles_of (doubles _ ds) = some ds
doubles_of _ = none

abbrev pub block_at : Heap → Value → Option Block
block_at h (ptr b zero) = get_elem? h b
block_at h _ = none

abbrev pub bytes_at : Heap → Value → Option (List ℕ)
bytes_at h v = block_at h v >>= bytes_of

abbrev pub doubles_at : Heap → Value → Option (List ℕ)
doubles_at h v = block_at h v >>= doubles_of

-- Code that is not part of the runtime, and addresses.
pub record Outside : Type 0 where
  pub double_lt : ℕ → ℕ → Bool
  pub half_address : Value → ℤ
  pub custom_compare : Value → Option (Heap → Value → Value → ℤ)
  pub malloc : ℕ → Bool

module _ (o : Outside) (h : Heap) where
  unfoldable pub compare_doubles : List ℕ → List ℕ → Option ℤ
  compare_doubles (d1 ∷ ds1) (d2 ∷ ds2) =
      let rest = compare_doubles ds1 ds2 in
      if o.double_lt d1 d2
      then some (negsuc 0)
      else if o.double_lt d2 d1
      then some (pos 1)
      else rest
  compare_doubles _ _ = none

  unfoldable pub examine_double : List ℕ → List ℕ → Option Examined
  unfolding by_difference
  examine_double ds1 ds2 = do
    d1 ← get_elem? ds1 0
    d2 ← get_elem? ds2 0
    some (by_difference (compare_doubles (d1 ∷ []) (d2 ∷ [])) next_item)

  unfoldable pub examine_doubles : List ℕ → List ℕ → Examined
  unfolding by_difference
  examine_doubles ds1 ds2 =
      if length ds1 == length ds2
      then by_difference (compare_doubles ds1 ds2) next_item
      else differ (pos (length ds1) -ℤ pos (length ds2))

  unfoldable pub examine_custom : Value → Value → Option Examined
  examine_custom v1 v2 = do
    ops ← field h v1 0
    some (elim (o.custom_compare ops) [
      | none ↦ raises no_custom_compare
      | some compare ↦ if is_zero (compare h v1 v2) then next_item else differ (compare h v1 v2)
    ])

  -- The switch on the tag that the two blocks share.
  unfoldable pub examine_blocks : (tag : ℕ) → Value → Value → Option Examined
  examine_blocks t v1 v2 =
      if t == string_tag
      then (do b1 ← bytes_at h v1; b2 ← bytes_at h v2; some (examine_strings b1 b2))
      else if t == double_tag
      then (do ds1 ← doubles_at h v1; ds2 ← doubles_at h v2; examine_double ds1 ds2)
      else if t == double_array_tag
      then (do ds1 ← doubles_at h v1; ds2 ← doubles_at h v2; some (examine_doubles ds1 ds2))
      else if t == abstract_tag
      then some (raises abstract_value)
      else if (t == closure_tag) || (t == infix_tag)
      then some (raises functional_value)
      else if t == object_tag
      then (do
        oid1 ← field h v1 1 >>= long_of
        oid2 ← field h v2 1 >>= long_of
        some (if is_zero (oid1 -ℤ oid2) then next_item else differ (oid1 -ℤ oid2)))
      else if t == custom_tag
      then examine_custom v1 v2
      else (do
        sz1 ← wosize_val h v1
        sz2 ← wosize_val h v2
        some (
            if sz1 == sz2
            then (if sz1 == 0 then next_item else inside (sz1 - 1))
            else differ (pos sz1 -ℤ pos sz2)))

  -- An integer and a block, which are in the order `side`, or the block forwards to a value.
  unfoldable pub examine_mixed : (block : Value) → (side : ℤ) → (Value → Examined) → Option Examined
  examine_mixed v side forwarded =
      if in_heap v
      then (do
        t ← tag_val h v
        if t == forward_tag then (do w ← field h v 0; some (forwarded w)) else some (differ side))
      else some (differ side)

  unfoldable pub examine_pointers : Value → Value → Option Examined
  examine_pointers v1 v2 =
      if not (in_heap v1) || not (in_heap v2)
      then some (differ (o.half_address v1 -ℤ o.half_address v2))
      else (do
        t1 ← tag_val h v1
        t2 ← tag_val h v2
        if t1 == forward_tag
            then (do w ← field h v1 0; some (again w v2))
            else if t2 == forward_tag
            then (do w ← field h v2 0; some (again v1 w))
            else if t1 == t2
            then examine_blocks t1 v1 v2
            else some (differ (pos t1 -ℤ pos t2)))

  unfoldable pub examine_different : Value → Value → Option Examined
  unfolding long_val
  examine_different (word a) (word b) = some (differ (long_val a -ℤ long_val b))
  examine_different (word a) v2 = examine_mixed v2 (negsuc 0) (λ w. again (word a) w)
  examine_different v1 (word b) = examine_mixed v1 (pos 1) (λ w. again w (word b))
  examine_different v1 v2 = examine_pointers v1 v2

  -- The body of the loop of `compare_val`, down to `next_item`.
  unfoldable pub examine : Value → Value → Option Examined
  unfolding same_value
  examine v1 v2 = if same_value v1 v2 then some next_item else examine_different v1 v2
