-- ===== src/Hash.antt =====
-- Polymorphic hashing, byterun/hash.c. The hash functions of custom blocks and the addresses of what
-- is outside the heap are parameters. A loop on fuel: forward pointers may form a cycle.
pub mod Spec
pub mod Refines
pub mod Trees
pub mod Copies
mod Tests
use ocamil.Prelude.{
  ℕ, zero, suc, ◌+◌, ◌-◌, ◌*◌, ◌/◌, ◌%◌, ◌^◌, Option, none, some, ◌>>=◌, List, [], ◌∷◌, Bool, true,
  false, ◌||◌, ◌==◌, if◌then◌else◌, take,
}
use ocamil.Prelude.Int.{ℤ, pos, negsuc, ◌+ℤ◌, ◌*ℤ◌}
use ocamil.Machine.Word.{wrap, val_long, long_val}
use ocamil.Machine.Value.{
  Value, word, ptr, atom, code, trap, Heap, field, tag_val, wosize_val, infix_tag, string_tag,
  double_tag, double_array_tag, long_of,
}
use ocamil.Compare.{
  string_length, bytes_at, doubles_at, object_tag, forward_tag, abstract_tag, custom_tag,
}
use ocamil.Marshal.{double_bytes}
use ocamil.Marshal.Extern.{all_double_bytes, closure_of}

-- `hash_accu`, `hash_univ_limit` and `hash_univ_count`.
pub record HashState : Type 0 where
  pub accu : ℕ
  pub limit : ℤ
  pub count : ℤ

abbrev pub decrement : ℤ → ℤ
decrement (pos zero) = negsuc 0
decrement (pos (suc n)) = pos n
decrement (negsuc n) = negsuc (suc n)

abbrev pub is_negative : ℤ → Bool
is_negative (pos n) = false
is_negative (negsuc n) = true

abbrev pub alpha : ℕ
alpha = 65599

abbrev pub beta : ℕ
beta = 19

unfoldable pub combine : (new : ℕ) → HashState → HashState
combine new s = record s { accu = (s.accu * alpha + new) % 2 ^ 32 }

unfoldable pub combine_small : (new : ℕ) → HashState → HashState
combine_small new s = record s { accu = (s.accu * beta + new) % 2 ^ 32 }

unfoldable pub combine_bytes : List ℕ → HashState → HashState
combine_bytes [] s = s
combine_bytes (b ∷ bs) s = combine_bytes bs (combine_small b s)

-- `hash_univ_limit--` at the start of hash_aux, and its test.
unfoldable pub enter_call : HashState → HashState
enter_call s = record s { limit = decrement s.limit }

unfoldable pub exhausted : HashState → Bool
exhausted s = is_negative s.count || is_negative s.limit

-- `hash_univ_count--`
unfoldable pub spend : HashState → HashState
spend s = record s { count = decrement s.count }

-- Code that is not part of the runtime, and addresses.
pub record Hashing : Type 0 where
  pub custom_hash : Value → Option (Heap → Value → ℕ)
  pub address : Value → ℕ

module _ (out : Hashing) (h : Heap) where
  -- The fields below `i`, the last one first, each by the function that is passed.
  unfoldable pub hash_fields :
      (Value → HashState → Option HashState) → Value → (i : ℕ) → HashState → Option HashState
  hash_fields rec obj zero s = some s
  hash_fields rec obj (suc i) s = do x ← field h obj i; s' ← rec x s; hash_fields rec obj i s'

  unfoldable pub hash_custom : Value → HashState → Option HashState
  hash_custom obj s = do
    ops ← field h obj 0
    elim (out.custom_hash ops) [ none ↦ some s | some hash ↦ some (combine (hash h obj) (spend s)) ]

  -- The switch on the tag; `again` is the rest of hash_aux for the target of a forward pointer.
  unfoldable pub hash_block :
      (rec again : Value → HashState → Option HashState)
      → Value
      → (tag : ℕ) → HashState
      → Option HashState
  hash_block rec again obj tag s =
      if tag == string_tag
      then (do bs ← bytes_at h obj; some (combine_bytes (take (string_length bs) bs) (spend s)))
      else if tag == double_tag
      then (do ds ← doubles_at h obj; some (combine_bytes (all_double_bytes (take 1 ds)) (spend s)))
      else if tag == double_array_tag
      then (do ds ← doubles_at h obj; some (combine_bytes (all_double_bytes ds) (spend s)))
      else if tag == abstract_tag
      then some s
      else if tag == infix_tag
      then (do sz ← wosize_val h obj; closure ← closure_of obj sz; rec closure s)
      else if tag == forward_tag
      then (do target ← field h obj 0; again target s)
      else if tag == object_tag
      then (do oid ← field h obj 1 >>= long_of; some (combine (wrap oid) (spend s)))
      else if tag == custom_tag
      then hash_custom obj s
      else (do sz ← wosize_val h obj; hash_fields rec obj sz (combine_small tag (spend s)))

  -- From the label `again`.
  unfoldable pub hash_contents :
      (rec again : Value → HashState → Option HashState) → Value → HashState → Option HashState
  hash_contents rec again (word w) s = some (combine (wrap (long_val w)) (spend s))
  hash_contents rec again (ptr b o) s = do
    tag ← tag_val h (ptr b o)
    hash_block rec again (ptr b o) tag s
  hash_contents rec again (atom t) s = do
    tag ← tag_val h (atom t)
    hash_block rec again (atom t) tag s
  hash_contents rec again (code n) s = some (combine (out.address (code n)) s)
  hash_contents rec again (trap n) s = some (combine (out.address (trap n)) s)

  unfoldable mutual
    pub hash_aux : ℕ → Value → HashState → Option HashState
    hash_aux zero obj s = none
    hash_aux (suc f) obj s =
        let s' = enter_call s in if exhausted s' then some s' else hash_again f obj s'

    pub hash_again : ℕ → Value → HashState → Option HashState
    hash_again zero obj s = none
    hash_again (suc f) obj s = hash_contents (hash_aux f) (hash_again f) obj s

  unfoldable pub hash_univ_param : ℕ → (count limit : ℤ) → Value → Option Value
  hash_univ_param f count limit obj = do
    s ← hash_aux f obj (record { accu = 0; limit = limit; count = count })
    some (word (val_long (pos (s.accu % 2 ^ 30))))

-- The characters of a variant tag, up to its final 0.
unfoldable pub hash_variant : List ℕ → (accu : ℕ) → ℕ
hash_variant [] accu = accu
hash_variant (c ∷ tag) accu = hash_variant tag (val_long (pos 223 *ℤ long_val accu +ℤ pos c))
