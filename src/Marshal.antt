-- ===== src/Marshal.antt =====
-- Marshalling: the codes of byterun/intext.h, and integers as bytes, as byterun/extern.c writes
-- them and byterun/intern.c reads them.
pub mod Seen
pub mod Extern
pub mod Intern
pub mod Tree
pub mod Room
pub mod Leaves
pub mod Codes
pub mod Prefixes
pub mod Contents
pub mod Reading
pub mod Sharing
pub mod Objects
pub mod Copying
pub mod Blocks
pub mod Nodes
pub mod LeafCases
pub mod FieldsFrom
pub mod RoundTrip
pub mod Message
pub mod Whole
pub mod Buffer
pub mod Limit
pub mod Table
pub mod Faithful
pub mod Cut
pub mod Tests
use ocamil.Prelude.{
  ℕ, zero, suc, ◌+◌, ◌-◌, ◌*◌, ◌/◌, ◌%◌, ◌^◌, Option, none, some, List, [], ◌∷◌, ◌++◌, Bool, true,
  false, ltb, if◌then◌else◌,
}
use ocamil.Prelude.Int.{ℤ, pos, negsuc}
use ocamil.Machine.Word.{wrap}

abbrev pub magic_number : ℕ
magic_number = 2224400062

abbrev pub prefix_small_block : ℕ
prefix_small_block = 128

abbrev pub prefix_small_int : ℕ
prefix_small_int = 64

abbrev pub prefix_small_string : ℕ
prefix_small_string = 32

abbrev pub code_int8 : ℕ
code_int8 = 0

abbrev pub code_int16 : ℕ
code_int16 = 1

abbrev pub code_int32 : ℕ
code_int32 = 2

abbrev pub code_int64 : ℕ
code_int64 = 3

abbrev pub code_shared8 : ℕ
code_shared8 = 4

abbrev pub code_shared16 : ℕ
code_shared16 = 5

abbrev pub code_shared32 : ℕ
code_shared32 = 6

abbrev pub code_double_array32_little : ℕ
code_double_array32_little = 7

abbrev pub code_block32 : ℕ
code_block32 = 8

abbrev pub code_string8 : ℕ
code_string8 = 9

abbrev pub code_string32 : ℕ
code_string32 = 10

abbrev pub code_double_big : ℕ
code_double_big = 11

abbrev pub code_double_little : ℕ
code_double_little = 12

abbrev pub code_double_array8_big : ℕ
code_double_array8_big = 13

abbrev pub code_double_array8_little : ℕ
code_double_array8_little = 14

abbrev pub code_double_array32_big : ℕ
code_double_array32_big = 15

abbrev pub code_codepointer : ℕ
code_codepointer = 16

abbrev pub code_infixpointer : ℕ
code_infixpointer = 17

abbrev pub code_custom : ℕ
code_custom = 18

-- The exceptions of both directions.
pub data MarshalError : Type 0 where
  functional_value abstract_value object_value abstract_custom buffer_overflow : MarshalError
  ill_formed_message integer_too_large code_mismatch unknown_custom : MarshalError
  bad_object bad_block_length out_of_memory : MarshalError

-- `fault` is an access that the code does not check, or an overflow of a signed integer.
pub data Result {ℓ} (A : Type ℓ) : Type ℓ where
  ok : A → Result A
  raised : MarshalError → Result A
  fault : Result A
  out_of_fuel : Result A

infixl 5 ◌>>=◌
abbrev pub ◌>>=◌ {ℓ κ} : {A : Type ℓ} {B : Type κ} → Result A → (A → Result B) → Result B
ok a >>= f = f a
raised e >>= f = raised e
fault >>= f = fault
out_of_fuel >>= f = out_of_fuel

abbrev pub of_option {ℓ} : {A : Type ℓ} → Option A → Result A
of_option none = fault
of_option (some a) = ok a

-- The low bytes of a word, the highest of them first.
unfoldable pub bytes16 : ℕ → List ℕ
bytes16 w = (w / 2 ^ 8 % 256) ∷ (w % 256) ∷ []

unfoldable pub bytes32 : ℕ → List ℕ
bytes32 w = (w / 2 ^ 24 % 256) ∷ (w / 2 ^ 16 % 256) ∷ (w / 2 ^ 8 % 256) ∷ (w % 256) ∷ []

-- `read8u`, `read16u` and `read32u`, and what they leave; a read past the end is a fault.
unfoldable pub read8u : List ℕ → Result (ℕ × List ℕ)
read8u (a ∷ src) = ok (a, src)
read8u [] = fault

unfoldable pub read16u : List ℕ → Result (ℕ × List ℕ)
read16u (a ∷ b ∷ src) = ok (a * 2 ^ 8 + b, src)
read16u _ = fault

unfoldable pub read32u : List ℕ → Result (ℕ × List ℕ)
read32u (a ∷ b ∷ c ∷ d ∷ src) = ok (a * 2 ^ 24 + b * 2 ^ 16 + c * 2 ^ 8 + d, src)
read32u _ = fault

-- The number that a pattern of so many bits stands for, with its sign extended.
unfoldable pub sign_extend : (bits w : ℕ) → ℤ
sign_extend bits w = if ltb (2 * w) (2 ^ bits) then pos w else negsuc (2 ^ bits - 1 - w)

unfoldable pub read8s : List ℕ → Result (ℤ × List ℕ)
unfolding read8u sign_extend
read8s src = do (w, rest) ← read8u src; ok (sign_extend 8 w, rest)

unfoldable pub read16s : List ℕ → Result (ℤ × List ℕ)
unfolding read16u sign_extend
read16s src = do (w, rest) ← read16u src; ok (sign_extend 16 w, rest)

unfoldable pub read32s : List ℕ → Result (ℤ × List ℕ)
unfolding read32u sign_extend
read32s src = do (w, rest) ← read32u src; ok (sign_extend 32 w, rest)

-- A double is the pattern of its 64 bits. Its bytes stand the lowest first on the machines that
-- CODE_DOUBLE_LITTLE is for.
unfoldable pub double_bytes : ℕ → ℕ → List ℕ
double_bytes zero d = []
double_bytes (suc n) d = (d % 256) ∷ double_bytes n (d / 256)

unfoldable pub double_little : List ℕ → ℕ
double_little [] = 0
double_little (b ∷ bs) = b + 256 * double_little bs

unfoldable pub double_big : (high : ℕ) → List ℕ → ℕ
double_big high [] = high
double_big high (b ∷ bs) = double_big (high * 256 + b) bs
