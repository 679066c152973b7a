-- ===== src/Marshal/Leaves.antt =====
-- Writing and reading integers, in byterun/extern.c and byterun/intern.c, and the first bytes of a
-- value.
use ocamil.Prelude.{
  ℕ, suc, ◌+◌, ◌*◌, ◌/◌, ◌%◌, ◌^◌, ◌≤◌, ◌<◌, ◌≡◌, inl, inr, refl, ap, ◌∙◌, List, [], ◌∷◌, ◌++◌,
  true, false, length, arith, Bool-cases,
}
use ocamil.Prelude.Int.{ℤ}
use ocamil.Machine.Word.{wrap, val_long}
use ocamil.Machine.Word.Tagging.{IsInt}
use ocamil.Machine.Value.{Value, word}
use ocamil.Marshal.{
  Result, ok, bytes16, bytes32, read8u, read16u, read32u, read8s, read16s, read32s, sign_extend,
}
use ocamil.Marshal.Room.{Malloced, Gives, with_bytes, writeblock_lem}
use ocamil.Marshal.Extern.{
  Extern, writecode8, writecode16, writecode32, extern_int, within, is_small,
}
use ocamil.Marshal.Intern.{Intern, Deserializers, intern_rec, intern_prefix, intern_code, with_int}

-- The integers of a message.
pub read16u-bytes16 :
    (n : ℕ) (rest : List ℕ) → n < 2 ^ 16 → read16u (bytes16 n ++ rest) ≡ ok (n, rest)
unfolding read16u bytes16
read16u-bytes16 n rest h = let e : n / 2 ^ 8 % 256 * 2 ^ 8 + n % 256 ≡ n = omega arith in rw e refl

pub read32u-bytes32 :
    (n : ℕ) (rest : List ℕ) → n < 2 ^ 32 → read32u (bytes32 n ++ rest) ≡ ok (n, rest)
unfolding read32u bytes32
read32u-bytes32 n rest h =
    let e : n / 2 ^ 24 % 256 * 2 ^ 24
          + n / 2 ^ 16 % 256 * 2 ^ 16
          + n / 2 ^ 8 % 256 * 2 ^ 8
          + n % 256
        ≡ n =
      omega arith in
    rw e refl

pub length-bytes16 : (n : ℕ) → length (bytes16 n) ≡ 2
unfolding bytes16
length-bytes16 n = refl

pub length-bytes32 : (n : ℕ) → length (bytes32 n) ≡ 4
unfolding bytes32
length-bytes32 n = refl

read8s-wrap :
    (n : ℤ) (rest : List ℕ) → within 7 n ≡ true → read8s ((wrap n % 256) ∷ rest) ≡ ok (n, rest)
unfolding read8s read8u sign_extend
read8s-wrap n rest h = ground arith

read16s-wrap :
    (n : ℤ) (rest : List ℕ) → within 15 n ≡ true → read16s (bytes16 (wrap n) ++ rest) ≡ ok (n, rest)
unfolding read16s read16u sign_extend bytes16
read16s-wrap n rest h = ground arith

read32s-wrap : (n : ℤ) (rest : List ℕ) → IsInt n → read32s (bytes32 (wrap n) ++ rest) ≡ ok (n, rest)
unfolding read32s read32u sign_extend bytes32
read32s-wrap n rest h = ground arith

-- What was written, and how reading goes on behind it.
pub record Prefix (T : Type 0) (c : Deserializers) (run : Result (Extern T)) (e : Extern T)
    (continues : ℕ → List ℕ → Intern → Result (Value × List ℕ × Intern)) : Type 0 where
  pub bs : List ℕ
  pub size : ℕ
  pub positive : 0 < size
  pub short : length bs ≤ 5
  pub emitted : Gives (length e.written + length bs) run (with_bytes e bs size)
  pub read_back :
      (g : ℕ) (rest : List ℕ) (s : Intern)
      → intern_rec c (suc g) (bs ++ rest) s ≡ continues g rest s

-- A value that needs no block.
abbrev pub immediate : Value → ℕ → List ℕ → Intern → Result (Value × List ℕ × Intern)
immediate v g rest s = ok (v, rest, s)

module _ (c : Deserializers) (g : ℕ) (src : List ℕ) (s : Intern) where
  code_int8_lem : intern_rec c (suc g) (0 ∷ src) s ≡ with_int (read8s src) s
  unfolding intern_rec read8u intern_prefix intern_code
  code_int8_lem = refl

  code_int16_lem : intern_rec c (suc g) (1 ∷ src) s ≡ with_int (read16s src) s
  unfolding intern_rec read8u intern_prefix intern_code
  code_int16_lem = refl

  code_int32_lem : intern_rec c (suc g) (2 ∷ src) s ≡ with_int (read32s src) s
  unfolding intern_rec read8u intern_prefix intern_code
  code_int32_lem = refl

module _ {T : Type 0} (c : Deserializers) (e : Extern T) (m : Malloced e) where
  small_int :
      (n : ℤ) → is_small n ≡ true → Prefix T c (extern_int n e) e (immediate (word (val_long n)))
  unfolding extern_int intern_rec read8u intern_prefix
  small_int n h =
      let (size, above, w) = writeblock_lem ((64 + wrap n) ∷ []) e m in
      record {
        bs = (64 + wrap n) ∷ [];
        size = size;
        positive = above;
        short = omega (arith, length-bytes16 (wrap n), length-bytes32 (wrap n));
        emitted = rw h w;
        read_back = λ g rest s. ground arith;
      }

  int8 :
      (n : ℤ)
      → is_small n ≡ false
      → within 7 n ≡ true
      → Prefix T c (extern_int n e) e (immediate (word (val_long n)))
  unfolding extern_int writecode8
  int8 n h k =
      let (size, above, w) = writeblock_lem (0 ∷ (wrap n % 256) ∷ []) e m in
      record {
        bs = 0 ∷ (wrap n % 256) ∷ [];
        size = size;
        positive = above;
        short = omega (arith, length-bytes16 (wrap n), length-bytes32 (wrap n));
        emitted = rw (h, k) w;
        read_back = λ g rest s.
            code_int8_lem c g ((wrap n % 256) ∷ rest) s
            ∙ ap (λ r. with_int r s) (read8s-wrap n rest k);
      }

  int16 :
      (n : ℤ)
      → is_small n ≡ false
      → within 7 n ≡ false
      → within 15 n ≡ true
      → Prefix T c (extern_int n e) e (immediate (word (val_long n)))
  unfolding extern_int writecode16
  int16 n h k l =
      let (size, above, w) = writeblock_lem (1 ∷ bytes16 (wrap n)) e m in
      record {
        bs = 1 ∷ bytes16 (wrap n);
        size = size;
        positive = above;
        short = omega (arith, length-bytes16 (wrap n), length-bytes32 (wrap n));
        emitted = rw (h, k, l) w;
        read_back = λ g rest s.
            code_int16_lem c g (bytes16 (wrap n) ++ rest) s
            ∙ ap (λ r. with_int r s) (read16s-wrap n rest l);
      }

  int32 :
      (n : ℤ)
      → is_small n ≡ false
      → within 7 n ≡ false
      → within 15 n ≡ false
      → IsInt n
      → Prefix T c (extern_int n e) e (immediate (word (val_long n)))
  unfolding extern_int writecode32
  int32 n h k l i =
      let (size, above, w) = writeblock_lem (2 ∷ bytes32 (wrap n)) e m in
      record {
        bs = 2 ∷ bytes32 (wrap n);
        size = size;
        positive = above;
        short = omega (arith, length-bytes16 (wrap n), length-bytes32 (wrap n));
        emitted = rw (h, k, l) w;
        read_back = λ g rest s.
            code_int32_lem c g (bytes32 (wrap n) ++ rest) s
            ∙ ap (λ r. with_int r s) (read32s-wrap n rest i);
      }

  -- An integer of 31 bits, in its shortest form.
  pub int_leaf : (n : ℤ) → IsInt n → Prefix T c (extern_int n e) e (immediate (word (val_long n)))
  int_leaf n i = elim (Bool-cases (is_small n)) [
    | inl h ↦ small_int n h
    | inr h ↦ elim (Bool-cases (within 7 n)) [
      | inl k ↦ int8 n h k
      | inr k ↦ elim (Bool-cases (within 15 n)) [ inl l ↦ int16 n h k l | inr l ↦ int32 n h k l i ]
    ]
  ]
