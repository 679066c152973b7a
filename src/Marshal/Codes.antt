-- ===== src/Marshal/Codes.antt =====
-- The codes of byterun/intext.h with a number of 8, 16 or 32 bits, and objects that were written
-- before, in byterun/extern.c and byterun/intern.c.
use ocamil.Prelude.{
  ℕ, suc, ◌%◌, ◌^◌, ◌<◌, ◌≡◌, inl, inr, refl, ap, List, [], ◌∷◌, ◌++◌, ltb, arith, Bool-cases,
}
use ocamil.Machine.Value.{Value}
use ocamil.Marshal.{Result, ◌>>=◌, bytes16, bytes32, read8u}
use ocamil.Marshal.Room.{Malloced, writeblock_lem}
use ocamil.Marshal.Extern.{Extern, writecode8, writecode16, writecode32, extern_shared}
use ocamil.Marshal.Intern.{
  Intern, Deserializers, intern_rec, intern_prefix, intern_code, read_shared,
}
use ocamil.Marshal.Leaves.{Prefix, read16u-bytes16, read32u-bytes32, length-bytes16, length-bytes32}

-- What the codes with a number of 8, 16 or 32 bits do with it.
module _ (c : Deserializers) (g n : ℕ) (rest : List ℕ) (s : Intern) where
  code_shared8_lem : intern_rec c (suc g) (4 ∷ n ∷ rest) s ≡ read_shared n rest s
  unfolding intern_rec read8u intern_prefix intern_code
  code_shared8_lem = refl

  code_shared16_lem :
      n < 2 ^ 16 → intern_rec c (suc g) (5 ∷ (bytes16 n ++ rest)) s ≡ read_shared n rest s
  unfolding intern_rec read8u intern_prefix intern_code
  code_shared16_lem h = ap (λ r. r >>= λ p. read_shared p.0 p.1 s) (read16u-bytes16 n rest h)

  code_shared32_lem :
      n < 2 ^ 32 → intern_rec c (suc g) (6 ∷ (bytes32 n ++ rest)) s ≡ read_shared n rest s
  unfolding intern_rec read8u intern_prefix intern_code
  code_shared32_lem h = ap (λ r. r >>= λ p. read_shared p.0 p.1 s) (read32u-bytes32 n rest h)

module _ {T : Type 0} (c : Deserializers) (e : Extern T) (m : Malloced e) where
  pub prefix8 :
      (byte n : ℕ) (k : ℕ → List ℕ → Intern → Result (Value × List ℕ × Intern))
      → n < 256
      → ((g : ℕ) (rest : List ℕ) (s : Intern)
          → intern_rec c (suc g) (byte ∷ n ∷ rest) s ≡ k g rest s)
      → Prefix T c (writecode8 byte n e) e k
  unfolding writecode8
  prefix8 byte n k h r =
      let (size, above, w) = writeblock_lem (byte ∷ (n % 256) ∷ []) e m in
      let same : n % 256 ≡ n = omega arith in
      record {
        bs = byte ∷ (n % 256) ∷ [];
        size = size;
        positive = above;
        short = omega (arith, length-bytes16 n, length-bytes32 n);
        emitted = w;
        read_back = λ g rest s. rw same (r g rest s);
      }

  pub prefix16 :
      (byte n : ℕ) (k : ℕ → List ℕ → Intern → Result (Value × List ℕ × Intern))
      → ((g : ℕ) (rest : List ℕ) (s : Intern)
          → intern_rec c (suc g) (byte ∷ (bytes16 n ++ rest)) s ≡ k g rest s)
      → Prefix T c (writecode16 byte n e) e k
  unfolding writecode16
  prefix16 byte n k r =
      let (size, above, w) = writeblock_lem (byte ∷ bytes16 n) e m in
      record {
        bs = byte ∷ bytes16 n;
        size = size;
        positive = above;
        short = omega (arith, length-bytes16 n, length-bytes32 n);
        emitted = w;
        read_back = r;
      }

  pub prefix32 :
      (byte n : ℕ) (k : ℕ → List ℕ → Intern → Result (Value × List ℕ × Intern))
      → ((g : ℕ) (rest : List ℕ) (s : Intern)
          → intern_rec c (suc g) (byte ∷ (bytes32 n ++ rest)) s ≡ k g rest s)
      → Prefix T c (writecode32 byte n e) e k
  unfolding writecode32
  prefix32 byte n k r =
      let (size, above, w) = writeblock_lem (byte ∷ bytes32 n) e m in
      record {
        bs = byte ∷ bytes32 n;
        size = size;
        positive = above;
        short = omega (arith, length-bytes16 n, length-bytes32 n);
        emitted = w;
        read_back = r;
      }

  pub shared_prefix :
      (d : ℕ) → d < 2 ^ 32 → Prefix T c (extern_shared d e) e (λ g rest s. read_shared d rest s)
  unfolding extern_shared
  shared_prefix d h = elim (Bool-cases (ltb d 256)) [
    | inl k ↦ rw k (
        prefix8 4 d (λ g rest s. read_shared d rest s) (ground arith)
          (λ g rest s. code_shared8_lem c g d rest s))
    | inr k ↦ elim (Bool-cases (ltb d (2 ^ 16))) [
      | inl l ↦
          rw (k, l)
            (prefix16 5 d (λ g rest s. read_shared d rest s)
              (λ g rest s. code_shared16_lem c g d rest s (ground arith)))
      | inr l ↦
          rw (k, l)
            (prefix32 6 d (λ g rest s. read_shared d rest s)
              (λ g rest s. code_shared32_lem c g d rest s h))
    ]
  ]
