-- ===== src/Marshal/Prefixes.antt =====
-- The first bytes of what has contents, in byterun/extern.c and byterun/intern.c, and the bytes of
-- strings and doubles.
use mathlib.Core.List.{append_assoc}
use ocamil.Prelude.{
  ℕ, zero, suc, ◌+◌, ◌*◌, ◌/◌, ◌%◌, ◌^◌, ◌<◌, ◌≡◌, refl, sym, ap, ◌∙◌, List, [], ◌∷◌, ◌++◌, true,
  false, leb, length, length-append, arith,
}
use ocamil.Marshal.{ok, ◌>>=◌, bytes32, read8u, double_bytes, double_little}
use ocamil.Marshal.Extern.{all_double_bytes}
use ocamil.Marshal.Intern.{
  Intern, Deserializers, intern_rec, intern_prefix, intern_code, read_string, read_double_array,
  read_block, readblock, read_doubles, decode_double,
}
use ocamil.Marshal.Leaves.{read32u-bytes32}

pub readblock-append : (bs rest : List ℕ) → readblock (length bs) (bs ++ rest) ≡ ok (bs, rest)
unfolding readblock
readblock-append [] rest = refl
readblock-append (b ∷ bs) rest = rw (readblock-append bs rest) refl

double_little-double_bytes : (d : ℕ) → d < 2 ^ 64 → double_little (double_bytes 8 d) ≡ d
unfolding double_little double_bytes
double_little-double_bytes d h = omega arith

abbrev pub AllBelow : ℕ → List ℕ → Type 0
AllBelow m [] = Unit
AllBelow m (x ∷ xs) = (x < m) × AllBelow m xs

length-double_bytes : (n d : ℕ) → length (double_bytes n d) ≡ n
unfolding double_bytes
length-double_bytes zero d = refl
length-double_bytes (suc n) d = ap suc (length-double_bytes n (d / 256))

pub length-all_double_bytes : (ds : List ℕ) → length (all_double_bytes ds) ≡ 8 * length ds
length-all_double_bytes [] = refl
length-all_double_bytes (d ∷ ds) = omega (
  arith,
  length-append (double_bytes 8 d) (all_double_bytes ds),
  length-double_bytes 8 d,
  length-all_double_bytes ds,
)

readblock-double_bytes :
    (d : ℕ) (rest : List ℕ) → readblock 8 (double_bytes 8 d ++ rest) ≡ ok (double_bytes 8 d, rest)
readblock-double_bytes d rest =
    ap (λ n. readblock n (double_bytes 8 d ++ rest)) (sym (length-double_bytes 8 d))
    ∙ readblock-append (double_bytes 8 d) rest

pub read_doubles-all_double_bytes :
    (ds rest : List ℕ)
    → AllBelow (2 ^ 64) ds
    → read_doubles true (length ds) (all_double_bytes ds ++ rest) ≡ ok (ds, rest)
unfolding read_doubles decode_double
read_doubles-all_double_bytes [] rest h = refl
read_doubles-all_double_bytes (d ∷ ds) rest (h, hs) =
    rw
      (
        append_assoc (double_bytes 8 d) (all_double_bytes ds) rest,
        readblock-double_bytes d (all_double_bytes ds ++ rest),
        read_doubles-all_double_bytes ds rest hs,
        double_little-double_bytes d h,
      )
      refl

-- What each code does, with its length or header read.
module _ (c : Deserializers) (g n : ℕ) (rest : List ℕ) (s : Intern) where
  pub string8_lem : intern_rec c (suc g) (9 ∷ n ∷ rest) s ≡ read_string n rest s
  unfolding intern_rec read8u intern_prefix intern_code
  string8_lem = refl

  pub string32_lem :
      n < 2 ^ 32 → intern_rec c (suc g) (10 ∷ (bytes32 n ++ rest)) s ≡ read_string n rest s
  unfolding intern_rec read8u intern_prefix intern_code
  string32_lem h = ap (λ r. r >>= λ p. read_string p.0 p.1 s) (read32u-bytes32 n rest h)

  pub doubles8_lem : intern_rec c (suc g) (14 ∷ n ∷ rest) s ≡ read_double_array 254 true n rest s
  unfolding intern_rec read8u intern_prefix intern_code
  doubles8_lem = refl

  pub doubles32_lem :
      n < 2 ^ 32
      → intern_rec c (suc g) (7 ∷ (bytes32 n ++ rest)) s ≡ read_double_array 254 true n rest s
  unfolding intern_rec read8u intern_prefix intern_code
  doubles32_lem h =
      ap (λ r. r >>= λ p. read_double_array 254 true p.0 p.1 s) (read32u-bytes32 n rest h)

  pub block32_lem :
      n < 2 ^ 32
      → intern_rec c (suc g) (8 ∷ (bytes32 n ++ rest)) s
        ≡ read_block (intern_rec c g) (n % 2 ^ 8) (n / 2 ^ 10) rest s
  unfolding intern_rec read8u intern_prefix intern_code
  block32_lem h =
      ap (λ r. r >>= λ p. read_block (intern_rec c g) (p.0 % 2 ^ 8) (p.0 / 2 ^ 10) p.1 s)
        (read32u-bytes32 n rest h)

module _ (c : Deserializers) (g : ℕ) (rest : List ℕ) (s : Intern) where
  pub double_lem : intern_rec c (suc g) (12 ∷ rest) s ≡ read_double_array 253 true 1 rest s
  unfolding intern_rec read8u intern_prefix intern_code
  double_lem = refl

  pub small_string_lem :
      (len : ℕ) → len < 32 → intern_rec c (suc g) ((32 + len) ∷ rest) s ≡ read_string len rest s
  unfolding intern_rec read8u intern_prefix
  small_string_lem len h =
      let e₁ : leb 128 (32 + len) ≡ false = ground arith in
      let e₂ : leb 64 (32 + len) ≡ false = ground arith in
      let e₃ : leb 32 (32 + len) ≡ true = ground arith in
      let e₄ : (32 + len) % 32 ≡ len = omega arith in rw (e₁, e₂, e₃, e₄) refl

  pub small_block_lem :
      (tag sz : ℕ)
      → tag < 16
      → sz < 8
      → intern_rec c (suc g) ((128 + tag + sz * 16) ∷ rest) s
        ≡ read_block (intern_rec c g) tag sz rest s
  unfolding intern_rec read8u intern_prefix
  small_block_lem tag sz h k =
      let e₁ : leb 128 (128 + tag + sz * 16) ≡ true = ground arith in
      let e₂ : (128 + tag + sz * 16) % 16 ≡ tag = omega arith in
      let e₃ : (128 + tag + sz * 16) / 16 % 8 ≡ sz = omega arith in rw (e₁, e₂, e₃) refl
