-- ===== src/Marshal/Contents.antt =====
-- Strings, doubles and the headers of blocks, in byterun/extern.c and byterun/intern.c.
use mathlib.Core.List.{append_assoc}
use ocamil.Prelude.{
  ℕ, suc, ◌+◌, ◌*◌, ◌/◌, ◌%◌, ◌^◌, ◌≤◌, ◌<◌, ◌≡◌, inl, inr, refl, sym, ◌∙◌, List, [], ◌∷◌, ◌++◌,
  true, ◌&&◌, ltb, length, length-append, take, arith, Bool-cases,
}
use ocamil.Machine.Value.{atom, make_header, Block, bytes, doubles, double_tag, double_array_tag}
use ocamil.Compare.{string_length}
use ocamil.Marshal.{Result, ok}
use ocamil.Marshal.Room.{Malloced, Gives, with_bytes, writeblock_lem, two_writes}
use ocamil.Marshal.Extern.{
  Extern, all_double_bytes, extern_atom, extern_string, extern_double, extern_doubles, count_words,
  string_header, doubles_header, block_header,
}
use ocamil.Marshal.Intern.{
  Intern, Deserializers, whole, intern_rec, read_string, read_double_array, read_block, place,
  string_block,
}
use ocamil.Marshal.Codes.{prefix8, prefix32}
use ocamil.Marshal.Leaves.{Prefix, immediate}
use ocamil.Marshal.Prefixes.{
  AllBelow, readblock-append, length-all_double_bytes, read_doubles-all_double_bytes, string8_lem,
  string32_lem, doubles8_lem, doubles32_lem, block32_lem, double_lem, small_string_lem,
  small_block_lem,
}

-- A block without values: what was written, with its count of words, and where it is read to.
pub record Content (T : Type 0) (c : Deserializers) (run : Result (Extern T)) (e : Extern T)
    (block : Block) (words limit : ℕ) : Type 0 where
  pub bs : List ℕ
  pub size : ℕ
  pub words_64 : ℕ
  pub short : length bs + suc words ≤ limit
  pub positive : 0 < size
  pub emitted :
      Gives
        (length e.written + length bs)
        run
        (count_words (1 + words) words_64 (with_bytes e bs size))
  pub read_back :
      (g : ℕ) (rest : List ℕ) (s : Intern)
      → intern_rec c (suc g) (bs ++ rest) s
        ≡ ok ((place (whole block) words s).0, rest, (place (whole block) words s).1)

read_text :
    (cs rest : List ℕ) (s : Intern)
    → read_string (length cs) (cs ++ rest) s
      ≡ ok (
        (place (whole (bytes (string_block cs))) ((length cs + 4) / 4) s).0,
        rest,
        (place (whole (bytes (string_block cs))) ((length cs + 4) / 4) s).1,
      )
unfolding read_string
read_text cs rest s = rw (readblock-append cs rest) refl

read_array :
    (tag : ℕ) (ds rest : List ℕ) (s : Intern)
    → AllBelow (2 ^ 64) ds
    → read_double_array tag true (length ds) (all_double_bytes ds ++ rest) s
      ≡ ok (
        (place (whole (doubles tag ds)) (2 * length ds) s).0,
        rest,
        (place (whole (doubles tag ds)) (2 * length ds) s).1,
      )
unfolding read_double_array
read_array tag ds rest s h = rw (read_doubles-all_double_bytes ds rest h) refl

module _ {T : Type 0} (c : Deserializers) (e : Extern T) (m : Malloced e) where
  string_prefix :
      (len : ℕ)
      → len < 2 ^ 32
      → Prefix T c (string_header len e) e (λ g rest s. read_string len rest s)
  unfolding string_header
  string_prefix len h = elim (Bool-cases (ltb len 32)) [
    | inl k ↦
        let (size, above, w) = writeblock_lem ((32 + len) ∷ []) e m in
        rw k (record {
          bs = (32 + len) ∷ [];
          size = size;
          positive = above;
          short = omega arith;
          emitted = w;
          read_back = λ g rest s. small_string_lem c g rest s len (ground arith);
        })
    | inr k ↦ elim (Bool-cases (ltb len 256)) [
      | inl l ↦
          rw (k, l)
            (prefix8 c e m 9 len (λ g rest s. read_string len rest s) (ground arith)
              (λ g rest s. string8_lem c g len rest s))
      | inr l ↦
          rw (k, l)
            (prefix32 c e m 10 len (λ g rest s. read_string len rest s)
              (λ g rest s. string32_lem c g len rest s h))
    ]
  ]

  doubles_prefix :
      (n : ℕ)
      → n < 2 ^ 32
      → Prefix T c
          (doubles_header n e)
          e
          (λ g rest s. read_double_array double_array_tag true n rest s)
  unfolding doubles_header
  doubles_prefix n h = elim (Bool-cases (ltb n 256)) [
    | inl l ↦ rw l (
        prefix8 c e m 14 n (λ g rest s. read_double_array double_array_tag true n rest s)
          (ground arith) (λ g rest s. doubles8_lem c g n rest s))
    | inr l ↦ rw l (
        prefix32 c e m 7 n (λ g rest s. read_double_array double_array_tag true n rest s)
          (λ g rest s. doubles32_lem c g n rest s h))
  ]

  -- The header of a block with fields.
  pub header_prefix :
      (tag sz : ℕ)
      → tag < 256
      → sz < 2 ^ 22
      → Prefix T c (block_header tag sz e) e (λ g rest s. read_block (intern_rec c g) tag sz rest s)
  unfolding block_header
  header_prefix tag sz h k = elim (Bool-cases (ltb tag 16 && ltb sz 8)) [
    | inl l ↦
        let (size, above, w) = writeblock_lem ((128 + tag + sz * 16) ∷ []) e m in
        rw l (record {
          bs = (128 + tag + sz * 16) ∷ [];
          size = size;
          positive = above;
          short = omega arith;
          emitted = w;
          read_back = λ g rest s. small_block_lem c g rest s tag sz (ground arith) (ground arith);
        })
    | inr l ↦
        let t : make_header sz tag % 2 ^ 8 ≡ tag = omega arith in
        let z : make_header sz tag / 2 ^ 10 ≡ sz = omega arith in
        rw l (
          prefix32 c e m 8 (make_header sz tag)
            (λ g rest s. read_block (intern_rec c g) tag sz rest s)
            (λ g rest s.
              block32_lem c g (make_header sz tag) rest s (omega arith) ∙ rw (t, z) refl))
  ]

  pub text-Content :
      (bs cs : List ℕ)
      → string_length bs ≡ length cs
      → take (length cs) bs ≡ cs
      → length cs < 2 ^ 32
      → Content T c
          (extern_string bs e)
          e
          (bytes (string_block cs))
          ((length cs + 4) / 4)
          (8 + 2 * length cs)
  unfolding extern_string
  text-Content bs cs l t h =
      let p = string_prefix (length cs) h in
      let (size, above, w) = writeblock_lem cs (with_bytes e p.bs p.size) (m.0, p.positive) in
      record {
        bs = p.bs ++ cs;
        size = size;
        positive = above;
        words_64 = 1 + (length cs + 8) / 8;
        short = omega (arith, p.short, length-append p.bs cs);
        emitted =
            rw (l, t)
              (two_writes e p.bs cs
                (count_words (1 + (length cs + 4) / 4) (1 + (length cs + 8) / 8)) p.emitted w);
        read_back = λ g rest s.
            rw (append_assoc p.bs cs rest) (p.read_back g (cs ++ rest) s ∙ read_text cs rest s);
      }

  pub double-Content :
      (d : ℕ)
      → d < 2 ^ 64
      → Content T c (extern_double (d ∷ []) e) e (doubles double_tag (d ∷ [])) 2 12
  unfolding extern_double
  double-Content d h =
      let (size₀, above₀, w₀) = writeblock_lem (12 ∷ []) e m in
      let bs = all_double_bytes (d ∷ []) in
      let (size, above, w) = writeblock_lem bs (with_bytes e (12 ∷ []) size₀) (m.0, above₀) in
      record {
        bs = 12 ∷ bs;
        size = size;
        positive = above;
        words_64 = 2;
        short = omega (arith, length-all_double_bytes (d ∷ []));
        emitted = two_writes e (12 ∷ []) bs (count_words 3 2) w₀ w;
        read_back = λ g rest s.
            double_lem c g (bs ++ rest) s ∙ read_array double_tag (d ∷ []) rest s (h, tt);
      }

  pub doubles-Content :
      (ds : List ℕ)
      → AllBelow (2 ^ 64) ds
      → length ds < 2 ^ 32
      → Content T c
          (extern_doubles ds e)
          e
          (doubles double_array_tag ds)
          (2 * length ds)
          (6 + 10 * length ds)
  unfolding extern_doubles
  doubles-Content ds h k =
      let p = doubles_prefix (length ds) k in
      let bs = all_double_bytes ds in
      let (size, above, w) = writeblock_lem bs (with_bytes e p.bs p.size) (m.0, p.positive) in
      let twice : 1 + length ds * 2 ≡ 1 + 2 * length ds = omega arith in
      record {
        bs = p.bs ++ bs;
        size = size;
        positive = above;
        words_64 = 1 + length ds;
        short = omega (arith, p.short, length-append p.bs bs, length-all_double_bytes ds);
        emitted =
            rw (sym twice)
              (two_writes e p.bs bs (count_words (1 + length ds * 2) (1 + length ds)) p.emitted w);
        read_back = λ g rest s.
            rw (append_assoc p.bs bs rest)
              (p.read_back g (bs ++ rest) s ∙ read_array double_array_tag ds rest s h);
      }

  -- An atom is a value of its own.
  pub atom_prefix : (tag : ℕ) → tag < 256 → Prefix T c (extern_atom tag e) e (immediate (atom tag))
  unfolding extern_atom read_block
  atom_prefix tag h = elim (Bool-cases (ltb tag 16)) [
    | inl l ↦
        let (size, above, w) = writeblock_lem ((128 + tag) ∷ []) e m in
        let same : 128 + tag ≡ 128 + tag + 0 * 16 = omega arith in
        rw l (record {
          bs = (128 + tag) ∷ [];
          size = size;
          positive = above;
          short = omega arith;
          emitted = w;
          read_back =
              λ g rest s. rw same (small_block_lem c g rest s tag 0 (ground arith) (omega arith));
        })
    | inr l ↦
        let t : make_header 0 tag % 2 ^ 8 ≡ tag = omega arith in
        let z : make_header 0 tag / 2 ^ 10 ≡ 0 = omega arith in
        rw l (
          prefix32 c e m 8 (make_header 0 tag) (immediate (atom tag))
            (λ g rest s. block32_lem c g (make_header 0 tag) rest s (omega arith) ∙ rw (t, z) refl))
  ]
