-- ===== src/Marshal/Buffer.antt =====
-- The buffer of byterun/extern.c: nothing is written behind its limit, whatever the value is.
use mathlib.Core.Path.{subst}
use ocamil.Prelude.{
  ℕ, zero, suc, ◌+◌, ◌*◌, ◌/◌, ◌%◌, ◌^◌, ◌≤◌, ◌<◌, ◌≡◌, refl, sym, ap, ◌∙◌, Option, none, some,
  List, [], ◌∷◌, ◌++◌, Bool, true, false, ◌&&◌, inl, inr, ltb, leb, if◌then◌else◌, length, take,
  arith, length-append, Bool-cases,
}
use ocamil.Prelude.Int.{ℤ}
use ocamil.Machine.Word.{wrap}
use ocamil.Machine.Value.{make_header}
use ocamil.Compare.{string_length}
use ocamil.Marshal.{
  MarshalError, buffer_overflow, Result, ok, raised, fault, out_of_fuel, ◌>>=◌, bytes32, bytes16,
}
use ocamil.Marshal.Extern.{
  Extern, double_until, resize_extern_block, writeblock, writecode8, writecode16, writecode32,
  is_small, within, extern_int, extern_shared, count_words, string_header, doubles_header,
  block_header, all_double_bytes, extern_string, extern_double, extern_doubles, extern_header,
  extern_atom,
}

-- What holds of the result, when there is one.
pub record Ensures {A : Type 0} (r : Result A) (P : A → Type 0) : Type 0 where
  pub holds : (a : A) → r ≡ ok a → P a

module _ {A : Type 0} {P : A → Type 0} where
  pub ok-Ensures : (a : A) → P a → Ensures (ok a) P
  ok-Ensures a p = record { holds = λ b e. subst P (let same : a ≡ b = ground arith in same) p }

  pub raised-Ensures : (x : MarshalError) → Ensures (raised x) P
  raised-Ensures x = record { holds = λ b e. absurd (ground arith) }

  pub bind-Ensures :
      {B : Type 0} {Q : B → Type 0} (r : Result A) (f : A → Result B)
      → Ensures r P
      → ((a : A) → P a → Ensures (f a) Q)
      → Ensures (r >>= f) Q
  bind-Ensures (ok a) f p k = k a (p.holds a refl)
  bind-Ensures (raised x) f p k = record { holds = λ b e. absurd (ground arith) }
  bind-Ensures fault f p k = record { holds = λ b e. absurd (ground arith) }
  bind-Ensures out_of_fuel f p k = record { holds = λ b e. absurd (ground arith) }

  pub if-Ensures :
      (b : Bool) (x y : Result A) → Ensures x P → Ensures y P → Ensures (if b then x else y) P
  if-Ensures true x y p q = p
  if-Ensures false x y p q = q

pub and-Ensures :
    {A : Type 0} {P Q : A → Type 0} (r : Result A)
    → Ensures r P
    → Ensures r Q
    → Ensures r (λ a. P a × Q a)
and-Ensures r p q = record { holds = λ a e. (p.holds a e, q.holds a e) }

pub option-Ensures :
    {A B : Type 0} {P : B → Type 0} (o : Option A) (x : Result B) (f : A → Result B)
    → Ensures x P
    → ((a : A) → Ensures (f a) P)
    → Ensures (elim o [ none ↦ x | some a ↦ f a ]) P
option-Ensures none x f p k = p
option-Ensures (some a) x f p k = k a

pub fuel-Ensures : {A : Type 0} {P : A → Type 0} → Ensures {A = A} out_of_fuel P
fuel-Ensures = record { holds = λ b e. absurd (ground arith) }

fault-Ensures : {A : Type 0} {P : A → Type 0} → Ensures {A = A} fault P
fault-Ensures = record { holds = λ b e. absurd (ground arith) }

pub any-Ensures : {A : Type 0} (r : Result A) → Ensures r (λ a. Unit {0})
any-Ensures r = record { holds = λ a e. tt }

pub double_until-Ensures :
    (f size reqd : ℕ) → Ensures (double_until f size reqd) (λ grown. reqd < grown)
unfolding double_until
double_until-Ensures zero size reqd = fuel-Ensures
double_until-Ensures (suc f) size reqd = elim (Bool-cases (leb size reqd)) [
  | inl l ↦ rw l (
      if-Ensures (ltb size (2 ^ 30)) (double_until f (2 * size) reqd) fault
        (double_until-Ensures f (2 * size) reqd) fault-Ensures)
  | inr l ↦ rw l (ok-Ensures size (ground arith))
]

-- The buffer, which keeps its size when it is the caller's, and has bytes from the start.
pub record Legal {T : Type 0} (malloced : Bool) (len from : ℕ) (e : Extern T) : Type 0 where
  pub malloced_kept : e.block_malloced ≡ malloced
  pub size_kept : malloced ≡ false → e.size ≡ len
  pub positive : malloced ≡ true → 0 < e.size
  pub long_enough : from ≤ length e.written

pub record Fits {T : Type 0} (malloced : Bool) (len from : ℕ) (e : Extern T) : Type 0 where
  pub legal : Legal malloced len from e
  pub in_buffer : length e.written ≤ e.size

module _ {T : Type 0} (m : Bool) (len from : ℕ) where
  pub resize-Legal :
      (required : ℕ) (e : Extern T)
      → Legal m len from e
      → Ensures (resize_extern_block required e) (λ e'.
        Legal m len from e' × (e'.written ≡ e.written) × (length e.written + required ≤ e'.size))
  unfolding resize_extern_block
  resize-Legal required e l = elim (Bool-cases e.block_malloced) [
    | inr h ↦ rw h (raised-Ensures buffer_overflow)
    | inl h ↦
        let reqd = length e.written + required in
        rw h (
          bind-Ensures (double_until (suc reqd) e.size reqd) _
            (double_until-Ensures (suc reqd) e.size reqd)
            (λ size grown.
              ok-Ensures (record e { size = size; block_malloced = true })
                (
                  record {
                    malloced_kept = sym h ∙ l.malloced_kept;
                    size_kept = λ n.
                        absurd
                          (let ne : true ≡ false = sym h ∙ (l.malloced_kept ∙ n) in ground arith);
                    positive = λ _. omega (arith, grown);
                    long_enough = l.long_enough;
                  },
                  refl,
                  omega (arith, grown),
                )))
  ]

  pub room-Legal :
      (bs : List ℕ) (e : Extern T)
      → Legal m len from e
      → Ensures
          (if ltb e.size (length e.written + length bs)
            then resize_extern_block (length bs) e
            else ok e)
          (λ e'.
            Legal m len from e'
            × (e'.written ≡ e.written)
            × (length e.written + length bs ≤ e'.size))
  room-Legal bs e l = elim (Bool-cases (ltb e.size (length e.written + length bs))) [
    | inl h ↦ rw h (resize-Legal (length bs) e l)
    | inr h ↦ rw h (ok-Ensures e (l, refl, ground arith))
  ]

  pub write-Fits :
      (bs : List ℕ) (e : Extern T)
      → Legal m len from e
      → length e.written + length bs ≤ e.size
      → Fits m len from (record e { written = e.written ++ bs })
  write-Fits bs e l room = record {
    legal = record {
      malloced_kept = l.malloced_kept;
      size_kept = l.size_kept;
      positive = l.positive;
      long_enough = omega (arith, l.long_enough, length-append e.written bs);
    };
    in_buffer = omega (arith, length-append e.written bs);
  }

  pub writeblock-Fits :
      (bs : List ℕ) (e : Extern T)
      → Legal m len from e
      → Ensures (writeblock bs e) (Fits m len from)
  unfolding writeblock
  writeblock-Fits bs e l =
      bind-Ensures
        (if ltb e.size (length e.written + length bs)
          then resize_extern_block (length bs) e
          else ok e)
        (λ e'. ok (record e' { written = e'.written ++ bs })) (room-Legal bs e l)
        (λ e' (l', w, r).
          ok-Ensures (record e' { written = e'.written ++ bs })
            (write-Fits bs e' l' (omega (arith, ap length w))))

  -- Each write appends its bytes.
  pub written-Ensures :
      (bs : List ℕ) (e : Extern T)
      → Legal m len from e
      → Ensures (writeblock bs e) (λ e'. e'.written ≡ e.written ++ bs)
  unfolding writeblock
  written-Ensures bs e l =
      bind-Ensures
        (if ltb e.size (length e.written + length bs)
          then resize_extern_block (length bs) e
          else ok e)
        (λ e'. ok (record e' { written = e'.written ++ bs })) (room-Legal bs e l)
        (λ e' (l', w, r).
          ok-Ensures (record e' { written = e'.written ++ bs }) (ap (λ x. x ++ bs) w))

  pub count_words-Fits :
      (a b : ℕ) (e : Extern T) → Fits m len from e → Fits m len from (count_words a b e)
  unfolding count_words
  count_words-Fits a b e p = record {
    legal = record {
      malloced_kept = p.legal.malloced_kept;
      size_kept = p.legal.size_kept;
      positive = p.legal.positive;
      long_enough = p.legal.long_enough;
    };
    in_buffer = p.in_buffer;
  }

  -- Two writes, the second behind the first, and the count of the words.
  pub two_writes-Fits :
      (r : Result (Extern T)) (bs : List ℕ) (a b : ℕ)
      → Ensures r (Fits m len from)
      → Ensures (do e' ← r; e'' ← writeblock bs e'; ok (count_words a b e'')) (Fits m len from)
  two_writes-Fits r bs a b p =
      bind-Ensures r (λ e'. writeblock bs e' >>= λ e''. ok (count_words a b e'')) p
        (λ e' p'.
          bind-Ensures (writeblock bs e') (λ e''. ok (count_words a b e''))
            (writeblock-Fits bs e' p'.legal)
            (λ e'' p''. ok-Ensures (count_words a b e'') (count_words-Fits a b e'' p'')))

  module _ (e : Extern T) (l : Legal m len from e) where
    pub writecode8-Fits : (byte n : ℕ) → Ensures (writecode8 byte n e) (Fits m len from)
    unfolding writecode8
    writecode8-Fits byte n = writeblock-Fits (byte ∷ (n % 256) ∷ []) e l

    pub writecode16-Fits : (byte n : ℕ) → Ensures (writecode16 byte n e) (Fits m len from)
    unfolding writecode16
    writecode16-Fits byte n = writeblock-Fits (byte ∷ bytes16 n) e l

    pub writecode32-Fits : (byte n : ℕ) → Ensures (writecode32 byte n e) (Fits m len from)
    unfolding writecode32
    writecode32-Fits byte n = writeblock-Fits (byte ∷ bytes32 n) e l

    pub extern_int-Fits : (n : ℤ) → Ensures (extern_int n e) (Fits m len from)
    unfolding extern_int
    extern_int-Fits n =
        if-Ensures (is_small n) (writeblock ((64 + wrap n) ∷ []) e) _
          (writeblock-Fits ((64 + wrap n) ∷ []) e l)
          (if-Ensures (within 7 n) (writecode8 0 (wrap n) e) _ (writecode8-Fits 0 (wrap n)) (
            if-Ensures (within 15 n) (writecode16 1 (wrap n) e) (writecode32 2 (wrap n) e)
              (writecode16-Fits 1 (wrap n)) (writecode32-Fits 2 (wrap n))))

    pub extern_shared-Fits : (d : ℕ) → Ensures (extern_shared d e) (Fits m len from)
    unfolding extern_shared
    extern_shared-Fits d = if-Ensures (ltb d 256) (writecode8 4 d e) _ (writecode8-Fits 4 d) (
        if-Ensures (ltb d (2 ^ 16)) (writecode16 5 d e) (writecode32 6 d e) (writecode16-Fits 5 d)
          (writecode32-Fits 6 d))

    pub extern_string-Fits : (bs : List ℕ) → Ensures (extern_string bs e) (Fits m len from)
    unfolding extern_string string_header
    extern_string-Fits bs =
        let n = string_length bs in
        two_writes-Fits (string_header n e) (take n bs) (1 + (n + 4) / 4) (1 + (n + 8) / 8) (
          if-Ensures (ltb n 32) (writeblock ((32 + n) ∷ []) e) _
            (writeblock-Fits ((32 + n) ∷ []) e l)
            (if-Ensures (ltb n 256) (writecode8 9 n e) (writecode32 10 n e) (writecode8-Fits 9 n)
              (writecode32-Fits 10 n)))

    pub extern_double-Fits : (ds : List ℕ) → Ensures (extern_double ds e) (Fits m len from)
    unfolding extern_double
    extern_double-Fits ds =
        two_writes-Fits (writeblock (12 ∷ []) e) (all_double_bytes (take 1 ds)) 3 2
          (writeblock-Fits (12 ∷ []) e l)

    pub extern_doubles-Fits : (ds : List ℕ) → Ensures (extern_doubles ds e) (Fits m len from)
    unfolding extern_doubles doubles_header
    extern_doubles-Fits ds =
        let n = length ds in
        two_writes-Fits (doubles_header n e) (all_double_bytes ds) (1 + n * 2) (1 + n) (
          if-Ensures (ltb n 256) (writecode8 14 n e) (writecode32 7 n e) (writecode8-Fits 14 n)
            (writecode32-Fits 7 n))

    pub extern_atom-Fits : (tag : ℕ) → Ensures (extern_atom tag e) (Fits m len from)
    unfolding extern_atom
    extern_atom-Fits tag =
        if-Ensures (ltb tag 16) (writeblock ((128 + tag) ∷ []) e)
          (writecode32 8 (make_header 0 tag) e) (writeblock-Fits ((128 + tag) ∷ []) e l)
          (writecode32-Fits 8 (make_header 0 tag))

    pub extern_header-Fits : (tag sz : ℕ) → Ensures (extern_header tag sz e) (Fits m len from)
    unfolding extern_header block_header
    extern_header-Fits tag sz =
        bind-Ensures (block_header tag sz e) (λ e'. ok (count_words (1 + sz) (1 + sz) e'))
          (if-Ensures (ltb tag 16 && ltb sz 8) (writeblock ((128 + tag + sz * 16) ∷ []) e)
            (writecode32 8 (make_header sz tag) e)
            (writeblock-Fits ((128 + tag + sz * 16) ∷ []) e l)
            (writecode32-Fits 8 (make_header sz tag)))
          (λ e' p.
            ok-Ensures (count_words (1 + sz) (1 + sz) e') (count_words-Fits (1 + sz) (1 + sz) e' p))
