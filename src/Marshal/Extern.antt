-- ===== src/Marshal/Extern.antt =====
-- Writing a value, byterun/extern.c. The block that is written to is the list of its bytes and its
-- size; resizing it keeps its contents. Custom operations and the checksum of the code are
-- parameters.
use ocamil.Prelude.{
  ℕ, zero, suc, ◌+◌, ◌-◌, ◌*◌, ◌/◌, ◌%◌, ◌^◌, Option, none, some, List, [], ◌∷◌, ◌++◌, Bool, false,
  ◌&&◌, ◌||◌, ltb, leb, ◌==◌, if◌then◌else◌, length, take, drop, replicate,
}
use ocamil.Prelude.Int.{ℤ, pos, negsuc}
use ocamil.Machine.Word.{wrap, long_val}
use ocamil.Machine.Value.{
  Value, word, ptr, atom, code, trap, Heap, field, header, make_header, infix_tag, string_tag,
  double_tag, double_array_tag,
}
use ocamil.Compare.{
  string_length, bytes_at, doubles_at, object_tag, forward_tag, abstract_tag, custom_tag,
}
use ocamil.Marshal.{
  magic_number, prefix_small_block, prefix_small_int, prefix_small_string, code_int8, code_int16,
  code_int32, code_shared8, code_shared16, code_shared32, code_block32, code_string8, code_string32,
  code_double_little, code_double_array8_little, code_double_array32_little, code_codepointer,
  code_infixpointer, code_custom, functional_value, abstract_value, object_value, abstract_custom,
  buffer_overflow, Result, ok, raised, fault, out_of_fuel, ◌>>=◌, of_option, bytes16, bytes32,
  double_bytes,
}
use ocamil.Marshal.Seen.{SeenTable}

-- `Custom_ops_val`: the identifier, and what `serialize` writes, with its two sizes.
pub record Serializers : Type 0 where
  pub identifier : Value → List ℕ
  pub serialize : Value → Option (Heap → Value → List ℕ × ℕ × ℕ)

-- The flags of the call, and the checksum.
pub record Flags : Type 0 where
  pub ignore_sharing : Bool
  pub closures : Bool
  pub code_checksum : List ℕ

-- `v - Infix_offset_hd(hd)`, in words.
abbrev pub closure_of : Value → ℕ → Option Value
closure_of (ptr b o) sz = if leb sz o then some (ptr b (o - sz)) else none
closure_of _ sz = none

-- `size *= 2` until it is above the size that is asked for, on a signed `long` of 32 bits. From 0 the
-- loop does not end.
unfoldable pub double_until : ℕ → (size reqd_size : ℕ) → Result ℕ
double_until zero size reqd_size = out_of_fuel
double_until (suc f) size reqd_size =
    let more = double_until f (2 * size) reqd_size in
    if leb size reqd_size then (if ltb size (2 ^ 30) then more else fault) else ok size

-- `-(1 << k) <= n && n < (1 << k)`
abbrev pub within : ℕ → ℤ → Bool
within k (pos n) = ltb n (2 ^ k)
within k (negsuc n) = ltb n (2 ^ k)

abbrev pub is_small : ℤ → Bool
is_small (pos n) = ltb n 64
is_small (negsuc n) = false

abbrev pub all_double_bytes : List ℕ → List ℕ
all_double_bytes [] = []
all_double_bytes (d ∷ ds) = double_bytes 8 d ++ all_double_bytes ds

module _ (T : Type 0) where
  pub record Extern : Type 0 where
    pub written : List ℕ
    pub size : ℕ
    pub block_malloced : Bool
    pub table : T
    pub obj_counter : ℕ
    pub size_32 : ℕ
    pub size_64 : ℕ

module _ {T : Type 0} where
  unfoldable pub resize_extern_block : (required : ℕ) → Extern T → Result (Extern T)
  resize_extern_block required e =
      let reqd_size = length e.written + required in
      if e.block_malloced
      then (do size ← double_until (suc reqd_size) e.size reqd_size; ok (record e { size = size }))
      else raised buffer_overflow

  -- `Write`, `writeblock`, and the common part of `writecode8` to `writecode32`.
  unfoldable pub writeblock : List ℕ → Extern T → Result (Extern T)
  writeblock bs e = do
    e' ←
        if ltb e.size (length e.written + length bs)
        then resize_extern_block (length bs) e
        else ok e
    ok (record e' { written = e'.written ++ bs })

  unfoldable pub writecode8 : (byte val : ℕ) → Extern T → Result (Extern T)
  writecode8 byte val e = writeblock (byte ∷ (val % 256) ∷ []) e

  unfoldable pub writecode16 : (byte val : ℕ) → Extern T → Result (Extern T)
  writecode16 byte val e = writeblock (byte ∷ bytes16 val) e

  unfoldable pub writecode32 : (byte val : ℕ) → Extern T → Result (Extern T)
  writecode32 byte val e = writeblock (byte ∷ bytes32 val) e

  unfoldable pub extern_int : ℤ → Extern T → Result (Extern T)
  extern_int n e =
      if is_small n
      then writeblock ((prefix_small_int + wrap n) ∷ []) e
      else if within 7 n
      then writecode8 code_int8 (wrap n) e
      else if within 15 n
      then writecode16 code_int16 (wrap n) e
      else writecode32 code_int32 (wrap n) e

  unfoldable pub extern_shared : (d : ℕ) → Extern T → Result (Extern T)
  extern_shared d e =
      if ltb d 256
      then writecode8 code_shared8 d e
      else if ltb d (2 ^ 16)
      then writecode16 code_shared16 d e
      else writecode32 code_shared32 d e

  unfoldable pub count_words : (words_32 words_64 : ℕ) → Extern T → Extern T
  count_words m n e = record e { size_32 = e.size_32 + m; size_64 = e.size_64 + n }

  unfoldable pub string_header : (len : ℕ) → Extern T → Result (Extern T)
  string_header len e =
      if ltb len 32
      then writeblock ((prefix_small_string + len) ∷ []) e
      else if ltb len 256
      then writecode8 code_string8 len e
      else writecode32 code_string32 len e

  unfoldable pub doubles_header : (nfloats : ℕ) → Extern T → Result (Extern T)
  doubles_header nfloats e =
      if ltb nfloats 256
      then writecode8 code_double_array8_little nfloats e
      else writecode32 code_double_array32_little nfloats e

  -- The header of a block that is written field by field.
  unfoldable pub block_header : (tag sz : ℕ) → Extern T → Result (Extern T)
  block_header tag sz e =
      if ltb tag 16 && ltb sz 8
      then writeblock ((prefix_small_block + tag + sz * 16) ∷ []) e
      else writecode32 code_block32 (make_header sz tag) e

  unfoldable pub extern_string : List ℕ → Extern T → Result (Extern T)
  extern_string bytes e = do
    let len = string_length bytes
    e' ← string_header len e
    e'' ← writeblock (take len bytes) e'
    ok (count_words (1 + (len + 4) / 4) (1 + (len + 8) / 8) e'')

  unfoldable pub extern_double : List ℕ → Extern T → Result (Extern T)
  extern_double ds e = do
    e' ← writeblock (code_double_little ∷ []) e
    e'' ← writeblock (all_double_bytes (take 1 ds)) e'
    ok (count_words 3 2 e'')

  unfoldable pub extern_doubles : List ℕ → Extern T → Result (Extern T)
  extern_doubles ds e = do
    let nfloats = length ds
    e' ← doubles_header nfloats e
    e'' ← writeblock (all_double_bytes ds) e'
    ok (count_words (1 + nfloats * 2) (1 + nfloats) e'')

  unfoldable pub extern_header : (tag sz : ℕ) → Extern T → Result (Extern T)
  extern_header tag sz e = do e' ← block_header tag sz e; ok (count_words (1 + sz) (1 + sz) e')

  unfoldable pub extern_atom : (tag : ℕ) → Extern T → Result (Extern T)
  extern_atom tag e =
      if ltb tag 16
      then writeblock ((prefix_small_block + tag) ∷ []) e
      else writecode32 code_block32 (make_header 0 tag) e

module _ (S : SeenTable) (c : Serializers) (flags : Flags) (h : Heap) where
  -- The address of code `n`, whose words have 4 bytes, from the start of the code area.
  unfoldable pub extern_code : ℕ → Extern S.Table → Result (Extern S.Table)
  extern_code n e =
      if flags.closures
      then (do e' ← writecode32 code_codepointer (4 * n) e; writeblock flags.code_checksum e')
      else raised functional_value

  -- The number of an object that was written before; a new one is recorded.
  unfoldable pub check_seen :
      Value → (tag : ℕ) → Extern S.Table → Result (Option ℕ × Extern S.Table)
  check_seen v tag e =
      if flags.ignore_sharing || (tag == infix_tag)
      then ok (none, e)
      else elim (S.find_or_record e.table v e.obj_counter) [
        | none ↦ out_of_fuel
        | some (some n, t) ↦ ok (some n, record e { table = t })
        | some (none, t) ↦ ok (none, record e { table = t; obj_counter = suc e.obj_counter })
      ]

  unfoldable pub extern_custom : Value → Extern S.Table → Result (Extern S.Table)
  extern_custom v e = do
    ops ← of_option (field h v 0)
    elim (c.serialize ops) [
      | none ↦ raised abstract_custom
      | some serialize ↦ do
        e' ← writeblock (code_custom ∷ []) e
        e'' ← writeblock (c.identifier ops ++ (0 ∷ [])) e'
        let (bs, sz_32, sz_64) = serialize h v
        e''' ← writeblock bs e''
        ok (count_words (2 + (sz_32 + 3) / 4) (2 + (sz_64 + 7) / 8) e''')
    ]

  -- The fields from index `i` on, each by the function that is passed.
  unfoldable pub extern_fields :
      (Value → Extern S.Table → Result (Extern S.Table))
      → Value
      → (i n : ℕ) → Extern S.Table
      → Result (Extern S.Table)
  extern_fields rec v i zero e = ok e
  extern_fields rec v i (suc n) e = do
    x ← of_option (field h v i)
    e' ← rec x e
    extern_fields rec v (suc i) n e'

  -- The switch on the tag of an object that is written for the first time.
  unfoldable pub extern_contents :
      (Value → Extern S.Table → Result (Extern S.Table))
      → Value
      → (tag sz : ℕ) → Extern S.Table
      → Result (Extern S.Table)
  extern_contents rec v tag sz e =
      if tag == string_tag
      then (do bs ← of_option (bytes_at h v); extern_string bs e)
      else if tag == double_tag
      then (do ds ← of_option (doubles_at h v); extern_double ds e)
      else if tag == double_array_tag
      then (do ds ← of_option (doubles_at h v); extern_doubles ds e)
      else if tag == abstract_tag
      then raised abstract_value
      else if tag == infix_tag
      then (do
        e' ← writecode32 code_infixpointer (4 * sz) e
        closure ← of_option (closure_of v sz)
        rec closure e')
      else if tag == object_tag
      then raised object_value
      else if tag == custom_tag
      then extern_custom v e
      else (do e' ← extern_header tag sz e; extern_fields rec v 0 sz e')

  unfoldable pub extern_block :
      (Value → Extern S.Table → Result (Extern S.Table))
      → Value
      → (tag sz : ℕ) → Extern S.Table
      → Result (Extern S.Table)
  extern_block rec v tag sz e =
      if tag == forward_tag
      then (do w ← of_option (field h v 0); rec w e)
      else if sz == 0
      then extern_atom tag e
      else (do
        (seen, e') ← check_seen v tag e
        elim seen [
          | some n ↦ extern_shared (e'.obj_counter - n) e'
          | none ↦ extern_contents rec v tag sz e'
        ])

  -- On fuel: cyclic values that are written without sharing do not end.
  unfoldable pub extern_rec : ℕ → Value → Extern S.Table → Result (Extern S.Table)
  extern_rec zero v e = out_of_fuel
  extern_rec (suc f) (word w) e = extern_int (long_val w) e
  extern_rec (suc f) (code n) e = extern_code n e
  extern_rec (suc f) (trap n) e = raised abstract_value
  extern_rec (suc f) (ptr b o) e = do
    hd ← of_option (header h (ptr b o))
    extern_block (extern_rec f) (ptr b o) (hd % 2 ^ 8) (hd / 2 ^ 10) e
  extern_rec (suc f) (atom t) e = do
    hd ← of_option (header h (atom t))
    extern_block (extern_rec f) (atom t) (hd % 2 ^ 8) (hd / 2 ^ 10) e

  -- `extern_value`, before the sizes are put in: the magic number and room for four words come
  -- first.
  unfoldable pub extern_value : ℕ → Value → (size : ℕ) → (malloced : Bool) → Result (Extern S.Table)
  extern_value f v size malloced = do
    e ← writeblock (bytes32 magic_number) (record {
      written = [];
      size = size;
      block_malloced = malloced;
      table = S.empty_table;
      obj_counter = 0;
      size_32 = 0;
      size_64 = 0;
    })
    extern_rec f v (record e { written = e.written ++ replicate 16 0 })

-- `write32` of the four sizes at the place that was kept for them.
unfoldable pub put_sizes : {T : Type 0} → Extern T → List ℕ
put_sizes e =
    take 4 e.written
    ++ (bytes32 (length e.written - 20)
        ++ (bytes32 e.obj_counter
            ++ (bytes32 e.size_32 ++ (bytes32 e.size_64 ++ drop 20 e.written))))
