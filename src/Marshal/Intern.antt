-- ===== src/Marshal/Intern.antt =====
-- Reading a value, byterun/intern.c. The blocks of the destination are numbered from 0 in the order
-- of their headers; a block whose fields are still read holds those that were. Custom operations
-- and the checksum of the code are parameters.
use ocamil.Prelude.{
  ℕ, zero, suc, ◌+◌, ◌-◌, ◌*◌, ◌/◌, ◌%◌, ◌^◌, Option, none, some, List, [], ◌∷◌, ◌++◌, Bool, true,
  false, ◌&&◌, ◌||◌, ltb, leb, ◌==◌, if◌then◌else◌, length, get_elem?, set, replicate,
}
use ocamil.Prelude.Int.{ℤ, pos}
use ocamil.Machine.Word.{val_long}
use ocamil.Machine.Value.{
  Value, word, ptr, atom, code, Block, fields, bytes, doubles, double_tag, double_array_tag,
}
use ocamil.Compare.{custom_tag}
use ocamil.Marshal.{
  prefix_small_block, prefix_small_int, prefix_small_string, code_int8, code_int16, code_int32,
  code_int64, code_shared8, code_shared16, code_shared32, code_block32, code_string8, code_string32,
  code_double_big, code_double_little, code_double_array8_big, code_double_array8_little,
  code_double_array32_big, code_double_array32_little, code_codepointer, code_infixpointer,
  code_custom, ill_formed_message, integer_too_large, code_mismatch, unknown_custom, Result, ok,
  raised, fault, out_of_fuel, ◌>>=◌, of_option, read8u, read16u, read32u, read8s, read16s, read32s,
  double_little, double_big,
}

pub data Dest : Type 0 where
  building : (tag size : ℕ) → List Value → Dest
  whole : Block → Dest

pub record Intern : Type 0 where
  pub blocks : List Dest
  pub intern_obj_table : Option (List Value)
  -- `intern_dest`, from the start of the destination
  pub words : ℕ

-- `find_custom_operations`, and `deserialize`, which gives the words of the data, their size in
-- bytes and the rest of the input.
pub record Deserializers : Type 0 where
  pub find_operations : List ℕ → Option (Value × (List ℕ → Option (List Value × ℕ × List ℕ)))
  pub code_checksum : List ℕ

abbrev pub push_object : Value → Option (List Value) → Option (List Value)
push_object v none = none
push_object v (some objs) = some (objs ++ (v ∷ []))

-- A block of `size` words at `intern_dest`.
unfoldable pub place : Dest → (size : ℕ) → Intern → Value × Intern
place d size s =
    let v = ptr (length s.blocks) 0 in
    (
      v,
      record s {
        blocks = s.blocks ++ (d ∷ []);
        intern_obj_table = push_object v s.intern_obj_table;
        words = s.words + suc size;
      },
    )

abbrev pub add_field : Value → Dest → Dest
add_field v (building tag size vs) = building tag size (vs ++ (v ∷ []))
add_field v (whole b) = whole b

-- `*dest = v` for the next field of a block.
unfoldable pub fill : (block : ℕ) → Value → Intern → Result Intern
fill i v s = do
  d ← of_option (get_elem? s.blocks i)
  ok (record s { blocks = set s.blocks i (add_field v d) })

unfoldable pub readblock : ℕ → List ℕ → Result (List ℕ × List ℕ)
readblock zero src = ok ([], src)
readblock (suc n) [] = fault
readblock (suc n) (b ∷ src) = do (bs, rest) ← readblock n src; ok (b ∷ bs, rest)

-- The bytes of a string of that length in its block.
unfoldable pub string_block : List ℕ → List ℕ
string_block bs =
    let size = (length bs + 4) / 4 in
    bs ++ (replicate (4 * size - 1 - length bs) 0 ++ ((4 * size - 1 - length bs) ∷ []))

unfoldable pub read_string : (len : ℕ) → List ℕ → Intern → Result (Value × List ℕ × Intern)
read_string len src s = do
  (bs, rest) ← readblock len src
  let (v, s') = place (whole (bytes (string_block bs))) ((len + 4) / 4) s
  ok (v, rest, s')

unfoldable pub decode_double : (little : Bool) → List ℕ → ℕ
decode_double true bs = double_little bs
decode_double false bs = double_big 0 bs

unfoldable pub read_doubles : (little : Bool) → ℕ → List ℕ → Result (List ℕ × List ℕ)
read_doubles little zero src = ok ([], src)
read_doubles little (suc n) src = do
  (bs, src') ← readblock 8 src
  (ds, rest) ← read_doubles little n src'
  ok (decode_double little bs ∷ ds, rest)

unfoldable pub read_double_array :
    (tag : ℕ) → (little : Bool) → (len : ℕ) → List ℕ → Intern → Result (Value × List ℕ × Intern)
read_double_array tag little len src s = do
  (ds, rest) ← read_doubles little len src
  let (v, s') = place (whole (doubles tag ds)) (2 * len) s
  ok (v, rest, s')

-- The assertions of the code are preconditions.
unfoldable pub read_shared : (ofs : ℕ) → List ℕ → Intern → Result (Value × List ℕ × Intern)
read_shared ofs src s = do
  objs ← of_option s.intern_obj_table
  if ltb 0 ofs && leb ofs (length objs)
      then (do v ← of_option (get_elem? objs (length objs - ofs)); ok (v, src, s))
      else fault

unfoldable pub same_bytes : List ℕ → List ℕ → Bool
same_bytes [] [] = true
same_bytes (a ∷ as') (b ∷ bs) = (a == b) && same_bytes as' bs
same_bytes _ _ = false

-- A text up to its final 0.
unfoldable pub read_identifier : List ℕ → Result (List ℕ × List ℕ)
read_identifier [] = fault
read_identifier (b ∷ src) =
    if b == 0 then ok ([], src) else (do (bs, rest) ← read_identifier src; ok (b ∷ bs, rest))

-- `v = clos + ofs`
abbrev pub shift_pointer : Value → ℕ → Option Value
shift_pointer (ptr b o) ofs = some (ptr b (o + ofs / 4))
shift_pointer _ ofs = none

-- The fields of a block, each by the function that is passed.
unfoldable pub intern_fields :
    (List ℕ → Intern → Result (Value × List ℕ × Intern))
    → (block n : ℕ) → List ℕ
    → Intern
    → Result (List ℕ × Intern)
intern_fields rec i zero src s = ok (src, s)
intern_fields rec i (suc n) src s = do
  (v, src', s') ← rec src s
  s'' ← fill i v s'
  intern_fields rec i n src' s''

unfoldable pub read_block :
    (List ℕ → Intern → Result (Value × List ℕ × Intern))
    → (tag size : ℕ) → List ℕ
    → Intern
    → Result (Value × List ℕ × Intern)
read_block rec tag size src s = if size == 0 then ok (atom tag, src, s) else (do
  let (v, s') = place (building tag size []) size s
  (rest, s'') ← intern_fields rec (length s.blocks) size src s'
  ok (v, rest, s''))

abbrev pub with_int : Result (ℤ × List ℕ) → Intern → Result (Value × List ℕ × Intern)
with_int r s = do (n, src) ← r; ok (word (val_long n), src, s)

module _ (c : Deserializers) where
  unfoldable pub read_codepointer : List ℕ → Intern → Result (Value × List ℕ × Intern)
  read_codepointer src s = do
    (ofs, src') ← read32u src
    (cksum, rest) ← readblock 16 src'
    if same_bytes cksum c.code_checksum then ok (code (ofs / 4), rest, s) else raised code_mismatch

  unfoldable pub read_custom : List ℕ → Intern → Result (Value × List ℕ × Intern)
  read_custom src s = do
    (ident, src') ← read_identifier src
    elim (c.find_operations ident) [
      | none ↦ raised unknown_custom
      | some (ops, deserialize) ↦ do
        (data_words, size, rest) ← of_option (deserialize src')
        let (v, s') = place (whole (fields custom_tag (ops ∷ data_words))) (1 + (size + 3) / 4) s
        ok (v, rest, s')
    ]

  -- The codes below the prefixes.
  unfoldable pub intern_code :
      (List ℕ → Intern → Result (Value × List ℕ × Intern))
      → (byte : ℕ) → List ℕ
      → Intern
      → Result (Value × List ℕ × Intern)
  intern_code rec byte src s =
      if byte == code_int8
      then with_int (read8s src) s
      else if byte == code_int16
      then with_int (read16s src) s
      else if byte == code_int32
      then with_int (read32s src) s
      else if byte == code_int64
      then raised integer_too_large
      else if byte == code_shared8
      then (do (ofs, src') ← read8u src; read_shared ofs src' s)
      else if byte == code_shared16
      then (do (ofs, src') ← read16u src; read_shared ofs src' s)
      else if byte == code_shared32
      then (do (ofs, src') ← read32u src; read_shared ofs src' s)
      else if byte == code_block32
      then (do (hd, src') ← read32u src; read_block rec (hd % 2 ^ 8) (hd / 2 ^ 10) src' s)
      else if byte == code_string8
      then (do (len, src') ← read8u src; read_string len src' s)
      else if byte == code_string32
      then (do (len, src') ← read32u src; read_string len src' s)
      else if (byte == code_double_little) || (byte == code_double_big)
      then read_double_array double_tag (byte == code_double_little) 1 src s
      else if (byte == code_double_array8_little) || (byte == code_double_array8_big)
      then (do
        (len, src') ← read8u src
        read_double_array double_array_tag (byte == code_double_array8_little) len src' s)
      else if (byte == code_double_array32_little) || (byte == code_double_array32_big)
      then (do
        (len, src') ← read32u src
        read_double_array double_array_tag (byte == code_double_array32_little) len src' s)
      else if byte == code_codepointer
      then read_codepointer src s
      else if byte == code_infixpointer
      then (do
        (ofs, src') ← read32u src
        (clos, rest, s') ← rec src' s
        v ← of_option (shift_pointer clos ofs)
        ok (v, rest, s'))
      else if byte == code_custom
      then read_custom src s
      else raised ill_formed_message

  -- The first byte of a value.
  unfoldable pub intern_prefix :
      (List ℕ → Intern → Result (Value × List ℕ × Intern))
      → (byte : ℕ) → List ℕ
      → Intern
      → Result (Value × List ℕ × Intern)
  intern_prefix rec byte src s =
      if leb prefix_small_block byte
      then read_block rec (byte % 16) (byte / 16 % 8) src s
      else if leb prefix_small_int byte
      then ok (word (val_long (pos (byte % 64))), src, s)
      else if leb prefix_small_string byte
      then read_string (byte % 32) src s
      else intern_code rec byte src s

  -- Each call reads a byte at least, so that their number is enough fuel.
  unfoldable pub intern_rec : ℕ → List ℕ → Intern → Result (Value × List ℕ × Intern)
  intern_rec zero src s = out_of_fuel
  intern_rec (suc f) src s = do (byte, src') ← read8u src; intern_prefix (intern_rec f) byte src' s
