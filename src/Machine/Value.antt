-- ===== src/Machine/Value.antt =====
-- Values and heap blocks (byterun/mlvalues.h). A block is known by its number, and a pointer into
-- it carries the index of the word it points at, which is not 0 for the closures of a recursive
-- definition. Collections move blocks and keep this view; they are not modelled.
use Prim.Native.Nat.{suc}
use ocamil.Prelude.{
  ℕ, zero, ◌+◌, ◌*◌, ◌/◌, ◌%◌, ◌^◌, Bool, true, false, Option, some, none, List, [], ◌∷◌, ◌++◌, ltb,
  if◌then◌else◌, length, get_elem?, set, ◌>>=◌,
}
use ocamil.Prelude.Int.{ℤ}
use ocamil.Machine.Word.{val_long, long_val, natural}

-- A `value`: a tagged integer or any other odd word, a pointer into a heap block, one of the
-- blocks of size 0 in `atom_table`, a code pointer, or a pointer to a trap frame in the stack,
-- counted in words from `stack_high`.
pub data Value : Type 0 where
  word : ℕ → Value
  ptr : ℕ → ℕ → Value
  atom : ℕ → Value
  code : ℕ → Value
  trap : ℕ → Value

-- The contents of a block: fields that hold values, the bytes of a string, or doubles, each as the
-- pattern of its 64 bits.
pub data Block : Type 0 where
  fields : ℕ → List Value → Block
  bytes : List ℕ → Block
  doubles : ℕ → List ℕ → Block

abbrev pub Heap : Type 0
Heap = List Block

abbrev pub closure_tag : ℕ
closure_tag = 247

abbrev pub infix_tag : ℕ
infix_tag = 249

abbrev pub string_tag : ℕ
string_tag = 252

abbrev pub double_tag : ℕ
double_tag = 253

abbrev pub double_array_tag : ℕ
double_array_tag = 254

abbrev pub val_int : ℤ → Value
val_int n = word (val_long n)

abbrev pub val_unit : Value
val_unit = word 1

abbrev pub val_false : Value
val_false = word 1

abbrev pub is_long : Value → Bool
is_long (word _) = true
is_long _ = false

-- The words of a block whose fields are values.
abbrev pub block_fields : Block → Option (List Value)
block_fields (fields _ vs) = some vs
block_fields (bytes _) = none
block_fields (doubles _ _) = none

-- The fields that a value points to, from the word it points at.
unfoldable pub field : Heap → Value → ℕ → Option Value
field h (ptr b o) i = do block ← get_elem? h b; vs ← block_fields block; get_elem? vs (o + i)
field h _ i = none

abbrev pub write_block : ℕ → Value → Block → Option Block
write_block i v (fields t vs) = if ltb i (length vs) then some (fields t (set vs i v)) else none
write_block i v (bytes _) = none
write_block i v (doubles _ _) = none

-- A write outside the block is a fault.
unfoldable pub set_field : Heap → Value → ℕ → Value → Option Heap
set_field h (ptr b o) i v = do
  block ← get_elem? h b
  written ← write_block (o + i) v block
  some (set h b written)
set_field h _ i v = none

abbrev pub block_tag : Block → ℕ
block_tag (fields t _) = t
block_tag (bytes _) = string_tag
block_tag (doubles t _) = t

-- `Wosize_val`: 4 bytes to a word, 2 words to a double.
abbrev pub block_wosize : Block → ℕ
block_wosize (fields _ vs) = length vs
block_wosize (bytes bs) = length bs / 4
block_wosize (doubles _ ds) = 2 * length ds

-- `Make_header(wosize, tag, Caml_white)`
abbrev pub make_header : ℕ → ℕ → ℕ
make_header wosize tag = wosize * 2 ^ 10 + tag

abbrev pub as_word : Value → Option ℕ
as_word (word w) = some w
as_word _ = none

-- The header of what a value points to: of the block, of an atom, or the word before a pointer into
-- the middle of a block.
unfoldable pub header : Heap → Value → Option ℕ
header h (ptr b zero) = do
  block ← get_elem? h b
  some (make_header (block_wosize block) (block_tag block))
header h (ptr b (suc o)) = field h (ptr b zero) o >>= as_word
header h (atom t) = some (make_header 0 t)
header h _ = none

unfoldable pub tag_val : Heap → Value → Option ℕ
tag_val h v = do hd ← header h v; some (hd % 2 ^ 8)

unfoldable pub wosize_val : Heap → Value → Option ℕ
wosize_val h v = do hd ← header h v; some (hd / 2 ^ 10)

-- `Alloc_small` and the stores that fill the block.
unfoldable pub alloc : Heap → Block → Value × Heap
alloc h block = (ptr (length h) 0, h ++ (block ∷ []))

abbrev pub as_code : Value → Option ℕ
as_code (code pc) = some pc
as_code _ = none

-- `Code_val`
unfoldable pub code_val : Heap → Value → Option ℕ
unfolding field
code_val h v = field h v 0 >>= as_code

-- `Long_val` of a value that must be an integer.
unfoldable pub long_of : Value → Option ℤ
unfolding long_val
long_of v = do w ← as_word v; some (long_val w)

-- `Long_val` used as an index or a count.
unfoldable pub index_of : Value → Option ℕ
unfolding long_of
index_of v = long_of v >>= natural
