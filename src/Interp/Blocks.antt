-- ===== src/Interp/Blocks.antt =====
-- Allocating blocks, and access to fields, arrays and strings (byterun/interp.c). A double is the
-- pattern of its bits.
use ocamil.Prelude.{
  ℕ, zero, ◌-◌, ◌/◌, ◌%◌, Option, some, none, List, [], ◌∷◌, ltb, ◌==◌, if◌then◌else◌, get_elem?,
  set, length, ◌>>=◌, ◌>>◌, require, not,
}
use ocamil.Prelude.Int.{pos}
use ocamil.Machine.Word.{wrap}
use ocamil.Machine.Value.{
  Value, ptr, Block, fields, bytes, doubles, Heap, alloc, field, set_field, tag_val, wosize_val,
  val_int, val_unit, double_tag, double_array_tag, long_of, index_of,
}
use ocamil.Interp.State.{State, pop_words, top_words, operand, skip, peek}

-- A block of `wosize` fields: the accumulator, and the words from `sp` on.
unfoldable pub make : (wosize tag : ℕ) → State → Option State
unfolding top_words pop_words alloc
make wosize tag s = do
  require (not (wosize == 0))
  vs ← top_words (wosize - 1) s.stack
  rest ← pop_words (wosize - 1) s.stack
  let made = alloc s.heap (fields tag (s.accu ∷ vs))
  some (record s { accu = made.0; heap = made.1; stack = rest })

unfoldable pub makeblock : List ℕ → State → Option State
unfolding make
makeblock prog s = do
  wosize ← operand prog s 0
  tag ← operand prog s 1
  make wosize (tag % 256) (skip 2 s)

-- `MAKEBLOCK1`, `MAKEBLOCK2` and `MAKEBLOCK3`
unfoldable pub makeblock_args : List ℕ → ℕ → State → Option State
unfolding make
makeblock_args prog wosize s = do tag ← operand prog s 0; make wosize (tag % 256) (skip 1 s)

abbrev pub block_doubles : Block → Option (List ℕ)
block_doubles (doubles _ ds) = some ds
block_doubles (fields _ _) = none
block_doubles (bytes _) = none

-- The doubles that a value points to.
unfoldable pub doubles_of : Heap → Value → Option (List ℕ)
doubles_of h (ptr b zero) = do block ← get_elem? h b; block_doubles block
doubles_of h _ = none

-- `Double_val` and `Double_field`
unfoldable pub double_field : Heap → Value → ℕ → Option ℕ
unfolding doubles_of
double_field h v i = do ds ← doubles_of h v; get_elem? ds i

unfoldable pub double_vals : Heap → List Value → Option (List ℕ)
unfolding double_field
double_vals h [] = some []
double_vals h (v ∷ vs) = do d ← double_field h v 0; ds ← double_vals h vs; some (d ∷ ds)

unfoldable pub makefloatblock : List ℕ → State → Option State
unfolding top_words pop_words double_vals alloc
makefloatblock prog s = do
  size ← operand prog s 0
  require (not (size == 0))
  vs ← top_words (size - 1) s.stack
  rest ← pop_words (size - 1) s.stack
  ds ← double_vals s.heap (s.accu ∷ vs)
  let made = alloc s.heap (doubles double_array_tag ds)
  some (record (skip 1 s) { accu = made.0; heap = made.1; stack = rest })

unfoldable pub getfield : ℕ → State → Option State
unfolding field
getfield i s = do v ← field s.heap s.accu i; some (record s { accu = v })

unfoldable pub getfield_operand : List ℕ → State → Option State
unfolding getfield
getfield_operand prog s = do i ← operand prog s 0; getfield i (skip 1 s)

unfoldable pub getfloatfield : List ℕ → State → Option State
unfolding double_field alloc
getfloatfield prog s = do
  i ← operand prog s 0
  d ← double_field s.heap s.accu i
  let made = alloc s.heap (doubles double_tag (d ∷ []))
  some (record (skip 1 s) { accu = made.0; heap = made.1 })

-- The label `modify`, with `dest` a field of the accumulator. The store is also told to the
-- collector, which is not modelled.
unfoldable pub modify : ℕ → Value → List Value → State → Option State
unfolding set_field
modify i newval rest s = do
  h ← set_field s.heap s.accu i newval
  some (record s { heap = h; accu = val_unit; stack = rest })

-- The new value of the field is popped.
unfoldable pub modify_pop : ℕ → State → List Value → Option State
unfolding modify
modify_pop i s (v ∷ rest) = modify i v rest s
modify_pop i s [] = none

unfoldable pub setfield : ℕ → State → Option State
unfolding modify_pop
setfield i s = modify_pop i s s.stack

unfoldable pub setfield_operand : List ℕ → State → Option State
unfolding setfield
setfield_operand prog s = do i ← operand prog s 0; setfield i (skip 1 s)

abbrev pub write_double : ℕ → ℕ → Block → Option Block
write_double i d (doubles t ds) = if ltb i (length ds) then some (doubles t (set ds i d)) else none
write_double i d (fields _ _) = none
write_double i d (bytes _) = none

abbrev pub write_byte : ℕ → ℕ → Block → Option Block
write_byte i c (bytes bs) = if ltb i (length bs) then some (bytes (set bs i c)) else none
write_byte i c (fields _ _) = none
write_byte i c (doubles _ _) = none

-- Rewrites the block that a value points to.
unfoldable pub update_block : Heap → Value → (Block → Option Block) → Option Heap
update_block h (ptr b zero) f = do block ← get_elem? h b; block' ← f block; some (set h b block')
update_block h _ f = none

unfoldable pub setfloatfield : List ℕ → State → Option State
unfolding double_field update_block
setfloatfield prog s = do
  i ← operand prog s 0
  v ← peek s 0
  d ← double_field s.heap v 0
  h ← update_block s.heap s.accu (write_double i d)
  rest ← pop_words 1 s.stack
  some (record (skip 1 s) { heap = h; accu = val_unit; stack = rest })

-- The size of an array of doubles counts two words to a double.
unfoldable pub vectlength : State → Option State
unfolding tag_val wosize_val
vectlength s = do
  size ← wosize_val s.heap s.accu
  tag ← tag_val s.heap s.accu
  some (record s { accu = val_int (pos (if tag == double_array_tag then size / 2 else size)) })

unfoldable pub getvectitem : State → Option State
unfolding index_of field pop_words
getvectitem s = do
  n ← peek s 0
  i ← index_of n
  v ← field s.heap s.accu i
  rest ← pop_words 1 s.stack
  some (record s { accu = v; stack = rest })

unfoldable pub setvectitem : State → Option State
unfolding index_of modify pop_words
setvectitem s = do
  n ← peek s 0
  i ← index_of n
  v ← peek s 1
  rest ← pop_words 2 s.stack
  modify i v rest s

abbrev pub block_bytes : Block → Option (List ℕ)
block_bytes (bytes bs) = some bs
block_bytes (fields _ _) = none
block_bytes (doubles _ _) = none

-- `Byte_u`
unfoldable pub byte_of : Heap → Value → ℕ → Option ℕ
byte_of h (ptr b zero) i = do block ← get_elem? h b; bs ← block_bytes block; get_elem? bs i
byte_of h _ i = none

unfoldable pub getstringchar : State → Option State
unfolding index_of byte_of pop_words
getstringchar s = do
  n ← peek s 0
  i ← index_of n
  c ← byte_of s.heap s.accu i
  rest ← pop_words 1 s.stack
  some (record s { accu = val_int (pos c); stack = rest })

-- The low 8 bits of the number are stored.
unfoldable pub setstringchar : State → Option State
unfolding index_of long_of update_block pop_words
setstringchar s = do
  n ← peek s 0
  i ← index_of n
  v ← peek s 1
  c ← long_of v
  h ← update_block s.heap s.accu (write_byte i (wrap c % 256))
  rest ← pop_words 2 s.stack
  some (record s { heap = h; accu = val_unit; stack = rest })
