-- ===== src/Marshal/Message.antt =====
-- Whole messages: output_value_to_string of byterun/extern.c, and input_value_from_block of
-- byterun/intern.c.
use ocamil.Prelude.{
  ◌/◌, ◌%◌, ◌^◌, ◌-◌, leb, length, ℕ, ◌+◌, none, some, List, [], true, false, ltb, ◌==◌,
  if◌then◌else◌,
}
use ocamil.Machine.Value.{Value, Heap}
use ocamil.Marshal.{
  magic_number, Result, ok, raised, ◌>>=◌, read32u, bad_object, bad_block_length, out_of_memory,
}
use ocamil.Marshal.Seen.{SeenTable}
use ocamil.Marshal.Extern.{Serializers, Flags, extern_value, put_sizes}
use ocamil.Marshal.Intern.{Intern, Deserializers, intern_rec}

-- `INITIAL_EXTERN_BLOCK_SIZE`
abbrev pub initial_block_size : ℕ
initial_block_size = 8192

abbrev pub max_wosize : ℕ
max_wosize = 2 ^ 22 - 1

abbrev pub max_young_wosize : ℕ
max_young_wosize = 256

-- A block of that many words in the major heap, with memory there.
unfoldable pub alloc_shr : (wosize : ℕ) → Result ℕ
alloc_shr wosize = if ltb max_wosize wosize then raised out_of_memory else ok wosize

-- The words of a string of that length.
unfoldable pub alloc_string : (len : ℕ) → Result ℕ
unfolding alloc_shr
alloc_string len =
    let wosize = (len + 4) / 4 in
    if leb wosize max_young_wosize then ok wosize else alloc_shr wosize

unfoldable pub output_value_to_string :
    (S : SeenTable) (c : Serializers) (flags : Flags) (h : Heap) → ℕ → Value → Result (List ℕ)
output_value_to_string S c flags h f v = do
  e ← extern_value S c flags h f v initial_block_size true
  wosize ← alloc_string (length e.written)
  ok (put_sizes e)

-- The message, written into `len` bytes that are passed.
unfoldable pub output_value_to_block :
    (S : SeenTable) (c : Serializers) (flags : Flags) (h : Heap)
    → ℕ
    → Value
    → (len : ℕ) → Result (List ℕ)
output_value_to_block S c flags h f v len = do
  e ← extern_value S c flags h f v len false
  ok (put_sizes e)

unfoldable pub intern_alloc : (whsize num_objects : ℕ) → Intern
intern_alloc whsize num_objects = record {
  blocks = [];
  words = 0;
  intern_obj_table = if (whsize == 0) then none else if (num_objects == 0) then none else some [];
}

unfoldable pub input_val_from_block : Deserializers → ℕ → List ℕ → Result (Value × List ℕ × Intern)
input_val_from_block c f src = do
  (num_objects, src) ← read32u src
  (whsize, src) ← read32u src
  (size_64, src) ← read32u src
  intern_rec c f src (intern_alloc whsize num_objects)

-- The sum of the lengths wraps around.
unfoldable pub input_value_from_block :
    Deserializers → ℕ → List ℕ → (len : ℕ) → Result (Value × List ℕ × Intern)
input_value_from_block c f input len = do
  (magic, src) ← read32u input
  if magic == magic_number
      then (do
        (block_len, src) ← read32u src
        if ltb len ((20 + block_len) % 2 ^ 32)
            then raised bad_block_length
            else input_val_from_block c f src)
      else raised bad_object

unfoldable pub marshal_data_size : List ℕ → Result ℕ
marshal_data_size buff = do
  (magic, src) ← read32u buff
  if magic == magic_number
      then (do (block_len, src) ← read32u src; ok block_len)
      else raised bad_object
