-- ===== src/Marshal/Tests.antt =====
-- A message of byterun/extern.c, read by byterun/intern.c: one string twice, with the smallest table.
use ocamil.Prelude.{
  ℕ, ◌≡◌, ◌+◌, ◌*◌, refl, none, some, List, [], ◌∷◌, ◌++◌, true, false, length, get_elem?, take,
  arith,
}
use ocamil.Prelude.Int.{pos}
use ocamil.Machine.Value.{Value, word, ptr, fields, bytes, val_unit, header, field}
use ocamil.Machine.Word.{long_val, val_long}
use ocamil.Compare.{string_length}
use ocamil.Interp.Arith.{same_value}
use ocamil.Marshal.{
  ok, raised, bytes16, bytes32, read8u, read32u, buffer_overflow, bad_block_length,
}
use ocamil.Marshal.Seen.{SeenTable, number_of}
use ocamil.Marshal.Extern.{
  Extern, resize_extern_block, writeblock, writecode8, writecode16, writecode32, extern_int,
  extern_shared, count_words, string_header, block_header, extern_string, extern_header, check_seen,
  extern_fields, extern_contents, extern_block, extern_rec, extern_value, put_sizes, double_until,
}
use ocamil.Marshal.Intern.{
  Intern, building, whole, intern_rec, intern_prefix, intern_code, read_block, read_string,
  readblock, read_shared, intern_fields, fill, place, string_block,
}
use ocamil.Marshal.Tree.{Tree, node, cons, nil, text, weight, extent, Unfolds, IsText}
use ocamil.Marshal.Whole.{sizes_room}
use ocamil.Marshal.Reading.{read_dest}
use ocamil.Marshal.Objects.{Setup}
use ocamil.Marshal.Copying.{IsData}
use ocamil.Marshal.Message.{
  alloc_string, output_value_to_string, output_value_to_block, intern_alloc, input_val_from_block,
  input_value_from_block,
}
use ocamil.Marshal.Table.{
  ExternTable, hash, find, free_slot, reinsert, resize_extern_table, find_or_record, next_slot,
}
use ocamil.Marshal.Table.Insert.{live_count}
use ocamil.Marshal.Table.Lookup.{
  IsFresh, Represents, fresh-Represents, hash_table, find_or_record_new, find_or_record-Represents,
}
use ocamil.Marshal.Cut.{input_value_from_block_refuses}
use ocamil.Marshal.Faithful.{
  input_value_from_block-output_value_to_string, input_value_from_block_fills,
}

-- The smallest table, which is enlarged for the second object.
abbrev two_slots : ExternTable
two_slots = record { slots = (0, val_unit) ∷ (0, val_unit) ∷ []; hash_shift = 31 }

abbrev address_of : Value → ℕ
address_of (ptr b o) = 4096 + 16 * b + 4 * o
address_of _ = 0

pub two_slots-IsFresh : IsFresh 1 two_slots
unfolding live_count
two_slots-IsFresh = record {
  first_number = omega arith;
  all_dead = refl;
  power = refl;
  two_slots = omega arith;
}

abbrev small_table : SeenTable
small_table = hash_table address_of 1 two_slots two_slots-IsFresh

first_object :
    (t : ExternTable) × (find_or_record address_of 1 two_slots (ptr 0 0) 0 ≡ some (none, t))
    × Represents address_of 1 t ((ptr 0 0, 0) ∷ [])
unfolding number_of
first_object =
    find_or_record_new address_of 1 (omega arith) two_slots []
      (fresh-Represents address_of 1 two_slots two_slots-IsFresh) (omega arith) (ptr 0 0) refl

-- `("ab", "ab", 5)`, with one string.
abbrev pub twice : Setup
twice = record {
  table = small_table;
  serializers = record { identifier = λ ops. []; serialize = λ ops. none };
  deserializers = record { find_operations = λ ident. none; code_checksum = [] };
  flags = record { ignore_sharing = false; closures = false; code_checksum = [] };
  heap = fields 0 (ptr 1 0 ∷ ptr 1 0 ∷ word 11 ∷ []) ∷ bytes (97 ∷ 98 ∷ 0 ∷ 1 ∷ []) ∷ [];
  sharing = refl;
}

abbrev pair_of_ab : Tree
pair_of_ab =
    node 0 (cons (text (97 ∷ 98 ∷ [])) (cons (text (97 ∷ 98 ∷ [])) (cons (Tree.int (pos 5)) nil)))

abbrev message_of_ab : List ℕ
message_of_ab =
    132 ∷ 149 ∷ 166 ∷ 190 ∷ 0 ∷ 0 ∷ 0 ∷ 7 ∷ 0 ∷ 0 ∷ 0 ∷ 2 ∷ 0 ∷ 0 ∷ 0 ∷ 6 ∷ 0 ∷ 0 ∷ 0 ∷ 6 ∷ 176 ∷ 34
    ∷ 97 ∷ 98 ∷ 4 ∷ 1 ∷ 69 ∷ []

written_once :
    output_value_to_string twice.table twice.serializers twice.flags twice.heap 4 (ptr 0 0)
    ≡ ok message_of_ab
unfolding output_value_to_string alloc_string extern_value extern_rec extern_block extern_contents
    extern_fields check_seen extern_header extern_string block_header string_header count_words
    extern_shared extern_int writecode8 writecode16 writecode32 writeblock resize_extern_block
    put_sizes bytes16 bytes32 header field string_length same_value number_of double_until long_val
    hash find free_slot reinsert resize_extern_table find_or_record next_slot
written_once = refl

ab-IsText : IsText (97 ∷ 98 ∷ 0 ∷ 1 ∷ []) (97 ∷ 98 ∷ [])
unfolding string_length
ab-IsText = record { text_length = refl; text_bytes = refl; padded = refl }

pair_of_ab-IsData : IsData pair_of_ab
unfolding IsData
pair_of_ab-IsData =
    (omega arith, omega arith, omega arith, (omega arith, (omega arith, (omega arith, tt))))

pair_of_ab-Unfolds : Unfolds (get_elem? twice.heap) (ptr 0 0) pair_of_ab
unfolding Unfolds long_val
pair_of_ab-Unfolds =
    let ab : Unfolds (get_elem? twice.heap) (ptr 1 0) (text (97 ∷ 98 ∷ [])) =
      (1, 97 ∷ 98 ∷ 0 ∷ 1 ∷ [], refl, refl, ab-IsText) in
    (
      0,
      ptr 1 0 ∷ ptr 1 0 ∷ word 11 ∷ [],
      refl,
      refl,
      (
        ptr 1 0,
        ptr 1 0 ∷ word 11 ∷ [],
        refl,
        ab,
        (ptr 1 0, word 11 ∷ [], refl, ab, (word 11, [], refl, (11, refl, refl), refl)),
      ),
    )

abbrev written_state : Extern ExternTable
written_state = record {
  written = sizes_room ++ (176 ∷ 34 ∷ 97 ∷ 98 ∷ 4 ∷ 1 ∷ 69 ∷ []);
  size = 32;
  block_malloced = true;
  table = record {
    slots =
        (0, val_unit)
        ∷ (0, val_unit)
        ∷ (2, ptr 1 0)
        ∷ (1, ptr 0 0)
        ∷ (0, val_unit)
        ∷ (0, val_unit)
        ∷ (0, val_unit)
        ∷ (0, val_unit)
        ∷ [];
    hash_shift = 29;
  };
  obj_counter = 2;
  size_32 = 6;
  size_64 = 6;
}

abbrev read_state : Intern
read_state = record {
  blocks =
      building 0 3 (ptr 1 0 ∷ ptr 1 0 ∷ word 11 ∷ []) ∷ whole (bytes (97 ∷ 98 ∷ 0 ∷ 1 ∷ [])) ∷ [];
  intern_obj_table = some (ptr 0 0 ∷ ptr 1 0 ∷ []);
  words = 6;
}

pair_of_ab-written :
    extern_value twice.table twice.serializers twice.flags twice.heap 4 (ptr 0 0) 8 true
    ≡ ok written_state
unfolding extern_value extern_rec extern_block extern_contents extern_fields check_seen
    extern_header extern_string block_header string_header count_words extern_shared extern_int
    writecode8 writecode16 writecode32 writeblock resize_extern_block bytes16 bytes32 header field
    string_length same_value number_of double_until long_val hash find free_slot reinsert
    resize_extern_table find_or_record next_slot
pair_of_ab-written = refl

pair_of_ab-read :
    input_value_from_block twice.deserializers 4
      (put_sizes written_state)
      (length (put_sizes written_state))
    ≡ ok (ptr 0 0, [], read_state)
unfolding put_sizes bytes32 input_value_from_block input_val_from_block read32u intern_alloc
    intern_rec read8u intern_prefix intern_code read_block intern_fields fill place read_string
    readblock string_block read_shared val_long
pair_of_ab-read = refl

find_or_record-Represents_example :
    (t : ExternTable) × (find_or_record address_of 1 (first_object.0) (ptr 1 0) 1 ≡ some (none, t))
    × Represents address_of 1 t ((ptr 1 0, 1) ∷ (ptr 0 0, 0) ∷ [])
unfolding number_of same_value
find_or_record-Represents_example =
    find_or_record-Represents address_of 1 (first_object.0) ((ptr 0 0, 0) ∷ []) (ptr 1 0)
      (omega arith) (first_object.2) (omega arith)

input_value_from_block-output_value_to_string_example :
    (msg : List ℕ) × (w : Value) × (s : Intern) × (output_value_to_string twice.table
        twice.serializers twice.flags twice.heap 4
        (ptr 0 0)
      ≡ ok msg)
    × (input_value_from_block twice.deserializers 4 msg (length msg) ≡ ok (w, [], s))
    × Unfolds (read_dest s) w pair_of_ab
unfolding weight extent
input_value_from_block-output_value_to_string_example =
    input_value_from_block-output_value_to_string twice pair_of_ab 4 4 (ptr 0 0) pair_of_ab-IsData
      pair_of_ab-Unfolds (omega arith) (omega arith) (omega arith)

-- The last byte is missing.
input_value_from_block_refuses_example :
    input_value_from_block twice.deserializers 4 (take 26 message_of_ab) 26
    ≡ raised bad_block_length
unfolding weight extent
input_value_from_block_refuses_example =
    input_value_from_block_refuses twice pair_of_ab 4 4 26 (ptr 0 0) message_of_ab pair_of_ab-IsData
      pair_of_ab-Unfolds (omega arith) (omega arith) written_once (omega arith) (omega arith)

input_value_from_block_fills_example :
    (read_state.words ≡ written_state.size_32)
    × (length read_state.blocks ≡ written_state.obj_counter)
    × (◌≡◌ {A = List ℕ} [] [])
unfolding weight extent
input_value_from_block_fills_example =
    input_value_from_block_fills twice pair_of_ab 4 4 (ptr 0 0) (ptr 0 0) 8 written_state []
      read_state pair_of_ab-IsData pair_of_ab-Unfolds (omega arith) (omega arith) (omega arith)
      pair_of_ab-written pair_of_ab-read

no_room :
    output_value_to_block twice.table twice.serializers twice.flags twice.heap 4 (ptr 0 0) 22
    ≡ raised buffer_overflow
unfolding output_value_to_block extern_value extern_rec extern_block extern_contents extern_fields
    check_seen extern_header extern_string block_header string_header count_words extern_shared
    extern_int writecode8 writecode16 writecode32 writeblock resize_extern_block put_sizes bytes16
    bytes32 header field string_length same_value number_of double_until long_val hash find
    free_slot reinsert resize_extern_table find_or_record next_slot
no_room = refl
