-- ===== src/Marshal/Whole.antt =====
-- Whole messages of byterun/extern.c, read by byterun/intern.c.
use ocamil.Prelude.{
  ℕ, zero, suc, ◌<◌, ◌+◌, ◌-◌, ◌*◌, ◌/◌, ◌%◌, ◌^◌, ◌≤◌, ◌<◌, ◌≡◌, refl, sym, ap, ◌∙◌, some, List,
  [], ◌++◌, true, false, inl, inr, ltb, ◌==◌, length, replicate, arith, Bool-cases,
}
use ocamil.Machine.Value.{Value}
use ocamil.Marshal.{magic_number, ok, out_of_fuel, bytes32, read32u}
use ocamil.Marshal.Seen.{number_of}
use ocamil.Marshal.Room.{Gives, Gives-along, writeblock_lem, double_until_zero}
use ocamil.Marshal.Extern.{writeblock, resize_extern_block, Extern, extern_value, put_sizes}
use ocamil.Marshal.Intern.{Intern}
use ocamil.Marshal.Tree.{Tree, weight, extent, is_immediate, Unfolds}
use ocamil.Marshal.Leaves.{read32u-bytes32, length-bytes32}
use ocamil.Marshal.Reading.{read_dest}
use ocamil.Marshal.Sharing.{Ready, Sim}
use ocamil.Marshal.Objects.{Setup, Writer, extern, intern, Stands}
use ocamil.Marshal.Copying.{IsData}
use ocamil.Marshal.RoundTrip.{copied}
use ocamil.Marshal.Message.{intern_alloc, input_val_from_block, input_value_from_block}

abbrev pub sizes_room : List ℕ
sizes_room = bytes32 magic_number ++ replicate 16 0

-- A message, and what is read from it into a destination of the size that it gives.
pub record Message (K : Setup) (f g : ℕ) (v : Value) (t : Tree) (size : ℕ) : Type 0 where
  pub bs : List ℕ
  pub e' : Writer K
  pub s' : Intern
  pub v' : Value
  pub emitted :
      Gives (length e'.written) (extern_value K.table K.serializers K.flags K.heap f v size true) e'
  pub written : e'.written ≡ sizes_room ++ bs
  pub read_back :
      (rest : List ℕ)
      → intern K g (bs ++ rest) (intern_alloc e'.size_32 e'.obj_counter) ≡ ok (v', rest, s')
  pub unfolds : Unfolds (read_dest s') v' t
  pub all_words : s'.words ≡ e'.size_32
  pub all_blocks : length s'.blocks ≡ e'.obj_counter
  pub counted : e'.obj_counter ≤ weight t
  pub extended : length bs + e'.size_32 ≤ extent t

alloc_words : (whsize num_objects : ℕ) → (intern_alloc whsize num_objects).words ≡ 0
unfolding intern_alloc
alloc_words whsize num_objects = refl

alloc_blocks : (whsize num_objects : ℕ) → (intern_alloc whsize num_objects).blocks ≡ []
unfolding intern_alloc
alloc_blocks whsize num_objects = refl

module _ (K : Setup) (size : ℕ) (some_bytes : 0 < size) where
  -- The state behind the sizes_room for the sizes, with any size of the buffer.
  abbrev started : (more : ℕ) → Writer K
  started more = record {
    written = sizes_room;
    size = more;
    block_malloced = true;
    table = K.table.empty_table;
    obj_counter = 0;
    size_32 = 0;
    size_64 = 0;
  }

  abbrev destination : Intern
  destination = record { blocks = []; intern_obj_table = some []; words = 0 }

  started_lem :
      (f : ℕ) (v : Value)
      → (more : ℕ) × (0 < more)
        × (extern_value K.table K.serializers K.flags K.heap f v size true
            ≡ extern K f v (started more))
  unfolding extern_value
  started_lem f v =
      let (more, above, w) =
        writeblock_lem (bytes32 magic_number)
          (record {
            written = [];
            size = size;
            block_malloced = true;
            table = K.table.empty_table;
            obj_counter = 0;
            size_32 = 0;
            size_64 = 0;
          })
          (refl, some_bytes) in
      (more, above, rw (w (inl (omega (arith, length-bytes32 magic_number)))) refl)

  started-Sim : (more : ℕ) → 0 < more → Sim K.table (started more) [] [] destination
  started-Sim more above = record {
    malloced = (refl, above);
    represents = K.table.empty_table_lem;
    counter = refl;
    objects = refl;
    as_many = refl;
    same_words = refl;
    sized = omega arith;
    blocks_counted = refl;
  }

  none-Ready : (bound : ℕ) → Ready K.heap bound [] [] destination
  unfolding number_of
  none-Ready bound v n t known u l = absurd (ground arith)

  alloc_lem :
      (whsize num_objects : ℕ)
      → 0 < num_objects
      → num_objects ≤ whsize
      → intern_alloc whsize num_objects ≡ destination
  unfolding intern_alloc
  alloc_lem whsize num_objects h k =
      let n : (whsize == 0) ≡ false = ground arith in
      let m : (num_objects == 0) ≡ false = ground arith in rw (n, m) refl

  pub message :
      (t : Tree) (f g : ℕ) (v : Value)
      → IsData t
      → Stands K v t
      → weight t ≤ f
      → weight t ≤ g
      → weight t ≤ 2 ^ 31
      → Message K f g v t size
  message t f g v d u wf wg fits =
      let (more, above, start) = started_lem f v in
      let c =
        copied K t f g v (weight t) (started more) [] [] destination d u wf wg (omega arith)
          (omega arith) (started-Sim more above) (none-Ready (weight t)) in
      elim (Bool-cases (is_immediate t)) [
        | inl now ↦
            let a = c.anywhere now in
            record {
              bs = c.bs;
              e' = c.e';
              s' = intern_alloc c.e'.size_32 c.e'.obj_counter;
              v' = c.v';
              emitted = Gives-along start c.emitted;
              written = c.written;
              read_back = λ rest. a.read_anywhere rest (intern_alloc c.e'.size_32 c.e'.obj_counter);
              unfolds = a.unfolds_anywhere (read_dest (intern_alloc c.e'.size_32 c.e'.obj_counter));
              all_words = alloc_words c.e'.size_32 c.e'.obj_counter ∙ sym a.no_words;
              all_blocks = ap length (alloc_blocks c.e'.size_32 c.e'.obj_counter) ∙ sym a.no_object;
              counted = omega (arith, c.counted);
              extended = omega (arith, c.extended);
            }
        | inr later ↦
            let some_object = c.numbered later in
            let alloc = alloc_lem c.e'.size_32 c.e'.obj_counter some_object c.sim.sized in
            record {
              bs = c.bs;
              e' = c.e';
              s' = c.s';
              v' = c.v';
              emitted = Gives-along start c.emitted;
              written = c.written;
              read_back = λ rest. rw alloc (c.read_back rest);
              unfolds = c.unfolds;
              all_words = sym c.sim.same_words;
              all_blocks = c.sim.blocks_counted ∙ sym c.sim.counter;
              counted = omega (arith, c.counted);
              extended = omega (arith, c.extended);
            }
      ]

-- A buffer without bytes is not there in a run that returns.
extern_value_zero :
    (K : Setup) (f : ℕ) (v : Value)
    → extern_value K.table K.serializers K.flags K.heap f v 0 true ≡ out_of_fuel
unfolding extern_value writeblock resize_extern_block bytes32
extern_value_zero K f v = rw (double_until_zero 5 4) refl

pub extern_value_positive :
    (K : Setup) (f : ℕ) (v : Value) (size : ℕ) (e : Writer K)
    → extern_value K.table K.serializers K.flags K.heap f v size true ≡ ok e
    → 0 < size
extern_value_positive K f v zero e run =
    let none = sym (extern_value_zero K f v) ∙ run in absurd (ground arith)
extern_value_positive K f v (suc n) e run = omega arith

pub length-room : (bs : List ℕ) → length (sizes_room ++ bs) ≡ 20 + length bs
unfolding bytes32
length-room bs = omega arith

-- The five words in front of a message.
abbrev pub framed : {T : Type 0} → Extern T → List ℕ → List ℕ
framed e bs =
    bytes32 magic_number
    ++ (bytes32 (length bs)
        ++ (bytes32 e.obj_counter ++ (bytes32 e.size_32 ++ (bytes32 e.size_64 ++ bs))))

pub put_sizes_lem :
    {T : Type 0} (e : Extern T) (bs : List ℕ)
    → e.written ≡ sizes_room ++ bs
    → put_sizes e ≡ framed e bs
unfolding put_sizes bytes32
put_sizes_lem e bs h =
    let l : length (sizes_room ++ bs) - 20 ≡ length bs = omega arith in rw (h, l) refl

read32u_lem : (n : ℕ) (rest : List ℕ) → read32u (bytes32 n ++ rest) ≡ ok (n % 2 ^ 32, rest)
unfolding read32u bytes32
read32u_lem n rest =
    let e : n / 2 ^ 24 % 256 * 2 ^ 24
          + n / 2 ^ 16 % 256 * 2 ^ 16
          + n / 2 ^ 8 % 256 * 2 ^ 8
          + n % 256
        ≡ n % 2 ^ 32 =
      omega arith in
    rw e refl

pub length-framed :
    {T : Type 0} (e : Extern T) (bs : List ℕ) → length (framed e bs) ≡ 20 + length bs
unfolding bytes32
length-framed e bs = omega arith

-- What the reader makes of them.
pub framed_lem :
    {T : Type 0} (e : Extern T) (bs : List ℕ) (K : Setup) (g : ℕ)
    → 20 + length bs < 2 ^ 32
    → e.obj_counter < 2 ^ 32
    → e.size_32 < 2 ^ 32
    → input_value_from_block K.deserializers g (framed e bs) (length (framed e bs))
      ≡ intern K g bs (intern_alloc e.size_32 e.obj_counter)
unfolding input_value_from_block input_val_from_block
framed_lem e bs K g h₁ h₂ h₃ =
    let after₄ = bytes32 e.size_64 ++ bs in
    let after₃ = bytes32 e.size_32 ++ after₄ in
    let after₂ = bytes32 e.obj_counter ++ after₃ in
    let after₁ = bytes32 (length bs) ++ after₂ in
    let total : (20 + length bs) % 2 ^ 32 ≡ 20 + length bs = omega arith in
    let fits : ltb (length (framed e bs)) ((20 + length bs) % 2 ^ 32) ≡ false =
      rw (total, length-framed e bs) (ground arith) in
    rw
      (
        read32u-bytes32 magic_number after₁ (omega arith),
        read32u-bytes32 (length bs) after₂ (omega arith),
        fits,
        read32u-bytes32 e.obj_counter after₃ h₂,
        read32u-bytes32 e.size_32 after₄ h₃,
        read32u_lem e.size_64 bs,
      )
      refl
