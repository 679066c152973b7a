-- ===== src/Marshal/Table.antt =====
-- The table of the objects that byterun/extern.c has written: open addressing with a multiplicative
-- hash. The addresses of values, and the first number of this call, are parameters; a slot is live
-- when its number is not below it.
pub mod Walk
pub mod Insert
pub mod Place
pub mod FreeSlot
pub mod Reinsert
pub mod Resize
pub mod Lookup
use ocamil.Prelude.{
  ℕ, zero, suc, ◌+◌, ◌-◌, ◌*◌, ◌/◌, ◌%◌, ◌^◌, Option, none, some, ◌>>=◌, List, [], ◌∷◌, Bool, ltb,
  leb, if◌then◌else◌, length, get_elem?, set, replicate,
}
use ocamil.Interp.Arith.{same_value}
use ocamil.Machine.Value.{Value, val_unit}

-- `HASH_FACTOR`
abbrev pub hash_factor : ℕ
hash_factor = 2654435769

-- `struct extern_obj`: the number and the object.
abbrev pub ExternObj : Type 0
ExternObj = ℕ × Value

pub record ExternTable : Type 0 where
  pub slots : List ExternObj
  pub hash_shift : ℕ

-- Where the search for an object ends.
pub data Search : Type 0 where
  found : (ofs : ℕ) → Search
  free : (h : ℕ) → Search

-- `(h + 1) & extern_table_mask`: the size is a power of 2.
unfoldable pub next_slot : (size h : ℕ) → ℕ
next_slot size h = (h + 1) % size

module _ (address : Value → ℕ) (initial_ofs : ℕ) where
  unfoldable pub hash : ExternTable → Value → ℕ
  hash t v = address v * hash_factor % 2 ^ 32 / 2 ^ t.hash_shift

  -- The loop of extern_rec, on as many turns as there are slots.
  unfoldable pub find : ℕ → List ExternObj → Value → (h : ℕ) → Option Search
  find zero slots v h = none
  find (suc f) slots v h =
      let rest = find f slots v (next_slot (length slots) h) in
      do
        (ofs, obj) ← get_elem? slots h
        if leb initial_ofs ofs
            then (if same_value obj v then some (found ofs) else rest)
            else some (free h)

  -- The loop of resize_extern_table.
  unfoldable pub free_slot : ℕ → List ExternObj → (h : ℕ) → Option ℕ
  free_slot zero slots h = none
  free_slot (suc f) slots h =
      let rest = free_slot f slots (next_slot (length slots) h) in
      do (ofs, obj) ← get_elem? slots h; if ltb 0 ofs then rest else some h

  unfoldable pub reinsert : List ExternObj → ExternTable → Option ExternTable
  reinsert [] t = some t
  reinsert ((ofs, obj) ∷ old) t =
      if leb initial_ofs ofs
      then (do
        h ← free_slot (length t.slots) t.slots (hash t obj)
        reinsert old (record t { slots = set t.slots h (ofs, obj) }))
      else reinsert old t

  -- The bytes of the table have addresses, so that it has fewer than 2^29 slots.
  unfoldable pub resize_extern_table : ExternTable → Option ExternTable
  resize_extern_table t = reinsert t.slots (record {
    slots = replicate (2 * length t.slots) (0, val_unit);
    hash_shift = t.hash_shift - 1;
  })

  unfoldable pub find_or_record :
      ExternTable → Value → (obj_counter : ℕ) → Option (Option ℕ × ExternTable)
  find_or_record t v obj_counter = do
    t' ← if leb (length t.slots) (2 * obj_counter) then resize_extern_table t else some t
    r ← find (length t'.slots) t'.slots v (hash t' v)
    elim r [
      | found ofs ↦ some (some (ofs - initial_ofs), t')
      | free h ↦ some (none, record t' { slots = set t'.slots h (initial_ofs + obj_counter, v) })
    ]
