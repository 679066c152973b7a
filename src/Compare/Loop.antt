-- ===== src/Compare/Loop.antt =====
-- The loop of `compare_val` in byterun/compare.c with its explicit stack, and the primitives.
use ocamil.Prelude.{
  ℕ, zero, suc, ◌-◌, ◌*◌, Bool, ◌||◌, not, Option, none, some, List, [], ◌∷◌, ltb, leb, ◌==◌,
  if◌then◌else◌, length, ◌⊎◌, inl, inr,
}
use ocamil.Prelude.Int.{ℤ, pos, negsuc, ltb_ℤ}
use ocamil.Interp.Arith.{val_bool}
use ocamil.Machine.Value.{Value, Heap, field, val_int}
use ocamil.Compare.{
  CompareError, out_of_memory, Examined, next_item, differ, again, inside, raises, Outside, examine,
  is_zero,
}

abbrev pub compare_stack_init_size : ℕ
compare_stack_init_size = 256

abbrev pub compare_stack_max_size : ℕ
compare_stack_max_size = 1024 * 1024

-- `struct compare_item`: both pointers move together, so that one index serves them.
pub record CompareItem : Type 0 where
  pub v1 : Value
  pub v2 : Value
  pub index : ℕ
  pub count : ℕ

-- The registers of the loop. The top of the stack comes first; `limit` is
-- `compare_stack_limit - compare_stack`, which is the initial size exactly when the stack is
-- `compare_stack_init`.
pub record Comparing : Type 0 where
  pub v1 : Value
  pub v2 : Value
  pub stack : List CompareItem
  pub limit : ℕ

pub data Comparison : Type 0 where
  order : ℤ → Comparison
  raised : CompareError → Comparison
  fault : Comparison
  out_of_fuel : Comparison

pub data Turn : Type 0 where
  finished : Comparison → Turn
  continues : Comparing → Turn

-- The new limit, when the larger stack is there.
unfoldable pub compare_resize_stack : (malloc : ℕ → Bool) → (limit : ℕ) → Option ℕ
compare_resize_stack malloc limit =
    let newsize = 2 * limit in
    if leb compare_stack_max_size newsize || not (malloc newsize) then none else some newsize

-- The limit for a stack of that height.
unfoldable pub room : (malloc : ℕ → Bool) → (sp limit : ℕ) → Option ℕ
unfolding compare_resize_stack
room malloc sp limit = if leb limit sp then compare_resize_stack malloc limit else some limit

-- `next_item`, with what `--(sp->count) == 0` leaves of an item.
unfoldable pub remaining : CompareItem → List CompareItem → List CompareItem
remaining item rest =
    if item.count - 1 == 0
    then rest
    else record item { index = suc item.index; count = item.count - 1 } ∷ rest

unfoldable pub next_turn : Heap → (stack : List CompareItem) → (limit : ℕ) → Turn
unfolding remaining
next_turn h [] limit = finished (order (pos 0))
next_turn h (item ∷ rest) limit = elim (field h item.v1 item.index) [
  | none ↦ finished fault
  | some v1 ↦ elim (field h item.v2 item.index) [
    | none ↦ finished fault
    | some v2 ↦ continues (record { v1 = v1; v2 = v2; stack = remaining item rest; limit = limit })
  ]
]

-- The stack that remembers the fields from 1 on, where there are such. `sp` is the height, so that
-- the item is written at that index, and a write at the limit or above it is a fault.
unfoldable pub remember : (malloc : ℕ → Bool) → Comparing → ℕ → Turn
unfolding room
remember malloc s more =
    let sp = suc (length s.stack) in
    if ltb 0 more
    then elim (room malloc sp s.limit) [
      | none ↦ finished (raised out_of_memory)
      | some limit ↦
          let item : CompareItem = record { v1 = s.v1; v2 = s.v2; index = 1; count = more } in
          if ltb sp limit
          then continues (record s { stack = item ∷ s.stack; limit = limit })
          else finished fault
    ]
    else continues s

unfoldable pub first_fields : Heap → Comparing → Turn
first_fields h s = elim (field h s.v1 0) [
  | none ↦ finished fault
  | some v1 ↦ elim (field h s.v2 0) [
    | none ↦ finished fault
    | some v2 ↦ continues (record s { v1 = v1; v2 = v2 })
  ]
]

abbrev pub sign : ℤ → Value
sign (negsuc _) = val_int (negsuc 0)
sign (pos n) = if n == 0 then val_int (pos 0) else val_int (pos 1)

abbrev pub on_order : (ℤ → Value) → Comparison → Value ⊎ Comparison
on_order test (order d) = inl (test d)
on_order test c = inr c

module _ (o : Outside) (h : Heap) where
  unfoldable pub turn_for : Comparing → Examined → Turn
  unfolding next_turn remember first_fields
  turn_for s next_item = next_turn h s.stack s.limit
  turn_for s (differ d) = finished (order d)
  turn_for s (again v1 v2) = continues (record s { v1 = v1; v2 = v2 })
  turn_for s (raises e) = finished (raised e)
  turn_for s (inside more) = elim (remember o.malloc s more) [
    | finished c ↦ finished c
    | continues s' ↦ first_fields h s'
  ]

  unfoldable pub compare_turn : Comparing → Turn
  unfolding turn_for
  compare_turn s = elim (examine o h s.v1 s.v2) [ none ↦ finished fault | some e ↦ turn_for s e ]

  -- Cyclic values may be compared forever.
  unfoldable pub compare_loop : ℕ → Comparing → Comparison
  compare_loop zero s = out_of_fuel
  compare_loop (suc f) s = elim (compare_turn s) [
    | finished c ↦ c
    | continues s' ↦ compare_loop f s'
  ]

  -- With the stack as an earlier comparison left it: of its initial size, but larger after the
  -- failure on a custom block without a comparison, which does not free it.
  unfoldable pub compare_val : (fuel limit : ℕ) → (v1 v2 : Value) → Comparison
  compare_val f limit v1 v2 =
      compare_loop f (record { v1 = v1; v2 = v2; stack = []; limit = limit })

  -- What the primitive makes of the order, with the comparison that gave none.
  unfoldable pub primitive : (ℤ → Value) → (fuel limit : ℕ) → (v1 v2 : Value) → Value ⊎ Comparison
  unfolding compare_val
  primitive test f limit v1 v2 = on_order test (compare_val f limit v1 v2)

  unfoldable pub compare : (fuel limit : ℕ) → (v1 v2 : Value) → Value ⊎ Comparison
  unfolding primitive
  compare = primitive sign

  unfoldable pub equal : (fuel limit : ℕ) → (v1 v2 : Value) → Value ⊎ Comparison
  unfolding primitive
  equal = primitive (λ res. val_bool (is_zero res))

  unfoldable pub notequal : (fuel limit : ℕ) → (v1 v2 : Value) → Value ⊎ Comparison
  unfolding primitive
  notequal = primitive (λ res. val_bool (not (is_zero res)))

  unfoldable pub lessthan : (fuel limit : ℕ) → (v1 v2 : Value) → Value ⊎ Comparison
  unfolding primitive
  lessthan = primitive (λ res. val_bool (ltb_ℤ res (pos 0)))

  unfoldable pub lessequal : (fuel limit : ℕ) → (v1 v2 : Value) → Value ⊎ Comparison
  unfolding primitive
  lessequal = primitive (λ res. val_bool (not (ltb_ℤ (pos 0) res)))

  unfoldable pub greaterthan : (fuel limit : ℕ) → (v1 v2 : Value) → Value ⊎ Comparison
  unfolding primitive
  greaterthan = primitive (λ res. val_bool (ltb_ℤ (pos 0) res))

  unfoldable pub greaterequal : (fuel limit : ℕ) → (v1 v2 : Value) → Value ⊎ Comparison
  unfolding primitive
  greaterequal = primitive (λ res. val_bool (not (ltb_ℤ res (pos 0))))
