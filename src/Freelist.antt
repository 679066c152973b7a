-- ===== src/Freelist.antt =====
-- The free list, byterun/freelist.c: next-fit allocation from a list of blocks in the order of
-- their addresses. The memory is explicit: the link, the size and the colour of the block at each
-- address. Addresses count words, a block is known by its first field (its header is the word
-- before), and a null pointer is `none`. `fl_head` is where the sentinel lies.
pub mod Merge
pub mod Chain
pub mod Cover
mod Taken
pub mod Search
pub mod Fit
mod Allocate
pub mod Extend
pub mod Sweep
mod Tests
use ocamil.Prelude.{
  ℕ, zero, suc, ◌+◌, ◌-◌, Bool, true, false, ◌&&◌, Option, none, some, ltb, leb, ◌==◌,
  if◌then◌else◌,
}

-- The colours that the free list gives to a block.
pub data Color : Type 0 where
  white blue : Color

pub record FreeList : Type 0 where
  pub next : ℕ → Option ℕ
  pub wosize : ℕ → ℕ
  pub color : ℕ → Color
  pub fl_prev : ℕ
  pub fl_last : Option ℕ
  pub fl_merge : ℕ
  pub fl_cur_size : ℕ
  pub last_fragment : Option ℕ

abbrev pub update {ℓ} : {A : Type ℓ} → (ℕ → A) → ℕ → A → ℕ → A
update f p a q = if p == q then a else f q

abbrev pub is : Option ℕ → ℕ → Bool
is none p = false
is (some q) p = q == p

-- A write of a link, and of a header.
unfoldable pub set_next : ℕ → Option ℕ → FreeList → FreeList
set_next p q s = record s { next = update s.next p q }

unfoldable pub set_header : ℕ → ℕ → Color → FreeList → FreeList
set_header p size color s = record s {
  wosize = update s.wosize p size;
  color = update s.color p color;
}

-- `whsize` words with the header are taken from the block at `cur`, at its end. In the first two
-- cases the block leaves the list, and a header of an empty block stays at its place.
unfoldable pub allocate_block : (whsize prev cur : ℕ) → FreeList → ℕ × FreeList
unfolding set_next set_header
allocate_block whsize prev cur s =
    let size = s.wosize cur in
    let s' =
      (if ltb size (suc whsize)
        then set_header cur 0 white (record (set_next prev (s.next cur) s) {
          fl_cur_size = s.fl_cur_size - suc size;
          fl_merge = if s.fl_merge == cur then prev else s.fl_merge;
        })
        else set_header cur (size - whsize) blue
            (record s { fl_cur_size = s.fl_cur_size - whsize })) in
    (cur + size - whsize, record s' { fl_prev = prev })

pub data Allocation : Type 0 where
  allocated : ℕ × FreeList → Allocation
  no_block : FreeList → Allocation
  -- The second search follows a link that is null.
  fault : Allocation
  out_of_fuel : Allocation

pub data Found : Type 0 where
  fits : (prev cur : ℕ) → Found
  ends : (prev : ℕ) → Found
  null_block : Found
  no_fuel : Found

-- From `prev` on to the end of the list.
unfoldable pub search_to_end : ℕ → (wosize prev : ℕ) → FreeList → Found
search_to_end zero wosize prev s = no_fuel
search_to_end (suc f) wosize prev s = elim (s.next prev) [
  | none ↦ ends prev
  | some cur ↦
      let rest = search_to_end f wosize cur s in
      if leb wosize (s.wosize cur) then fits prev cur else rest
]

-- From `prev` on to `fl_prev`.
unfoldable pub search_to_prev : ℕ → (wosize prev : ℕ) → FreeList → Found
search_to_prev zero wosize prev s = no_fuel
search_to_prev (suc f) wosize prev s = if prev == s.fl_prev then ends prev else elim (s.next prev) [
  | none ↦ null_block
  | some cur ↦
      let rest = search_to_prev f wosize cur s in
      if leb wosize (s.wosize cur) then fits prev cur else rest
]

module _ (fl_head : ℕ) where
  -- Every block of the list counts in `fl_cur_size`, with a header, so that no search is longer.
  unfoldable pub fl_allocate : ℕ → FreeList → Allocation
  fl_allocate wosize s =
      let fuel = suc s.fl_cur_size in
      elim (search_to_end fuel wosize s.fl_prev s) [
        | fits prev cur ↦ allocated (allocate_block (suc wosize) prev cur s)
        | ends prev ↦
            let s' : FreeList = record s { fl_last = some prev } in
            elim (search_to_prev fuel wosize fl_head s') [
              | fits prev cur ↦ allocated (allocate_block (suc wosize) prev cur s')
              | ends prev ↦ no_block s'
              | null_block ↦ fault
              | no_fuel ↦ out_of_fuel
            ]
        | null_block ↦ fault
        | no_fuel ↦ out_of_fuel
      ]

  unfoldable pub fl_init_merge : FreeList → FreeList
  fl_init_merge s = record s { last_fragment = none; fl_merge = fl_head }

  unfoldable pub fl_reset : FreeList → FreeList
  unfolding set_next fl_init_merge
  fl_reset s =
      fl_init_merge (record (set_next fl_head none s) { fl_prev = fl_head; fl_cur_size = 0 })
