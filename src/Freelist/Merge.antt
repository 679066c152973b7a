-- ===== src/Freelist/Merge.antt =====
-- How the sweep gives blocks back to the free list, and the heap grows: `fl_merge_block` and
-- `fl_add_block` of byterun/freelist.c.
use ocamil.Prelude.{
  ℕ, zero, suc, ◌+◌, ◌-◌, true, false, ◌&&◌, Option, none, some, ltb, leb, ◌==◌, if◌then◌else◌,
  ◌>>=◌,
}
use ocamil.Freelist.{FreeList, white, blue, is, set_next, set_header}

-- The block that is given back, as it grows, with the block of the list behind it.
pub record Freed : Type 0 where
  pub bp : ℕ
  pub size : ℕ
  pub cur : Option ℕ
  pub list : FreeList

-- An empty block just before, which is in no list, is joined.
unfoldable pub join_fragment : ℕ → FreeList → Freed
unfolding set_header
join_fragment bp s =
    let size = s.wosize bp in
    let cur = s.next s.fl_merge in
    let s₁ : FreeList = record s { fl_cur_size = s.fl_cur_size + suc size } in
    if is s.last_fragment (bp - 1)
    then record {
      bp = bp - 1;
      size = suc size;
      cur = cur;
      list = set_header (bp - 1) (suc size) white (record s₁ { fl_cur_size = s₁.fl_cur_size + 1 });
    }
    else record { bp = bp; size = size; cur = cur; list = s₁ }

-- The next block of the list, when it is adjacent, leaves the list and is joined.
unfoldable pub join_next : Freed → Freed
unfolding set_header set_next
join_next b = elim b.cur [
  | none ↦ b
  | some c ↦
      let s = b.list in
      let size = b.size + suc (s.wosize c) in
      let s' = set_next s.fl_merge (s.next c) s in
      if c == suc (b.bp + b.size)
      then record b {
        size = size;
        cur = s.next c;
        list =
            set_header b.bp size blue
              (record s' { fl_prev = if s.fl_prev == c then s.fl_merge else s.fl_prev });
      }
      else b
]

-- The block is joined to the one before, or enters the list, or is left as an empty block.
unfoldable pub join_prev : Freed → FreeList
unfolding set_header set_next
join_prev b =
    let s = b.list in
    let prev = s.fl_merge in
    if suc (prev + s.wosize prev) == b.bp
    then set_header prev (s.wosize prev + suc b.size) blue s
    else if b.size == 0
    then record s { last_fragment = some b.bp; fl_cur_size = s.fl_cur_size - 1 }
    else record (set_next prev (some b.bp) (set_next b.bp b.cur (set_header b.bp b.size blue s))) {
      fl_merge = b.bp;
    }

-- With the address of the header of the block behind.
unfoldable pub fl_merge_block : ℕ → FreeList → ℕ × FreeList
unfolding join_prev join_next join_fragment
fl_merge_block bp s = let b = join_next (join_fragment bp s) in (b.bp + b.size, join_prev b)

-- The place of a new block in the order of addresses, on fuel.
unfoldable pub find_place : ℕ → (bp prev : ℕ) → FreeList → Option (ℕ × Option ℕ)
find_place zero bp prev s = none
find_place (suc f) bp prev s = elim (s.next prev) [
  | none ↦ some (prev, none)
  | some cur ↦
      let rest = find_place f bp cur s in if ltb cur bp then rest else some (prev, some cur)
]

-- Just after a search that found no block.
unfoldable pub fl_add_block : (fl_head gc_sweep_hp bp : ℕ) → FreeList → Option FreeList
unfolding set_next
fl_add_block fl_head gc_sweep_hp bp s = do
  last ← s.fl_last
  let s' : FreeList = record s { fl_cur_size = s.fl_cur_size + suc (s.wosize bp) }
  elim (ltb last bp) [
    | true ↦ some (set_next bp none (set_next last (some bp) s'))
    | false ↦ do
      (prev, cur) ← find_place (suc s'.fl_cur_size) bp fl_head s'
      let s'' = set_next prev (some bp) (set_next bp cur s')
      some (record s'' {
        fl_merge = if (prev == s.fl_merge) && leb bp gc_sweep_hp then bp else s.fl_merge;
      })
  ]
