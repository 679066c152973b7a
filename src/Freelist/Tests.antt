-- ===== src/Freelist/Tests.antt =====
-- A free list of two blocks, on the code of byterun/freelist.c.
use ocamil.Prelude.{List, ℕ, ◌≡◌, refl, some, none, [], ◌∷◌, ◌==◌, if◌then◌else◌, arith}
use ocamil.Freelist.{
  FreeList, blue, fl_allocate, allocated, allocate_block, search_to_end, search_to_prev, set_next,
  set_header,
}
use ocamil.Freelist.Merge.{fl_add_block, fl_merge_block, join_fragment, join_next, join_prev}
use ocamil.Freelist.Chain.{Linked, Ordered, Fresh, total}
use ocamil.Freelist.Fit.{Listed}
use ocamil.Freelist.Extend.{Extended, fl_add_block-Extended}
use ocamil.Freelist.Sweep.{Swept, GivenBack}
use ocamil.Freelist.Cover.{Sparse}
use ocamil.Freelist.Sweep.Merged.{Between, fl_merge_block-GivenBack, target}
use ocamil.Freelist.Allocate.{Allocates, fl_allocate-Allocates}

-- The sentinel is at 100, and the blocks at 1 and 6 have 3 and 2 fields.
abbrev two_blocks : FreeList
two_blocks = record {
  next = λ p. if p == 100 then some 1 else if p == 1 then some 6 else none;
  wosize = λ p. if p == 1 then 3 else if p == 6 then 2 else 0;
  color = λ p. blue;
  fl_prev = 1;
  fl_last = none;
  fl_merge = 100;
  fl_cur_size = 7;
  last_fragment = none;
}

two_blocks-Listed : Listed 100 two_blocks (1 ∷ []) (6 ∷ [])
unfolding Linked Ordered Fresh total
two_blocks-Listed = record {
  links = (refl, (refl, refl));
  current = refl;
  order = (omega arith, (omega arith, tt));
  head_apart = ((λ e. omega (arith, e)), ((λ e. omega (arith, e)), tt));
  words = refl;
}

fl_allocate-Allocates_example :
    Allocates 100 two_blocks 3 (1 ∷ 6 ∷ []) (fl_allocate 100 3 two_blocks)
fl_allocate-Allocates_example =
    fl_allocate-Allocates 100 two_blocks 3 (1 ∷ []) (6 ∷ []) two_blocks-Listed

-- The block of 3 fields is found from the start of the list, and its header is the word 0.
takes_first :
    fl_allocate 100 3 two_blocks
    ≡ allocated (0, (allocate_block 4 100 1 (record two_blocks { fl_last = some 6 })).1)
unfolding fl_allocate allocate_block search_to_end search_to_prev set_next set_header
takes_first = refl

-- A block of one field at 10, given back behind the block at 6, is joined to it with the empty
-- block between them.
joins :
    (fl_merge_block 10 (record two_blocks {
      wosize = λ p. if p == 6 then 2 else 1;
      last_fragment = some 9;
      fl_merge = 6;
    })).1.wosize
      6
    ≡ 5
unfolding fl_merge_block join_fragment join_next join_prev set_next set_header
joins = refl

-- The heap grows by a block between the two, after a search that found nothing.
abbrev searched : FreeList
searched = record two_blocks {
  fl_last = some 16;
  next = λ p. if p == 100 then some 1 else if p == 1 then some 16 else none;
  wosize = λ p. 3;
  fl_cur_size = 8;
}

fl_add_block-Extended_example : Extended 100 8 (1 ∷ []) (16 ∷ []) (fl_add_block 100 0 8 searched)
unfolding Linked Ordered Fresh total
fl_add_block-Extended_example =
    fl_add_block-Extended 100 0 8 searched (1 ∷ []) (16 ∷ []) refl (refl, (refl, refl))
      (omega arith, (omega arith, (omega arith, tt)))
      ((λ e. omega (arith, e)), ((λ e. omega (arith, e)), ((λ e. omega (arith, e)), tt))) refl

-- The sweep gives back the block at 12, which is adjacent to the one at 16.
abbrev swept_to_12 : FreeList
swept_to_12 = record searched { fl_merge = 1 }

swept_to_12-Swept : Swept 100 swept_to_12 (1 ∷ []) (16 ∷ [])
unfolding Linked Ordered Fresh total
swept_to_12-Swept = record {
  links = (refl, (refl, refl));
  before = refl;
  order = (omega arith, (omega arith, tt));
  head_apart = ((λ e. omega (arith, e)), ((λ e. omega (arith, e)), tt));
  words = refl;
}

swept_to_12-Between : Between 100 swept_to_12 12 (1 ∷ []) (16 ∷ [])
unfolding Ordered Fresh
swept_to_12-Between = record {
  order = (omega arith, (omega arith, (omega arith, tt)));
  head_apart = ((λ e. omega (arith, e)), ((λ e. omega (arith, e)), ((λ e. omega (arith, e)), tt)));
  head_not_adjacent = λ e. omega (arith, e);
  fragment_order = λ e. ground arith;
  fragment_apart = λ e. ground arith;
  fragment_empty = λ e. ground arith;
  fragment_not_adjacent = λ e. ground arith;
}

swept_to_12-Sparse : Sparse swept_to_12.wosize (1 ∷ 16 ∷ [])
unfolding Sparse
swept_to_12-Sparse = ((λ e. omega (arith, e)), (tt, tt))

fl_merge_block-GivenBack_example :
    (front : List ℕ) × (rest : List ℕ) × GivenBack 100
      (target swept_to_12 12 (1 ∷ []) (16 ∷ []))
      12
      3
      (fl_merge_block 12 swept_to_12).1
      front
      rest
fl_merge_block-GivenBack_example =
    fl_merge_block-GivenBack 100 swept_to_12 12 (1 ∷ []) (16 ∷ []) swept_to_12-Sparse
      swept_to_12-Swept swept_to_12-Between
