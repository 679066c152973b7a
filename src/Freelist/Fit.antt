-- ===== src/Freelist/Fit.antt =====
-- `allocate_block` of byterun/freelist.c and the list of free blocks.
use ocamil.Prelude.{
  ℕ, suc, ◌+◌, ◌-◌, ◌≤◌, ◌≡◌, refl, true, false, List, [], ◌∷◌, ◌++◌, ltb, if◌then◌else◌, arith,
  inl, inr, Bool-cases,
}
use ocamil.Freelist.{FreeList, allocate_block, update, set_next, set_header}
use ocamil.Freelist.Chain.{
  Linked, Ordered, Fresh, total, last, Ordered-Distinct, Linked-remove, Ordered-remove,
  Ordered-shrink, Fresh-remove, total-remove, total-resize, Ordered-mono,
}
use ocamil.Freelist.Taken.{Ordered-behind, Ordered-replace, Ordered-split}

-- The blocks of the list, those up to `fl_prev` and those behind.
pub record Listed (fl_head : ℕ) (s : FreeList) (front back : List ℕ) : Type 0 where
  pub links : Linked s.next fl_head (front ++ back)
  pub current : last fl_head front ≡ s.fl_prev
  pub order : Ordered s.wosize 0 (front ++ back)
  pub head_apart : Fresh fl_head (front ++ back)
  pub words : total s.wosize (front ++ back) ≡ s.fl_cur_size

update_twice_le : (size : ℕ → ℕ) (c p v b : ℕ) → update (update size c 0) p v b ≤ update size p v b
update_twice_le size c p v b = ground arith

-- What is left of the block at `c` in the list.
abbrev pub kept : (size whsize c : ℕ) → List ℕ
kept size whsize c = if ltb size (suc whsize) then [] else c ∷ []

module _ (fl_head : ℕ) (s : FreeList) (n c : ℕ) (pre post : List ℕ) where
  -- After an allocation of `n` words with a header, at `hp`, from the block at `c`: the list is what
  -- it was, but for `c`, and the new block comes behind what is left of `c`, before the others.
  abbrev pub Taken : ℕ × FreeList → Type 0
  Taken (hp, s') =
      let rest = kept (s.wosize c) (suc n) c in
      (hp + suc n ≡ c + s.wosize c)
      × Listed fl_head s' pre (rest ++ post)
      × Ordered (update s'.wosize (suc hp) n) 0 (pre ++ (rest ++ suc hp ∷ post))

  allocate_whole :
      Linked s.next fl_head (pre ++ c ∷ post)
      → Ordered s.wosize 0 (pre ++ c ∷ post)
      → Fresh fl_head (pre ++ c ∷ post)
      → total s.wosize (pre ++ c ∷ post) ≡ s.fl_cur_size
      → n ≤ s.wosize c
      → ltb (s.wosize c) (suc (suc n)) ≡ true
      → Taken (allocate_block (suc n) (last fl_head pre) c s)
  unfolding allocate_block set_next set_header
  allocate_whole l o f w h e =
      let positive = Ordered-behind s.wosize 0 c pre post o in
      let d = Ordered-Distinct s.wosize 0 fl_head (pre ++ c ∷ post) f o in
      let hp = suc (c + s.wosize c - suc n) in
      rw e (
        omega (arith, positive, h),
        record {
          links = Linked-remove s.next fl_head c pre post d l;
          current = refl;
          order =
              Ordered-shrink s.wosize 0 c 0 (pre ++ post) (omega arith)
                (Ordered-remove s.wosize 0 c pre post o);
          head_apart = Fresh-remove fl_head c pre post f;
          words = omega (arith, w, total-remove s.wosize fl_head c 0 pre post d);
        },
        Ordered-mono (update s.wosize hp n) (update (update s.wosize c 0) hp n) 0 0
            (pre ++ hp ∷ post) (λ b. update_twice_le s.wosize c hp n b) (omega arith)
            (Ordered-replace s.wosize c hp n post 0 pre (omega (arith, positive, h))
              (omega (arith, positive, h)) o),
      )

  allocate_part :
      Linked s.next fl_head (pre ++ c ∷ post)
      → Ordered s.wosize 0 (pre ++ c ∷ post)
      → Fresh fl_head (pre ++ c ∷ post)
      → total s.wosize (pre ++ c ∷ post) ≡ s.fl_cur_size
      → ltb (s.wosize c) (suc (suc n)) ≡ false
      → Taken (allocate_block (suc n) (last fl_head pre) c s)
  unfolding allocate_block set_header
  allocate_part l o f w e =
      let positive = Ordered-behind s.wosize 0 c pre post o in
      let d = Ordered-Distinct s.wosize 0 fl_head (pre ++ c ∷ post) f o in
      let enough : suc (suc n) ≤ s.wosize c = ground arith in
      let hp = suc (c + s.wosize c - suc n) in
      rw e (
        ground arith,
        record {
          links = l;
          current = refl;
          order =
              Ordered-shrink s.wosize 0 c (s.wosize c - suc n) (pre ++ c ∷ post) (omega arith) o;
          head_apart = f;
          words =
              omega
                (arith, enough, w, total-resize s.wosize fl_head c (s.wosize c - suc n) pre post d);
        },
        Ordered-split s.wosize c hp n post 0 (s.wosize c - suc n) pre (omega (arith, enough))
            (omega (arith, enough)) o,
      )

  -- An allocation from a block of the list that is large enough keeps the list in order, with its
  -- size, and the new block lies apart from the blocks that are left, at the end of the free one.
  pub allocate_block-Taken :
      Linked s.next fl_head (pre ++ c ∷ post)
      → Ordered s.wosize 0 (pre ++ c ∷ post)
      → Fresh fl_head (pre ++ c ∷ post)
      → total s.wosize (pre ++ c ∷ post) ≡ s.fl_cur_size
      → n ≤ s.wosize c
      → Taken (allocate_block (suc n) (last fl_head pre) c s)
  allocate_block-Taken l o f w h = elim (Bool-cases (ltb (s.wosize c) (suc (suc n)))) [
    | inl e ↦ allocate_whole l o f w h e
    | inr e ↦ allocate_part l o f w e
  ]
