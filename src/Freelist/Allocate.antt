-- ===== src/Freelist/Allocate.antt =====
-- What `fl_allocate` of byterun/freelist.c answers.
use mathlib.Core.Path.{subst}
use ocamil.Prelude.{
  ℕ, suc, ◌≤◌, ◌<◌, ◌≡◌, refl, sym, ap, ◌∙◌, Option, none, some, List, [], ◌∷◌, ◌++◌, leb, arith,
  inl, inr, Bool-cases, length, length-append, leb→le,
}
use ocamil.Freelist.{
  FreeList, Allocation, allocated, no_block, fault, out_of_fuel, ends, search_to_end,
  search_to_prev, fl_allocate, allocate_block,
}
use ocamil.Freelist.Chain.{
  Linked, Ordered, Fresh, total, last, length-total, Ordered-Distinct, Linked-append, last-append,
  append_assoc,
}
use ocamil.Freelist.Search.{first_fit, found_or, search_to_end_lem, search_to_prev_lem}
use ocamil.Freelist.Fit.{Listed, Taken, allocate_block-Taken}

-- Whether no block has room.
abbrev pub TooSmall : (ℕ → ℕ) → (n : ℕ) → List ℕ → Type 0
TooSmall size n [] = Unit
TooSmall size n (b ∷ bs) = (size b < n) × TooSmall size n bs

-- What an allocation answers for a list of blocks: a null pointer when none has room, and else a
-- part of one of them.
abbrev pub Allocates : (fl_head : ℕ) → FreeList → ℕ → List ℕ → Allocation → Type 0
Allocates fl_head s n bs (allocated r) =
    (pre : List ℕ) × (c : ℕ) × (post : List ℕ) × (bs ≡ pre ++ c ∷ post)
    × (n ≤ s.wosize c)
    × Taken fl_head s n c pre post r
Allocates fl_head s n bs (no_block s') =
    TooSmall s.wosize n bs × (s' ≡ record s { fl_last = some (last fl_head bs) })
Allocates fl_head s n bs fault = ⊥
Allocates fl_head s n bs out_of_fuel = ⊥

TooSmall-append :
    (size : ℕ → ℕ) (n : ℕ) (xs ys : List ℕ)
    → TooSmall size n xs
    → TooSmall size n ys
    → TooSmall size n (xs ++ ys)
TooSmall-append size n [] ys h k = k
TooSmall-append size n (x ∷ xs) ys (h, hs) k = (h, TooSmall-append size n xs ys hs k)

-- What a search of the list says of it.
abbrev FirstFit : (ℕ → ℕ) → (n p : ℕ) → List ℕ → Option (ℕ × ℕ) → Type 0
FirstFit size n p bs none = TooSmall size n bs
FirstFit size n p bs (some (q, c)) =
    (pre : List ℕ) × (post : List ℕ) × (bs ≡ pre ++ c ∷ post) × (q ≡ last p pre) × (n ≤ size c)

FirstFit-cons :
    (size : ℕ → ℕ) (n p b : ℕ) (bs : List ℕ) (found : Option (ℕ × ℕ))
    → size b < n
    → FirstFit size n b bs found
    → FirstFit size n p (b ∷ bs) found
FirstFit-cons size n p b bs none h k = (h, k)
FirstFit-cons size n p b bs (some (q, c)) h (pre, post, e, e', le) =
    (b ∷ pre, post, ap (λ l. b ∷ l) e, e', le)

first_fit-FirstFit :
    (size : ℕ → ℕ) (n p : ℕ) (bs : List ℕ) → FirstFit size n p bs (first_fit size n p bs)
first_fit-FirstFit size n p [] = tt
first_fit-FirstFit size n p (b ∷ bs) = elim (Bool-cases (leb n (size b))) [
  | inl e ↦ rw e ([], bs, refl, refl, leb→le n (size b) e)
  | inr e ↦
      let h : size b < n = ground arith in
      rw e (FirstFit-cons size n p b bs (first_fit size n b bs) h (first_fit-FirstFit size n b bs))
]

module _ (fl_head : ℕ) (s : FreeList) (n : ℕ) (front back : List ℕ) where
  -- A fit in the list is an allocation.
  Allocates-fit :
      (pre : List ℕ) (c : ℕ) (post : List ℕ) (p : ℕ) (last_block : Option ℕ)
      → Listed fl_head s front back
      → front ++ back ≡ pre ++ c ∷ post
      → p ≡ last fl_head pre
      → n ≤ s.wosize c
      → Allocates fl_head s n
          (front ++ back)
          (allocated (allocate_block (suc n) p c (record s { fl_last = last_block })))
  Allocates-fit pre c post p last_block l e e' h = (
    pre,
    c,
    post,
    e,
    h,
    rw e' (
        allocate_block-Taken fl_head (record s { fl_last = last_block }) n c pre post
          (subst (Linked s.next fl_head) e l.links) (subst (Ordered s.wosize 0) e l.order)
          (subst (Fresh fl_head) e l.head_apart)
          (subst (λ bs. total s.wosize bs ≡ s.fl_cur_size) e l.words) h),
  )

  short_front : Listed fl_head s front back → length front < suc s.fl_cur_size
  short_front l =
      omega (arith, l.words, length-total s.wosize (front ++ back), length-append front back)

  short_back : Listed fl_head s front back → length back < suc s.fl_cur_size
  short_back l =
      omega (arith, l.words, length-total s.wosize (front ++ back), length-append front back)

  -- Where the first search stops when it finds nothing.
  last_all : Listed fl_head s front back → last fl_head (front ++ back) ≡ last s.fl_prev back
  last_all l = last-append fl_head front back ∙ ap (λ p. last p back) l.current

  abbrev with_last : FreeList
  with_last = record s { fl_last = some (last s.fl_prev back) }

  after_prev :
      (found : Option (ℕ × ℕ))
      → Listed fl_head s front back
      → TooSmall s.wosize n back
      → search_to_end (suc s.fl_cur_size) n s.fl_prev s ≡ ends (last s.fl_prev back)
      → FirstFit s.wosize n fl_head front found
      → search_to_prev (suc s.fl_cur_size) n fl_head with_last ≡ found_or s.fl_prev found
      → Allocates fl_head s n (front ++ back) (fl_allocate fl_head n s)
  unfolding fl_allocate
  after_prev none l small e₁ h e₂ =
      rw (e₁, e₂, fl_allocate, Allocates)
        (TooSmall-append s.wosize n front back h small, rw (last_all l) refl)
  after_prev (some (q, c)) l small e₁ (pre, post, e, e', le) e₂ =
      rw (e₁, e₂, fl_allocate, Allocates)
        (Allocates-fit pre c (post ++ back) q (some (last s.fl_prev back)) l
          (ap (λ l. l ++ back) e ∙ append_assoc pre (c ∷ post) back) e' le)

  after_end :
      (found : Option (ℕ × ℕ))
      → Listed fl_head s front back
      → FirstFit s.wosize n s.fl_prev back found
      → search_to_end (suc s.fl_cur_size) n s.fl_prev s ≡ found_or (last s.fl_prev back) found
      → Allocates fl_head s n (front ++ back) (fl_allocate fl_head n s)
  unfolding fl_allocate
  after_end none l h e₁ =
      after_prev (first_fit s.wosize n fl_head front) l h e₁
        (first_fit-FirstFit s.wosize n fl_head front)
        (search_to_prev_lem with_last (suc s.fl_cur_size) n fl_head front back (short_front l)
          l.links (Ordered-Distinct s.wosize 0 fl_head (front ++ back) l.head_apart l.order)
          l.current)
  after_end (some (q, c)) l (pre, post, e, e', le) e₁ =
      rw (e₁, fl_allocate, Allocates)
        (Allocates-fit (front ++ pre) c post q s.fl_last l
          (ap (λ l. front ++ l) e ∙ sym (append_assoc front pre (c ∷ post)))
          (e' ∙ ap (λ p. last p pre) (sym l.current) ∙ sym (last-append fl_head front pre)) le)

  -- On a list of blocks in order, with its size counted, an allocation ends, and answers a null
  -- pointer only if no block has room; otherwise it takes the end of a block of the list that is
  -- large enough. The list keeps its order and its size count, and the new block lies apart from
  -- the blocks that are left.
  pub fl_allocate-Allocates :
      Listed fl_head s front back → Allocates fl_head s n (front ++ back) (fl_allocate fl_head n s)
  fl_allocate-Allocates l =
      after_end (first_fit s.wosize n s.fl_prev back) l
        (first_fit-FirstFit s.wosize n s.fl_prev back)
        (search_to_end_lem s (suc s.fl_cur_size) n s.fl_prev back (short_back l) (
          subst (λ p. Linked s.next p back) l.current
            (Linked-append s.next fl_head front back l.links)))
