-- ===== src/Freelist/Extend.antt =====
-- `fl_add_block` of byterun/freelist.c and the list of free blocks.
use ocamil.Prelude.{
  ℕ, zero, suc, ◌+◌, ◌≤◌, ◌<◌, ◌≡◌, ◌≢◌, refl, sym, ap, ◌∙◌, Option, none, some, true, false, List,
  [], ◌∷◌, ◌++◌, ltb, arith, inl, inr, Bool-cases, length, length-append,
}
use ocamil.Freelist.{FreeList, update, set_next}
use ocamil.Freelist.Merge.{find_place, fl_add_block}
use ocamil.Freelist.Chain.{
  Linked, Ordered, Fresh, Distinct, total, last, last-append, length-total, Ordered-Distinct,
  Linked-update, total-append, last_ne, update_ne, update_self, Distinct-Fresh, Fresh-append,
}
use ocamil.Freelist.Taken.{Ordered-behind}

abbrev pub first : List ℕ → Option ℕ
first [] = none
first (b ∷ bs) = some b

-- The links with a block behind the last of `xs`.
abbrev pub inserted : (ℕ → Option ℕ) → (p b : ℕ) → (xs ys : List ℕ) → ℕ → Option ℕ
inserted next p b xs ys = update (update next b (first ys)) (last p xs) (some b)

pub Linked-insert :
    (next : ℕ → Option ℕ) (p b : ℕ) (xs ys : List ℕ)
    → Distinct p (xs ++ b ∷ ys)
    → Linked next p (xs ++ ys)
    → Linked (inserted next p b xs ys) p (xs ++ b ∷ ys)
unfolding Linked Distinct Fresh
Linked-insert next p b [] [] ((ne, _), _) l = (
  update_self (update next b none) p (some b),
  rw (update_ne (update next b none) p b (some b) ne) (update_self next b none),
)
Linked-insert next p b [] (y ∷ ys) ((ne, f), d) (_, ls) = (
  update_self (update next b (some y)) p (some b),
  (
    rw (update_ne (update next b (some y)) p b (some b) ne) (update_self next b (some y)),
    Linked-update (update next b (some y)) p y (some b) ys f
        (Linked-update next b y (some y) ys (Distinct-Fresh b (y ∷ ys) d) ls),
  ),
)
Linked-insert next p b (x ∷ xs) ys (f, d) (l, ls) =
    let (_, (ne, _)) = Fresh-append p (x ∷ xs) (b ∷ ys) f in
    (
      rw
          (
            update_ne (update next b (first ys)) (last x xs) p (some b) (last_ne p x xs (b ∷ ys) f),
            update_ne next b p (first ys) (λ e. ne (sym e)),
          )
          l,
      Linked-insert next x b xs ys d ls,
    )

-- The search of the place stops before the blocks behind it.
find_place_stops :
    (s : FreeList) (f b p end : ℕ) (ys : List ℕ)
    → b ≤ end
    → Ordered s.wosize end ys
    → Linked s.next p ys
    → find_place (suc f) b p s ≡ some (p, first ys)
unfolding find_place Linked Ordered
find_place_stops s f b p end [] h o l = rw (l, find_place) refl
find_place_stops s f b p end (y ∷ ys) h (o, _) (l, _) =
    let above : ltb y b ≡ false = ground arith in rw (l, find_place) (rw above refl)

module _ (s : FreeList) (b : ℕ) (ys : List ℕ) where
  find_place_lem :
      (f p end : ℕ) (xs : List ℕ)
      → length xs < f
      → Ordered s.wosize end (xs ++ b ∷ ys)
      → Linked s.next p (xs ++ ys)
      → find_place f b p s ≡ some (last p xs, first ys)
  unfolding find_place Linked Ordered
  find_place_lem zero p end xs h o l = elim h [ ]
  find_place_lem (suc f) p end [] h (_, os) l =
      find_place_stops s f b p (b + s.wosize b) ys (omega arith) os l
  find_place_lem (suc f) p end (x ∷ xs) h (o, os) (l, ls) =
      let before = Ordered-behind s.wosize (x + s.wosize x) b xs ys os in
      let below : ltb x b ≡ true = ground arith in
      rw (l, find_place) (rw below (find_place_lem f x (x + s.wosize x) xs (omega arith) os ls))

update-swap :
    (next : ℕ → Option ℕ) (p q : ℕ) (v w : Option ℕ) (x : ℕ)
    → p ≢ q
    → update (update next q w) p v x ≡ update (update next p v) q w x
update-swap next p q v w x ne = ground arith

-- Two links of different blocks can be set in either order.
Linked-swap :
    (next : ℕ → Option ℕ) (p q : ℕ) (v w : Option ℕ) (x : ℕ) (bs : List ℕ)
    → p ≢ q
    → Linked (update (update next p v) q w) x bs
    → Linked (update (update next q w) p v) x bs
unfolding Linked
Linked-swap next p q v w x [] ne l = rw (update-swap next p q v w x ne) l
Linked-swap next p q v w x (b ∷ bs) ne (l, ls) =
    (rw (update-swap next p q v w x ne) l, Linked-swap next p q v w b bs ne ls)

-- What the list is with the new block.
abbrev pub Extended : (fl_head b : ℕ) → (pre post : List ℕ) → Option FreeList → Type 0
Extended fl_head b pre post none = ⊥
Extended fl_head b pre post (some s') =
    Linked s'.next fl_head (pre ++ b ∷ post)
    × Ordered s'.wosize 0 (pre ++ b ∷ post)
    × (total s'.wosize (pre ++ b ∷ post) ≡ s'.fl_cur_size)

Ordered-last :
    (size : ℕ → ℕ) (end y : ℕ) (ys : List ℕ) → Ordered size end (y ∷ ys) → end < last y ys
unfolding Ordered
Ordered-last size end y [] (o, _) = o
Ordered-last size end y (z ∷ ys) (o, os) = omega (arith, Ordered-last size (y + size y) z ys os)

-- The part of the order behind a block.
pub Ordered-after :
    (size : ℕ → ℕ) (end b : ℕ) (xs ys : List ℕ)
    → Ordered size end (xs ++ b ∷ ys)
    → Ordered size (b + size b) ys
unfolding Ordered
Ordered-after size end b [] ys (_, os) = os
Ordered-after size end b (x ∷ xs) ys (_, os) = Ordered-after size (x + size x) b xs ys os

module _ (fl_head gc_sweep_hp b : ℕ) (s : FreeList) (pre : List ℕ) where
  add_last :
      s.fl_last ≡ some (last fl_head pre)
      → Linked s.next fl_head (pre ++ [])
      → Ordered s.wosize 0 (pre ++ b ∷ [])
      → Fresh fl_head (pre ++ b ∷ [])
      → total s.wosize (pre ++ b ∷ []) ≡ s.fl_cur_size + suc (s.wosize b)
      → ltb (last fl_head pre) b ≡ true
      → Extended fl_head b pre [] (fl_add_block fl_head gc_sweep_hp b s)
  unfolding fl_add_block set_next
  add_last e l o f w h =
      let d = Ordered-Distinct s.wosize 0 fl_head (pre ++ b ∷ []) f o in
      let ne : b ≢ last fl_head pre = λ q. ground arith in
      rw (e, h, fl_add_block, Extended)
        (
          Linked-swap s.next b (last fl_head pre) none (some b) fl_head (pre ++ b ∷ []) ne
              (Linked-insert s.next fl_head b pre [] d l),
          o,
          w,
        )

  add_inside :
      (last_block : ℕ) (post : List ℕ)
      → s.fl_last ≡ some last_block
      → Linked s.next fl_head (pre ++ post)
      → Ordered s.wosize 0 (pre ++ b ∷ post)
      → Fresh fl_head (pre ++ b ∷ post)
      → total s.wosize (pre ++ b ∷ post) ≡ s.fl_cur_size + suc (s.wosize b)
      → ltb last_block b ≡ false
      → Extended fl_head b pre post (fl_add_block fl_head gc_sweep_hp b s)
  unfolding fl_add_block set_next
  add_inside last_block post e l o f w h =
      let d = Ordered-Distinct s.wosize 0 fl_head (pre ++ b ∷ post) f o in
      let s' : FreeList = record s { fl_cur_size = s.fl_cur_size + suc (s.wosize b) } in
      let short : length pre < suc s'.fl_cur_size =
        omega (arith, w, length-total s.wosize (pre ++ b ∷ post), length-append pre (b ∷ post)) in
      let place = find_place_lem s' b post (suc s'.fl_cur_size) fl_head 0 pre short o l in
      rw (e, h, fl_add_block, Extended, place) (Linked-insert s.next fl_head b pre post d l, o, w)

  words_with :
      (post : List ℕ)
      → total s.wosize (pre ++ post) ≡ s.fl_cur_size
      → total s.wosize (pre ++ b ∷ post) ≡ s.fl_cur_size + suc (s.wosize b)
  unfolding total
  words_with post w =
      omega (arith, w, total-append s.wosize pre post, total-append s.wosize pre (b ∷ post))

  -- A heap extension enters the list at its place: after a search that found no block, when `pre`
  -- are the blocks of the list before the new block and `post` those behind, `fl_add_block` returns
  -- with the new block between them, and the list has its order and counts its size.
  pub fl_add_block-Extended :
      (post : List ℕ)
      → s.fl_last ≡ some (last fl_head (pre ++ post))
      → Linked s.next fl_head (pre ++ post)
      → Ordered s.wosize 0 (pre ++ b ∷ post)
      → Fresh fl_head (pre ++ b ∷ post)
      → total s.wosize (pre ++ post) ≡ s.fl_cur_size
      → Extended fl_head b pre post (fl_add_block fl_head gc_sweep_hp b s)
  fl_add_block-Extended [] e l o f w =
      let e' : s.fl_last ≡ some (last fl_head pre) = e ∙ ap some (last-append fl_head pre []) in
      elim (Bool-cases (ltb (last fl_head pre) b)) [
        | inl h ↦ add_last e' l o f (words_with [] w) h
        | inr h ↦ add_inside (last fl_head pre) [] e' l o f (words_with [] w) h
      ]
  fl_add_block-Extended (y ∷ ys) e l o f w =
      let e' : s.fl_last ≡ some (last y ys) = e ∙ ap some (last-append fl_head pre (y ∷ ys)) in
      let after = Ordered-after s.wosize 0 b pre (y ∷ ys) o in
      let behind = Ordered-last s.wosize (b + s.wosize b) y ys after in
      let h : ltb (last y ys) b ≡ false = ground arith in
      add_inside (last y ys) (y ∷ ys) e' l o f (words_with (y ∷ ys) w) h
