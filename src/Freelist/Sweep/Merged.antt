-- ===== src/Freelist/Sweep/Merged.antt =====
-- The three stages of `fl_merge_block` in byterun/freelist.c, one after the other.
use ocamil.Prelude.{
  ℕ, suc, ◌+◌, ◌-◌, ap, ◌∙◌, ◌≤◌, ◌≡◌, ◌≢◌, if◌then◌else◌, refl, sym, true, false, List, ◌∷◌, ◌++◌,
  arith, inl, inr, Bool-cases, Option-cases, ◌==◌,
}
use ocamil.Freelist.{FreeList, set_next, set_header, is}
use ocamil.Freelist.Merge.{Freed, join_fragment, join_next, fl_merge_block}
use ocamil.Freelist.Chain.{
  Ordered, Fresh, last, Ordered-Distinct, total-update, Linked-append, update_ne, update_self,
  Fresh-append, Fresh-others,
}
use ocamil.Freelist.Cover.{
  inside, cover, Sparse, inside-join, cover-update, Sparse-prefix, Sparse-suffix, Sparse-update,
}
use ocamil.Freelist.Taken.{Ordered-behind}
use ocamil.Freelist.Sweep.{
  Placed, Swept, GivenBack, GivenBack-at, Linked-first, Ordered-join, Fresh-join, join_next-Placed,
}
use ocamil.Freelist.Sweep.Previous.{join_prev-GivenBack}

-- The block at `p` lies between `pre` and `post`, apart from them and from the sentinel, and so does
-- the empty block before it, when that is remembered.
pub record Between (fl_head : ℕ) (s : FreeList) (p : ℕ) (pre post : List ℕ) : Type 0 where
  pub order : Ordered s.wosize 0 (pre ++ p ∷ post)
  pub head_apart : Fresh fl_head (pre ++ p ∷ post)
  pub head_not_adjacent : suc (fl_head + s.wosize fl_head) ≢ p
  pub fragment_order :
      is s.last_fragment (p - 1) ≡ true → Ordered s.wosize 0 (pre ++ (p - 1) ∷ p ∷ post)
  pub fragment_apart : is s.last_fragment (p - 1) ≡ true → Fresh fl_head (pre ++ (p - 1) ∷ p ∷ post)
  pub fragment_empty : is s.last_fragment (p - 1) ≡ true → s.wosize (p - 1) ≡ 0
  pub fragment_not_adjacent :
      is s.last_fragment (p - 1) ≡ true → suc (fl_head + s.wosize fl_head) ≢ p - 1

join_next_keeps :
    (p : ℕ) (b : Freed)
    → p ≢ b.bp
    → ((join_next b).bp ≡ b.bp) × ((join_next b).list.wosize p ≡ b.list.wosize p)
unfolding join_next set_next set_header
join_next_keeps p b ne = elim (Option-cases b.cur) [
  | inl e ↦ rw (e, join_next) (refl, refl)
  | inr (c, e) ↦ elim (Bool-cases (c == suc (b.bp + b.size))) [
    | inl e' ↦
        rw (e, e', join_next)
          (refl, update_ne b.list.wosize b.bp p (b.size + suc (b.list.wosize c)) (λ q. ne (sym q)))
    | inr e' ↦ rw (e, e', join_next) (refl, refl)
  ]
]

-- The words of the block that is given back, with its header, and of the remembered empty block when
-- it is just before.
abbrev pub given_words : FreeList → (p a : ℕ) → ℕ
given_words s p a =
    inside p (s.wosize p) a + (if is s.last_fragment (p - 1) then inside (p - 1) 0 a else 0)

-- The words that the list is to have.
abbrev pub target : FreeList → (p : ℕ) → (pre post : List ℕ) → (a : ℕ) → ℕ
target s p pre post a = cover s.wosize (pre ++ post) a + given_words s p a

-- A block only grows, and stays where it begins.
join_next_grows : (b : Freed) → (b.size ≤ (join_next b).size) × ((join_next b).bp ≡ b.bp)
unfolding join_next set_next set_header
join_next_grows b = elim (Option-cases b.cur) [
  | inl e ↦ rw (e, join_next) (omega arith, refl)
  | inr (c, e) ↦ elim (Bool-cases (c == suc (b.bp + b.size))) [
    | inl e' ↦ rw (e, e', join_next) (omega arith, refl)
    | inr e' ↦ rw (e, e', join_next) (omega arith, refl)
  ]
]

module _ (fl_head : ℕ) (s : FreeList) (p : ℕ) (pre post : List ℕ)
    (apart : Sparse s.wosize (pre ++ post)) where
  join_fragment_none :
      Swept fl_head s pre post
      → Between fl_head s p pre post
      → is s.last_fragment (p - 1) ≡ false
      → Placed fl_head (target s p pre post) pre post (join_fragment p s)
  unfolding join_fragment
  join_fragment_none l b e =
      let behind =
        Linked-first s.next (last fl_head pre) post
          (Linked-append s.next fl_head pre post l.links) in
      rw (e, join_fragment)
        (record {
          links = l.links;
          behind = rw (sym l.before) behind;
          before = l.before;
          header_size = refl;
          order = b.order;
          head_apart = b.head_apart;
          words = omega (arith, l.words);
          covers = λ a. rw e (omega arith);
          sparse_before = Sparse-prefix s.wosize pre post apart;
          sparse_behind = Sparse-suffix s.wosize pre post apart;
        })

  join_fragment_some :
      Swept fl_head s pre post
      → Between fl_head s p pre post
      → is s.last_fragment (p - 1) ≡ true
      → Placed fl_head (target s p pre post) pre post (join_fragment p s)
  unfolding join_fragment set_header Fresh
  join_fragment_some l b e =
      let w = s.wosize in
      let q = p - 1 in
      let o = b.fragment_order e in
      let alone = b.fragment_apart e in
      let empty = b.fragment_empty e in
      let positive = Ordered-behind w 0 q pre (p ∷ post) o in
      let behind =
        Linked-first s.next (last fl_head pre) post
          (Linked-append s.next fl_head pre post l.links) in
      let (h₁, (h₂, (_, h₃))) = Fresh-append fl_head pre (q ∷ p ∷ post) alone in
      let (f, (_, g)) =
        Fresh-others fl_head q pre (p ∷ post)
          (Ordered-Distinct w 0 fl_head (pre ++ q ∷ p ∷ post) alone o) in
      let adjacent : suc (q + w q) ≡ p = omega (arith, empty, positive) in
      let joined : (a : ℕ) → inside q (suc (w p)) a ≡ inside q 0 a + inside p (w p) a = λ a.
        let size : suc (w p) ≡ 0 + suc (w p) = omega arith in
        ap (λ n. inside q n a) size ∙ inside-join q 0 p (w p) a (omega (arith, adjacent, empty)) in
      rw (e, join_fragment)
        (record {
          links = l.links;
          behind = rw (sym l.before) behind;
          before = l.before;
          header_size = update_self w q (suc (w p));
          order = Ordered-join w 0 q p (suc (w p)) pre post (omega (arith, empty)) adjacent o;
          head_apart = Fresh-join fl_head pre (q ∷ post) h₁ (h₂, h₃);
          words = omega (
            arith,
            l.words,
            total-update w q (suc (w p)) (pre ++ post) (Fresh-join q pre post f g),
          );
          covers = λ a. rw e (
              omega (
                arith,
                cover-update w q (suc (w p)) (pre ++ post) a (Fresh-join q pre post f g),
                joined a,
              ));
          sparse_before = Sparse-update w q (suc (w p)) pre f (Sparse-prefix w pre post apart);
          sparse_behind = Sparse-update w q (suc (w p)) post g (Sparse-suffix w pre post apart);
        })

  join_fragment-Placed :
      Swept fl_head s pre post
      → Between fl_head s p pre post
      → Placed fl_head (target s p pre post) pre post (join_fragment p s)
  join_fragment-Placed l b = elim (Bool-cases (is s.last_fragment (p - 1))) [
    | inl e ↦ join_fragment_some l b e
    | inr e ↦ join_fragment_none l b e
  ]

  -- The sentinel stays apart from what is given back.
  join_fragment_apart :
      Between fl_head s p pre post
      → suc (fl_head + (join_fragment p s).list.wosize fl_head) ≢ (join_fragment p s).bp
  unfolding join_fragment set_header Fresh
  join_fragment_apart b = elim (Bool-cases (is s.last_fragment (p - 1))) [
    | inl e ↦
        let (_, (ne, _)) = Fresh-append fl_head pre ((p - 1) ∷ p ∷ post) (b.fragment_apart e) in
        rw
          (
            e,
            join_fragment,
            update_ne s.wosize (p - 1) fl_head (suc (s.wosize p)) (λ q. ne (sym q)),
          )
          (b.fragment_not_adjacent e)
    | inr e ↦ rw (e, join_fragment) b.head_not_adjacent
  ]

  fragment_empty_lem :
      (join_fragment p s).size ≡ 0 → (s.wosize p ≡ 0) × ((join_fragment p s).bp ≡ p)
  unfolding join_fragment
  fragment_empty_lem e = ground arith

  -- What is empty in the end was joined to nothing.
  empty_lem :
      (join_next (join_fragment p s)).size ≡ 0
      → (s.wosize p ≡ 0) × ((join_next (join_fragment p s)).bp ≡ p)
  empty_lem e =
      let (grows, same) = join_next_grows (join_fragment p s) in
      let (empty, here) = fragment_empty_lem (omega arith) in (empty, same ∙ here)

  -- A block that the sweep gives back, between the blocks of the list up to `fl_merge` and those
  -- behind, apart from them and not adjacent to the sentinel, as is the remembered empty block
  -- before it, where no block of the list touches the next one: after `fl_merge_block` the list has
  -- its order, its size is counted, `fl_merge` stands in it, and still no block touches the next
  -- one. Its blocks take the words that they took before, those of the block with its header, and
  -- the remembered one, each of them once; or all of these but the header of an empty block, which
  -- touches no block of the list and is remembered.
  pub fl_merge_block-GivenBack :
      Swept fl_head s pre post
      → Between fl_head s p pre post
      → (front : List ℕ) × (rest : List ℕ) × GivenBack fl_head
          (target s p pre post)
          p
          (s.wosize p)
          (fl_merge_block p s).1
          front
          rest
  unfolding fl_merge_block Fresh
  fl_merge_block-GivenBack l b =
      let b₁ = join_fragment p s in
      let placed = join_fragment-Placed l b in
      let (rest, placed', gap) =
        join_next-Placed fl_head (target s p pre post) pre post b₁ placed in
      let (_, (ne, _)) = Fresh-append fl_head pre (b₁.bp ∷ post) placed.head_apart in
      let (same_bp, same_size) = join_next_keeps fl_head b₁ ne in
      let head_apart = join_fragment_apart b in
      let (front, given) =
        join_prev-GivenBack fl_head (target s p pre post) pre rest (join_next b₁) gap placed'
          (rw (same_bp, same_size) head_apart) in
      (
        front,
        rest,
        GivenBack-at fl_head (target s p pre post) (fl_merge_block p s).1 front rest empty_lem
            given,
      )
