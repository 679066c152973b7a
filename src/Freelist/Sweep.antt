-- ===== src/Freelist/Sweep.antt =====
-- `fl_merge_block` of byterun/freelist.c and the list of free blocks.
pub mod Merged
pub mod Previous
use mathlib.Core.Path.{subst}
use ocamil.Prelude.{
  ℕ, zero, suc, ◌+◌, ◌-◌, ◌≤◌, ◌<◌, ◌≡◌, ◌≢◌, refl, sym, ap, ◌∙◌, Option, none, some, true, false,
  List, [], ◌∷◌, ◌++◌, ltb, leb, arith, inl, inr, Bool-cases, ◌==◌, if◌then◌else◌, ◌⊎◌,
}
use ocamil.Freelist.{FreeList, update, set_next, set_header, is}
use ocamil.Freelist.Merge.{Freed, join_fragment, join_next, join_prev, fl_merge_block}
use ocamil.Freelist.Chain.{
  Linked, Ordered, Fresh, Distinct, total, last, last-append, append_assoc, Ordered-Distinct,
  total-append, total-update, total-resize, Linked-remove, Linked-append, update_ne, update_self,
  Distinct-Fresh, Fresh-append, Fresh-others, Fresh-remove, Ordered-remove, Ordered-mono,
  Ordered-shrink, Ordered-Fresh,
}
use ocamil.Freelist.Cover.{
  inside, cover, Gap, Sparse, inside-join, cover-append, cover-update, cover-resize, Sparse-update,
  Sparse-snoc, Sparse-end, Sparse-last, Sparse-apart,
}
use ocamil.Freelist.Taken.{Ordered-behind, Ordered-update}
use ocamil.Freelist.Extend.{first, inserted, Linked-insert, Ordered-after}

-- A block that is to enter the list between `pre`, which `fl_merge` ends, and `post`. With the words
-- of the block, the list has those of `target`.
pub record Placed (fl_head : ℕ) (target : ℕ → ℕ) (pre post : List ℕ) (b : Freed) : Type 0 where
  pub links : Linked b.list.next fl_head (pre ++ post)
  pub behind : b.cur ≡ first post
  pub before : last fl_head pre ≡ b.list.fl_merge
  pub header_size : b.list.wosize b.bp ≡ b.size
  pub order : Ordered b.list.wosize 0 (pre ++ b.bp ∷ post)
  pub head_apart : Fresh fl_head (pre ++ b.bp ∷ post)
  pub words : total b.list.wosize (pre ++ post) + suc b.size ≡ b.list.fl_cur_size
  pub covers : (a : ℕ) → cover b.list.wosize (pre ++ post) a + inside b.bp b.size a ≡ target a
  pub sparse_before : Sparse b.list.wosize pre
  pub sparse_behind : Sparse b.list.wosize post

-- The list after it, with the blocks up to `fl_merge` and those behind.
pub record Swept (fl_head : ℕ) (s : FreeList) (pre post : List ℕ) : Type 0 where
  pub links : Linked s.next fl_head (pre ++ post)
  pub before : last fl_head pre ≡ s.fl_merge
  pub order : Ordered s.wosize 0 (pre ++ post)
  pub head_apart : Fresh fl_head (pre ++ post)
  pub words : total s.wosize (pre ++ post) ≡ s.fl_cur_size

-- The list has the words of `target`, or, when `size` is 0, all of them but the header of the block at
-- `bp`, which touches no block of the list and is remembered; and no block of the list touches the
-- next one.
pub record GivenBack (fl_head : ℕ) (target : ℕ → ℕ) (bp size : ℕ) (s : FreeList) (pre post : List ℕ)
    : Type 0 where
  pub swept : Swept fl_head s pre post
  pub sparse : Sparse s.wosize (pre ++ post)
  pub covers :
      ((a : ℕ) → cover s.wosize (pre ++ post) a ≡ target a)
      ⊎ ((size ≡ 0)
          × (s.last_fragment ≡ some bp)
          × (suc (s.fl_merge + s.wosize s.fl_merge) ≢ bp)
          × Gap bp post
          × ((a : ℕ) → cover s.wosize (pre ++ post) a + inside bp 0 a ≡ target a))

-- What is said of an empty block can be said of where it begins.
pub GivenBack-at :
    (fl_head : ℕ) (target : ℕ → ℕ) {bp size bp' size' : ℕ} (s : FreeList) (pre post : List ℕ)
    → (size ≡ 0 → (size' ≡ 0) × (bp ≡ bp'))
    → GivenBack fl_head target bp size s pre post
    → GivenBack fl_head target bp' size' s pre post
GivenBack-at fl_head target s pre post same given = record {
  swept = given.swept;
  sparse = given.sparse;
  covers = elim given.covers [
    | inl all ↦ inl all
    | inr (empty, kept, alone, gap, others) ↦
        let (empty', here) = same empty in
        inr (
          empty',
          kept ∙ ap some here,
          (λ e. alone (e ∙ sym here)),
          subst (λ q. Gap q post) here gap,
          (λ a. ap (λ q. cover s.wosize (pre ++ post) a + inside q 0 a) (sym here) ∙ others a),
        )
  ];
}

-- A block takes over the words of the one behind it, which is adjacent.
pub Ordered-join :
    (size : ℕ → ℕ) (end p c v : ℕ) (xs ys : List ℕ)
    → v ≡ size p + suc (size c)
    → suc (p + size p) ≡ c
    → Ordered size end (xs ++ p ∷ c ∷ ys)
    → Ordered (update size p v) end (xs ++ p ∷ ys)
unfolding Ordered
Ordered-join size end p c v [] ys e e' (o, (o', os)) = (
  o,
  rw (update_self size p v) (
      let ends : p + v ≡ c + size c = omega (arith, e, e') in
      rw ends (
        Ordered-update size (c + size c) p v ys
          (Ordered-Fresh size (c + size c) p ys (omega (arith, o')) os) os)),
)
Ordered-join size end p c v (x ∷ xs) ys e e' (o, os) =
    let before = Ordered-behind size (x + size x) p xs (c ∷ ys) os in
    (
      o,
      rw (update_ne size p x v (λ q. omega (arith, before, q)))
          (Ordered-join size (x + size x) p c v xs ys e e' os),
    )

pub Fresh-join : (p : ℕ) (xs ys : List ℕ) → Fresh p xs → Fresh p ys → Fresh p (xs ++ ys)
unfolding Fresh
Fresh-join p [] ys f g = g
Fresh-join p (x ∷ xs) ys (h, f) g = (h, Fresh-join p xs ys f g)

pub Linked-first :
    (next : ℕ → Option ℕ) (p : ℕ) (bs : List ℕ) → Linked next p bs → next p ≡ first bs
unfolding Linked
Linked-first next p [] l = l
Linked-first next p (b ∷ bs) (l, _) = l

module _ (fl_head : ℕ) (target : ℕ → ℕ) (pre : List ℕ) where
  join_next_block :
      (c : ℕ) (post : List ℕ) (b : Freed)
      → Placed fl_head target pre (c ∷ post) b
      → (c == suc (b.bp + b.size)) ≡ true
      → Placed fl_head target pre post (join_next b)
        × Gap ((join_next b).bp + (join_next b).size) post
  unfolding join_next set_next set_header Fresh total Linked Sparse cover
  join_next_block c post b l e =
      let size = b.size + suc (b.list.wosize c) in
      let w = b.list.wosize in
      let d = Ordered-Distinct w 0 fl_head (pre ++ b.bp ∷ c ∷ post) l.head_apart l.order in
      let adjacent : suc (b.bp + w b.bp) ≡ c = let same = l.header_size in ground arith in
      let (f, g) = Fresh-others fl_head b.bp pre (c ∷ post) d in
      let apart = Fresh-remove fl_head b.bp pre (c ∷ post) l.head_apart in
      let d' =
        Ordered-Distinct w 0 fl_head (pre ++ c ∷ post) apart
          (Ordered-remove w 0 b.bp pre (c ∷ post) l.order) in
      let (h₁, (h₂, (_, h₃))) = Fresh-append fl_head pre (b.bp ∷ c ∷ post) l.head_apart in
      let (_, l') = Linked-append b.list.next fl_head pre (c ∷ post) l.links in
      let touching : suc (b.bp + b.size) ≡ c = ground arith in
      let ends : b.bp + size ≡ c + w c = omega (arith, touching) in
      rw (l.behind, e, join_next)
        (
          (record {
            links = rw (sym l.before) (Linked-remove b.list.next fl_head c pre post d' l.links);
            behind = Linked-first b.list.next c post l';
            before = l.before;
            header_size = update_self w b.bp size;
            order =
                Ordered-join w 0 b.bp c size pre post (omega (arith, l.header_size)) adjacent
                  l.order;
            head_apart = Fresh-join fl_head pre (b.bp ∷ post) h₁ (h₂, h₃);
            words = omega (
              arith,
              l.words,
              total-update w b.bp size (pre ++ post) (Fresh-join b.bp pre post f g.1),
              total-append w pre post,
              total-append w pre (c ∷ post),
            );
            covers = λ a. omega (
              arith,
              l.covers a,
              cover-update w b.bp size (pre ++ post) a (Fresh-join b.bp pre post f g.1),
              inside-join b.bp b.size c (w c) a touching,
              cover-append w pre post a,
              cover-append w pre (c ∷ post) a,
            );
            sparse_before = Sparse-update w b.bp size pre f l.sparse_before;
            sparse_behind = Sparse-update w b.bp size post g.1 l.sparse_behind.1;
          }),
          rw ends l.sparse_behind.0,
        )

  pub join_next-Placed :
      (post : List ℕ) (b : Freed)
      → Placed fl_head target pre post b
      → (rest : List ℕ) × Placed fl_head target pre rest (join_next b)
        × Gap ((join_next b).bp + (join_next b).size) rest
  unfolding join_next
  join_next-Placed [] b l = ([], rw (l.behind, join_next) l, tt)
  join_next-Placed (c ∷ post) b l = elim (Bool-cases (c == suc (b.bp + b.size))) [
    | inl e ↦ (let (l', g) = join_next_block c post b l e in (post, l', g))
    | inr e ↦ (
      c ∷ post,
      rw (l.behind, e, join_next) l,
      rw (l.behind, e, join_next) ((let ne : suc (b.bp + b.size) ≢ c = ground arith in ne)),
    )
  ]
