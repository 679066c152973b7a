-- ===== src/Freelist/Sweep/Previous.antt =====
-- The last stage of `fl_merge_block` in byterun/freelist.c: the block is joined to the one before,
-- enters the list, or is left as an empty block.
use mathlib.Core.Path.{subst}
use ocamil.Prelude.{
  ℕ, suc, ◌+◌, ◌≡◌, ◌≢◌, refl, sym, ap, ◌∙◌, true, false, List, [], ◌∷◌, ◌++◌, arith, inl, inr,
  Bool-cases, ◌==◌,
}
use ocamil.Freelist.{update, set_next, set_header}
use ocamil.Freelist.Merge.{Freed, join_prev}
use ocamil.Freelist.Chain.{
  Ordered, Fresh, total, last, last-append, append_assoc, Ordered-Distinct, total-append,
  total-resize, update_self, Fresh-others, Fresh-remove, Ordered-remove, Ordered-shrink,
}
use ocamil.Freelist.Cover.{
  inside, cover, Gap, inside-join, cover-append, cover-resize, Sparse-update, Sparse-snoc,
  Sparse-end, Sparse-last, Sparse-apart,
}
use ocamil.Freelist.Extend.{Linked-insert}
use ocamil.Freelist.Sweep.{Placed, GivenBack, Ordered-join}

module _ (fl_head : ℕ) (target : ℕ → ℕ) (post : List ℕ) (b : Freed)
    (gap : Gap (b.bp + b.size) post) where
  -- The block before takes over the words.
  join_prev_block :
      (init : List ℕ) (prev : ℕ)
      → Placed fl_head target (init ++ prev ∷ []) post b
      → prev ≡ b.list.fl_merge
      → (suc (prev + b.list.wosize prev) == b.bp) ≡ true
      → GivenBack fl_head target b.bp b.size (join_prev b) (init ++ prev ∷ []) post
  unfolding join_prev set_next set_header cover
  join_prev_block init prev l at e =
      let w = b.list.wosize in
      let v = w prev + suc b.size in
      let in_order : Ordered w 0 (init ++ prev ∷ b.bp ∷ post) =
        subst (Ordered w 0) (append_assoc init (prev ∷ []) (b.bp ∷ post)) l.order in
      let same = append_assoc init (prev ∷ []) post in
      let adjacent : suc (prev + w prev) ≡ b.bp = ground arith in
      let apart = Fresh-remove fl_head b.bp (init ++ prev ∷ []) post l.head_apart in
      let d =
        Ordered-Distinct w 0 fl_head (init ++ prev ∷ post) (subst (Fresh fl_head) same apart)
          (subst (Ordered w 0) same (Ordered-remove w 0 b.bp (init ++ prev ∷ []) post l.order)) in
      let (f, g) = Fresh-others fl_head prev init post d in
      let ends : prev + v ≡ b.bp + b.size = omega (arith, adjacent) in
      let joined =
        Ordered-join w 0 prev b.bp v init post (omega (arith, l.header_size)) adjacent in_order in
      rw (sym at, e, join_prev)
        (record {
          swept = record {
            links = l.links;
            before = l.before ∙ sym at;
            order = rw same joined;
            head_apart = apart;
            words = rw same (
                omega
                  (arith, l.words, ap (total w) same, total-resize w fl_head prev v init post d));
          };
          sparse =
              Sparse-snoc (update w prev v) init prev post
                (Sparse-last w prev v init f l.sparse_before)
                (Sparse-update w prev v post g l.sparse_behind)
                (rw (update_self w prev v, ends) gap);
          covers = inl (λ a. rw same (
              omega (
                arith,
                l.covers a,
                ap (λ bs. cover w bs a) same,
                cover-append w init (prev ∷ post) a,
                cover-resize w prev v init post a f g,
                inside-join prev (w prev) b.bp b.size a adjacent,
              )));
        })

  join_prev_alone :
      (pre : List ℕ)
      → Placed fl_head target pre post b
      → (suc (b.list.fl_merge + b.list.wosize b.list.fl_merge) == b.bp) ≡ false
      → (front : List ℕ) × GivenBack fl_head target b.bp b.size (join_prev b) front post
  unfolding join_prev set_next set_header total cover
  join_prev_alone pre l e = elim (Bool-cases (b.size == 0)) [
    | inl e' ↦ (
      pre,
      rw (e, e', join_prev)
          (let empty : b.size ≡ 0 = ground arith in
            record {
              swept = record {
                links = l.links;
                before = l.before;
                order = Ordered-remove b.list.wosize 0 b.bp pre post l.order;
                head_apart = Fresh-remove fl_head b.bp pre post l.head_apart;
                words = omega (arith, empty, l.words);
              };
              sparse =
                  Sparse-apart b.list.wosize 0 b.bp pre post l.order l.sparse_before
                    l.sparse_behind;
              covers = inr (
                empty,
                refl,
                ground arith,
                subst (λ n. Gap n post) (let here : b.bp + b.size ≡ b.bp = omega arith in here) gap,
                λ a.
                    ap (λ n. cover b.list.wosize (pre ++ post) a + inside b.bp n a) (sym empty)
                    ∙ l.covers a,
              );
            }),
    )
    | inr e' ↦
        let w = b.list.wosize in
        let same = append_assoc pre (b.bp ∷ []) post in
        let d = Ordered-Distinct w 0 fl_head (pre ++ b.bp ∷ post) l.head_apart l.order in
        let (f, g) = Fresh-others fl_head b.bp pre post d in
        (
          pre ++ b.bp ∷ [],
          rw (e, e', join_prev)
              (record {
                swept = record {
                  links =
                      rw (same, l.behind, sym l.before)
                        (Linked-insert b.list.next fl_head b.bp pre post d l.links);
                  before = last-append fl_head pre (b.bp ∷ []);
                  order = rw same (
                      Ordered-shrink w 0 b.bp b.size (pre ++ b.bp ∷ post)
                        (omega (arith, l.header_size)) l.order);
                  head_apart = rw same l.head_apart;
                  words = rw same (
                      omega (
                        arith,
                        l.words,
                        l.header_size,
                        total-resize w fl_head b.bp b.size pre post d,
                        total-append w pre post,
                        total-append w pre (b.bp ∷ post),
                      ));
                };
                sparse =
                    Sparse-snoc (update w b.bp b.size) pre b.bp post
                      (Sparse-last w b.bp b.size pre f (
                        Sparse-end w fl_head pre b.bp (rw l.before (ground arith)) l.sparse_before))
                      (Sparse-update w b.bp b.size post g l.sparse_behind)
                      (rw (update_self w b.bp b.size) gap);
                covers = inl (λ a. rw same (
                    omega (
                      arith,
                      l.covers a,
                      cover-append w pre post a,
                      cover-resize w b.bp b.size pre post a f g,
                    )));
              }),
        )
  ]

-- The last of some blocks.
snoc : (p x : ℕ) (xs : List ℕ) → (init : List ℕ) × (x ∷ xs ≡ init ++ last x xs ∷ [])
snoc p x [] = ([], refl)
snoc p x (y ∷ ys) = let (init, e) = snoc x y ys in (x ∷ init, ap (λ l. x ∷ l) e)

pub join_prev-GivenBack :
    (fl_head : ℕ) (target : ℕ → ℕ) (pre post : List ℕ) (b : Freed)
    → Gap (b.bp + b.size) post
    → Placed fl_head target pre post b
    → suc (fl_head + b.list.wosize fl_head) ≢ b.bp
    → (front : List ℕ) × GivenBack fl_head target b.bp b.size (join_prev b) front post
join_prev-GivenBack fl_head target [] post b gap l ne =
    let at = l.before in
    let e : (suc (b.list.fl_merge + b.list.wosize b.list.fl_merge) == b.bp) ≡ false =
      rw (sym at)
        (let h : (suc (fl_head + b.list.wosize fl_head) == b.bp) ≡ false = ground arith in h) in
    join_prev_alone fl_head target post b gap [] l e
join_prev-GivenBack fl_head target (x ∷ xs) post b gap l ne =
    elim (Bool-cases (suc (b.list.fl_merge + b.list.wosize b.list.fl_merge) == b.bp)) [
      | inl e ↦
          let (init, same) = snoc fl_head x xs in
          (
            init ++ last x xs ∷ [],
            join_prev_block fl_head target post b gap init (last x xs)
                (subst (λ pre. Placed fl_head target pre post b) same l) l.before (rw l.before e),
          )
      | inr e ↦ join_prev_alone fl_head target post b gap (x ∷ xs) l e
    ]
