-- ===== src/Hash/Trees.antt =====
-- The hash of byterun/hash.c depends only on what a value stands for, and its budget ends it.
use ocamil.Prelude.{
  ℕ, zero, suc, ◌+◌, ◌*◌, ◌%◌, ◌^◌, ◌≤◌, ◌<◌, ◌≡◌, refl, ap, ◌∙◌, Option, some, List, length,
  get_elem?, arith,
}
use ocamil.Prelude.Int.{ℤ, pos}
use ocamil.Machine.Word.{wrap, long_val, val_long}
use ocamil.Machine.Value.{Value, word, ptr, atom, Heap, field}
use ocamil.Marshal.Tree.{
  Tree, Trees, int, empty, text, double, double_array, node, nil, cons, count, Unfolds, UnfoldsAll,
}
use ocamil.Marshal.Copying.{IsData, AreData}
use ocamil.Marshal.Nodes.{UnfoldsAll-length}
use ocamil.Marshal.FieldsFrom.{FieldsFrom, FieldsFrom-block, FieldsFrom-head, FieldsFrom-tail}
use ocamil.Hash.{
  Hashing, HashState, combine, combine_small, spend, enter_call, hash_fields, hash_aux, hash_again,
  hash_contents, hash_univ_param,
}
use ocamil.Hash.Spec.{hash_tree, hash_trees, hash_inside, calls_left, calls_left-hash_trees}
use ocamil.Hash.Refines.{
  calls_left-enter_call, text_lem, double_lem, doubles_lem, empty_lem, node_lem, hash_aux_lem,
  hash_again_lem,
}

fuel_lem : (f n m : ℕ) → 2 * n + 1 ≤ suc f → suc m ≡ n → (f' : ℕ) × (f ≡ suc f') × (2 * m + 1 ≤ f')
fuel_lem zero n m l e = absurd (omega arith)
fuel_lem (suc f) n m l e = (f, refl, omega arith)

limit_small : (tag : ℕ) (s : HashState) → (combine_small tag (spend s)).limit ≡ s.limit
unfolding combine_small spend
limit_small tag s = refl

module _ (out : Hashing) (h : Heap) (rec again : Value → HashState → Option HashState) where
  int_lem :
      (w : ℕ) (n : ℤ) (s : HashState)
      → long_val w ≡ n
      → hash_contents out h rec again (word w) s ≡ some (combine (wrap n) (spend s))
  unfolding hash_contents
  int_lem w n s e = ap (λ m. some (combine (wrap m) (spend s))) e

  fields_done : (obj : Value) (s : HashState) → hash_fields out h rec obj 0 s ≡ some s
  unfolding hash_fields
  fields_done obj s = refl

  fields_step :
      (obj x : Value) (i : ℕ) (s s' : HashState)
      → field h obj i ≡ some x
      → rec x s ≡ some s'
      → hash_fields out h rec obj (suc i) s ≡ hash_fields out h rec obj i s'
  unfolding hash_fields
  fields_step obj x i s s' e r = rw (e, r) refl

module _ (out : Hashing) (h : Heap) where
  mutual
    unfolding Unfolds IsData hash_inside hash_trees

    pub hash_aux-hash_tree :
        (t : Tree) (f : ℕ) (v : Value) (s : HashState)
        → IsData t
        → Unfolds (get_elem? h) v t
        → 2 * calls_left s.limit + 1 ≤ f
        → hash_aux out h f v s ≡ some (hash_tree t s)
    hash_aux-hash_tree t zero v s d u l = absurd (omega arith)
    hash_aux-hash_tree (int n) (suc f) v s d (w, is, long) l =
        hash_aux_lem out h f v (int n) s (λ go.
          let (f', e, l') =
            fuel_lem f (calls_left s.limit) (calls_left (enter_call s).limit) l
              (calls_left-enter_call s go) in
          rw (e, is)
            (hash_again_lem out h f' (word w) (enter_call s)
              ∙ int_lem out h (hash_aux out h f') (hash_again out h f') w n (enter_call s) long))
    hash_aux-hash_tree (empty tag) (suc f) v s d is l = hash_aux_lem out h f v (empty tag) s (λ go.
        let (f', e, l') =
          fuel_lem f (calls_left s.limit) (calls_left (enter_call s).limit) l
            (calls_left-enter_call s go) in
        rw (e, is)
          (hash_again_lem out h f' (atom tag) (enter_call s)
            ∙ empty_lem out h (hash_aux out h f') (hash_again out h f') tag (enter_call s) d))
    hash_aux-hash_tree (text cs) (suc f) v s d (b, bs, is, at, x) l =
        hash_aux_lem out h f v (text cs) s (λ go.
          let (f', e, l') =
            fuel_lem f (calls_left s.limit) (calls_left (enter_call s).limit) l
              (calls_left-enter_call s go) in
          rw (e, is)
            (hash_again_lem out h f' (ptr b 0) (enter_call s)
              ∙ text_lem out h (hash_aux out h f') (hash_again out h f') b bs cs (enter_call s) at
                  x))
    hash_aux-hash_tree (double x) (suc f) v s d (b, is, at) l =
        hash_aux_lem out h f v (double x) s (λ go.
          let (f', e, l') =
            fuel_lem f (calls_left s.limit) (calls_left (enter_call s).limit) l
              (calls_left-enter_call s go) in
          rw (e, is)
            (hash_again_lem out h f' (ptr b 0) (enter_call s)
              ∙ double_lem out h (hash_aux out h f') (hash_again out h f') b x (enter_call s) at))
    hash_aux-hash_tree (double_array ds) (suc f) v s d (b, is, at) l =
        hash_aux_lem out h f v (double_array ds) s (λ go.
          let (f', e, l') =
            fuel_lem f (calls_left s.limit) (calls_left (enter_call s).limit) l
              (calls_left-enter_call s go) in
          rw (e, is)
            (hash_again_lem out h f' (ptr b 0) (enter_call s)
              ∙ doubles_lem out h (hash_aux out h f') (hash_again out h f') b ds (enter_call s) at))
    hash_aux-hash_tree (node tag ts) (suc f) v s (d₁, d₂, d₃, ds) (b, vs, is, at, us) l =
        hash_aux_lem out h f v (node tag ts) s (λ go.
          let (f', e, l') =
            fuel_lem f (calls_left s.limit) (calls_left (enter_call s).limit) l
              (calls_left-enter_call s go) in
          let s' = combine_small tag (spend (enter_call s)) in
          let size : length vs ≡ 0 + count ts =
            UnfoldsAll-length (get_elem? h) vs ts us ∙ omega arith in
          rw (e, is)
            (hash_again_lem out h f' (ptr b 0) (enter_call s)
              ∙ (node_lem out h (hash_aux out h f') (hash_again out h f') b tag vs (enter_call s) at
                    d₁
                  ∙ (ap (λ n. hash_fields out h (hash_aux out h f') (ptr b 0) n s') size
                      ∙ (hash_fields-hash_trees ts f' (ptr b 0) 0 vs s' ds us
                            (FieldsFrom-block h b tag vs at)
                            (rw (limit_small tag (enter_call s)) l')
                          ∙ fields_done out h (hash_aux out h f') (hash_again out h f') (ptr b 0)
                              (hash_trees ts s'))))))

    pub hash_fields-hash_trees :
        (ts : Trees) (f : ℕ) (obj : Value) (i : ℕ) (xs : List Value) (s : HashState)
        → AreData ts
        → UnfoldsAll (get_elem? h) xs ts
        → FieldsFrom h obj i xs
        → 2 * calls_left s.limit + 1 ≤ f
        → hash_fields out h (hash_aux out h f) obj (i + count ts) s
          ≡ hash_fields out h (hash_aux out h f) obj i (hash_trees ts s)
    hash_fields-hash_trees nil f obj i xs s ds us from l =
        ap (λ n. hash_fields out h (hash_aux out h f) obj n s) (omega arith)
    hash_fields-hash_trees (cons t ts) f obj i xs s (d, ds) (x, rest, is, u, us) from l =
        let next : i + suc (count ts) ≡ suc i + count ts = omega arith in
        let s' = hash_trees ts s in
        let first =
          hash_aux-hash_tree t f x s' d u (omega (arith, calls_left-hash_trees ts s, l)) in
        ap (λ n. hash_fields out h (hash_aux out h f) obj n s) next
        ∙ (hash_fields-hash_trees ts f obj (suc i) rest s ds us
              (FieldsFrom-tail h obj i x xs rest from is) l
            ∙ fields_step out h (hash_aux out h f) (hash_again out h f) obj x i s' (hash_tree t s')
                (FieldsFrom-head h obj i x xs rest from is) first)

-- If a value of one heap and a value of another unfold to the same finite tree of the ranges of
-- marshalling, then hash_univ_param gives the same number below 2^30 for both, within twice the limit
-- and one more turns (or one turn, when the limit is negative).
pub hash_univ_param_agrees :
    (out out' : Hashing) (h h' : Heap) (v v' : Value) (t : Tree) (count limit : ℤ) (f f' : ℕ)
    → IsData t
    → Unfolds (get_elem? h) v t
    → Unfolds (get_elem? h') v' t
    → 2 * calls_left limit + 1 ≤ f
    → 2 * calls_left limit + 1 ≤ f'
    → (n : ℕ) × (hash_univ_param out h f count limit v ≡ some (word (val_long (pos n))))
      × (hash_univ_param out' h' f' count limit v' ≡ some (word (val_long (pos n))))
      × (n < 2 ^ 30)
unfolding hash_univ_param
hash_univ_param_agrees out out' h h' v v' t count limit f f' d u u' l l' =
    let s : HashState = record { accu = 0; limit = limit; count = count } in
    (
      (hash_tree t s).accu % 2 ^ 30,
      rw (hash_aux-hash_tree out h t f v s d u l) refl,
      rw (hash_aux-hash_tree out' h' t f' v' s d u' l') refl,
      omega arith,
    )
