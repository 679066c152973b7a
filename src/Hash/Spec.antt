-- ===== src/Hash/Spec.antt =====
-- The hash of what a value stands for, without its blocks and pointers.
use ocamil.Prelude.{
  ℕ, zero, suc, ◌≤◌, ◌≡◌, refl, if◌then◌else◌, List, [], ◌∷◌, arith, Bool-cases, inl, inr,
}
use ocamil.Prelude.Int.{ℤ, pos, negsuc}
use ocamil.Machine.Word.{wrap}
use ocamil.Marshal.{double_bytes}
use ocamil.Marshal.Extern.{all_double_bytes}
use ocamil.Marshal.Tree.{Tree, Trees, int, empty, text, double, double_array, node, nil, cons}
use ocamil.Hash.{
  HashState, combine, combine_small, combine_bytes, enter_call, exhausted, spend, decrement,
}

-- Nothing is read when the budget is spent.
abbrev pub unless_exhausted : (HashState → HashState) → HashState → HashState
unless_exhausted inside s = let s' = enter_call s in if exhausted s' then s' else inside s'

unfoldable mutual
  pub hash_tree : Tree → HashState → HashState
  hash_tree (int n) s = unless_exhausted (λ s'. combine (wrap n) (spend s')) s
  hash_tree (empty tag) s = unless_exhausted (λ s'. combine_small tag (spend s')) s
  hash_tree (text cs) s = unless_exhausted (λ s'. combine_bytes cs (spend s')) s
  hash_tree (double d) s = unless_exhausted (λ s'. combine_bytes (double_bytes 8 d) (spend s')) s
  hash_tree (double_array ds) s =
      unless_exhausted (λ s'. combine_bytes (all_double_bytes ds) (spend s')) s
  hash_tree (node tag ts) s =
      unless_exhausted (λ s'. hash_trees ts (combine_small tag (spend s'))) s

  -- The last one first.
  pub hash_trees : Trees → HashState → HashState
  hash_trees nil s = s
  hash_trees (cons t ts) s = hash_tree t (hash_trees ts s)

-- What `hash_tree` does behind its test.
unfoldable pub hash_inside : Tree → HashState → HashState
hash_inside (int n) s = combine (wrap n) (spend s)
hash_inside (empty tag) s = combine_small tag (spend s)
hash_inside (text cs) s = combine_bytes cs (spend s)
hash_inside (double d) s = combine_bytes (double_bytes 8 d) (spend s)
hash_inside (double_array ds) s = combine_bytes (all_double_bytes ds) (spend s)
hash_inside (node tag ts) s = hash_trees ts (combine_small tag (spend s))

pub hash_tree_lem : (t : Tree) (s : HashState) → hash_tree t s ≡ unless_exhausted (hash_inside t) s
unfolding hash_tree hash_inside
hash_tree_lem (int n) s = refl
hash_tree_lem (empty tag) s = refl
hash_tree_lem (text cs) s = refl
hash_tree_lem (double d) s = refl
hash_tree_lem (double_array ds) s = refl
hash_tree_lem (node tag ts) s = refl

-- The calls that are left.
abbrev pub calls_left : ℤ → ℕ
calls_left (pos n) = n
calls_left (negsuc n) = 0

limit-combine_bytes : (bs : List ℕ) (s : HashState) → (combine_bytes bs s).limit ≡ s.limit
unfolding combine_bytes combine_small
limit-combine_bytes [] s = refl
limit-combine_bytes (b ∷ bs) s = limit-combine_bytes bs (combine_small b s)

calls_left-decrement : (n : ℤ) → calls_left (decrement n) ≤ calls_left n
calls_left-decrement (pos zero) = omega arith
calls_left-decrement (pos (suc n)) = omega arith
calls_left-decrement (negsuc n) = omega arith

calls_left-unless_exhausted :
    (inside : HashState → HashState) (s : HashState)
    → ((s' : HashState) → calls_left (inside s').limit ≤ calls_left s'.limit)
    → calls_left (unless_exhausted inside s).limit ≤ calls_left s.limit
unfolding enter_call
calls_left-unless_exhausted inside s h = elim (Bool-cases (exhausted (enter_call s))) [
  | inl e ↦ rw e (calls_left-decrement s.limit)
  | inr e ↦ rw e (let k = h (enter_call s) in omega (arith, k, calls_left-decrement s.limit))
]

calls_left-combine_bytes :
    (bs : List ℕ) (s : HashState)
    → calls_left (combine_bytes bs (spend s)).limit ≤ calls_left s.limit
unfolding spend
calls_left-combine_bytes bs s = let e = limit-combine_bytes bs (spend s) in rw e (omega arith)

mutual
  unfolding hash_tree combine combine_small spend

  -- The calls that are left do not grow.
  pub calls_left-hash_tree :
      (t : Tree) (s : HashState) → calls_left (hash_tree t s).limit ≤ calls_left s.limit
  calls_left-hash_tree (int n) s =
      calls_left-unless_exhausted (λ s'. combine (wrap n) (spend s')) s (λ s'. omega arith)
  calls_left-hash_tree (empty tag) s =
      calls_left-unless_exhausted (λ s'. combine_small tag (spend s')) s (λ s'. omega arith)
  calls_left-hash_tree (text cs) s =
      calls_left-unless_exhausted (λ s'. combine_bytes cs (spend s')) s
        (calls_left-combine_bytes cs)
  calls_left-hash_tree (double d) s =
      calls_left-unless_exhausted (λ s'. combine_bytes (double_bytes 8 d) (spend s')) s
        (calls_left-combine_bytes (double_bytes 8 d))
  calls_left-hash_tree (double_array ds) s =
      calls_left-unless_exhausted (λ s'. combine_bytes (all_double_bytes ds) (spend s')) s
        (calls_left-combine_bytes (all_double_bytes ds))
  calls_left-hash_tree (node tag ts) s =
      calls_left-unless_exhausted (λ s'. hash_trees ts (combine_small tag (spend s'))) s
        (λ s'. calls_left-hash_trees ts (combine_small tag (spend s')))

  pub calls_left-hash_trees :
      (ts : Trees) (s : HashState) → calls_left (hash_trees ts s).limit ≤ calls_left s.limit
  calls_left-hash_trees nil s = omega arith
  calls_left-hash_trees (cons t ts) s =
      omega (arith, calls_left-hash_tree t (hash_trees ts s), calls_left-hash_trees ts s)
