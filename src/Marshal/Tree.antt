-- ===== src/Marshal/Tree.antt =====
-- What a value of the heap stands for: a finite tree of integers, strings, doubles and blocks, by
-- the blocks as they are read (byterun/mlvalues.h).
use mathlib.Core.Path.{subst}
use ocamil.Prelude.{
  ℕ, suc, ◌+◌, ◌*◌, ◌/◌, ◌≡◌, refl, Option, some, List, [], ◌∷◌, length, take, arith, Bool, true,
  false,
}
use ocamil.Prelude.Int.{ℤ}
use ocamil.Machine.Word.{long_val}
use ocamil.Machine.Value.{
  Value, word, ptr, atom, Block, fields, bytes, doubles, double_tag, double_array_tag,
}
use ocamil.Compare.{string_length}

mutual
  pub data Tree : Type 0 where
    int : ℤ → Tree
    empty : ℕ → Tree
    text : List ℕ → Tree
    double : ℕ → Tree
    double_array : List ℕ → Tree
    node : ℕ → Trees → Tree

  pub data Trees : Type 0 where
    nil : Trees
    cons : Tree → Trees → Trees

abbrev pub is_immediate : Tree → Bool
is_immediate (int n) = true
is_immediate (empty tag) = true
is_immediate _ = false

abbrev pub count : Trees → ℕ
count nil = 0
count (cons t ts) = suc (count ts)

unfoldable mutual
  pub weight : Tree → ℕ
  weight (node tag ts) = suc (weights ts)
  weight _ = 1

  pub weights : Trees → ℕ
  weights nil = 0
  weights (cons t ts) = weight t + weights ts

-- At least the bytes of a message and the words of its blocks.
unfoldable mutual
  pub extent : Tree → ℕ
  extent (int n) = 5
  extent (empty tag) = 5
  extent (text cs) = 8 + 2 * length cs
  extent (double d) = 12
  extent (double_array ds) = 6 + 10 * length ds
  extent (node tag ts) = 6 + count ts + extents ts

  pub extents : Trees → ℕ
  extents nil = 0
  extents (cons t ts) = extent t + extents ts

-- A string in its block, with the padding that gives its length.
pub record IsText (bs cs : List ℕ) : Type 0 where
  pub text_length : string_length bs ≡ length cs
  pub text_bytes : take (length cs) bs ≡ cs
  pub padded : length bs ≡ 4 * ((length cs + 4) / 4)

unfoldable mutual
  pub Unfolds : (ℕ → Option Block) → Value → Tree → Type 0
  Unfolds rd v (int n) = (w : ℕ) × (v ≡ word w) × (long_val w ≡ n)
  Unfolds rd v (empty tag) = v ≡ atom tag
  Unfolds rd v (text cs) =
      (b : ℕ) × (bs : List ℕ) × (v ≡ ptr b 0) × (rd b ≡ some (bytes bs)) × IsText bs cs
  Unfolds rd v (double d) = (b : ℕ) × (v ≡ ptr b 0) × (rd b ≡ some (doubles double_tag (d ∷ [])))
  Unfolds rd v (double_array ds) =
      (b : ℕ) × (v ≡ ptr b 0) × (rd b ≡ some (doubles double_array_tag ds))
  Unfolds rd v (node tag ts) =
      (b : ℕ) × (vs : List Value) × (v ≡ ptr b 0)
      × (rd b ≡ some (fields tag vs))
      × UnfoldsAll rd vs ts

  pub UnfoldsAll : (ℕ → Option Block) → List Value → Trees → Type 0
  UnfoldsAll rd vs nil = vs ≡ []
  UnfoldsAll rd vs (cons t ts) =
      (x : Value) × (xs : List Value) × (vs ≡ x ∷ xs) × Unfolds rd x t × UnfoldsAll rd xs ts

-- A value stands for one tree.
mutual
  unfolding Unfolds

  pub Unfolds-unique :
      (rd : ℕ → Option Block) (v : Value) (t u : Tree) → Unfolds rd v t → Unfolds rd v u → t ≡ u
  Unfolds-unique rd v (int n₁) (int n₂) (w₁, e₁, f₁) (w₂, e₂, f₂) = ground arith
  Unfolds-unique rd v (int n₁) (empty t₂) (w₁, e₁, f₁) e₂ = absurd (ground arith)
  Unfolds-unique rd v (int n₁) (text cs₂) (w₁, e₁, f₁) (b₂, bs₂, e₂, r₂, x₂) = absurd (ground arith)
  Unfolds-unique rd v (int n₁) (double d₂) (w₁, e₁, f₁) (b₂, e₂, r₂) = absurd (ground arith)
  Unfolds-unique rd v (int n₁) (double_array ds₂) (w₁, e₁, f₁) (b₂, e₂, r₂) = absurd (ground arith)
  Unfolds-unique rd v (int n₁) (node t₂ ts₂) (w₁, e₁, f₁) (b₂, vs₂, e₂, r₂, us₂) =
      absurd (ground arith)
  Unfolds-unique rd v (empty t₁) (int n₂) e₁ (w₂, e₂, f₂) = absurd (ground arith)
  Unfolds-unique rd v (empty t₁) (empty t₂) e₁ e₂ = ground arith
  Unfolds-unique rd v (empty t₁) (text cs₂) e₁ (b₂, bs₂, e₂, r₂, x₂) = absurd (ground arith)
  Unfolds-unique rd v (empty t₁) (double d₂) e₁ (b₂, e₂, r₂) = absurd (ground arith)
  Unfolds-unique rd v (empty t₁) (double_array ds₂) e₁ (b₂, e₂, r₂) = absurd (ground arith)
  Unfolds-unique rd v (empty t₁) (node t₂ ts₂) e₁ (b₂, vs₂, e₂, r₂, us₂) = absurd (ground arith)
  Unfolds-unique rd v (text cs₁) (int n₂) (b₁, bs₁, e₁, r₁, x₁) (w₂, e₂, f₂) = absurd (ground arith)
  Unfolds-unique rd v (text cs₁) (empty t₂) (b₁, bs₁, e₁, r₁, x₁) e₂ = absurd (ground arith)
  Unfolds-unique rd v (text cs₁) (text cs₂) (b₁, bs₁, e₁, r₁, x₁) (b₂, bs₂, e₂, r₂, x₂) =
      ground (arith, x₁.text_bytes, x₂.text_bytes, x₁.text_length, x₂.text_length)
  Unfolds-unique rd v (text cs₁) (double d₂) (b₁, bs₁, e₁, r₁, x₁) (b₂, e₂, r₂) =
      absurd (ground arith)
  Unfolds-unique rd v (text cs₁) (double_array ds₂) (b₁, bs₁, e₁, r₁, x₁) (b₂, e₂, r₂) =
      absurd (ground arith)
  Unfolds-unique rd v (text cs₁) (node t₂ ts₂) (b₁, bs₁, e₁, r₁, x₁) (b₂, vs₂, e₂, r₂, us₂) =
      absurd (ground arith)
  Unfolds-unique rd v (double d₁) (int n₂) (b₁, e₁, r₁) (w₂, e₂, f₂) = absurd (ground arith)
  Unfolds-unique rd v (double d₁) (empty t₂) (b₁, e₁, r₁) e₂ = absurd (ground arith)
  Unfolds-unique rd v (double d₁) (text cs₂) (b₁, e₁, r₁) (b₂, bs₂, e₂, r₂, x₂) =
      absurd (ground arith)
  Unfolds-unique rd v (double d₁) (double d₂) (b₁, e₁, r₁) (b₂, e₂, r₂) = ground arith
  Unfolds-unique rd v (double d₁) (double_array ds₂) (b₁, e₁, r₁) (b₂, e₂, r₂) =
      absurd (ground arith)
  Unfolds-unique rd v (double d₁) (node t₂ ts₂) (b₁, e₁, r₁) (b₂, vs₂, e₂, r₂, us₂) =
      absurd (ground arith)
  Unfolds-unique rd v (double_array ds₁) (int n₂) (b₁, e₁, r₁) (w₂, e₂, f₂) = absurd (ground arith)
  Unfolds-unique rd v (double_array ds₁) (empty t₂) (b₁, e₁, r₁) e₂ = absurd (ground arith)
  Unfolds-unique rd v (double_array ds₁) (text cs₂) (b₁, e₁, r₁) (b₂, bs₂, e₂, r₂, x₂) =
      absurd (ground arith)
  Unfolds-unique rd v (double_array ds₁) (double d₂) (b₁, e₁, r₁) (b₂, e₂, r₂) =
      absurd (ground arith)
  Unfolds-unique rd v (double_array ds₁) (double_array ds₂) (b₁, e₁, r₁) (b₂, e₂, r₂) = ground arith
  Unfolds-unique rd v (double_array ds₁) (node t₂ ts₂) (b₁, e₁, r₁) (b₂, vs₂, e₂, r₂, us₂) =
      absurd (ground arith)
  Unfolds-unique rd v (node t₁ ts₁) (int n₂) (b₁, vs₁, e₁, r₁, us₁) (w₂, e₂, f₂) =
      absurd (ground arith)
  Unfolds-unique rd v (node t₁ ts₁) (empty t₂) (b₁, vs₁, e₁, r₁, us₁) e₂ = absurd (ground arith)
  Unfolds-unique rd v (node t₁ ts₁) (text cs₂) (b₁, vs₁, e₁, r₁, us₁) (b₂, bs₂, e₂, r₂, x₂) =
      absurd (ground arith)
  Unfolds-unique rd v (node t₁ ts₁) (double d₂) (b₁, vs₁, e₁, r₁, us₁) (b₂, e₂, r₂) =
      absurd (ground arith)
  Unfolds-unique rd v (node t₁ ts₁) (double_array ds₂) (b₁, vs₁, e₁, r₁, us₁) (b₂, e₂, r₂) =
      absurd (ground arith)
  Unfolds-unique rd v (node t₁ ts₁) (node t₂ ts₂) (b₁, vs₁, e₁, r₁, us₁) (b₂, vs₂, e₂, r₂, us₂) =
      let same : vs₁ ≡ vs₂ = ground arith in
      let tags : t₁ ≡ t₂ = ground arith in
      let rest =
        UnfoldsAll-unique rd vs₂ ts₁ ts₂ (subst (λ vs. UnfoldsAll rd vs ts₁) same us₁) us₂ in
      cc

  UnfoldsAll-unique :
      (rd : ℕ → Option Block) (vs : List Value) (ts us : Trees)
      → UnfoldsAll rd vs ts
      → UnfoldsAll rd vs us
      → ts ≡ us
  UnfoldsAll-unique rd vs nil nil h k = refl
  UnfoldsAll-unique rd vs nil (cons u us) h (x, xs, e, _, _) = absurd (ground arith)
  UnfoldsAll-unique rd vs (cons t ts) nil (x, xs, e, _, _) k = absurd (ground arith)
  UnfoldsAll-unique rd vs (cons t ts) (cons u us) (x, xs, e, h, hs) (y, ys, e', k, ks) =
      let heads : x ≡ y = ground arith in
      let tails : xs ≡ ys = ground arith in
      let first = Unfolds-unique rd y t u (subst (λ z. Unfolds rd z t) heads h) k in
      let rest = UnfoldsAll-unique rd ys ts us (subst (λ zs. UnfoldsAll rd zs ts) tails hs) ks in cc

-- Reading more blocks keeps the tree.
abbrev pub ReadsKept : (rd rd' : ℕ → Option Block) → Type 0
ReadsKept rd rd' = (b : ℕ) (block : Block) → rd b ≡ some block → rd' b ≡ some block

mutual
  unfolding Unfolds

  pub Unfolds-mono :
      (rd rd' : ℕ → Option Block) (v : Value) (t : Tree)
      → ReadsKept rd rd'
      → Unfolds rd v t
      → Unfolds rd' v t
  Unfolds-mono rd rd' v (int n) k h = h
  Unfolds-mono rd rd' v (empty t) k h = h
  Unfolds-mono rd rd' v (text cs) k (b, bs, e, r, x) = (b, bs, e, k b (bytes bs) r, x)
  Unfolds-mono rd rd' v (double d) k (b, e, r) = (b, e, k b (doubles double_tag (d ∷ [])) r)
  Unfolds-mono rd rd' v (double_array ds) k (b, e, r) = (b, e, k b (doubles double_array_tag ds) r)
  Unfolds-mono rd rd' v (node tag ts) k (b, vs, e, r, us) =
      (b, vs, e, k b (fields tag vs) r, UnfoldsAll-mono rd rd' vs ts k us)

  pub UnfoldsAll-mono :
      (rd rd' : ℕ → Option Block) (vs : List Value) (ts : Trees)
      → ReadsKept rd rd'
      → UnfoldsAll rd vs ts
      → UnfoldsAll rd' vs ts
  UnfoldsAll-mono rd rd' vs nil k h = h
  UnfoldsAll-mono rd rd' vs (cons t ts) k (x, xs, e, h, hs) =
      (x, xs, e, Unfolds-mono rd rd' x t k h, UnfoldsAll-mono rd rd' xs ts k hs)
