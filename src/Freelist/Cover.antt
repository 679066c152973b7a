-- ===== src/Freelist/Cover.antt =====
-- The words that the blocks of the free list of byterun/freelist.c take, with their headers, and
-- blocks that touch.
use ocamil.Prelude.{
  ℕ, suc, ◌+◌, ◌≡◌, ◌≢◌, refl, ap, List, [], ◌∷◌, ◌++◌, ◌&&◌, ltb, leb, if◌then◌else◌, arith,
}
use ocamil.Freelist.{update}
use ocamil.Freelist.Chain.{Fresh, Ordered, last, update_ne, update_self}

-- 1 for the words of a block with its header, and 0 elsewhere.
abbrev pub inside : (b size a : ℕ) → ℕ
inside b size a = if leb b (suc a) && ltb a (b + size) then 1 else 0

-- How many of the blocks take the word.
unfoldable pub cover : (ℕ → ℕ) → List ℕ → (a : ℕ) → ℕ
cover size [] a = 0
cover size (b ∷ bs) a = inside b (size b) a + cover size bs a

-- The first of some blocks does not touch that end.
abbrev pub Gap : (end : ℕ) → List ℕ → Type 0
Gap end [] = Unit
Gap end (c ∷ cs) = suc end ≢ c

-- No block touches the next one.
unfoldable pub Sparse : (ℕ → ℕ) → List ℕ → Type 0
Sparse size [] = Unit
Sparse size (b ∷ bs) = Gap (b + size b) bs × Sparse size bs

-- A block and the one behind it, which touches it.
pub inside-join :
    (p m c n a : ℕ) → suc (p + m) ≡ c → inside p (m + suc n) a ≡ inside p m a + inside c n a
inside-join p m c n a e = ground arith

pub cover-append :
    (size : ℕ → ℕ) (xs ys : List ℕ) (a : ℕ)
    → cover size (xs ++ ys) a ≡ cover size xs a + cover size ys a
unfolding cover
cover-append size [] ys a = omega arith
cover-append size (x ∷ xs) ys a = omega (arith, cover-append size xs ys a)

module _ (size : ℕ → ℕ) where
  pub Sparse-prefix : (xs ys : List ℕ) → Sparse size (xs ++ ys) → Sparse size xs
  unfolding Sparse
  Sparse-prefix [] ys s = tt
  Sparse-prefix (x ∷ []) ys (g, s) = (tt, tt)
  Sparse-prefix (x ∷ y ∷ xs) ys (g, s) = (g, Sparse-prefix (y ∷ xs) ys s)

  pub Sparse-suffix : (xs ys : List ℕ) → Sparse size (xs ++ ys) → Sparse size ys
  unfolding Sparse
  Sparse-suffix [] ys s = s
  Sparse-suffix (x ∷ xs) ys (g, s) = Sparse-suffix xs ys s

  pub Sparse-snoc :
      (xs : List ℕ) (q : ℕ) (ys : List ℕ)
      → Sparse size (xs ++ q ∷ [])
      → Sparse size ys
      → Gap (q + size q) ys
      → Sparse size ((xs ++ q ∷ []) ++ ys)
  unfolding Sparse
  Sparse-snoc [] q ys s s' g = (g, s')
  Sparse-snoc (x ∷ []) q ys (g, s) s' g' = (g, (g', s'))
  Sparse-snoc (x ∷ y ∷ xs) q ys (g, s) s' g' = (g, Sparse-snoc (y ∷ xs) q ys s s' g')

  pub Sparse-end :
      (p : ℕ) (xs : List ℕ) (b : ℕ)
      → suc (last p xs + size (last p xs)) ≢ b
      → Sparse size xs
      → Sparse size (xs ++ b ∷ [])
  unfolding Sparse
  Sparse-end p [] b ne s = (tt, tt)
  Sparse-end p (x ∷ []) b ne s = (ne, (tt, tt))
  Sparse-end p (x ∷ y ∷ xs) b ne (g, s) = (g, Sparse-end x (y ∷ xs) b ne s)

  -- What lies on both sides of a block does not touch.
  pub Sparse-apart :
      (end b : ℕ) (xs ys : List ℕ)
      → Ordered size end (xs ++ b ∷ ys)
      → Sparse size xs
      → Sparse size ys
      → Sparse size (xs ++ ys)
  unfolding Sparse Ordered
  Sparse-apart end b [] ys o s s' = s'
  Sparse-apart end b (x ∷ []) [] o s s' = (tt, tt)
  Sparse-apart end b (x ∷ []) (c ∷ ys) (o₁, (o₂, (o₃, o₄))) s s' =
      ((λ e. omega (arith, o₂, o₃, e)), s')
  Sparse-apart end b (x ∷ y ∷ xs) ys (o, os) (g, s) s' =
      (g, Sparse-apart (x + size x) b (y ∷ xs) ys os s s')

  module _ (q v : ℕ) where
    pub cover-update :
        (bs : List ℕ) (a : ℕ) → Fresh q bs → cover (update size q v) bs a ≡ cover size bs a
    unfolding cover Fresh
    cover-update [] a f = refl
    cover-update (b ∷ bs) a (ne, f) =
        rw (update_ne size q b v ne) (ap (λ n. inside b (size b) a + n) (cover-update bs a f))

    pub cover-resize :
        (xs ys : List ℕ) (a : ℕ)
        → Fresh q xs
        → Fresh q ys
        → cover (update size q v) (xs ++ q ∷ ys) a
          ≡ cover size xs a + inside q v a + cover size ys a
    unfolding cover
    cover-resize xs ys a f g = omega (
      arith,
      cover-append (update size q v) xs (q ∷ ys) a,
      cover-update xs a f,
      cover-update ys a g,
      ap (λ n. inside q n a) (update_self size q v),
    )

    pub Sparse-update : (bs : List ℕ) → Fresh q bs → Sparse size bs → Sparse (update size q v) bs
    unfolding Sparse Fresh
    Sparse-update [] f s = tt
    Sparse-update (b ∷ bs) (ne, f) (g, s) = (rw (update_ne size q b v ne) g, Sparse-update bs f s)

    pub Sparse-last :
        (xs : List ℕ)
        → Fresh q xs
        → Sparse size (xs ++ q ∷ [])
        → Sparse (update size q v) (xs ++ q ∷ [])
    unfolding Sparse Fresh
    Sparse-last [] f s = (tt, tt)
    Sparse-last (x ∷ xs) (ne, f) (g, s) = (rw (update_ne size q x v ne) g, Sparse-last xs f s)
