-- ===== src/Freelist/Taken.antt =====
-- Lemmas on the order of the blocks when a block is taken from the end of a free one
-- (byterun/freelist.c).
use ocamil.Prelude.{ℕ, ◌+◌, ◌≤◌, ◌<◌, ◌≡◌, List, [], ◌∷◌, ◌++◌, arith}
use ocamil.Freelist.{update}
use ocamil.Freelist.Chain.{Ordered, Fresh, Ordered-Fresh, update_ne, update_self}

pub Ordered-update :
    (size : ℕ → ℕ) (end p v : ℕ) (bs : List ℕ)
    → Fresh p bs
    → Ordered size end bs
    → Ordered (update size p v) end bs
unfolding Ordered Fresh
Ordered-update size end p v [] f o = tt
Ordered-update size end p v (b ∷ bs) (h, f) (o, os) =
    (o, rw (update_ne size p b v h) (Ordered-update size (b + size b) p v bs f os))

pub Ordered-behind :
    (size : ℕ → ℕ) (end c : ℕ) (xs ys : List ℕ) → Ordered size end (xs ++ c ∷ ys) → end < c
unfolding Ordered
Ordered-behind size end c [] ys (o, _) = o
Ordered-behind size end c (x ∷ xs) ys (o, os) =
    omega (arith, o, Ordered-behind size (x + size x) c xs ys os)

module _ (size : ℕ → ℕ) (c p v : ℕ) (ys : List ℕ) where
  -- A block at the end of `c` in its place.
  pub Ordered-replace :
      (end : ℕ) (xs : List ℕ)
      → c ≤ p
      → p + v ≡ c + size c
      → Ordered size end (xs ++ c ∷ ys)
      → Ordered (update size p v) end (xs ++ p ∷ ys)
  unfolding Ordered
  Ordered-replace end [] h e (o, os) = (
    omega arith,
    rw (update_self size p v, e)
        (Ordered-update size (c + size c) p v ys
          (Ordered-Fresh size (c + size c) p ys (omega arith) os) os),
  )
  Ordered-replace end (x ∷ xs) h e (o, os) =
      let before = Ordered-behind size (x + size x) c xs ys os in
      (
        o,
        rw (update_ne size p x v (λ q. omega (arith, before, q)))
            (Ordered-replace (x + size x) xs h e os),
      )

  -- A block at the end of `c`, which stays in front of it.
  pub Ordered-split :
      (end w : ℕ) (xs : List ℕ)
      → c + w < p
      → p + v ≡ c + size c
      → Ordered size end (xs ++ c ∷ ys)
      → Ordered (update (update size c w) p v) end (xs ++ c ∷ p ∷ ys)
  unfolding Ordered
  Ordered-split end w [] h e (o, os) =
      let fresh : (q : ℕ) → q ≤ c + size c → Fresh q ys =
        λ q le. Ordered-Fresh size (c + size c) q ys le os in
      (
        o,
        rw (update_ne (update size c w) p c v (λ q. omega (arith, q)), update_self size c w)
            (
              h,
              rw (update_self (update size c w) p v, e)
                  (Ordered-update (update size c w) (c + size c) p v ys (fresh p (omega arith))
                    (Ordered-update size (c + size c) c w ys (fresh c (omega arith)) os)),
            ),
      )
  Ordered-split end w (x ∷ xs) h e (o, os) =
      let before = Ordered-behind size (x + size x) c xs ys os in
      (
        o,
        rw
            (
              update_ne (update size c w) p x v (λ q. omega (arith, before, q)),
              update_ne size c x w (λ q. omega (arith, before, q)),
            )
            (Ordered-split (x + size x) w xs h e os),
      )
