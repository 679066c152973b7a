-- ===== src/Freelist/Chain.antt =====
-- Lemmas on the lists of blocks that the links of byterun/freelist.c form: their order, their
-- sizes, and how a block leaves them.
use ocamil.Prelude.{
  ℕ, suc, ◌+◌, ◌≤◌, ◌<◌, ◌≡◌, ◌≢◌, refl, sym, ap, Option, none, some, List, [], ◌∷◌, ◌++◌, ◌==◌,
  arith, length, inl, inr, Bool-cases,
}
use ocamil.Freelist.{update}

-- The links lead from `p` through `bs` to the end.
unfoldable pub Linked : (ℕ → Option ℕ) → ℕ → List ℕ → Type 0
Linked next p [] = next p ≡ none
Linked next p (b ∷ bs) = (next p ≡ some b) × Linked next b bs

-- Each block has its header behind the end of the block before.
unfoldable pub Ordered : (ℕ → ℕ) → (end : ℕ) → List ℕ → Type 0
Ordered size end [] = Unit
Ordered size end (b ∷ bs) = (end < b) × Ordered size (b + size b) bs

unfoldable pub Fresh : ℕ → List ℕ → Type 0
Fresh p [] = Unit
Fresh p (b ∷ bs) = (p ≢ b) × Fresh p bs

-- The words of the blocks, with their headers.
unfoldable pub total : (ℕ → ℕ) → List ℕ → ℕ
total size [] = 0
total size (b ∷ bs) = suc (size b) + total size bs

abbrev pub last : ℕ → List ℕ → ℕ
last p [] = p
last p (b ∷ bs) = last b bs

pub append_assoc : (xs ys zs : List ℕ) → (xs ++ ys) ++ zs ≡ xs ++ (ys ++ zs)
append_assoc [] ys zs = refl
append_assoc (x ∷ xs) ys zs = ap (λ l. x ∷ l) (append_assoc xs ys zs)

pub last-append : (p : ℕ) (xs ys : List ℕ) → last p (xs ++ ys) ≡ last (last p xs) ys
last-append p [] ys = refl
last-append p (x ∷ xs) ys = last-append x xs ys

-- No block occurs before itself.
unfoldable pub Distinct : ℕ → List ℕ → Type 0
Distinct p [] = Unit
Distinct p (b ∷ bs) = Fresh p (b ∷ bs) × Distinct b bs

pub Ordered-Fresh :
    (size : ℕ → ℕ) (end p : ℕ) (bs : List ℕ) → p ≤ end → Ordered size end bs → Fresh p bs
unfolding Ordered Fresh
Ordered-Fresh size end p [] h o = tt
Ordered-Fresh size end p (b ∷ bs) h (o, os) =
    ((λ e. omega (arith, e)), Ordered-Fresh size (b + size b) p bs (omega arith) os)

pub Ordered-Distinct :
    (size : ℕ → ℕ) (end p : ℕ) (bs : List ℕ) → Fresh p bs → Ordered size end bs → Distinct p bs
unfolding Ordered Distinct
Ordered-Distinct size end p [] f o = tt
Ordered-Distinct size end p (b ∷ bs) f (o, os) = (
  f,
  Ordered-Distinct size (b + size b) b bs (Ordered-Fresh size (b + size b) b bs (omega arith) os)
      os,
)

pub length-total : (size : ℕ → ℕ) (bs : List ℕ) → length bs ≤ total size bs
unfolding total
length-total size [] = omega arith
length-total size (b ∷ bs) = omega (arith, length-total size bs)

pub total-append :
    (size : ℕ → ℕ) (xs ys : List ℕ) → total size (xs ++ ys) ≡ total size xs + total size ys
unfolding total
total-append size [] ys = omega arith
total-append size (x ∷ xs) ys = omega (arith, total-append size xs ys)

pub Fresh-last : (p b : ℕ) (bs : List ℕ) → Fresh p (b ∷ bs) → p ≢ last b bs
unfolding Fresh
Fresh-last p b [] (h, _) = h
Fresh-last p b (c ∷ bs) (_, hs) = Fresh-last p c bs hs

pub Fresh-append : (p : ℕ) (xs ys : List ℕ) → Fresh p (xs ++ ys) → Fresh p xs × Fresh p ys
unfolding Fresh
Fresh-append p [] ys h = (tt, h)
Fresh-append p (x ∷ xs) ys (h, hs) = let (f, g) = Fresh-append p xs ys hs in ((h, f), g)

pub Linked-append :
    (next : ℕ → Option ℕ) (p : ℕ) (xs ys : List ℕ)
    → Linked next p (xs ++ ys)
    → Linked next (last p xs) ys
unfolding Linked
Linked-append next p [] ys h = h
Linked-append next p (x ∷ xs) ys (_, h) = Linked-append next x xs ys h

pub update_ne : {A : Type 0} (f : ℕ → A) (p q : ℕ) (a : A) → p ≢ q → update f p a q ≡ f q
update_ne f p q a h = ground arith

pub update_self : {A : Type 0} (f : ℕ → A) (p : ℕ) (a : A) → update f p a p ≡ a
update_self f p a = ground arith

-- A link of another block changes nothing.
pub Linked-update :
    (next : ℕ → Option ℕ) (p q : ℕ) (v : Option ℕ) (bs : List ℕ)
    → Fresh p (q ∷ bs)
    → Linked next q bs
    → Linked (update next p v) q bs
unfolding Linked Fresh
Linked-update next p q v [] (h, _) l = rw (update_ne next p q v h) l
Linked-update next p q v (b ∷ bs) (h, hs) (l, ls) =
    (rw (update_ne next p q v h) l, Linked-update next p b v bs hs ls)

pub last_ne : (p x : ℕ) (xs ys : List ℕ) → Fresh p (x ∷ xs ++ ys) → last x xs ≢ p
last_ne p x xs ys f e = let (g, _) = Fresh-append p (x ∷ xs) ys f in Fresh-last p x xs g (sym e)

-- When the block before `c` takes over the link of `c`, the list is without `c`.
pub Linked-remove :
    (next : ℕ → Option ℕ) (p c : ℕ) (xs ys : List ℕ)
    → Distinct p (xs ++ c ∷ ys)
    → Linked next p (xs ++ c ∷ ys)
    → Linked (update next (last p xs) (next c)) p (xs ++ ys)
unfolding Linked Distinct Fresh
Linked-remove next p c [] [] d (_, l) = rw (update_self next p (next c)) l
Linked-remove next p c [] (y ∷ ys) ((_, f), _) (_, (l, ls)) =
    (rw (update_self next p (next c)) l, Linked-update next p y (next c) ys f ls)
Linked-remove next p c (x ∷ xs) ys (f, d) (l, ls) = (
  rw (update_ne next (last x xs) p (next c) (last_ne p x xs (c ∷ ys) f)) l,
  Linked-remove next x c xs ys d ls,
)

pub Ordered-mono :
    (size size' : ℕ → ℕ) (end end' : ℕ) (bs : List ℕ)
    → ((b : ℕ) → size' b ≤ size b)
    → end' ≤ end
    → Ordered size end bs
    → Ordered size' end' bs
unfolding Ordered
Ordered-mono size size' end end' [] le h o = tt
Ordered-mono size size' end end' (b ∷ bs) le h (o, os) =
    (omega arith, Ordered-mono size size' (b + size b) (b + size' b) bs le (omega (arith, le b)) os)

pub update_le : (size : ℕ → ℕ) (c v : ℕ) → v ≤ size c → (b : ℕ) → update size c v b ≤ size b
update_le size c v h b = elim (Bool-cases (c == b)) [
  | inl e ↦ let same : c ≡ b = ground arith in rw (e, sym same) h
  | inr e ↦ rw e (omega arith)
]

pub Ordered-shrink :
    (size : ℕ → ℕ) (end c v : ℕ) (bs : List ℕ)
    → v ≤ size c
    → Ordered size end bs
    → Ordered (update size c v) end bs
Ordered-shrink size end c v bs h o =
    Ordered-mono size (update size c v) end end bs (update_le size c v h) (omega arith) o

pub Ordered-remove :
    (size : ℕ → ℕ) (end c : ℕ) (xs ys : List ℕ)
    → Ordered size end (xs ++ c ∷ ys)
    → Ordered size end (xs ++ ys)
unfolding Ordered
Ordered-remove size end c [] ys (o, os) =
    Ordered-mono size size (c + size c) end ys (λ b. omega arith) (omega arith) os
Ordered-remove size end c (x ∷ xs) ys (o, os) = (o, Ordered-remove size (x + size x) c xs ys os)

pub Fresh-remove : (p c : ℕ) (xs ys : List ℕ) → Fresh p (xs ++ c ∷ ys) → Fresh p (xs ++ ys)
unfolding Fresh
Fresh-remove p c [] ys (_, h) = h
Fresh-remove p c (x ∷ xs) ys (h, hs) = (h, Fresh-remove p c xs ys hs)

pub Distinct-Fresh : (p : ℕ) (bs : List ℕ) → Distinct p bs → Fresh p bs
unfolding Distinct Fresh
Distinct-Fresh p [] d = tt
Distinct-Fresh p (b ∷ bs) (f, _) = f

-- A block is not among the others.
pub Fresh-others : (p c : ℕ) (xs ys : List ℕ) → Distinct p (xs ++ c ∷ ys) → Fresh c xs × Fresh c ys
unfolding Distinct Fresh
Fresh-others p c [] ys (_, d) = (tt, Distinct-Fresh c ys d)
Fresh-others p c (x ∷ xs) ys (_, d) =
    let (_, (ne, _)) = Fresh-append x xs (c ∷ ys) (Distinct-Fresh x (xs ++ c ∷ ys) d) in
    let (f, g) = Fresh-others x c xs ys d in (((λ e. ne (sym e)), f), g)

pub total-update :
    (size : ℕ → ℕ) (c v : ℕ) (bs : List ℕ) → Fresh c bs → total (update size c v) bs ≡ total size bs
unfolding total Fresh
total-update size c v [] f = refl
total-update size c v (b ∷ bs) (h, f) =
    omega (arith, update_ne size c b v h, total-update size c v bs f)

-- A new size of one block, in terms of the words of the others.
pub total-resize :
    (size : ℕ → ℕ) (p c v : ℕ) (xs ys : List ℕ)
    → Distinct p (xs ++ c ∷ ys)
    → total (update size c v) (xs ++ c ∷ ys) + size c ≡ total size (xs ++ c ∷ ys) + v
unfolding total
total-resize size p c v xs ys d =
    let (f, g) = Fresh-others p c xs ys d in
    omega (
      arith,
      total-append size xs (c ∷ ys),
      total-append (update size c v) xs (c ∷ ys),
      total-update size c v xs f,
      total-update size c v ys g,
      update_self size c v,
    )

pub total-remove :
    (size : ℕ → ℕ) (p c v : ℕ) (xs ys : List ℕ)
    → Distinct p (xs ++ c ∷ ys)
    → total (update size c v) (xs ++ ys) + suc (size c) ≡ total size (xs ++ c ∷ ys)
unfolding total
total-remove size p c v xs ys d =
    let (f, g) = Fresh-others p c xs ys d in
    omega (
      arith,
      total-append size xs (c ∷ ys),
      total-append (update size c v) xs ys,
      total-update size c v xs f,
      total-update size c v ys g,
    )
