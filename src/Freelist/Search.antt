-- ===== src/Freelist/Search.antt =====
-- The two searches of `fl_allocate` in byterun/freelist.c and a search of the list of blocks.
use ocamil.Prelude.{
  ℕ, zero, suc, ◌<◌, ◌≡◌, refl, Option, none, some, true, false, List, [], ◌∷◌, ◌++◌, leb, ◌==◌,
  if◌then◌else◌, arith, inl, inr, Bool-cases, length,
}
use ocamil.Freelist.{FreeList, Found, fits, ends, search_to_end, search_to_prev}
use ocamil.Freelist.Chain.{Linked, Distinct, last, Fresh-last, Fresh-append}

-- The first block of at least `n` words, with the one before it.
abbrev pub first_fit : (ℕ → ℕ) → (n p : ℕ) → List ℕ → Option (ℕ × ℕ)
first_fit size n p [] = none
first_fit size n p (b ∷ bs) = if leb n (size b) then some (p, b) else first_fit size n b bs

abbrev pub found_or : ℕ → Option (ℕ × ℕ) → Found
found_or q none = ends q
found_or q (some (p, c)) = fits p c

pub search_to_end_lem :
    (s : FreeList) (f n p : ℕ) (bs : List ℕ)
    → length bs < f
    → Linked s.next p bs
    → search_to_end f n p s ≡ found_or (last p bs) (first_fit s.wosize n p bs)
unfolding search_to_end Linked
search_to_end_lem s zero n p bs h l = elim h [ ]
search_to_end_lem s (suc f) n p [] h l = rw (l, search_to_end) refl
search_to_end_lem s (suc f) n p (b ∷ bs) h (l, ls) =
    rw (l, search_to_end)
      (elim (Bool-cases (leb n (s.wosize b))) [
        | inl e ↦ rw e refl
        | inr e ↦ rw e (search_to_end_lem s f n b bs (omega arith) ls)
      ])

pub search_to_prev_lem :
    (s : FreeList) (f n p : ℕ) (bs rest : List ℕ)
    → length bs < f
    → Linked s.next p (bs ++ rest)
    → Distinct p (bs ++ rest)
    → last p bs ≡ s.fl_prev
    → search_to_prev f n p s ≡ found_or s.fl_prev (first_fit s.wosize n p bs)
unfolding search_to_prev Linked Distinct
search_to_prev_lem s zero n p bs rest h l d e = elim h [ ]
search_to_prev_lem s (suc f) n p [] rest h l d e =
    let at : (p == s.fl_prev) ≡ true = ground arith in rw (at, e) refl
search_to_prev_lem s (suc f) n p (b ∷ bs) rest h (l, ls) (fr, d) e =
    let (fr', _) = Fresh-append p (b ∷ bs) rest fr in
    let ne = Fresh-last p b bs fr' in
    let not_yet : (p == s.fl_prev) ≡ false = ground arith in
    rw (not_yet, l)
      (elim (Bool-cases (leb n (s.wosize b))) [
        | inl e₁ ↦ rw e₁ refl
        | inr e₁ ↦ rw e₁ (search_to_prev_lem s f n b bs rest (omega arith) ls d e)
      ])
