-- ===== src/Compare/Worklist.antt =====
-- The loop of `compare_val` in byterun/compare.c and a comparison of a plain list of pairs of
-- values, with no stack of items, no counts and no limit.
use ocamil.Prelude.{
  ℕ, zero, suc, ◌-◌, ◌*◌, ◌≤◌, ◌<◌, ◌≡◌, ◌⊎◌, ◌∙◌, inl, inr, refl, sym, ap, Option, none, some,
  true, false, List, [], ◌∷◌, ◌++◌, ltb, ◌==◌, length, arith, Option-cases, Bool-cases,
}
use ocamil.Prelude.Int.{pos}
use ocamil.Machine.Value.{Value, Heap, field}
use ocamil.Compare.{
  Examined, out_of_memory, next_item, differ, again, inside, raises, Outside, examine,
}
use ocamil.Compare.Loop.{
  CompareItem, Comparing, Comparison, order, raised, fault, out_of_fuel, Turn, finished, continues,
  room, compare_resize_stack, compare_stack_max_size, remaining, next_turn, remember, first_fields,
  turn_for, compare_turn, compare_loop,
}

-- `n` fields of two blocks, from index `i` on; `none` is a field that is not there.
abbrev pub pairs : Heap → (v1 v2 : Value) → (i n : ℕ) → List (Option Value × Option Value)
pairs h v1 v2 i zero = []
pairs h v1 v2 i (suc n) = (field h v1 i, field h v2 i) ∷ pairs h v1 v2 (suc i) n

module _ (o : Outside) (h : Heap) where
  -- The pairs are compared from the left, and the fields of a block before what follows it.
  unfoldable pub compare_pairs : ℕ → List (Option Value × Option Value) → Comparison
  compare_pairs f [] = order (pos 0)
  compare_pairs f ((none, w2) ∷ rest) = fault
  compare_pairs f ((some v1, none) ∷ rest) = fault
  compare_pairs zero ((some v1, some v2) ∷ rest) = out_of_fuel
  compare_pairs (suc f) ((some v1, some v2) ∷ rest) = elim (examine o h v1 v2) [
    | none ↦ fault
    | some next_item ↦ compare_pairs f rest
    | some (differ d) ↦ order d
    | some (again w1 w2) ↦ compare_pairs f ((some w1, some w2) ∷ rest)
    | some (inside n) ↦ compare_pairs f (pairs h v1 v2 0 (suc n) ++ rest)
    | some (raises e) ↦ raised e
  ]

  abbrev pub of_stack : List CompareItem → List (Option Value × Option Value)
  of_stack [] = []
  of_stack (item ∷ rest) = pairs h item.v1 item.v2 item.index item.count ++ of_stack rest

  abbrev pub of_state : Comparing → List (Option Value × Option Value)
  of_state s = (some s.v1, some s.v2) ∷ of_stack s.stack

  -- The items of a stack have fields left.
  abbrev pub Counted : List CompareItem → Type 0
  Counted [] = Unit
  Counted (item ∷ rest) = (0 < item.count) × Counted rest

  -- What is left of an item.
  length-remaining :
      (item : CompareItem) (rest : List CompareItem)
      → length (remaining item rest) ≤ suc (length rest)
  unfolding remaining
  length-remaining item rest = ground arith

  of_stack-remaining :
      (item : CompareItem) (rest : List CompareItem) (k : ℕ)
      → item.count ≡ suc k
      → of_stack (remaining item rest) ≡ pairs h item.v1 item.v2 (suc item.index) k ++ of_stack rest
  unfolding remaining
  of_stack-remaining item rest zero e =
      let one : (item.count - 1 == 0) ≡ true = ground arith in rw one refl
  of_stack-remaining item rest (suc k) e =
      let more : (item.count - 1 == 0) ≡ false = ground arith in
      let less : item.count - 1 ≡ suc k = omega arith in rw (more, less) refl

  remaining-Counted :
      (item : CompareItem) (rest : List CompareItem)
      → 0 < item.count
      → Counted rest
      → Counted (remaining item rest)
  unfolding remaining
  remaining-Counted item rest h c = elim (Bool-cases (item.count - 1 == 0)) [
    | inl e ↦ rw e c
    | inr e ↦ rw e ((let p : 0 < item.count - 1 = ground arith in p), c)
  ]

  -- The look at the pair needs an item for which there is no room: the stack is at its limit, and the
  -- double of the limit is not below the maximal size, or malloc does not give it.
  abbrev pub Full : Comparing → Type 0
  Full s =
      (more : ℕ) × (examine o h s.v1 s.v2 ≡ some (inside (suc more)))
      × (s.limit ≤ suc (length s.stack))
      × ((compare_stack_max_size ≤ 2 * s.limit) ⊎ (o.malloc (2 * s.limit) ≡ false))

  -- So many turns, or fewer, lead to a full stack.
  unfoldable pub Overflows : ℕ → Comparing → Type 0
  Overflows zero s = Full s
  Overflows (suc f) s =
      Full s ⊎ ((s' : Comparing) × (compare_turn o h s ≡ continues s') × Overflows f s')

  -- The outcome is that of the list, or Out_of_memory where the stack is full.
  abbrev pub Agrees : ℕ → Comparing → Comparison → Comparison → Type 0
  Agrees f s c d = ((c ≡ raised out_of_memory) × Overflows f s) ⊎ (c ≡ d)

  -- Or an item was written behind the limit, where the stack was behind it from the start.
  abbrev pub AgreesOrFaults : ℕ → Comparing → Comparison → Comparison → Type 0
  AgreesOrFaults f s c d = Agrees f s c d ⊎ ((c ≡ fault) × (s.limit ≤ length s.stack))

  -- A turn that is the last one, or leads to a state that stands for the list.
  abbrev Follows : Comparing → Turn → List (Option Value × Option Value) → Type 0
  Follows s t l =
      ((c : Comparison) × (t ≡ finished c) × ((f : ℕ) → c ≡ compare_pairs f l))
      ⊎ ((s' : Comparing) × (t ≡ continues s')
          × Counted s'.stack
          × (s'.limit ≤ length s'.stack → s.limit ≤ length s.stack)
          × (of_state s' ≡ l))

  -- The next pair from the stack.
  next_turn-Follows :
      (s : Comparing) (stack : List CompareItem)
      → s.stack ≡ stack
      → Counted stack
      → Follows s (next_turn h stack s.limit) (of_stack stack)
  unfolding next_turn compare_pairs
  next_turn-Follows s [] is c = inl (order (pos 0), refl, λ f. refl)
  next_turn-Follows s (item ∷ rest) is (h₁, c) =
      let k = item.count - 1 in
      let e : item.count ≡ suc k = omega arith in
      elim (Option-cases (field h item.v1 item.index)) [
        | inl e₁ ↦ inl (fault, rw (e₁, next_turn) refl, λ f. rw (e, e₁) refl)
        | inr (v1, e₁) ↦ elim (Option-cases (field h item.v2 item.index)) [
          | inl e₂ ↦ inl (fault, rw (e₁, e₂, next_turn) refl, λ f. rw (e, e₁, e₂) refl)
          | inr (v2, e₂) ↦ inr (
            record { v1 = v1; v2 = v2; stack = remaining item rest; limit = s.limit },
            rw (e₁, e₂, next_turn) refl,
            remaining-Counted item rest h₁ c,
            (λ l. let shorter = length-remaining item rest in omega (arith, l, ap length is)),
            ap (λ l. (some v1, some v2) ∷ l) (of_stack-remaining item rest k e)
                ∙ sym (
                    ap (λ n. pairs h item.v1 item.v2 item.index n ++ of_stack rest) e
                    ∙ rw (e₁, e₂) refl),
          )
        ]
      ]

  -- The first fields of two blocks.
  first_fields-Follows :
      (s s' : Comparing) (more : ℕ) (l : List (Option Value × Option Value))
      → Counted s'.stack
      → (s'.limit ≤ length s'.stack → s.limit ≤ length s.stack)
      → of_stack s'.stack ≡ pairs h s'.v1 s'.v2 1 more ++ l
      → Follows s (first_fields h s') (pairs h s'.v1 s'.v2 0 (suc more) ++ l)
  unfolding first_fields compare_pairs
  first_fields-Follows s s' more l c within e = elim (Option-cases (field h s'.v1 0)) [
    | inl e₁ ↦ inl (fault, rw (e₁, first_fields) refl, λ f. rw e₁ refl)
    | inr (v1, e₁) ↦ elim (Option-cases (field h s'.v2 0)) [
      | inl e₂ ↦ inl (fault, rw (e₁, e₂, first_fields) refl, λ f. rw (e₁, e₂) refl)
      | inr (v2, e₂) ↦ inr (
        record s' { v1 = v1; v2 = v2 },
        rw (e₁, e₂, first_fields) refl,
        c,
        within,
        rw (e₁, e₂, e) refl,
      )
    ]
  ]

  room-Full :
      (s : Comparing) (more : ℕ)
      → examine o h s.v1 s.v2 ≡ some (inside (suc more))
      → room o.malloc (suc (length s.stack)) s.limit ≡ none
      → Full s
  unfolding room compare_resize_stack
  room-Full s more at e = (more, at, ground arith, ground arith)

  room-above :
      (s : Comparing) (limit : ℕ)
      → room o.malloc (suc (length s.stack)) s.limit ≡ some limit
      → limit ≤ suc (length s.stack)
      → s.limit ≤ length s.stack
  unfolding room compare_resize_stack
  room-above s limit e l = ground arith

  inside-Follows :
      (s : Comparing) (more : ℕ)
      → examine o h s.v1 s.v2 ≡ some (inside more)
      → Counted s.stack
      → ((turn_for o h s (inside more) ≡ finished (raised out_of_memory)) × Full s)
        ⊎ ((turn_for o h s (inside more) ≡ finished fault) × (s.limit ≤ length s.stack))
        ⊎ Follows s
            (turn_for o h s (inside more))
            (pairs h s.v1 s.v2 0 (suc more) ++ of_stack s.stack)
  unfolding turn_for remember
  inside-Follows s zero at c =
      let none_left : ltb 0 0 ≡ false = ground arith in
      inr (inr (first_fields-Follows s s 0 (of_stack s.stack) c (λ l. l) refl))
  inside-Follows s (suc k) at c =
      let some_left : ltb 0 (suc k) ≡ true = ground arith in
      elim (Option-cases (room o.malloc (suc (length s.stack)) s.limit)) [
        | inl e ↦ inl (rw (some_left, e, turn_for, remember) refl, room-Full s k at e)
        | inr (limit, e) ↦ elim (Bool-cases (ltb (suc (length s.stack)) limit)) [
          | inr out ↦ inr (
              inl (
                rw (some_left, e, out, turn_for, remember) refl,
                room-above s limit e (ground arith),
              ))
          | inl fits ↦
              let item : CompareItem = record { v1 = s.v1; v2 = s.v2; index = 1; count = suc k } in
              let s' : Comparing = record s { stack = item ∷ s.stack; limit = limit } in
              inr (
                inr (
                  rw (some_left, e, fits, turn_for, remember)
                    (first_fields-Follows s s' (suc k) (of_stack s.stack)
                      ((let p : 0 < suc k = omega arith in p), c) (λ l. absurd (ground arith))
                      refl)))
        ]
      ]

  module _ (f : ℕ) (s : Comparing) where
    last_turn : (c : Comparison) → compare_turn o h s ≡ finished c → compare_loop o h (suc f) s ≡ c
    unfolding compare_loop
    last_turn c e = rw (e, compare_loop) refl

    next_step :
        (s' : Comparing)
        → compare_turn o h s ≡ continues s'
        → compare_loop o h (suc f) s ≡ compare_loop o h f s'
    unfolding compare_loop
    next_step s' e = rw (e, compare_loop) refl

    later :
        (s' : Comparing) (c d : Comparison)
        → compare_turn o h s ≡ continues s'
        → (s'.limit ≤ length s'.stack → s.limit ≤ length s.stack)
        → AgreesOrFaults f s' c d
        → AgreesOrFaults (suc f) s c d
    unfolding Overflows
    later s' c d e within (inl (inl (m, full))) = inl (inl (m, inr (s', e, full)))
    later s' c d e within (inl (inr same)) = inl (inr same)
    later s' c d e within (inr (m, l)) = inr (m, within l)

    follow :
        (l : List (Option Value × Option Value))
        → ((s : Comparing)
            → Counted s.stack
            → AgreesOrFaults f s (compare_loop o h f s) (compare_pairs f (of_state s)))
        → Follows s (compare_turn o h s) l
        → AgreesOrFaults (suc f) s (compare_loop o h (suc f) s) (compare_pairs f l)
    follow l ih (inl (c, e, same)) = inl (inr (last_turn c e ∙ same f))
    follow l ih (inr (s', e, c, within, stands)) =
        rw (next_step s' e, sym stands)
          (later s' (compare_loop o h f s') (compare_pairs f (of_state s')) e within (ih s' c))

    now : Full s → Overflows (suc f) s
    unfolding Overflows
    now full = inl full

    listed :
        (l : List (Option Value × Option Value))
        → compare_pairs (suc f) (of_state s) ≡ compare_pairs f l
        → AgreesOrFaults (suc f) s (compare_loop o h (suc f) s) (compare_pairs f l)
        → AgreesOrFaults (suc f) s (compare_loop o h (suc f) s) (compare_pairs (suc f) (of_state s))
    listed l e agrees = rw e agrees

  turn_lem :
      (s : Comparing) (x : Examined)
      → examine o h s.v1 s.v2 ≡ some x
      → compare_turn o h s ≡ turn_for o h s x
  unfolding compare_turn
  turn_lem s x e = rw (e, compare_turn) refl

  pub compare_loop-AgreesOrFaults :
      (f : ℕ) (s : Comparing)
      → Counted s.stack
      → AgreesOrFaults f s (compare_loop o h f s) (compare_pairs f (of_state s))
  unfolding compare_loop compare_pairs compare_turn turn_for
  compare_loop-AgreesOrFaults zero s c = inl (inr refl)
  compare_loop-AgreesOrFaults (suc f) s c =
      let ih = compare_loop-AgreesOrFaults f in
      elim (Option-cases (examine o h s.v1 s.v2)) [
        | inl e ↦ rw (e, compare_loop, compare_turn, compare_pairs) (inl (inr refl))
        | inr (next_item, e) ↦ listed f s (of_stack s.stack) (rw (e, compare_pairs) refl) (
            follow f s (of_stack s.stack) ih
              (rw (turn_lem s next_item e) (next_turn-Follows s s.stack refl c)))
        | inr (differ d, e) ↦ rw (e, compare_loop, compare_turn, compare_pairs) (inl (inr refl))
        | inr (again v1 v2, e) ↦
            let l = (some v1, some v2) ∷ of_stack s.stack in
            let s' : Comparing = record s { v1 = v1; v2 = v2 } in
            listed f s l (rw (e, compare_pairs) refl)
              (follow f s l ih (inr (s', turn_lem s (again v1 v2) e, c, (λ l. l), refl)))
        | inr (inside more, e) ↦
            let turn = turn_lem s (inside more) e in
            let l = pairs h s.v1 s.v2 0 (suc more) ++ of_stack s.stack in
            listed f s l (rw (e, compare_pairs) refl) (elim (inside-Follows s more e c) [
              | inl (e', full) ↦
                  inl (inl (last_turn f s (raised out_of_memory) (turn ∙ e'), now f s full))
              | inr (inl (e', behind)) ↦ inr (last_turn f s fault (turn ∙ e'), behind)
              | inr (inr next) ↦ follow f s l ih (rw turn next)
            ])
        | inr (raises x, e) ↦ rw (e, compare_loop, compare_turn, compare_pairs) (inl (inr refl))
      ]

  -- The loop with its stack of items, which is below its limit, gives the outcome of the list of
  -- pairs, turn by turn: the same order, exception or fault, and it goes on as long, so that an item
  -- is not written behind the limit, which is a fault, where the list gives none; or the answer is
  -- Out_of_memory, and a turn of the loop met a full stack (`Full`): an item was needed at the limit,
  -- and the stack cannot be doubled.
  pub compare_loop-Agrees :
      (f : ℕ) (s : Comparing)
      → Counted s.stack
      → length s.stack < s.limit
      → Agrees f s (compare_loop o h f s) (compare_pairs f (of_state s))
  compare_loop-Agrees f s c below = elim (compare_loop-AgreesOrFaults f s c) [
    | inl agrees ↦ agrees
    | inr (e, l) ↦ absurd (omega arith)
  ]
