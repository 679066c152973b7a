-- ===== src/Lexing/Refill.antt =====
-- A refill appends bytes to the buffer, and `lex_engine` is entered again.
use ocamil.Prelude.{
  ℕ, zero, suc, ◌<◌, ◌≤◌, ◌≡◌, false, some, List, inl, inr, arith, get_elem?, Option-cases,
}
use ocamil.Prelude.Int.{ℤ, pos, negsuc}
use ocamil.Tables.{short}
use ocamil.Lexing.{
  LexerBuffer, LexingTable, Outcome, token, refill, empty_token, done, again, Run, returned, scan,
  turns, start, lex_engine, turn, advance,
}
use ocamil.Lexing.Fuel.{turns-turn, turns-pos}

abbrev pub extend : List ℕ → ℕ → LexerBuffer → LexerBuffer
extend buf n lb = record lb { lex_buffer = buf; lex_buffer_len = n }

-- `buf` holds at least the bytes of the buffer, whose input has not ended.
pub record Extends (buf : List ℕ) (n : ℕ) (lb : LexerBuffer) : Type 0 where
  pub longer : lb.lex_buffer_len ≤ n
  pub more : lb.lex_eof_reached ≡ false
  pub same : (i : ℕ) → i < lb.lex_buffer_len → get_elem? buf i ≡ get_elem? lb.lex_buffer i

-- The run on the longer buffer, after an outcome on the shorter one.
unfoldable pub resume : LexingTable → List ℕ → ℕ → Outcome → Run
resume tbl buf n (token a lb) = returned (token a (extend buf n lb))
resume tbl buf n (empty_token lb) = returned (empty_token (extend buf n lb))
resume tbl buf n (refill t lb) = lex_engine tbl (negsuc t) (extend buf n lb)

module _ (tbl : LexingTable) (buf : List ℕ) (n : ℕ) where
  -- More fuel than turns changes nothing.
  scan_fuel :
      (f g s : ℕ) (lb : LexerBuffer)
      → turns lb ≤ f
      → turns lb ≤ g
      → scan tbl f s lb ≡ scan tbl g s lb
  unfolding scan
  scan_fuel zero g s lb hf hg = absurd (omega (arith, turns-pos lb))
  scan_fuel (suc f) zero s lb hf hg = absurd (omega (arith, turns-pos lb))
  scan_fuel (suc f) (suc g) s lb hf hg = elim (Option-cases (short tbl.lex_base s)) [
    | inl e ↦ rw (e, scan)
    | inr (base, e) ↦
        rw (e, scan)
          (elim (Option-cases (turn tbl s lb base)) [
            | inl e' ↦ rw (e', scan)
            | inr (done o, e') ↦ rw (e', scan)
            | inr (again t lb', e') ↦
                let fewer = turns-turn tbl s t lb lb' base e' in
                rw (e', scan) (scan_fuel f g t lb' (omega arith) (omega arith))
          ])
  ]

  module _ (s : ℕ) (lb : LexerBuffer) (base : ℤ) (x : Extends buf n lb) where
    turn-again :
        (t : ℕ) (lb' : LexerBuffer)
        → turn tbl s lb base ≡ some (again t lb')
        → (turn tbl s (extend buf n lb) base ≡ some (again t (extend buf n lb')))
          × Extends buf n lb'
    unfolding turn advance
    turn-again t lb' e = ground (arith, x.same lb.lex_curr_pos)

    turn-token :
        (a : ℤ) (lb' : LexerBuffer)
        → turn tbl s lb base ≡ some (done (token a lb'))
        → turn tbl s (extend buf n lb) base ≡ some (done (token a (extend buf n lb')))
    unfolding turn advance
    turn-token a lb' e = ground (arith, x.same lb.lex_curr_pos)

    turn-empty_token :
        (lb' : LexerBuffer)
        → turn tbl s lb base ≡ some (done (empty_token lb'))
        → turn tbl s (extend buf n lb) base ≡ some (done (empty_token (extend buf n lb')))
    unfolding turn advance
    turn-empty_token lb' e = ground (arith, x.same lb.lex_curr_pos)

    turn-refill :
        (t : ℕ) (lb' : LexerBuffer)
        → turn tbl s lb base ≡ some (done (refill t lb'))
        → (t ≡ s)
          × (turn tbl s (extend buf n lb) base ≡ turn tbl s (extend buf n lb') base)
          × (turns (extend buf n lb') ≡ turns (extend buf n lb))
    unfolding turn advance turns
    turn-refill t lb' e = ground (arith, x.same lb.lex_curr_pos)

  -- The turn on the longer buffer, at the table's base for the state.
  scan-turn :
      (g s : ℕ) (lb : LexerBuffer) {base : ℤ} {o : Outcome}
      → short tbl.lex_base s ≡ some base
      → turn tbl s lb base ≡ some (done o)
      → scan tbl (suc g) s lb ≡ returned o
  unfolding scan
  scan-turn g s lb e e' = rw (e, scan) (rw (e', scan))

  scan_same :
      (g s : ℕ) (lb lb' : LexerBuffer) {base : ℤ}
      → short tbl.lex_base s ≡ some base
      → turn tbl s lb base ≡ turn tbl s lb' base
      → scan tbl (suc g) s lb ≡ scan tbl (suc g) s lb'
  unfolding scan
  scan_same g s lb lb' e e' = rw (e, scan) (rw (e', scan))

  scan-resume :
      (f g s : ℕ) (lb : LexerBuffer) (o : Outcome)
      → turns lb ≤ f
      → turns (extend buf n lb) ≤ g
      → Extends buf n lb
      → scan tbl f s lb ≡ returned o
      → scan tbl g s (extend buf n lb) ≡ resume tbl buf n o
  unfolding scan resume lex_engine
  scan-resume zero g s lb o hf hg x h = absurd (omega (arith, turns-pos lb))
  scan-resume (suc f) zero s lb o hf hg x h = absurd (omega (arith, turns-pos (extend buf n lb)))
  scan-resume (suc f) (suc g) s lb o hf hg x h = elim (Option-cases (short tbl.lex_base s)) [
    | inl e ↦ cc (rw (e, scan) at h)
    | inr (base, e) ↦ elim (Option-cases (turn tbl s lb base)) [
      | inl e' ↦ cc (rw (e', scan) at (rw (e, scan) at h))
      | inr (done (token a lb'), e') ↦
          let there = scan-turn g s _ e (turn-token s lb base x a lb' e') in
          cc (there, scan-turn f s lb e e')
      | inr (done (empty_token lb'), e') ↦
          let there = scan-turn g s _ e (turn-empty_token s lb base x lb' e') in
          cc (there, scan-turn f s lb e e')
      | inr (done (refill t lb'), e') ↦
          let (at_s, again_there, as_many) = turn-refill s lb base x t lb' e' in
          let there = scan_same g s _ _ e again_there in
          let enough : turns (extend buf n lb') ≤ suc g = omega arith in
          let enter = scan_fuel (suc g) (turns (extend buf n lb')) s _ enough (omega arith) in
          cc (there, enter, at_s, scan-turn f s lb e e')
      | inr (again t lb', e') ↦
          let (e'', x') = turn-again s lb base x t lb' e' in
          rw (e, scan)
            (rw (e'', scan)
              (scan-resume f g t lb' o (omega (arith, turns-turn tbl s t lb lb' base e'))
                (omega (arith, turns-turn tbl s t _ _ base e'')) x'
                (rw (e', scan) at (rw (e, scan) at h))))
    ]
  ]

  -- A refill is transparent. Take a buffer with no end of input yet, and a longer one with the same
  -- bytes. If the automaton finds a token (or an empty token) in the shorter, it finds the same in
  -- the longer, at the same positions; if it asks for a refill, then going on from the state that it
  -- returned is the same as running on the longer buffer from the start.
  pub lex_engine-resume :
      (s : ℤ) (lb : LexerBuffer) (o : Outcome)
      → Extends buf n lb
      → lex_engine tbl s lb ≡ returned o
      → lex_engine tbl s (extend buf n lb) ≡ resume tbl buf n o
  unfolding lex_engine start turns
  lex_engine-resume (pos s) lb o x h =
      scan-resume (turns lb) (turns (extend buf n lb)) s (start lb) o (omega arith) (omega arith)
        (record { longer = x.longer; more = x.more; same = x.same }) h
  lex_engine-resume (negsuc s) lb o x h =
      scan-resume (turns lb) (turns (extend buf n lb)) s lb o (omega arith) (omega arith) x h
