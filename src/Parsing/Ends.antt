-- ===== src/Parsing/Ends.antt =====
-- The number of jumps of `parse_engine` in byterun/parsing.c.
use ocamil.Prelude.{
  ℕ, zero, suc, ◌<◌, ◌≡◌, ◌≢◌, some, inl, inr, arith, ltb, if◌then◌else◌, Option-cases,
}
use ocamil.Prelude.Int.{ℤ, pos, negsuc}
use ocamil.Parsing.{
  ParserTables, ParserEnv, Input, Registers, Label, loop, testshift, recover, push, semantic_action,
  shift, shift_recover, reduce, goto, answer,
}
use ocamil.Parsing.Engine.{
  jumps, at_loop, test_reduce, at_testshift, at_recover, at_shift, at_shift_recover, at_push,
  at_reduce, jump, run, enter_command, parse_engine,
}

-- How many jumps are left: with no lookahead, while no token was shifted since an error (a
-- lookahead is then dropped), or else.
abbrev pub by_stage : (no_lookahead no_shift other errflag : ℕ) → ℤ → ℕ
by_stage a b c errflag (negsuc _) = a
by_stage a b c errflag (pos _) = if ltb errflag 3 then c else b

unfoldable pub rank : Label → (errflag : ℕ) → (curr_char : ℤ) → ℕ
rank semantic_action e c = 1
rank (reduce n) e c = 2
rank loop e c = by_stage 3 8 13 e c
rank recover e c = if ltb e 3 then 11 else 4
rank push e c = by_stage 4 9 14 e c
rank (shift_recover n) e c = by_stage 5 10 15 e c
rank (shift n) e c = 6
rank testshift e c = if ltb e 3 then 12 else 7

rank-jumps : (l : Label) (errflag : ℕ) (c : ℤ) → rank l errflag c < jumps
unfolding rank
rank-jumps l errflag c = ground arith

module _ {V : Type 0} (tables : ParserTables) where
  rank-jump :
      (l l' : Label) (r r' : Registers) (env env' : ParserEnv V)
      → jump tables l r env ≡ some (goto l' r' env')
      → rank l' r'.errflag env'.curr_char < rank l r.errflag env.curr_char
  unfolding jump at_loop at_testshift test_reduce at_recover at_shift at_shift_recover at_push
      at_reduce rank
  rank-jump loop l' r r' env env' e = ground arith
  rank-jump testshift l' r r' env env' e = ground arith
  rank-jump recover l' r r' env env' e = ground arith
  rank-jump (shift n) l' r r' env env' e = ground arith
  rank-jump (shift_recover n) l' r r' env env' e = ground arith
  rank-jump push l' r r' env env' e = ground arith
  rank-jump (reduce n) l' r r' env env' e = ground arith
  rank-jump semantic_action l' r r' env env' e = ground arith

  run-answers :
      (f : ℕ) (l l' : Label) (r r' : Registers) (env env' : ParserEnv V)
      → rank l r.errflag env.curr_char < f
      → run tables f l r env ≢ some (goto l' r' env')
  unfolding run
  run-answers zero l l' r r' env env' h = elim h [ ]
  run-answers (suc f) l l' r r' env env' h = elim (Option-cases (jump tables l r env)) [
    | inl e ↦ rw (e, run) (cc)
    | inr (answer out env₁, e) ↦ rw (e, run) (cc)
    | inr (goto l₁ r₁ env₁, e) ↦
        rw (e, run)
          (run-answers f l₁ l' r₁ r' env₁ env' (omega (arith, rank-jump l l₁ r r₁ env env₁ e)))
  ]

module _ {V : Type 0} (val_0 : V) (tables : ParserTables) where
  -- Every command is answered: whatever the tables, the stacks and the token are, the engine comes
  -- to an answer for the ML side, or faults, within its 16 jumps, and is never still on its way
  -- between two labels.
  pub parse_engine_returns :
      (cmd : Input V) (env : ParserEnv V) (l : Label) (r : Registers) (env' : ParserEnv V)
      → parse_engine val_0 tables cmd env ≢ some (goto l r env')
  unfolding parse_engine
  parse_engine_returns cmd env l r env' = elim (Option-cases (enter_command val_0 tables cmd env)) [
    | inl e ↦ rw (e, parse_engine) (cc)
    | inr (answer out env₁, e) ↦ rw (e, parse_engine) (cc)
    | inr (goto l₁ r₁ env₁, e) ↦
        rw (e, parse_engine)
          (run-answers tables jumps l₁ l r₁ r env₁ env' (rank-jumps l₁ r₁.errflag env₁.curr_char))
  ]
