-- ===== src/Parsing/Tests.antt =====
-- A grammar of three states, of which state 1 shifts the error token, on the code of
-- byterun/parsing.c.
use ocamil.Prelude.{ℕ, ◌≡◌, ◌≢◌, refl, some, List, [], ◌∷◌}
use ocamil.Prelude.Int.{ℤ, pos, negsuc, ◌+ℤ◌}
use ocamil.Tables.{short, short_of}
use ocamil.Parsing.{ParserTables, ParserEnv, error_detected, loop, goto, short_at, row, hit}
use ocamil.Parsing.Engine.{restore, shifts_error, discard, parse_engine}
use ocamil.Parsing.Ends.{parse_engine_returns}
use ocamil.Parsing.Recovery.{discard-Discarded, Discarded}

abbrev grammar : ParserTables
grammar = record {
  transl_const = pos 0 ∷ pos 1 ∷ [];
  transl_block = [];
  lhs = 0 ∷ 0 ∷ [];
  len = 0 ∷ 0 ∷ [];
  defred = 0 ∷ 0 ∷ 0 ∷ 0 ∷ 0 ∷ 0 ∷ [];
  dgoto = [];
  sindex = 0 ∷ 0 ∷ 1 ∷ 255 ∷ 0 ∷ 0 ∷ [];
  rindex = 0 ∷ 0 ∷ 0 ∷ 0 ∷ 0 ∷ 0 ∷ [];
  gindex = [];
  tablesize = 3;
  table = 0 ∷ 0 ∷ 2 ∷ 0 ∷ [];
  check = 0 ∷ 0 ∷ 0 ∷ 1 ∷ [];
}

abbrev states : List ℤ
states = pos 0 ∷ pos 1 ∷ pos 2 ∷ pos 0 ∷ []

abbrev env_at_error : ParserEnv ℕ
env_at_error = record {
  s_stack = states;
  v_stack = 10 ∷ 11 ∷ 12 ∷ 13 ∷ [];
  symb_start_stack = 0 ∷ 1 ∷ 2 ∷ 3 ∷ [];
  symb_end_stack = 1 ∷ 2 ∷ 3 ∷ 4 ∷ [];
  stacksize = 4;
  stackbase = 0;
  curr_char = pos 3;
  lval = 7;
  symb_start = 5;
  symb_end = 6;
  asp = 0;
  rule_len = pos 0;
  rule_number = pos 0;
  sp = 2;
  state = pos 2;
  errflag = 0;
}

abbrev env_recovered : ParserEnv ℕ
env_recovered = record env_at_error {
  v_stack = 10 ∷ 11 ∷ 7 ∷ 13 ∷ [];
  symb_start_stack = 0 ∷ 1 ∷ 5 ∷ 3 ∷ [];
  symb_end_stack = 1 ∷ 2 ∷ 6 ∷ 4 ∷ [];
  curr_char = negsuc 0;
  errflag = 3;
}

parse_engine_returns_example :
    parse_engine 0 grammar error_detected env_at_error
    ≢ some (goto loop (restore env_at_error) env_at_error)
parse_engine_returns_example =
    parse_engine_returns 0 grammar error_detected env_at_error loop (restore env_at_error)
      env_at_error

discards : discard grammar states 0 2 ≡ some (some (1, 1))
unfolding discard shifts_error row hit short_at short short_of ◌+ℤ◌
discards = refl

discard-Discarded_example : Discarded grammar states 0 2 (some (1, 1))
discard-Discarded_example = discard-Discarded grammar states 0 2 (some (1, 1)) discards
