-- ===== src/Lexing/Tests.antt =====
-- A small automaton: letters `a` make a token with action 0, on buffers that arrive in two parts.
use ocamil.Prelude.{
  ℕ, zero, suc, ◌<◌, ◌≡◌, ◌≢◌, refl, true, false, List, [], ◌∷◌, ◌++◌, get_elem?, replicate, arith,
}
use ocamil.Prelude.Int.{pos, negsuc}
use ocamil.Tables.{short}
use ocamil.Lexing.{
  LexerBuffer, LexingTable, token, refill, empty_token, returned, out_of_fuel, lex_engine, turns,
  transition, is_state, advance,
}
use ocamil.Lexing.Fuel.{lex_engine_returns}
use ocamil.Lexing.Refill.{extend, Extends, resume, lex_engine-resume}

abbrev minus_one : List ℕ
minus_one = 255 ∷ 255 ∷ []

-- State 0 goes to state 1 on `a` (97), and state 1, an accepting one, goes to itself.
abbrev table : LexingTable
table = record {
  lex_base = 0 ∷ 0 ∷ 1 ∷ 0 ∷ [];
  lex_backtrk = minus_one ++ (0 ∷ 0 ∷ []);
  lex_default = minus_one ++ minus_one;
  lex_trans = replicate 194 0 ++ (1 ∷ 0 ∷ 1 ∷ 0 ∷ replicate 400 0);
  lex_check = replicate 194 255 ++ (0 ∷ 0 ∷ 1 ∷ 0 ∷ replicate 400 255);
}

abbrev buffer : LexerBuffer
buffer = record {
  lex_buffer = 97 ∷ 97 ∷ [];
  lex_buffer_len = 2;
  lex_abs_pos = 0;
  lex_start_pos = 0;
  lex_curr_pos = 0;
  lex_last_pos = 0;
  lex_last_action = negsuc 0;
  lex_eof_reached = false;
}

-- After the two letters the automaton has a token, and asks for more.
abbrev waiting : LexerBuffer
waiting = record buffer { lex_curr_pos = 2; lex_last_pos = 2; lex_last_action = pos 0 }

abbrev longer : List ℕ
longer = 97 ∷ 97 ∷ 97 ∷ 98 ∷ []

asks_for_refill : lex_engine table (pos 0) buffer ≡ returned (refill 1 waiting)
unfolding lex_engine short turns transition is_state advance
asks_for_refill = refl

finds_token :
    lex_engine table (pos 0) (extend longer 4 buffer)
    ≡ returned (
        token (pos 0) (record (extend longer 4 buffer) {
          lex_curr_pos = 3;
          lex_last_pos = 3;
          lex_last_action = pos 0;
        }))
unfolding lex_engine short turns transition is_state advance
finds_token = refl

at_end :
    lex_engine table (pos 0) (record buffer { lex_buffer_len = 0; lex_eof_reached = true })
    ≡ returned (empty_token (record buffer { lex_buffer_len = 0; lex_eof_reached = true }))
unfolding lex_engine short turns transition is_state advance
at_end = refl

longer-Extends : Extends longer 4 buffer
longer-Extends = record { longer = omega arith; more = refl; same = same_bytes }
  where
    same_bytes : (i : ℕ) → i < 2 → get_elem? longer i ≡ get_elem? (97 ∷ 97 ∷ []) i
    same_bytes zero h = refl
    same_bytes (suc zero) h = refl
    same_bytes (suc (suc i)) h = absurd (omega arith)

lex_engine_returns_example : lex_engine table (pos 0) buffer ≢ out_of_fuel
lex_engine_returns_example = lex_engine_returns table (pos 0) buffer

lex_engine-resume_example :
    lex_engine table (pos 0) (extend longer 4 buffer) ≡ resume table longer 4 (refill 1 waiting)
lex_engine-resume_example =
    lex_engine-resume table longer 4 (pos 0) buffer (refill 1 waiting) longer-Extends
      asks_for_refill
