-- ===== src/Lexing/Fuel.antt =====
-- The number of turns of `lex_engine` in byterun/lexing.c.
use ocamil.Prelude.{ℕ, zero, suc, ◌<◌, ◌≤◌, ◌≡◌, ◌≢◌, some, inl, inr, arith, Option-cases}
use ocamil.Prelude.Int.{ℤ, pos, negsuc}
use ocamil.Tables.{short}
use ocamil.Lexing.{
  LexerBuffer, LexingTable, out_of_fuel, scan, turns, start, lex_engine, turn, done, again, advance,
}

-- Each turn that goes on leaves fewer turns.
pub turns-turn :
    (tbl : LexingTable) (s t : ℕ) (lb lb' : LexerBuffer) (base : ℤ)
    → turn tbl s lb base ≡ some (again t lb')
    → turns lb' < turns lb
unfolding turn turns advance
turns-turn tbl s t lb lb' base e = ground arith

pub turns-pos : (lb : LexerBuffer) → 0 < turns lb
unfolding turns
turns-pos lb = ground arith

-- The outcome of a turn does not use up the fuel that the turns left ask for.
scan_returns :
    (tbl : LexingTable) (f s : ℕ) (lb : LexerBuffer) → turns lb ≤ f → scan tbl f s lb ≢ out_of_fuel
unfolding scan
scan_returns tbl zero s lb h = absurd (omega (arith, turns-pos lb))
scan_returns tbl (suc f) s lb h = elim (Option-cases (short tbl.lex_base s)) [
  | inl e ↦ rw (e, scan) (cc)
  | inr (base, e) ↦
      rw (e, scan)
        (elim (Option-cases (turn tbl s lb base)) [
          | inl e' ↦ rw (e', scan) (cc)
          | inr (done o, e') ↦ rw (e', scan) (cc)
          | inr (again t lb', e') ↦
              rw (e', scan)
                (scan_returns tbl f t lb' (omega (arith, turns-turn tbl s t lb lb' base e')))
        ])
]

-- The automaton always stops: it returns or faults on every table, start state and buffer, and is
-- never still running when its bound on turns (a byte each, and two for the end of the input) is
-- used up.
pub lex_engine_returns :
    (tbl : LexingTable) (s : ℤ) (lb : LexerBuffer) → lex_engine tbl s lb ≢ out_of_fuel
unfolding lex_engine turns start
lex_engine_returns tbl (pos s) lb = scan_returns tbl (turns lb) s (start lb) (omega arith)
lex_engine_returns tbl (negsuc s) lb = scan_returns tbl (turns lb) s lb (omega arith)
