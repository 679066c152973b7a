-- ===== src/Lexing.antt =====
-- The table-driven automaton of byterun/lexing.c. The buffer is a list of bytes, positions and
-- lengths are untagged, and the closure `refill_buff`, which only the ML side calls, is left out.
pub mod Fuel
pub mod Refill
mod Tests
use ocamil.Prelude.{
  ℕ, zero, suc, ◌+◌, ◌-◌, Bool, true, false, Option, none, some, List, leb, ltb, ◌==◌,
  if◌then◌else◌, get_elem?, ◌>>=◌,
}
use ocamil.Prelude.Int.{ℤ, pos, negsuc}
use ocamil.Tables.{short}

-- `struct lexer_buffer`
pub record LexerBuffer : Type 0 where
  pub lex_buffer : List ℕ
  pub lex_buffer_len : ℕ
  pub lex_abs_pos : ℕ
  pub lex_start_pos : ℕ
  pub lex_curr_pos : ℕ
  pub lex_last_pos : ℕ
  pub lex_last_action : ℤ
  pub lex_eof_reached : Bool

-- `struct lexing_table`
pub record LexingTable : Type 0 where
  pub lex_base : List ℕ
  pub lex_backtrk : List ℕ
  pub lex_default : List ℕ
  pub lex_trans : List ℕ
  pub lex_check : List ℕ

-- The three ways out of `lex_engine`: an action number, the request for a refill, which the code
-- returns as `-state - 1`, and `failwith`.
pub data Outcome : Type 0 where
  token : ℤ → LexerBuffer → Outcome
  refill : ℕ → LexerBuffer → Outcome
  empty_token : LexerBuffer → Outcome

-- One turn of the loop.
pub data Turn : Type 0 where
  done : Outcome → Turn
  again : ℕ → LexerBuffer → Turn

-- A backtrack point records the position and its action.
unfoldable pub mark : ℤ → LexerBuffer → LexerBuffer
mark (pos a) lb = record lb { lex_last_pos = lb.lex_curr_pos; lex_last_action = pos a }
mark (negsuc _) lb = lb

-- What the loop reads: nothing yet, or a character (256 at the end of the input).
pub data Input : Type 0 where
  wait : Input
  char : ℕ → LexerBuffer → Input

unfoldable pub read_char : LexerBuffer → Option Input
read_char lb =
    if leb lb.lex_buffer_len lb.lex_curr_pos
    then some (if lb.lex_eof_reached then char 256 lb else wait)
    else (do
      c ← get_elem? lb.lex_buffer lb.lex_curr_pos
      some (char c (record lb { lex_curr_pos = lb.lex_curr_pos + 1 })))

-- A state of the automaton is compared with an entry of `lex_check`.
unfoldable pub is_state : ℤ → ℕ → Bool
is_state (pos n) state = n == state
is_state (negsuc _) state = false

unfoldable pub transition : LexingTable → ℕ → ℕ → ℕ → Option ℤ
transition tbl state base c = do
  owner ← short tbl.lex_check (base + c)
  if is_state owner state then short tbl.lex_trans (base + c) else short tbl.lex_default state

-- No transition: back to the last backtrack point, if there is one.
unfoldable pub backtrack : LexerBuffer → Outcome
backtrack lb =
    let lb' = record lb { lex_curr_pos = lb.lex_last_pos } in
    elim lb.lex_last_action [
      | pos a ↦ token (pos a) lb'
      | negsuc n ↦ if n == 0 then empty_token lb' else token (negsuc n) lb'
    ]

-- The condition of end of file is erased only if the automaton consumed it.
unfoldable pub advance : ℤ → ℕ → LexerBuffer → Turn
unfolding backtrack
advance (pos state) c lb =
    again state (if c == 256 then record lb { lex_eof_reached = false } else lb)
advance (negsuc _) c lb = done (backtrack lb)

unfoldable pub consume : LexingTable → ℕ → ℕ → Input → LexerBuffer → Option Turn
consume tbl state base wait lb = some (done (refill state lb))
consume tbl state base (char c lb') lb = do
  next ← transition tbl state base c
  some (advance next c lb')

-- The body of `while(1)`, from the lookup of the base address.
unfoldable pub turn : LexingTable → ℕ → LexerBuffer → ℤ → Option Turn
unfolding mark read_char consume
turn tbl state lb (negsuc n) = some (done (token (pos n) lb))
turn tbl state lb (pos base) = do
  backtrk ← short tbl.lex_backtrk state
  input ← read_char (mark backtrk lb)
  consume tbl state base input (mark backtrk lb)

-- `none` is a read outside a table or outside the buffer; the fuel is a bound on the turns.
pub data Run : Type 0 where
  returned : Outcome → Run
  fault : Run
  out_of_fuel : Run

unfoldable pub scan : LexingTable → ℕ → ℕ → LexerBuffer → Run
unfolding turn
scan tbl zero state lb = out_of_fuel
scan tbl (suc f) state lb = elim (short tbl.lex_base state >>= turn tbl state lb) [
  | none ↦ fault
  | some (done o) ↦ returned o
  | some (again state' lb') ↦ scan tbl f state' lb'
]

-- Turns that are left: one for each byte, one for the end of the input, and the last.
unfoldable pub turns : LexerBuffer → ℕ
turns lb = lb.lex_buffer_len - lb.lex_curr_pos + (if lb.lex_eof_reached then 2 else 1)

unfoldable pub start : LexerBuffer → LexerBuffer
start lb = record lb {
  lex_last_pos = lb.lex_curr_pos;
  lex_start_pos = lb.lex_curr_pos;
  lex_last_action = negsuc 0;
}

-- A state below zero is the reentry after a refill.
unfoldable pub lex_engine : LexingTable → ℤ → LexerBuffer → Run
unfolding start scan
lex_engine tbl (pos state) lb = scan tbl (turns lb) state (start lb)
lex_engine tbl (negsuc state) lb = scan tbl (turns lb) state lb
