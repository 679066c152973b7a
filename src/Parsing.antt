-- ===== src/Parsing.antt =====
-- The pushdown automaton of byterun/parsing.c. The labels of `parse_engine` are the states of a
-- machine, and its local variables are registers. Semantic values and positions are only moved;
-- tracing, which prints, is left out. A C integer is an integer here, and `sp` a natural number, as
-- `mlsize_t` is.
pub mod Engine
mod Ends
mod Recovery
mod Bounds
mod Tests
use ocamil.Prelude.{
  ℕ, zero, suc, ◌+◌, ◌-◌, Bool, true, false, ◌&&◌, not, Option, none, some, List, ltb, leb, ◌==◌,
  if◌then◌else◌, get_elem?, set, length, ◌>>=◌, ◌>>◌, require,
}
use ocamil.Prelude.Int.{ℤ, pos, negsuc, ◌+ℤ◌, ltb_ℤ, sub_ℕ, pos_part, neg_part}
use ocamil.Machine.Word.{natural}
use ocamil.Tables.{short}

abbrev pub errcode : ℤ
errcode = pos 256

-- `struct parser_tables`, but for what only the ML side and tracing use.
pub record ParserTables : Type 0 where
  pub transl_const : List ℤ
  pub transl_block : List ℤ
  pub lhs : List ℕ
  pub len : List ℕ
  pub defred : List ℕ
  pub dgoto : List ℕ
  pub sindex : List ℕ
  pub rindex : List ℕ
  pub gindex : List ℕ
  pub tablesize : ℕ
  pub table : List ℕ
  pub check : List ℕ

-- `Short(tbl, n)` at an index that may be negative, which is a fault.
unfoldable pub short_at : List ℕ → ℤ → Option ℤ
short_at tbl n = do i ← natural n; short tbl i

infix 50 ◌==ℤ◌
abbrev pub ◌==ℤ◌ : ℤ → ℤ → Bool
(pos a) ==ℤ (pos b) = a == b
(pos a) ==ℤ (negsuc b) = false
(negsuc a) ==ℤ (pos b) = false
(negsuc a) ==ℤ (negsuc b) = a == b

-- The test before each use of the table: `n1 != 0 && n2 >= 0 && n2 <= tablesize &&
-- Short(check, n2) == c`, where `n2` is `n1 + c`. A hit gives `n2`.
unfoldable pub hit : ParserTables → (n1 n2 c : ℤ) → Option (Option ℕ)
hit tables n1 (negsuc _) c = some none
hit tables n1 (pos n2) c =
    if n1 ==ℤ pos 0
    then some none
    else if ltb tables.tablesize n2
    then some none
    else (do owner ← short tables.check n2; some (if owner ==ℤ c then some n2 else none))

unfoldable pub row : ParserTables → List ℕ → (state c : ℤ) → Option (Option ℕ)
unfolding hit
row tables index state c = do n1 ← short_at index state; hit tables n1 (n1 +ℤ c) c

module _ (V : Type 0) where
  -- `struct parser_env`
  pub record ParserEnv : Type 0 where
    pub s_stack : List ℤ
    pub v_stack : List V
    pub symb_start_stack : List ℕ
    pub symb_end_stack : List ℕ
    pub stacksize : ℕ
    pub stackbase : ℕ
    pub curr_char : ℤ
    pub lval : V
    pub symb_start : ℕ
    pub symb_end : ℕ
    pub asp : ℕ
    pub rule_len : ℤ
    pub rule_number : ℤ
    pub sp : ℕ
    pub state : ℤ
    pub errflag : ℕ

  -- A token is a constant or a block with one field.
  pub data Token : Type 0 where
    constant : ℕ → Token
    block : ℕ → V → Token

  -- The commands of the ML side.
  pub data Input : Type 0 where
    start : Input
    token_read : Token → Input
    stacks_grown_1 : Input
    stacks_grown_2 : Input
    semantic_action_computed : V → Input
    error_detected : Input

-- The answers to the ML side.
pub data Output : Type 0 where
  read_token raise_parse_error grow_stacks_1 grow_stacks_2 : Output
  compute_semantic_action call_error_function : Output

-- The local variables that the labels share.
pub record Registers : Type 0 where
  pub sp : ℕ
  pub state : ℤ
  pub errflag : ℕ

pub data Label : Type 0 where
  loop testshift recover push semantic_action : Label
  shift : ℕ → Label
  shift_recover : ℕ → Label
  reduce : ℤ → Label

pub data Jump (V : Type 0) : Type 0 where
  goto : Label → Registers → ParserEnv V → Jump V
  answer : Output → ParserEnv V → Jump V
