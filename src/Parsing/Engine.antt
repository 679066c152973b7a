-- ===== src/Parsing/Engine.antt =====
-- The labels of `parse_engine` in byterun/parsing.c, one function for each, and the engine, which
-- enters at the label of its command and jumps from label to label until it answers.
use ocamil.Prelude.{
  ℕ, zero, suc, ◌-◌, true, false, Option, none, some, List, ltb, leb, if◌then◌else◌, get_elem?, set,
  length, ◌>>=◌,
}
use ocamil.Prelude.Int.{ℤ, pos, negsuc, ◌-ℤ◌, ltb_ℤ}
use ocamil.Machine.Word.{natural}
use ocamil.Tables.{short}
use ocamil.Parsing.{
  errcode, ParserTables, short_at, ◌==ℤ◌, row, ParserEnv, Token, constant, block, Input, start,
  token_read, stacks_grown_1, stacks_grown_2, semantic_action_computed, error_detected, read_token,
  raise_parse_error, grow_stacks_1, grow_stacks_2, compute_semantic_action, call_error_function,
  Registers, Label, loop, testshift, recover, push, semantic_action, shift, shift_recover, reduce,
  Jump, goto, answer,
}

-- Enough for a shift of the error token, a look at the same lookahead, its removal and a
-- reduction.
abbrev pub jumps : ℕ
jumps = 16

-- A write to a field of a stack, which must be there.
unfoldable pub store {ℓ} : {A : Type ℓ} → List A → ℕ → A → Option (List A)
store xs i v = if ltb i (length xs) then some (set xs i v) else none

module _ (tables : ParserTables) where
  -- The test of the recovery loop on the state at `sp`: does it shift the error token?
  unfoldable pub shifts_error : List ℤ → (sp : ℕ) → Option (Option ℕ)
  shifts_error s_stack sp = do
    state1 ← get_elem? s_stack sp
    row tables tables.sindex state1 errcode

  -- The recovery loop: the depth of a state that shifts the error token, with the entry of the
  -- table, or nothing when it discarded all states down to `stackbase`.
  unfoldable pub discard : List ℤ → (stackbase sp : ℕ) → Option (Option (ℕ × ℕ))
  discard s_stack stackbase zero = do
    found ← shifts_error s_stack 0
    elim found [ some n2 ↦ some (some (0, n2)) | none ↦ some none ]
  discard s_stack stackbase (suc sp) = do
    found ← shifts_error s_stack (suc sp)
    elim found [
      | some n2 ↦ some (some (suc sp, n2))
      | none ↦ elim (leb (suc sp) stackbase) [
        | true ↦ some none
        | false ↦ discard s_stack stackbase sp
      ]
    ]

  -- The state after a reduction to the nonterminal `m`.
  unfoldable pub goto_state : (m state1 : ℤ) → Option ℤ
  goto_state m state1 = do
    found ← row tables tables.gindex m state1
    elim found [ some n2 ↦ short tables.table n2 | none ↦ short_at tables.dgoto m ]

module _ {V : Type 0} where
  -- SAVE and RESTORE
  unfoldable pub save : Registers → ParserEnv V → ParserEnv V
  save r env = record env { sp = r.sp; state = r.state; errflag = r.errflag }

  unfoldable pub restore : ParserEnv V → Registers
  restore env = record { sp = env.sp; state = env.state; errflag = env.errflag }

  -- The natural subtraction is `if (errflag > 0) errflag--`.
  unfoldable pub at_shift : ℕ → Registers → ParserEnv V → Option (Jump V)
  at_shift n2 r env = some (
      goto (shift_recover n2) (record r { errflag = r.errflag - 1 })
        (record env { curr_char = negsuc 0 }))

module _ {V : Type 0} (tables : ParserTables) where
  unfoldable pub at_loop : Registers → ParserEnv V → Option (Jump V)
  unfolding save
  at_loop r env = do
    n ← short_at tables.defred r.state
    some (
        if n ==ℤ pos 0
        then (if ltb_ℤ env.curr_char (pos 0)
            then answer read_token (save r env)
            else goto testshift r env)
        else goto (reduce n) r env)

  -- What `testshift` does without a shift: a reduction, or an error.
  unfoldable pub test_reduce : Registers → ParserEnv V → Option ℕ → Option (Jump V)
  unfolding save
  test_reduce r env (some n2) = do n ← short tables.table n2; some (goto (reduce n) r env)
  test_reduce r env none =
      some (if ltb 0 r.errflag then goto recover r env else answer call_error_function (save r env))

  unfoldable pub at_testshift : Registers → ParserEnv V → Option (Jump V)
  unfolding test_reduce
  at_testshift r env = do
    to_shift ← row tables tables.sindex r.state env.curr_char
    elim to_shift [
      | some n2 ↦ some (goto (shift n2) r env)
      | none ↦ row tables tables.rindex r.state env.curr_char >>= test_reduce r env
    ]

  unfoldable pub at_recover : Registers → ParserEnv V → Option (Jump V)
  at_recover r env =
      if ltb r.errflag 3
      then (do
        found ← discard tables env.s_stack env.stackbase r.sp
        some (elim found [
          | none ↦ answer raise_parse_error env
          | some (sp, n2) ↦ goto (shift_recover n2) (record r { sp = sp; errflag = 3 }) env
        ]))
      else some (
          if env.curr_char ==ℤ pos 0
          then answer raise_parse_error env
          else goto loop r (record env { curr_char = negsuc 0 }))

  unfoldable pub at_shift_recover : ℕ → Registers → ParserEnv V → Option (Jump V)
  unfolding save
  at_shift_recover n2 r env = do
    state ← short tables.table n2
    let r' : Registers = record r { state = state; sp = suc r.sp }
    some (
        if ltb (suc r.sp) env.stacksize
        then goto push r' env
        else answer grow_stacks_1 (save r' env))

  unfoldable pub at_push : Registers → ParserEnv V → Option (Jump V)
  unfolding store
  at_push r env = do
    s_stack ← store env.s_stack r.sp r.state
    v_stack ← store env.v_stack r.sp env.lval
    symb_start_stack ← store env.symb_start_stack r.sp env.symb_start
    symb_end_stack ← store env.symb_end_stack r.sp env.symb_end
    some (
        goto loop r (record env {
          s_stack = s_stack;
          v_stack = v_stack;
          symb_start_stack = symb_start_stack;
          symb_end_stack = symb_end_stack;
        }))

  unfoldable pub at_reduce : ℤ → Registers → ParserEnv V → Option (Jump V)
  unfolding save
  at_reduce n r env = do
    rule_len ← short_at tables.len n
    sp ← natural (pos (suc r.sp) -ℤ rule_len)
    m ← short_at tables.lhs n
    below ← natural (pos sp -ℤ pos 1)
    state1 ← get_elem? env.s_stack below
    state ← goto_state tables m state1
    let r' : Registers = record r { state = state; sp = sp }
    let env' : ParserEnv V = record env { asp = r.sp; rule_number = n; rule_len = rule_len }
    some (
        if ltb sp env.stacksize
        then goto semantic_action r' env'
        else answer grow_stacks_2 (save r' env'))

  unfoldable pub jump : Label → Registers → ParserEnv V → Option (Jump V)
  jump loop r env = at_loop r env
  jump testshift r env = at_testshift r env
  jump recover r env = at_recover r env
  jump (shift n2) r env = at_shift n2 r env
  jump (shift_recover n2) r env = at_shift_recover n2 r env
  jump push r env = at_push r env
  jump (reduce n) r env = at_reduce n r env
  jump semantic_action r env = some (answer compute_semantic_action (save r env))

  unfoldable pub run : ℕ → Label → Registers → ParserEnv V → Option (Jump V)
  run zero l r env = some (goto l r env)
  run (suc f) l r env = do
    jump ← jump l r env
    elim jump [ answer out env' ↦ some (answer out env') | goto l' r' env' ↦ run f l' r' env' ]

module _ {V : Type 0} (val_0 : V) (tables : ParserTables) where
  unfoldable pub set_token : Token V → ParserEnv V → Option (ParserEnv V)
  set_token (constant n) env = do
    c ← get_elem? tables.transl_const n
    some (record env { curr_char = c; lval = val_0 })
  set_token (block tag field) env = do
    c ← get_elem? tables.transl_block tag
    some (record env { curr_char = c; lval = field })

  -- The case of the last command: the value of the action goes where the rule's values were.
  unfoldable pub enter_action : V → ParserEnv V → Option (Jump V)
  unfolding store restore
  enter_action arg env = do
    s_stack ← store env.s_stack env.sp env.state
    v_stack ← store env.v_stack env.sp arg
    end ← get_elem? env.symb_end_stack env.asp
    symb_end_stack ← store env.symb_end_stack env.sp end
    start_end ← get_elem? symb_end_stack env.asp
    symb_start_stack ←
        (if ltb env.asp env.sp
          then store env.symb_start_stack env.sp start_end
          else some env.symb_start_stack)
    some (
        goto loop (restore env) (record env {
          s_stack = s_stack;
          v_stack = v_stack;
          symb_start_stack = symb_start_stack;
          symb_end_stack = symb_end_stack;
        }))

  -- Where the engine starts for a command.
  unfoldable pub enter_command : Input V → ParserEnv V → Option (Jump V)
  unfolding restore
  enter_command start env =
      some (goto loop (record { sp = env.sp; state = pos 0; errflag = 0 }) env)
  enter_command (token_read tok) env = do
    env' ← set_token tok env
    some (goto testshift (restore env) env')
  enter_command stacks_grown_1 env = some (goto push (restore env) env)
  enter_command stacks_grown_2 env = some (goto semantic_action (restore env) env)
  enter_command (semantic_action_computed arg) env = enter_action arg env
  enter_command error_detected env = some (goto recover (restore env) env)

  unfoldable pub parse_engine : Input V → ParserEnv V → Option (Jump V)
  parse_engine cmd env = do
    jump ← enter_command cmd env
    elim jump [
      | answer out env' ↦ some (answer out env')
      | goto l r env' ↦ run tables jumps l r env'
    ]
