-- ===== src/Parsing/Bounds.antt =====
-- The stack pointer of `parse_engine` in byterun/parsing.c and the sizes of the stacks.
use ocamil.Prelude.{◌<◌, ◌≡◌, length}
use ocamil.Parsing.{ParserEnv, Jump, goto, answer, Output, grow_stacks_1, grow_stacks_2}

module _ {V : Type 0} where
  -- The four stacks have `stacksize` fields.
  abbrev pub Sized : ParserEnv V → Type 0
  Sized env =
      (length env.s_stack ≡ env.stacksize)
      × (length env.v_stack ≡ env.stacksize)
      × (length env.symb_start_stack ≡ env.stacksize)
      × (length env.symb_end_stack ≡ env.stacksize)

  -- And the saved stack pointer is a field of them.
  abbrev pub Fits : ParserEnv V → Type 0
  Fits env = (env.sp < env.stacksize) × Sized env

  abbrev pub Answers : Output → ParserEnv V → Type 0
  Answers grow_stacks_1 env = Sized env
  Answers grow_stacks_2 env = Sized env
  Answers _ env = Fits env

  abbrev pub Safe : Jump V → Type 0
  Safe (answer out env) = Answers out env
  Safe (goto l r env) = (r.sp < env.stacksize) × Fits env
