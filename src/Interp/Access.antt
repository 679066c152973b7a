-- ===== src/Interp/Access.antt =====
-- Loads and stores: the stack, the environment, the globals, constants (byterun/interp.c).
use ocamil.Prelude.{ℕ, Option, some, none, List, length, set, ltb, if◌then◌else◌, ◌>>=◌}
use ocamil.Prelude.Int.{ℤ, pos, ◌+ℤ◌}
use ocamil.Machine.Word.{signed, natural}
use ocamil.Machine.Value.{Value, ptr, atom, val_int, val_unit, field, set_field}
use ocamil.Interp.State.{State, peek, pop_words, operand, skip}

-- `accu = sp[n]`
unfoldable pub acc : ℕ → State → Option State
acc n s = do v ← peek s n; some (record s { accu = v })

-- `accu = sp[*pc++]`
unfoldable pub acc_operand : List ℕ → State → Option State
unfolding acc
acc_operand prog s = do n ← operand prog s 0; acc n (skip 1 s)

-- `sp += *pc++`
unfoldable pub pop : List ℕ → State → Option State
unfolding pop_words
pop prog s = do
  n ← operand prog s 0
  rest ← pop_words n s.stack
  some (record (skip 1 s) { stack = rest })

-- `sp[*pc++] = accu`
unfoldable pub assign : List ℕ → State → Option State
assign prog s = do
  n ← operand prog s 0
  if ltb n (length s.stack)
      then some (record (skip 1 s) { stack = set s.stack n s.accu; accu = val_unit })
      else none

-- `accu = Field(env, n)`
unfoldable pub envacc : ℕ → State → Option State
unfolding field
envacc n s = do v ← field s.heap s.env n; some (record s { accu = v })

unfoldable pub envacc_operand : List ℕ → State → Option State
unfolding envacc
envacc_operand prog s = do n ← operand prog s 0; envacc n (skip 1 s)

-- `env + n * sizeof(value)`
unfoldable pub offset_env : ℤ → Value → Option Value
offset_env n (ptr b o) = do o' ← natural (pos o +ℤ n); some (ptr b o')
offset_env n _ = none

unfoldable pub offsetclosure : ℤ → State → Option State
unfolding offset_env
offsetclosure n s = do v ← offset_env n s.env; some (record s { accu = v })

unfoldable pub offsetclosure_operand : List ℕ → State → Option State
unfolding offsetclosure
offsetclosure_operand prog s = do n ← operand prog s 0; offsetclosure (signed n) (skip 1 s)

unfoldable pub getglobal : List ℕ → State → Option State
unfolding field
getglobal prog s = do
  n ← operand prog s 0
  v ← field s.heap s.globals n
  some (record (skip 1 s) { accu = v })

unfoldable pub getglobalfield : List ℕ → State → Option State
unfolding field
getglobalfield prog s = do
  n ← operand prog s 0
  v ← field s.heap s.globals n
  i ← operand prog s 1
  w ← field s.heap v i
  some (record (skip 2 s) { accu = w })

-- `modify` also tells the collector of the store, which is not modelled.
unfoldable pub setglobal : List ℕ → State → Option State
unfolding set_field
setglobal prog s = do
  n ← operand prog s 0
  h ← set_field s.heap s.globals n s.accu
  some (record (skip 1 s) { heap = h; accu = val_unit })

abbrev pub const : ℤ → State → State
const n s = record s { accu = val_int n }

unfoldable pub constint : List ℕ → State → Option State
constint prog s = do n ← operand prog s 0; some (const (signed n) (skip 1 s))

abbrev pub atom_of : ℕ → State → State
atom_of tag s = record s { accu = atom tag }

unfoldable pub atom_operand : List ℕ → State → Option State
atom_operand prog s = do tag ← operand prog s 0; some (atom_of tag (skip 1 s))
