-- ===== src/Marshal/Seen.antt =====
-- What byterun/extern.c asks of its table of the objects that it has written.
use ocamil.Prelude.{◌<◌, ◌^◌, ℕ, ◌≡◌, Option, none, some, List, [], ◌∷◌, length, if◌then◌else◌}
use ocamil.Interp.Arith.{same_value}
use ocamil.Machine.Value.{Value}

-- The number of an object among those that were written, the last one first.
unfoldable pub number_of : List (Value × ℕ) → Value → Option ℕ
unfolding same_value
number_of [] v = none
number_of ((w, n) ∷ seen) v = if same_value w v then some n else number_of seen v

-- Of fewer than 2^31 objects a table looks an object up, and records it with the number of objects so far when it is new.
pub record SeenTable : Type 1 where
  pub Table : Type 0
  pub empty_table : Table
  pub find_or_record : Table → Value → (obj_counter : ℕ) → Option (Option ℕ × Table)
  pub Represents : Table → List (Value × ℕ) → Type 0
  pub empty_table_lem : Represents empty_table []
  pub find_or_record_old :
      (t : Table) (seen : List (Value × ℕ)) (v : Value) (n : ℕ)
      → Represents t seen
      → length seen < 2 ^ 31
      → number_of seen v ≡ some n
      → (t' : Table) × (find_or_record t v (length seen) ≡ some (some n, t')) × Represents t' seen
  pub find_or_record_new :
      (t : Table) (seen : List (Value × ℕ)) (v : Value)
      → Represents t seen
      → length seen < 2 ^ 31
      → number_of seen v ≡ none
      → (t' : Table) × (find_or_record t v (length seen) ≡ some (none, t'))
        × Represents t' ((v, length seen) ∷ seen)
