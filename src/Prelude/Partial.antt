-- ===== src/Prelude/Partial.antt =====
-- Code that may touch memory it does not own: `none` is such a fault.
use mathlib.Core.Option.{Option, none, some}
use mathlib.Core.Bool.{Bool, true, false}

infixl 5 ◌>>=◌ ◌>>◌
abbrev pub ◌>>=◌ {ℓ κ} : {A : Type ℓ} {B : Type κ} → Option A → (A → Option B) → Option B
none >>= f = none
some a >>= f = f a

abbrev pub ◌>>◌ {ℓ κ} : {A : Type ℓ} {B : Type κ} → Option A → Option B → Option B
m >> k = m >>= λ _. k

-- An assertion of the code, or a precondition of an access.
abbrev pub require : Bool → Option (Unit {0})
require true = some tt
require false = none
