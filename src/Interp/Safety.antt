-- ===== src/Interp/Safety.antt =====
-- Predicates on the pointers that the registers, the stack and the heap of byterun/interp.c hold:
-- whether the blocks they point to are there.
pub mod Lists
pub mod Heaps
pub mod Access
pub mod Calls
pub mod Closures
pub mod Blocks
pub mod Control
pub mod Arith
pub mod Exec
use ocamil.Prelude.{ℕ, ◌<◌, ◌≤◌, Option, none, some, List, [], ◌∷◌, length, ◌>>=◌}
use ocamil.Machine.Value.{Value, ptr, word, atom, code, trap, Block, fields, bytes, doubles, Heap}
use ocamil.Interp.State.{State, Outcome, next, stopped, uncaught}

-- A postcondition of code that may fault.
pub data Holds {ℓ κ} {A : Type ℓ} (P : A → Type κ) : Option A → Type (ℓ ⊔ κ) where
  fault : Holds P none
  holds : {a : A} → P a → Holds P (some a)

abbrev pub InHeap : ℕ → Value → Type 0
InHeap n (ptr b o) = b < n
InHeap n (word _) = Unit
InHeap n (atom _) = Unit
InHeap n (code _) = Unit
InHeap n (trap _) = Unit

abbrev pub AllIn : ℕ → List Value → Type 0
AllIn n [] = Unit
AllIn n (v ∷ vs) = InHeap n v × AllIn n vs

abbrev pub BlockIn : ℕ → Block → Type 0
BlockIn n (fields _ vs) = AllIn n vs
BlockIn n (bytes _) = Unit
BlockIn n (doubles _ _) = Unit

abbrev pub HeapIn : ℕ → Heap → Type 0
HeapIn n [] = Unit
HeapIn n (b ∷ h) = BlockIn n b × HeapIn n h

pub record Closed (accu env globals : Value) (stack : List Value) (heap : Heap) : Type 0 where
  pub accu_in : InHeap (length heap) accu
  pub env_in : InHeap (length heap) env
  pub globals_in : InHeap (length heap) globals
  pub stack_in : AllIn (length heap) stack
  pub heap_in : HeapIn (length heap) heap

abbrev pub IsClosed : State → Type 0
IsClosed s = Closed s.accu s.env s.globals s.stack s.heap

-- The result of an exception or of the program is reachable too.
abbrev pub OutcomeClosed : Outcome → Type 0
OutcomeClosed (next s) = IsClosed s
OutcomeClosed (stopped v s) = InHeap (length s.heap) v × IsClosed s
OutcomeClosed (uncaught v s) = InHeap (length s.heap) v × IsClosed s
