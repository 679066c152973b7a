-- ===== src/Machine/Word.antt =====
-- Words of 32 bits: a word is its bit pattern, below 2 ^ 32 (byterun/mlvalues.h, with `long` and
-- `value` of 32 bits).
pub mod Tagging
use ocamil.Prelude.{ℕ, ◌+◌, ◌-◌, ◌*◌, ◌/◌, ◌%◌, ◌^◌, ltb, if◌then◌else◌, Option, some, none}
use ocamil.Prelude.Int.{ℤ, pos, negsuc}

-- The number that a pattern stands for as a `long`.
abbrev pub signed : ℕ → ℤ
signed w = if ltb w (2 ^ 31) then pos w else negsuc (2 ^ 32 - 1 - w)

-- The pattern of a number, modulo the word size.
abbrev pub wrap : ℤ → ℕ
wrap (pos n) = n % 2 ^ 32
wrap (negsuc n) = 2 ^ 32 - 1 - n % 2 ^ 32

-- `x >> k` of a `long`, which copies the sign.
abbrev pub sar : ℕ → ℕ → ℕ
sar w k = if ltb w (2 ^ 31) then w / 2 ^ k else 2 ^ 32 - 1 - (2 ^ 32 - 1 - w) / 2 ^ k

-- `Val_long` and `Val_int`: a one is shifted in.
unfoldable pub val_long : ℤ → ℕ
val_long x = (2 * wrap x + 1) % 2 ^ 32

-- `Long_val`
unfoldable pub long_val : ℕ → ℤ
long_val w = signed (sar w 1)

-- A number that is used as a size or as an index.
abbrev pub natural : ℤ → Option ℕ
natural (pos n) = some n
natural (negsuc _) = none
