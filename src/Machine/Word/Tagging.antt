-- ===== src/Machine/Word/Tagging.antt =====
-- Lemmas on tagged words (byterun/mlvalues.h) and numbers of 31 bits.
use ocamil.Prelude.{◌^◌, ◌<◌, ◌≡◌, arith}
use ocamil.Prelude.Int.{ℤ, pos, negsuc}
use ocamil.Machine.Word.{val_long, long_val}

-- The range from `Min_long` to `Max_long`.
abbrev pub IsInt : ℤ → Type 0
IsInt (pos n) = n < 2 ^ 30
IsInt (negsuc n) = n < 2 ^ 30

pub val_long-lt : (x : ℤ) → val_long x < 2 ^ 32
unfolding val_long
val_long-lt x = omega arith

pub long_val-val_long : (x : ℤ) → IsInt x → long_val (val_long x) ≡ x
unfolding val_long long_val
long_val-val_long (pos n) h = ground arith
long_val-val_long (negsuc n) h = ground arith
