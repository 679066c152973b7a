-- ===== src/Interp/Arith/Tagged.antt =====
-- Lemmas on arithmetic on tagged words (the macros of byterun/mlvalues.h) and integers modulo 2 ^
-- 31.
use ocamil.Prelude.{◌≡◌, arith}
use ocamil.Prelude.Int.{ℤ, pos, negsuc, ◌+ℤ◌, ◌-ℤ◌, ◌*ℤ◌}
use ocamil.Machine.Word.{val_long}
use ocamil.Machine.Word.Tagging.{IsInt, long_val-val_long}
use ocamil.Interp.Arith.{negint, addint, subint, mulint, Test, order, signed_test}

pub addint-val_long : (a b : ℤ) → addint (val_long a) (val_long b) ≡ val_long (a +ℤ b)
unfolding addint val_long ◌+ℤ◌
addint-val_long (pos a) (pos b) = ground arith
addint-val_long (pos a) (negsuc b) = ground arith
addint-val_long (negsuc a) (pos b) = ground arith
addint-val_long (negsuc a) (negsuc b) = ground arith

pub subint-val_long : (a b : ℤ) → subint (val_long a) (val_long b) ≡ val_long (a -ℤ b)
unfolding subint val_long ◌-ℤ◌
subint-val_long (pos a) (pos b) = ground arith
subint-val_long (pos a) (negsuc b) = ground arith
subint-val_long (negsuc a) (pos b) = ground arith
subint-val_long (negsuc a) (negsuc b) = ground arith

pub negint-val_long : (a : ℤ) → negint (val_long a) ≡ val_long (pos 0 -ℤ a)
unfolding negint val_long ◌-ℤ◌
negint-val_long (pos a) = ground arith
negint-val_long (negsuc a) = ground arith

pub mulint-val_long :
    (a b : ℤ) → IsInt a → IsInt b → mulint (val_long a) (val_long b) ≡ val_long (a *ℤ b)
unfolding mulint
mulint-val_long a b h k = rw (long_val-val_long a h, long_val-val_long b k)

-- The order of tagged words is that of the integers.
pub signed-val_long :
    (t : Test) (a b : ℤ) → IsInt a → IsInt b → signed_test t (val_long a) (val_long b) ≡ order t a b
unfolding val_long
signed-val_long Test.lt (pos a) (pos b) h k = ground arith
signed-val_long _ (pos a) (pos b) h k = ground arith
signed-val_long _ (pos a) (negsuc b) h k = ground arith
signed-val_long _ (negsuc a) (pos b) h k = ground arith
signed-val_long _ (negsuc a) (negsuc b) h k = ground arith
