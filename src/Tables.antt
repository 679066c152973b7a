-- ===== src/Tables.antt =====
-- The tables that camllex and camlyacc generate: strings of 16-bit integers, low byte first. The
-- macro `Short` of byterun/lexing.c and byterun/parsing.c reads them; a read outside the string is
-- a fault.
use ocamil.Prelude.{ℕ, ◌+◌, ◌-◌, ◌*◌, Option, some, List, ltb, if◌then◌else◌, get_elem?, ◌>>=◌}
use ocamil.Prelude.Int.{ℤ, pos, negsuc}

-- `lo + (signed char) hi * 256`
unfoldable pub short_of : ℕ → ℕ → ℤ
short_of lo hi = if ltb hi 128 then pos (lo + 256 * hi) else negsuc (65536 - 1 - (lo + 256 * hi))

unfoldable pub short : List ℕ → ℕ → Option ℤ
unfolding short_of
short tbl n = do lo ← get_elem? tbl (2 * n); hi ← get_elem? tbl (2 * n + 1); some (short_of lo hi)
