-- ===== src/Interp/Safety/Exec.antt =====
-- Pointers and the steps of byterun/interp.c.
use ocamil.Interp.Instr.{Instr}
use ocamil.Interp.State.{State}
