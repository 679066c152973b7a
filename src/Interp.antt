-- ===== src/Interp.antt =====
-- The byte-code interpreter, byterun/interp.c.
pub mod Instr
pub mod State
pub mod Access
pub mod Calls
pub mod Closures
pub mod Blocks
pub mod Control
pub mod Arith
pub mod Exec
pub mod Safety
mod Tests
