-- ===== src/Machine.antt =====
-- The data that the runtime works on: 32-bit words, values and heap blocks (byterun/mlvalues.h).
pub mod Word
pub mod Value
