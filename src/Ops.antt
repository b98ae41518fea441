-- ===== src/Ops.antt =====
-- vm/src/opcodes.c: one function for each opcode, and the table of `opcode_init`.
mod Tests
pub mod Calls
pub mod Control
pub mod Values
pub mod Data
pub mod Step
pub mod Reach
