-- ===== src/Mir.antt =====
-- src/mir: the machine level, MIR instructions on 64-bit registers, and the code that emits them.
pub mod Machine
pub mod ConstDivEmitter
pub mod BlockOrder
