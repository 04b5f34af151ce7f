-- ===== src/GameBoy/Cpu/Opcodes.antt =====
-- The arms of `execute`, kernel/src/gameboy/cpu.rs, by opcode.
pub mod Low
pub mod Middle
pub mod Loads
pub mod Arithmetic
pub mod Control
pub mod High
