-- ===== src/GameBoy.antt =====
-- The emulator core, kernel/src/gameboy.
pub mod Result
pub mod Mode
pub mod Register
pub mod Alu
pub mod Cpu
pub mod Gpu
pub mod Timer
pub mod Serial
pub mod Keypad
pub mod Input
pub mod Mbc
pub mod Mmu
pub mod Device
mod Tests
