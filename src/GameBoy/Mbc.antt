-- ===== src/GameBoy/Mbc.antt =====
-- The cartridge controllers, kernel/src/gameboy/mbc.
pub mod Header
pub mod Bank
pub mod Mbc0
pub mod Mbc1
pub mod Mbc2
pub mod Mbc3
pub mod Mbc5
pub mod Cart
mod Tests
