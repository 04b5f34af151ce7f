-- ===== src/Storage.antt =====
-- Saved games, kernel/src/storage/savefile.rs.
pub mod Disk
pub mod SaveHeader
pub mod SaveFile
pub mod Sram
mod Tests
