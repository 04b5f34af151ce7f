-- ===== src/Mm.antt =====
-- Memory management, kernel/src/mm/: the intrusive lists and the allocator of physical pages.
pub mod Intrusive
pub mod BootInfo
pub mod Pmm
pub mod Heap
pub mod Info
mod Tests
