-- ===== src/Mm.antt =====
-- Memory management, kernel/src/mm.
pub mod Entry
pub mod Paging
pub mod Heap
pub mod Phys
