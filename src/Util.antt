-- ===== src/Util.antt =====
-- The kernel's data structures, kernel/src/util.
pub mod Bitset
pub mod Linked
pub mod Tree
pub mod Hashmap
