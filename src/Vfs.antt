-- ===== src/Vfs.antt =====
-- The virtual file system, kernel/src/vfs.
pub mod Path
