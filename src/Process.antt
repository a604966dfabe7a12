-- ===== src/Process.antt =====
-- Processes, kernel/src/process.
pub mod Files
pub mod Scheduler
pub mod Lookup
