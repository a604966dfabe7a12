-- ===== src/Libk.antt =====
-- The C library of the kernel, libk.
pub mod Numeral
pub mod Token
