-- ===== src/Gui.antt =====
-- The window system, kernel/src/gui.
pub mod Rect
