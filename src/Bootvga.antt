-- ===== src/Bootvga.antt =====
-- src/bootvga: the VGA text buffer.
pub mod Writer
pub mod Helpers
