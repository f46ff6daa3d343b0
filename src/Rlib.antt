-- ===== src/Rlib.antt =====
-- src/rlib: the runtime's memory routines.
pub mod Mem
