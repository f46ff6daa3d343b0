-- ===== src/Hal.antt =====
-- src/hal: the interrupt controllers.
pub mod IoApic
pub mod Apic
pub mod Init
