-- ===== src/Arch.antt =====
-- src/arch: the processor.
pub mod Ports
pub mod Idt
pub mod Machine
pub mod ArrayQueue
pub mod Task
pub mod Processor
pub mod TscTimer
