-- ===== src/Arch/Ports.antt =====
-- src/arch/ports.rs: the port instructions are a parameter. Reading a port may change the device.
use neutrix.Base.{ℕ}

pub record Ports : Type 1 where
  pub Hardware : Type 0
  pub outb : Hardware → ℕ → ℕ → Hardware
  pub outw : Hardware → ℕ → ℕ → Hardware
  pub outdw : Hardware → ℕ → ℕ → Hardware
  pub inb : Hardware → ℕ → ℕ × Hardware
  pub inw : Hardware → ℕ → ℕ × Hardware
  pub indw : Hardware → ℕ → ℕ × Hardware
