-- ===== src/Arch/Machine.antt =====
-- What the drivers that use both ports and memory-mapped registers work on: one hardware, of which
-- the volatile reads and writes of 32 bits at an address are a parameter, as the ports are.
use neutrix.Base.{ℕ}
use neutrix.Arch.Ports.{Ports}

pub record Machine : Type 1 where
  pub ports : Ports
  pub read_volatile : ports.Hardware → ℕ → ℕ
  pub write_volatile : ports.Hardware → ℕ → ℕ → ports.Hardware
