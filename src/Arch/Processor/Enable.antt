-- ===== src/Arch/Processor/Enable.antt =====
-- src/arch/processor.rs: the features that are switched on. The control registers are a parameter;
-- the many lines that only print which features there are are left out.
use neutrix.Base.{ℕ, ◌+◌, ◌-◌, ◌/◌, ◌%◌, ◌^◌, ◌&&◌, ◌==◌, if◌then◌else◌}
use neutrix.Arch.Ports.{Ports}
use neutrix.Arch.Processor.{CpuFeatures}

pub record ControlRegisters (io : Ports) : Type 0 where
  pub read_cr0 : io.Hardware → ℕ
  pub write_cr0 : io.Hardware → ℕ → io.Hardware
  pub read_cr4 : io.Hardware → ℕ
  pub write_cr4 : io.Hardware → ℕ → io.Hardware
  pub read_xcr0 : io.Hardware → ℕ
  pub write_xcr0 : io.Hardware → ℕ → io.Hardware

-- `insert` and `remove` of the flag at bit `k`
abbrev pub with_flag : (k x : ℕ) → ℕ
with_flag k x = if x / 2 ^ k % 2 == 0 then x + 2 ^ k else x

abbrev pub without_flag : (k x : ℕ) → ℕ
without_flag k x = if x / 2 ^ k % 2 == 0 then x else x - 2 ^ k

module _ (io : Ports) (regs : ControlRegisters io) where
  -- EM is bit 2 and MP bit 1 of CR0; OSFXSR is bit 9 and OSXMMEXCPT bit 10 of CR4.
  unfoldable pub enable_sse : io.Hardware → io.Hardware
  enable_sse h =
      let h1 = regs.write_cr0 h (with_flag 1 (without_flag 2 (regs.read_cr0 h))) in
      regs.write_cr4 h1 (with_flag 10 (with_flag 9 (regs.read_cr4 h1)))

  unfoldable pub disable_pit_timer : io.Hardware → io.Hardware
  disable_pit_timer h = io.outb (io.outb (io.outb h 0x43 0x30) 0x40 0) 0x40 0

  -- AVX is bit 2 of XCR0.
  unfoldable pub enable_cpu_features : CpuFeatures → io.Hardware → io.Hardware
  unfolding enable_sse disable_pit_timer
  enable_cpu_features features h =
      let h1 = if features.sse then enable_sse h else h in
      let h2 = if features.tsc then disable_pit_timer h1 else h1 in
      if features.avx && features.osxsave
      then regs.write_xcr0 h2 (with_flag 2 (regs.read_xcr0 h2))
      else h2
