-- ===== src/Hal/Init.antt =====
-- src/hal/hal.rs: the set-up of the processor, ACPI and the interrupt controllers, in its order.
use neutrix.Base.{ℕ, none, some, List, Ram}
use neutrix.Arch.Machine.{Machine}
use neutrix.Arch.Processor.{CpuidResult, CpuFeatures}
use neutrix.Arch.Processor.Detect.{detect_cpu_features}
use neutrix.Arch.Processor.Enable.{ControlRegisters, enable_sse, enable_cpu_features}
use neutrix.Devices.Acpi.{find_rsdp}
use neutrix.Devices.Acpi.Parse.{Acpi, Texts, init_with_offset, get_local_apic_address}
use neutrix.Hal.Apic
use neutrix.Hal.IoApic.{IoApic, Mmio, apply_legacy_isa_fallback}
use neutrix.Hal.IoApic.Setup.{init_from_acpi, apply_isos_from_acpi}

pub record CpuInfo : Type 0 where
  pub vendor : List ℕ
  pub features : CpuFeatures

pub data AcpiStatus : Type 0 where
  enabled tables_found not_available : AcpiStatus

-- The volatile reads and writes of the machine, as the controllers' drivers take them.
abbrev pub mmio_of : Machine → Mmio
mmio_of mc = record {
  Hardware = mc.ports.Hardware;
  read_volatile = mc.read_volatile;
  write_volatile = mc.write_volatile;
}

module _ (mc : Machine) where
  -- The state of ACPI, with the hardware; the local APIC's base; and the table of I/O APICs.
  pub record Hal : Type 0 where
    pub acpi : Acpi mc.ports
    pub lapic_base : ℕ
    pub ioapic_table : List IoApic

  unfoldable pub init_cpu :
      ControlRegisters mc.ports
      → (cpuid : ℕ → ℕ → CpuidResult) → mc.ports.Hardware
      → CpuInfo × mc.ports.Hardware
  unfolding enable_sse enable_cpu_features detect_cpu_features
  init_cpu regs cpuid h =
      let h1 = enable_sse mc.ports regs h in
      let features = detect_cpu_features cpuid in
      (
        record { vendor = features.vendor; features = features },
        enable_cpu_features mc.ports regs features h1,
      )

  unfoldable pub init_acpi : Texts → Ram → (phys_offset : ℕ) → Hal → AcpiStatus × Hal
  init_acpi texts m phys_offset s = elim (find_rsdp m phys_offset) [
    | none ↦ (not_available, s)
    | some _ ↦ (enabled, record s { acpi = init_with_offset texts m phys_offset s.acpi })
  ]

  -- The local APIC, then the I/O APICs with the overrides and the legacy interrupts, masked.
  unfoldable pub init_controllers : (phys_offset : ℕ) → Hal → Hal
  init_controllers phys_offset s =
      let address = get_local_apic_address s.acpi in
      let (present, base, h) =
        Apic.init_from_acpi (mmio_of mc) address phys_offset s.lapic_base s.acpi.ports in
      let (table, h1) = init_from_acpi (mmio_of mc) h s.ioapic_table phys_offset s.acpi.ioapics in
      let h2 = apply_isos_from_acpi (mmio_of mc) h1 table phys_offset s.acpi.isos in
      let h3 = apply_legacy_isa_fallback (mmio_of mc) h2 table phys_offset in
      record { acpi = record s.acpi { ports = h3 }; lapic_base = base; ioapic_table = table }

  unfoldable pub init_hardware :
      ControlRegisters mc.ports
      → (cpuid : ℕ → ℕ → CpuidResult) → Texts
      → Ram
      → (phys_offset : ℕ) → Hal
      → CpuInfo × AcpiStatus × Hal
  unfolding init_cpu init_acpi init_controllers
  init_hardware regs cpuid texts m phys_offset s =
      let (cpu_info, h) = init_cpu regs cpuid s.acpi.ports in
      let (acpi_status, s1) =
        init_acpi texts m phys_offset (record s { acpi = record s.acpi { ports = h } }) in
      (cpu_info, acpi_status, init_controllers phys_offset s1)
