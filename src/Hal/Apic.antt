-- ===== src/Hal/Apic.antt =====
-- src/hal/apic.rs: the local APIC. Its base is 0 while it is not set up. The volatile reads and
-- writes are a parameter; messages are left out.
use neutrix.Base.{
  ℕ, ◌+◌, ◌/◌, ◌%◌, ◌^◌, Bool, true, false, not, Option, none, some, ◌==◌, if◌then◌else◌, add64,
}
use neutrix.Hal.IoApic.{Mmio}

abbrev pub lapic_id : ℕ
lapic_id = 0x20

abbrev pub lapic_eoi : ℕ
lapic_eoi = 0xB0

abbrev pub lapic_svr : ℕ
lapic_svr = 0xF0

-- `svr |= LAPIC_SVR_APIC_ENABLE`, bit 8
abbrev pub with_enable : ℕ → ℕ
with_enable svr = if svr / 2 ^ 8 % 2 == 0 then svr + 2 ^ 8 else svr

-- `is_initialized`
abbrev pub is_initialized : (base : ℕ) → Bool
is_initialized base = not (base == 0)

module _ (io : Mmio) where
  -- Whether it is set up, the base and the hardware.
  unfoldable pub init_lapic_phys :
      (phys_addr phys_offset base : ℕ) → io.Hardware → Bool × ℕ × io.Hardware
  init_lapic_phys phys_addr phys_offset base h =
      let virt = add64 phys_addr phys_offset in
      let svr = io.read_volatile h (virt + lapic_svr) in
      if virt == 0
      then (false, base, h)
      else (true, virt, io.write_volatile h (virt + lapic_svr) (with_enable svr))

  -- With the address that ACPI tells, if it does.
  unfoldable pub init_from_acpi :
      (local_apic_address : Option ℕ)
      → (phys_offset base : ℕ) → io.Hardware
      → Bool × ℕ × io.Hardware
  unfolding init_lapic_phys
  init_from_acpi none phys_offset base h = (false, base, h)
  init_from_acpi (some lapic_phys) phys_offset base h =
      init_lapic_phys lapic_phys phys_offset base h

  unfoldable pub send_eoi : (base : ℕ) → io.Hardware → io.Hardware
  send_eoi base h = if base == 0 then h else io.write_volatile h (base + lapic_eoi) 0

  unfoldable pub local_apic_id : (base : ℕ) → io.Hardware → Option ℕ
  local_apic_id base h =
      if base == 0 then none else some (io.read_volatile h (base + lapic_id) / 2 ^ 24 % 2 ^ 8)
