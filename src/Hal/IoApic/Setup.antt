-- ===== src/Hal/IoApic/Setup.antt =====
-- src/hal/ioapic.rs: the table of controllers set up from ACPI, and interrupts enabled on a
-- processor.
use neutrix.Base.{
  ℕ, zero, suc, ◌+◌, ◌*◌, ◌/◌, ◌%◌, ◌^◌, Option, none, some, List, [], ◌∷◌, ◌++◌, ◌==◌,
  if◌then◌else◌, u8, u32, add64,
}
use neutrix.Devices.Acpi.Tables.Controllers.{IoApicInfo, IsoInfo}
use neutrix.Hal.IoApic.{
  IoApic, Mmio, read_reg, write_reg, reg_low, reg_high, locate, clear_mask, masked_vector,
  write_redirection_entry_for_gsi,
}

-- `((read_reg(virt, 1) >> 16) & 0xFF) + 1`
unfoldable pub redir_count : (io : Mmio) → io.Hardware → ℕ → ℕ × io.Hardware
redir_count io h virt = let (reg, h1) = read_reg io h virt 1 in (reg / 2 ^ 16 % 256 + 1, h1)

unfoldable pub read_id : (io : Mmio) → io.Hardware → IoApic → ℕ → Option ℕ × io.Hardware
read_id io h a phys_offset =
    let virt = add64 a.phys_addr phys_offset in
    let (reg, h1) = read_reg io h virt 0 in
    if virt == 0 then (none, h) else (some (u8 (reg / 2 ^ 24)), h1)

unfoldable pub read_version : (io : Mmio) → io.Hardware → IoApic → ℕ → Option ℕ × io.Hardware
read_version io h a phys_offset =
    let virt = add64 a.phys_addr phys_offset in
    let (reg, h1) = read_reg io h virt 1 in if virt == 0 then (none, h) else (some (reg % 256), h1)

unfoldable pub read_redir_count : (io : Mmio) → io.Hardware → IoApic → ℕ → Option ℕ × io.Hardware
read_redir_count io h a phys_offset =
    let virt = add64 a.phys_addr phys_offset in
    let (count, h1) = redir_count io h virt in if virt == 0 then (none, h) else (some count, h1)

-- The entries that `init_from_acpi` pushes.
unfoldable pub discover :
    (io : Mmio) → io.Hardware → ℕ → List IoApicInfo → List IoApic × io.Hardware
discover io h phys_offset [] = ([], h)
discover io h phys_offset (info ∷ infos) =
    let virt = add64 info.addr phys_offset in
    let (count, h1) = if virt == 0 then (24, h) else redir_count io h virt in
    let found : IoApic = record {
      id = info.id;
      phys_addr = info.addr;
      gsi_base = info.gsi_base;
      redir_entries = count;
    } in
    let (found_later, h2) = discover io h1 phys_offset infos in (found ∷ found_later, h2)

-- The version reads of the log loop.
unfoldable pub log_versions : (io : Mmio) → io.Hardware → ℕ → List IoApic → io.Hardware
log_versions io h phys_offset [] = h
log_versions io h phys_offset (a ∷ table) =
    log_versions io (read_version io h a phys_offset).1 phys_offset table

-- The table and the hardware, for the entries that ACPI lists.
unfoldable pub init_from_acpi :
    (io : Mmio) → io.Hardware → List IoApic → ℕ → List IoApicInfo → List IoApic × io.Hardware
init_from_acpi io h table phys_offset [] = (table, h)
init_from_acpi io h table phys_offset (info ∷ infos) =
    let (found, h1) = discover io h phys_offset (info ∷ infos) in
    (table ++ found, log_versions io h1 phys_offset (table ++ found))

unfoldable pub apply_isos_from_acpi :
    (io : Mmio) → io.Hardware → List IoApic → ℕ → List IsoInfo → io.Hardware
apply_isos_from_acpi io h table phys_offset [] = h
apply_isos_from_acpi io h table phys_offset (iso ∷ isos) =
    let next =
      (write_redirection_entry_for_gsi io h table iso.gsi (masked_vector iso.source) 0
        phys_offset).1 in
    apply_isos_from_acpi io next table phys_offset isos

-- The body of both loops of `enable_isos_for_local`: the destination is set, the mask cleared.
unfoldable pub enable_gsi : (io : Mmio) → io.Hardware → List IoApic → ℕ → ℕ → ℕ → io.Hardware
enable_gsi io h table phys_offset local_apic_id gsi = elim (locate table gsi phys_offset) [
  | none ↦ h
  | some (virt, local) ↦
      let (high, h1) = read_reg io h virt (reg_high local) in
      let (low, h2) = read_reg io h1 virt (reg_low local) in
      let h3 = write_reg io h2 virt (reg_high local) (u32 (local_apic_id * 2 ^ 24)) in
      write_reg io h3 virt (reg_low local) (clear_mask low)
]

unfoldable pub enable_isos :
    (io : Mmio) → io.Hardware → List IoApic → ℕ → ℕ → List IsoInfo → io.Hardware
enable_isos io h table phys_offset local_apic_id [] = h
enable_isos io h table phys_offset local_apic_id (iso ∷ isos) =
    enable_isos io (enable_gsi io h table phys_offset local_apic_id iso.gsi) table phys_offset
      local_apic_id isos

unfoldable pub enable_legacy : (io : Mmio) → io.Hardware → List IoApic → ℕ → ℕ → ℕ → ℕ → io.Hardware
enable_legacy io h table phys_offset local_apic_id irq zero = h
enable_legacy io h table phys_offset local_apic_id irq (suc n) =
    enable_legacy io (enable_gsi io h table phys_offset local_apic_id irq) table phys_offset
      local_apic_id (irq + 1) n

unfoldable pub enable_isos_for_local :
    (io : Mmio) → io.Hardware → List IoApic → ℕ → ℕ → List IsoInfo → io.Hardware
enable_isos_for_local io h table phys_offset local_apic_id [] = h
enable_isos_for_local io h table phys_offset local_apic_id (iso ∷ isos) =
    let overridden = enable_isos io h table phys_offset local_apic_id (iso ∷ isos) in
    enable_legacy io overridden table phys_offset local_apic_id 0 16
