-- ===== src/Devices/Acpi/Parse.antt =====
-- src/devices/acpi/acpi.rs: the parsers of the tables. Prints are left out.
use neutrix.Base.{
  ℕ, zero, suc, ◌+◌, ◌%◌, Bool, true, false, not, ◌&&◌, ◌||◌, Option, none, some, List, [], ◌∷◌,
  ◌++◌, if◌then◌else◌, leb, ltb, ◌==◌, u16, u32, add64, Ram,
}
use neutrix.Arch.Ports.{Ports}
use neutrix.DriverFramework.Device.{DeviceInfo, memory_mapped}
use neutrix.DriverFramework.Manager.{DeviceManager, register_device}
use neutrix.Devices.Acpi.Tables.{Rsdp, view_rsdp, view_acpi_table_header}
use neutrix.Devices.Acpi.Tables.Controllers.{
  IoApicInfo, IsoInfo, McfgAllocation, view_madt, view_madt_entry_header, view_madt_io_apic_entry,
  view_madt_interrupt_source_override, view_mcfg_allocation, view_mcfg, view_hpet,
}
use neutrix.Devices.Acpi.Tables.FixedTable.{Facp, view_facp}
use neutrix.Devices.Acpi.{
  eq_bytes, checksum_valid, find_rsdp, table_address, rsdt_entry_count, xsdt_entry_count,
  rsdt_table_address, xsdt_table_address,
}

-- What the statics of the module hold, and what the parsers call.
pub record Acpi (io : Ports) : Type 0 where
  pub local_apic_addr : ℕ
  pub ioapics : List IoApicInfo
  pub isos : List IsoInfo
  pub hpet_base : Option ℕ
  pub hpet_period_fs : ℕ
  pub mcfg_allocs : List McfgAllocation
  pub manager : DeviceManager
  pub ports : io.Hardware

-- The texts that `format!` makes, of what it is given.
pub record Texts : Type 0 where
  pub table_text : (signature : List ℕ) → List ℕ
  pub ioapic_text : (id gsi_base : ℕ) → List ℕ
  pub hpet_text : (addr : ℕ) → List ℕ
  pub mcfg_text : (seg start_bus end_bus base : ℕ) → List ℕ

-- A device with one memory-mapped resource.
abbrev pub described : ℕ → ℕ → ℕ → ℕ → List ℕ → DeviceInfo
described device_id class addr len text = record {
  vendor_id = 0xffff;
  device_id = device_id;
  class = class;
  subclass = 0;
  prog_if = 0;
  resources = record { kind = memory_mapped; addr = addr; len = len } ∷ [];
  capabilities = [];
  description = text;
}

-- The loop that waits for SCI_EN, of `fuel` rounds; whether it was seen, and the hardware.
unfoldable pub wait_enabled : (io : Ports) → ℕ → ℕ → io.Hardware → Bool × io.Hardware
wait_enabled io port zero h = (false, h)
wait_enabled io port (suc fuel) h =
    let (value, h1) = io.inb h (u16 port) in
    let rest = wait_enabled io port fuel h1 in if not (value % 2 == 0) then (true, h1) else rest

unfoldable pub enable_acpi : (io : Ports) → Facp → io.Hardware → io.Hardware
unfolding wait_enabled
enable_acpi io facp h =
    let port = u16 facp.smi_cmd in
    let command = not (facp.smi_cmd == 0) in
    let h1 =
      if command && not (facp.acpi_disable == 0) then io.outb h port facp.acpi_disable else h in
    let h2 =
      if command && not (facp.acpi_enable == 0) then io.outb h1 port facp.acpi_enable else h1 in
    if not (facp.pm1a_cnt_blk == 0) then (wait_enabled io facp.pm1a_cnt_blk 3000000 h2).1 else h2

module _ {io : Ports} where
  abbrev pub registered : DeviceInfo → Acpi io → Acpi io
  registered info s = record s { manager = (register_device s.manager info).0 }

  -- `get_local_apic_address`
  abbrev pub get_local_apic_address : Acpi io → Option ℕ
  get_local_apic_address s = if s.local_apic_addr == 0 then none else some (u32 s.local_apic_addr)

  -- The body of the loop over the entries, for the entry at `p`.
  unfoldable pub parse_entry : Texts → Ram → ℕ → Acpi io → Acpi io
  parse_entry texts m p s =
      let header = view_madt_entry_header m p in
      let a = view_madt_io_apic_entry m p in
      let o = view_madt_interrupt_source_override m p in
      let found : IoApicInfo = record {
        id = a.io_apic_id;
        addr = a.io_apic_addr;
        gsi_base = a.global_system_interrupt_base;
      } in
      let iso : IsoInfo = record { bus = o.bus; source = o.source; gsi = o.gsi; flags = o.flags } in
      let info =
        described a.io_apic_id 0x08 a.io_apic_addr 0x100
          (texts.ioapic_text a.io_apic_id a.global_system_interrupt_base) in
      if header.entry_type == 1
      then (if leb 12 header.length
          then registered info (record s { ioapics = s.ioapics ++ (found ∷ []) })
          else s)
      else (if header.entry_type == 2
          then (if leb 10 header.length then record s { isos = s.isos ++ (iso ∷ []) } else s)
          else s)

  -- The loop from `offset` on, with `fuel` rounds at most.
  unfoldable pub parse_entries : Texts → Ram → ℕ → ℕ → ℕ → ℕ → Acpi io → Acpi io
  unfolding parse_entry
  parse_entries texts m table len zero offset s = s
  parse_entries texts m table len (suc fuel) offset s =
      let header = view_madt_entry_header m (table + offset) in
      let rest =
        parse_entries texts m table len fuel (offset + header.length)
          (parse_entry texts m (table + offset) s) in
      if ltb offset len then (if header.length == 0 then s else rest) else s

  -- An entry has one byte at least, so the table's length is rounds enough.
  unfoldable pub parse_madt : Texts → Ram → ℕ → Acpi io → Acpi io
  unfolding parse_entries
  parse_madt texts m p s =
      let madt = view_madt m p in
      if p == 0 || not (checksum_valid m p)
      then s
      else parse_entries texts m p madt.header.length madt.header.length 44
          (record s { local_apic_addr = madt.local_apic_addr })

  unfoldable pub parse_hpet : Texts → Ram → ℕ → Acpi io → Acpi io
  parse_hpet texts m p s =
      let hpet = view_hpet m p in
      let addr = hpet.address.address in
      let noted = record s { hpet_base = some addr; hpet_period_fs = hpet.period } in
      if p == 0 || not (checksum_valid m p)
      then s
      else (if not (addr == 0)
          then registered (described 0xffff 0x04 addr 0x1000 (texts.hpet_text addr)) noted
          else s)

  -- The loop of `parse_mcfg` from `offset` on.
  unfoldable pub parse_allocs : Texts → Ram → ℕ → ℕ → ℕ → ℕ → Acpi io → Acpi io
  parse_allocs texts m p total_len zero offset s = s
  parse_allocs texts m p total_len (suc fuel) offset s =
      let a = view_mcfg_allocation m (p + offset) in
      let info =
        described a.pci_segment_group 0x06 a.base_address 0
          (texts.mcfg_text a.pci_segment_group a.start_bus a.end_bus a.base_address) in
      let s1 = registered info s in
      let rest =
        parse_allocs texts m p total_len fuel (offset + 16)
          (record s1 { mcfg_allocs = s1.mcfg_allocs ++ (a ∷ []) }) in
      if leb (offset + 16) total_len then rest else s

  unfoldable pub parse_mcfg : Texts → Ram → ℕ → Acpi io → Acpi io
  unfolding parse_allocs
  parse_mcfg texts m p s =
      let total_len = (view_mcfg m p).header.length in
      if p == 0 then s else parse_allocs texts m p total_len total_len 44 s

  unfoldable pub parse_facp : Ram → ℕ → Acpi io → Acpi io
  unfolding enable_acpi
  parse_facp m p s = record s { ports = enable_acpi io (view_facp m p) s.ports }

  unfoldable pub parse_specific_table : Texts → Ram → List ℕ → ℕ → Acpi io → Acpi io
  unfolding parse_facp parse_madt parse_hpet parse_mcfg
  parse_specific_table texts m signature p s =
      if eq_bytes signature (b'F' ∷ b'A' ∷ b'C' ∷ b'P' ∷ [])
      then parse_facp m p s
      else (if eq_bytes signature (b'A' ∷ b'P' ∷ b'I' ∷ b'C' ∷ [])
          then parse_madt texts m p s
          else (if eq_bytes signature (b'H' ∷ b'P' ∷ b'E' ∷ b'T' ∷ [])
              then parse_hpet texts m p s
              else (if eq_bytes signature (b'M' ∷ b'C' ∷ b'F' ∷ b'G' ∷ [])
                  then parse_mcfg texts m p s
                  else s)))

  -- Registers a table as a device, and parses it.
  unfoldable pub print_table_info : Texts → Ram → ℕ → ℕ → Acpi io → Acpi io
  unfolding parse_specific_table
  print_table_info texts m phys_offset table_phys_addr s =
      let p = add64 table_phys_addr phys_offset in
      let header = view_acpi_table_header m p in
      let info =
        described 0xffff 0xFF table_phys_addr header.length (texts.table_text header.signature) in
      if p == 0
      then s
      else (if checksum_valid m p
          then parse_specific_table texts m header.signature p (registered info s)
          else s)

  -- `n` rounds of the loop over a root table's entries, from `i` on.
  unfoldable pub list_tables : Texts → Ram → ℕ → (ℕ → Option ℕ) → ℕ → ℕ → Acpi io → Acpi io
  unfolding print_table_info
  list_tables texts m phys_offset address zero i s = s
  list_tables texts m phys_offset address (suc n) i s =
      let next : Acpi io = elim (address i) [
        | none ↦ s
        | some a ↦ print_table_info texts m phys_offset a s
      ] in
      list_tables texts m phys_offset address n (i + 1) next

  unfoldable pub parse_rsdt_xsdt : Texts → Ram → Rsdp → ℕ → Acpi io → Acpi io
  unfolding list_tables
  parse_rsdt_xsdt texts m rsdp phys_offset s =
      let p = add64 (table_address rsdp) phys_offset in
      let header = view_acpi_table_header m p in
      if not (checksum_valid m p)
      then s
      else (if eq_bytes header.signature (b'R' ∷ b'S' ∷ b'D' ∷ b'T' ∷ [])
          then list_tables texts m phys_offset (rsdt_table_address m p) (rsdt_entry_count header) 0
              s
          else (if eq_bytes header.signature (b'X' ∷ b'S' ∷ b'D' ∷ b'T' ∷ [])
              then list_tables texts m phys_offset (xsdt_table_address m p)
                  (xsdt_entry_count header) 0 s
              else s))

  unfoldable pub init_with_offset : Texts → Ram → ℕ → Acpi io → Acpi io
  unfolding parse_rsdt_xsdt
  init_with_offset texts m phys_offset s = elim (find_rsdp m phys_offset) [
    | none ↦ s
    | some p ↦ parse_rsdt_xsdt texts m (view_rsdp m p) phys_offset s
  ]
