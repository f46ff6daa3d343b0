-- ===== src/Devices/Acpi/Tables/Controllers.antt =====
-- src/devices/acpi/acpi.rs: the structures of the tables on interrupt controllers, timers and PCI.
use neutrix.Base.{ℕ, ◌+◌, List, Ram, load16, load32, load64, load_bytes}
use neutrix.Devices.Acpi.Tables.{
  AcpiTableHeader, view_acpi_table_header, GenericAddressStructure, view_generic_address_structure,
}

pub record Madt : Type 0 where
  pub header : AcpiTableHeader
  pub local_apic_addr : ℕ
  pub flags : ℕ

abbrev pub view_madt : Ram → ℕ → Madt
view_madt m p = record {
  header = view_acpi_table_header m p;
  local_apic_addr = load32 m (p + 36);
  flags = load32 m (p + 40);
}

pub record MadtEntryHeader : Type 0 where
  pub entry_type : ℕ
  pub length : ℕ

abbrev pub view_madt_entry_header : Ram → ℕ → MadtEntryHeader
view_madt_entry_header m p = record { entry_type = m p; length = m (p + 1) }

pub record MadtLocalApicEntry : Type 0 where
  pub header : MadtEntryHeader
  pub processor_id : ℕ
  pub apic_id : ℕ
  pub flags : ℕ

abbrev pub view_madt_local_apic_entry : Ram → ℕ → MadtLocalApicEntry
view_madt_local_apic_entry m p = record {
  header = view_madt_entry_header m p;
  processor_id = m (p + 2);
  apic_id = m (p + 3);
  flags = load32 m (p + 4);
}

pub record MadtIoApicEntry : Type 0 where
  pub header : MadtEntryHeader
  pub io_apic_id : ℕ
  pub reserved : ℕ
  pub io_apic_addr : ℕ
  pub global_system_interrupt_base : ℕ

abbrev pub view_madt_io_apic_entry : Ram → ℕ → MadtIoApicEntry
view_madt_io_apic_entry m p = record {
  header = view_madt_entry_header m p;
  io_apic_id = m (p + 2);
  reserved = m (p + 3);
  io_apic_addr = load32 m (p + 4);
  global_system_interrupt_base = load32 m (p + 8);
}

pub record MadtInterruptSourceOverride : Type 0 where
  pub header : MadtEntryHeader
  pub bus : ℕ
  pub source : ℕ
  pub gsi : ℕ
  pub flags : ℕ

abbrev pub view_madt_interrupt_source_override : Ram → ℕ → MadtInterruptSourceOverride
view_madt_interrupt_source_override m p = record {
  header = view_madt_entry_header m p;
  bus = m (p + 2);
  source = m (p + 3);
  gsi = load32 m (p + 4);
  flags = load16 m (p + 8);
}

pub record McfgAllocation : Type 0 where
  pub base_address : ℕ
  pub pci_segment_group : ℕ
  pub start_bus : ℕ
  pub end_bus : ℕ
  pub reserved : List ℕ

abbrev pub view_mcfg_allocation : Ram → ℕ → McfgAllocation
view_mcfg_allocation m p = record {
  base_address = load64 m p;
  pci_segment_group = load16 m (p + 8);
  start_bus = m (p + 10);
  end_bus = m (p + 11);
  reserved = load_bytes m (p + 12) 4;
}

pub record Mcfg : Type 0 where
  pub header : AcpiTableHeader
  pub reserved : List ℕ

abbrev pub view_mcfg : Ram → ℕ → Mcfg
view_mcfg m p = record { header = view_acpi_table_header m p; reserved = load_bytes m (p + 36) 8 }

pub record Hpet : Type 0 where
  pub header : AcpiTableHeader
  pub hardware_rev_id : ℕ
  pub comparator_count : ℕ
  pub counter_size : ℕ
  pub reserved : ℕ
  pub legacy_replacement : ℕ
  pub pci_vendor_id : ℕ
  pub hpet_number : ℕ
  pub minimum_tick : ℕ
  pub page_protection : ℕ
  pub address : GenericAddressStructure
  pub hpet_block_id : ℕ
  pub period : ℕ

abbrev pub view_hpet : Ram → ℕ → Hpet
view_hpet m p = record {
  header = view_acpi_table_header m p;
  hardware_rev_id = m (p + 36);
  comparator_count = m (p + 37);
  counter_size = m (p + 38);
  reserved = m (p + 39);
  legacy_replacement = m (p + 40);
  pci_vendor_id = load16 m (p + 41);
  hpet_number = m (p + 43);
  minimum_tick = load16 m (p + 44);
  page_protection = m (p + 46);
  address = view_generic_address_structure m (p + 47);
  hpet_block_id = load32 m (p + 59);
  period = load32 m (p + 63);
}

pub record IoApicInfo : Type 0 where
  pub id : ℕ
  pub addr : ℕ
  pub gsi_base : ℕ

pub record IsoInfo : Type 0 where
  pub bus : ℕ
  pub source : ℕ
  pub gsi : ℕ
  pub flags : ℕ
