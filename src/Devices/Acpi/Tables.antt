-- ===== src/Devices/Acpi/Tables.antt =====
-- src/devices/acpi/acpi.rs: packed structures, and what a pointer to one reads at an address.
pub mod Controllers
pub mod FixedTable
use neutrix.Base.{ℕ, ◌+◌, List, Ram, load16, load32, load64, load_bytes}

pub record AcpiTableHeader : Type 0 where
  pub signature : List ℕ
  pub length : ℕ
  pub revision : ℕ
  pub checksum : ℕ
  pub oem_id : List ℕ
  pub oem_table_id : List ℕ
  pub oem_revision : ℕ
  pub creator_id : ℕ
  pub creator_revision : ℕ

abbrev pub view_acpi_table_header : Ram → ℕ → AcpiTableHeader
view_acpi_table_header m p = record {
  signature = load_bytes m p 4;
  length = load32 m (p + 4);
  revision = m (p + 8);
  checksum = m (p + 9);
  oem_id = load_bytes m (p + 10) 6;
  oem_table_id = load_bytes m (p + 16) 8;
  oem_revision = load32 m (p + 24);
  creator_id = load32 m (p + 28);
  creator_revision = load32 m (p + 32);
}

pub record Rsdp : Type 0 where
  pub signature : List ℕ
  pub checksum : ℕ
  pub oem_id : List ℕ
  pub revision : ℕ
  pub rsdt_address : ℕ
  pub length : ℕ
  pub xsdt_address : ℕ
  pub extended_checksum : ℕ
  pub reserved : List ℕ

abbrev pub view_rsdp : Ram → ℕ → Rsdp
view_rsdp m p = record {
  signature = load_bytes m p 8;
  checksum = m (p + 8);
  oem_id = load_bytes m (p + 9) 6;
  revision = m (p + 15);
  rsdt_address = load32 m (p + 16);
  length = load32 m (p + 20);
  xsdt_address = load64 m (p + 24);
  extended_checksum = m (p + 32);
  reserved = load_bytes m (p + 33) 3;
}

pub record Rsdt : Type 0 where
  pub header : AcpiTableHeader

abbrev pub view_rsdt : Ram → ℕ → Rsdt
view_rsdt m p = record { header = view_acpi_table_header m p }

pub record Xsdt : Type 0 where
  pub header : AcpiTableHeader

abbrev pub view_xsdt : Ram → ℕ → Xsdt
view_xsdt m p = record { header = view_acpi_table_header m p }

pub record GenericAddressStructure : Type 0 where
  pub address_space : ℕ
  pub bit_width : ℕ
  pub bit_offset : ℕ
  pub access_size : ℕ
  pub address : ℕ

abbrev pub view_generic_address_structure : Ram → ℕ → GenericAddressStructure
view_generic_address_structure m p = record {
  address_space = m p;
  bit_width = m (p + 1);
  bit_offset = m (p + 2);
  access_size = m (p + 3);
  address = load64 m (p + 4);
}
