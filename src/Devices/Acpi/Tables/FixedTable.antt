-- ===== src/Devices/Acpi/Tables/FixedTable.antt =====
-- src/devices/acpi/acpi.rs: the fixed description table.
use neutrix.Base.{ℕ, ◌+◌, List, Ram, load16, load32, load64, load_bytes}
use neutrix.Devices.Acpi.Tables.{
  AcpiTableHeader, view_acpi_table_header, GenericAddressStructure, view_generic_address_structure,
}

pub record Facp : Type 0 where
  pub header : AcpiTableHeader
  pub firmware_ctrl : ℕ
  pub dsdt : ℕ
  pub reserved : ℕ
  pub preferred_pm_profile : ℕ
  pub sci_int : ℕ
  pub smi_cmd : ℕ
  pub acpi_enable : ℕ
  pub acpi_disable : ℕ
  pub s4bios_req : ℕ
  pub pstate_cnt : ℕ
  pub pm1a_evt_blk : ℕ
  pub pm1b_evt_blk : ℕ
  pub pm1a_cnt_blk : ℕ
  pub pm1b_cnt_blk : ℕ
  pub pm2_cnt_blk : ℕ
  pub pm_tmr_blk : ℕ
  pub gpe0_blk : ℕ
  pub gpe1_blk : ℕ
  pub pm1_evt_len : ℕ
  pub pm1_cnt_len : ℕ
  pub pm2_cnt_len : ℕ
  pub pm_tmr_len : ℕ
  pub gpe0_blk_len : ℕ
  pub gpe1_blk_len : ℕ
  pub gpe1_base : ℕ
  pub cst_cnt : ℕ
  pub p_lvl2_lat : ℕ
  pub p_lvl3_lat : ℕ
  pub flush_size : ℕ
  pub flush_stride : ℕ
  pub duty_offset : ℕ
  pub duty_width : ℕ
  pub day_alrm : ℕ
  pub mon_alrm : ℕ
  pub century : ℕ
  pub iapc_boot_arch : ℕ
  pub reserved2 : ℕ
  pub flags : ℕ
  pub reset_reg : GenericAddressStructure
  pub reset_value : ℕ
  pub reserved3 : List ℕ
  pub x_firmware_ctrl : ℕ
  pub x_dsdt : ℕ
  pub x_pm1a_evt_blk : GenericAddressStructure
  pub x_pm1b_evt_blk : GenericAddressStructure
  pub x_pm1a_cnt_blk : GenericAddressStructure
  pub x_pm1b_cnt_blk : GenericAddressStructure
  pub x_pm2_cnt_blk : GenericAddressStructure
  pub x_pm_tmr_blk : GenericAddressStructure
  pub x_gpe0_blk : GenericAddressStructure
  pub x_gpe1_blk : GenericAddressStructure

abbrev pub view_facp : Ram → ℕ → Facp
view_facp m p = record {
  header = view_acpi_table_header m p;
  firmware_ctrl = load32 m (p + 36);
  dsdt = load32 m (p + 40);
  reserved = m (p + 44);
  preferred_pm_profile = m (p + 45);
  sci_int = load16 m (p + 46);
  smi_cmd = load32 m (p + 48);
  acpi_enable = m (p + 52);
  acpi_disable = m (p + 53);
  s4bios_req = m (p + 54);
  pstate_cnt = m (p + 55);
  pm1a_evt_blk = load32 m (p + 56);
  pm1b_evt_blk = load32 m (p + 60);
  pm1a_cnt_blk = load32 m (p + 64);
  pm1b_cnt_blk = load32 m (p + 68);
  pm2_cnt_blk = load32 m (p + 72);
  pm_tmr_blk = load32 m (p + 76);
  gpe0_blk = load32 m (p + 80);
  gpe1_blk = load32 m (p + 84);
  pm1_evt_len = m (p + 88);
  pm1_cnt_len = m (p + 89);
  pm2_cnt_len = m (p + 90);
  pm_tmr_len = m (p + 91);
  gpe0_blk_len = m (p + 92);
  gpe1_blk_len = m (p + 93);
  gpe1_base = m (p + 94);
  cst_cnt = m (p + 95);
  p_lvl2_lat = load16 m (p + 96);
  p_lvl3_lat = load16 m (p + 98);
  flush_size = load16 m (p + 100);
  flush_stride = load16 m (p + 102);
  duty_offset = m (p + 104);
  duty_width = m (p + 105);
  day_alrm = m (p + 106);
  mon_alrm = m (p + 107);
  century = m (p + 108);
  iapc_boot_arch = load16 m (p + 109);
  reserved2 = m (p + 111);
  flags = load32 m (p + 112);
  reset_reg = view_generic_address_structure m (p + 116);
  reset_value = m (p + 128);
  reserved3 = load_bytes m (p + 129) 3;
  x_firmware_ctrl = load64 m (p + 132);
  x_dsdt = load64 m (p + 140);
  x_pm1a_evt_blk = view_generic_address_structure m (p + 148);
  x_pm1b_evt_blk = view_generic_address_structure m (p + 160);
  x_pm1a_cnt_blk = view_generic_address_structure m (p + 172);
  x_pm1b_cnt_blk = view_generic_address_structure m (p + 184);
  x_pm2_cnt_blk = view_generic_address_structure m (p + 196);
  x_pm_tmr_blk = view_generic_address_structure m (p + 208);
  x_gpe0_blk = view_generic_address_structure m (p + 220);
  x_gpe1_blk = view_generic_address_structure m (p + 232);
}
