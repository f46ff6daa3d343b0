-- ===== src/Devices/Pci.antt =====
-- src/devices/pci.rs: configuration space, the base address registers and the capabilities of a
-- function, and the scan. Shifts and masks are written by quotients and remainders; prints are left
-- out.
pub mod Caps
pub mod Scan
pub mod Layout
pub mod Rounds
pub mod Sizing
pub mod Chain
pub mod Found
pub mod Present
pub mod Registered
mod Tests
use neutrix.Base.{
  ℕ, zero, suc, ◌+◌, ◌-◌, ◌*◌, ◌/◌, ◌%◌, ◌^◌, Bool, ◌||◌, List, [], ◌∷◌, ◌++◌, ◌==◌, ltb,
  if◌then◌else◌, u32, u64,
}
use neutrix.Arch.Machine.{Machine}
use neutrix.DriverFramework.Device.{Resource, memory_mapped, io}

-- Slots are below 32 and functions below 8, so the fields do not overlap.
abbrev pub pci_config_address : (bus slot func offset : ℕ) → ℕ
pci_config_address bus slot func offset =
    0x80000000 + bus * 2 ^ 16 + slot * 2 ^ 11 + func * 2 ^ 8 + offset / 4 % 64 * 4

-- `(!x).wrapping_add(1)` on 32 and on 64 bits
abbrev pub negated32 : ℕ → ℕ
negated32 x = u32 (2 ^ 32 - x)

abbrev pub negated64 : ℕ → ℕ
negated64 x = u64 (2 ^ 64 - x)

module _ (mc : Machine) where
  unfoldable pub pci_read : (bus slot func offset : ℕ) → mc.ports.Hardware → ℕ × mc.ports.Hardware
  pci_read bus slot func offset h =
      mc.ports.indw (mc.ports.outdw h 0xCF8 (pci_config_address bus slot func offset)) 0xCFC

  unfoldable pub pci_write : (bus slot func offset val : ℕ) → mc.ports.Hardware → mc.ports.Hardware
  pci_write bus slot func offset val h =
      mc.ports.outdw (mc.ports.outdw h 0xCF8 (pci_config_address bus slot func offset)) 0xCFC val

  -- The function's configuration registers in memory, from `phys` on.
  abbrev pub ecam_read : (phys off : ℕ) → mc.ports.Hardware → ℕ
  ecam_read phys off h = mc.read_volatile h (phys + off / 4 % 64 * 4)

  abbrev pub ecam_write : (phys off val : ℕ) → mc.ports.Hardware → mc.ports.Hardware
  ecam_write phys off val h = mc.write_volatile h (phys + off / 4 % 64 * 4) val

  -- What a register reads after all ones were written, and the hardware with its old value back.
  unfoldable pub probe_mask : (phys off orig : ℕ) → mc.ports.Hardware → ℕ × mc.ports.Hardware
  probe_mask phys off orig h =
      let h1 = ecam_write phys off 0xFFFFFFFF h in
      (ecam_read phys off h1, ecam_write phys off orig h1)

  abbrev pub io_bar : (phys off orig : ℕ) → mc.ports.Hardware → Resource × mc.ports.Hardware
  io_bar phys off orig h =
      let (mask, h1) = probe_mask phys off orig h in
      (record { kind = io; addr = orig / 4 * 4; len = negated32 (mask / 4 * 4) }, h1)

  abbrev pub memory_bar : (phys off orig : ℕ) → mc.ports.Hardware → Resource × mc.ports.Hardware
  memory_bar phys off orig h =
      let (mask, h1) = probe_mask phys off orig h in
      (record { kind = memory_mapped; addr = orig / 16 * 16; len = negated32 (mask / 16 * 16) }, h1)

  -- A register of 64 bits takes the next one with it.
  unfoldable pub wide_bar : (phys off orig : ℕ) → mc.ports.Hardware → Resource × mc.ports.Hardware
  wide_bar phys off orig h =
      let off_high = off + 4 in
      let orig_high = ecam_read phys off_high h in
      let h1 = ecam_write phys off_high 0xFFFFFFFF (ecam_write phys off 0xFFFFFFFF h) in
      let mask = ecam_read phys off_high h1 * 2 ^ 32 + ecam_read phys off h1 in
      (
        record {
          kind = memory_mapped;
          addr = orig_high * 2 ^ 32 + orig / 16 * 16;
          len = negated64 (mask / 16 * 16);
        },
        ecam_write phys off_high orig_high (ecam_write phys off orig h1),
      )

  -- A round of the loop over the registers: what it finds, the registers it takes, the hardware.
  unfoldable pub read_bar :
      (phys index : ℕ) → mc.ports.Hardware → List Resource × ℕ × mc.ports.Hardware
  unfolding probe_mask wide_bar
  read_bar phys index h =
      let off = 0x10 + index * 4 in
      let orig = ecam_read phys off h in
      let (io_found, h1) = io_bar phys off orig h in
      let (wide_found, h2) = wide_bar phys off orig h in
      let (memory_found, h3) = memory_bar phys off orig h in
      if orig == 0 || orig == 0xFFFFFFFF
      then ([], 1, h)
      else (if orig % 2 == 1
          then (io_found ∷ [], 1, h1)
          else (if orig / 2 % 4 == 2 then (wide_found ∷ [], 2, h2) else (memory_found ∷ [], 1, h3)))

  -- The loop from `index` on, `n` rounds at most.
  unfoldable pub read_bars :
      (phys n index : ℕ) → mc.ports.Hardware → List Resource × mc.ports.Hardware
  unfolding read_bar
  read_bars phys zero index h = ([], h)
  read_bars phys (suc n) index h =
      let (found, taken, h1) = read_bar phys index h in
      let (rest, h2) = read_bars phys n (index + taken) h1 in
      if ltb index 6 then (found ++ rest, h2) else ([], h)
