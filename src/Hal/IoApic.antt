-- ===== src/Hal/IoApic.antt =====
-- src/hal/ioapic.rs: the I/O APIC driver. Volatile reads and writes of 32-bit registers go to the
-- hardware, whose state is a parameter. `!0xFF`, `<<` and the like are written by quotients and
-- remainders.
pub mod Find
pub mod Chip
pub mod Entry
pub mod Setup
mod Tests
use neutrix.Base.{
  ℕ, zero, suc, ◌+◌, ◌-◌, ◌*◌, ◌/◌, ◌%◌, ◌^◌, Bool, true, false, ◌&&◌, Option, none, some, List, [],
  ◌∷◌, ◌==◌, leb, ltb, if◌then◌else◌, get_elem?, u8, u32, add64,
}

pub record IoApic : Type 0 where
  pub id : ℕ
  pub phys_addr : ℕ
  pub gsi_base : ℕ
  pub redir_entries : ℕ

-- `read_volatile` and `write_volatile` of 32 bits at an address.
pub record Mmio : Type 1 where
  pub Hardware : Type 0
  pub read_volatile : Hardware → ℕ → ℕ
  pub write_volatile : Hardware → ℕ → ℕ → Hardware

unfoldable pub read_reg : (io : Mmio) → io.Hardware → ℕ → ℕ → ℕ × io.Hardware
read_reg io h base reg =
    let selected = io.write_volatile h (base + 0x00) reg in
    (io.read_volatile selected (base + 0x10), selected)

unfoldable pub write_reg : (io : Mmio) → io.Hardware → ℕ → ℕ → ℕ → io.Hardware
write_reg io h base reg val =
    io.write_volatile (io.write_volatile h (base + 0x00) reg) (base + 0x10) val

-- `gsi >= start && gsi < end`
abbrev pub handles : IoApic → ℕ → Bool
handles a gsi = leb a.gsi_base gsi && ltb gsi (u32 (a.gsi_base + a.redir_entries))

-- The loop over the table from index `i` on.
unfoldable pub find_from : ℕ → List IoApic → ℕ → Option (ℕ × ℕ)
find_from i [] gsi = none
find_from i (a ∷ table) gsi =
    let rest = find_from (i + 1) table gsi in
    if handles a gsi then some (i, gsi - a.gsi_base) else rest

unfoldable pub find_ioapic_for_gsi : List IoApic → ℕ → Option (ℕ × ℕ)
unfolding find_from
find_ioapic_for_gsi table gsi = find_from 0 table gsi

-- The address of the registers and the local index that the operations on a GSI work at.
unfoldable pub locate : List IoApic → ℕ → ℕ → Option (ℕ × ℕ)
locate table gsi phys_offset = elim (find_ioapic_for_gsi table gsi) [
  | none ↦ none
  | some (idx, local) ↦ elim (get_elem? table idx) [
    | none ↦ none
    | some a ↦
        let virt = add64 a.phys_addr phys_offset in if virt == 0 then none else some (virt, local)
  ]
]

-- `0x10 + (local as usize * 2) as u8`
abbrev pub reg_low : ℕ → ℕ
reg_low local = u8 (0x10 + u8 (local * 2))

abbrev pub reg_high : ℕ → ℕ
reg_high local = u8 (reg_low local + 1)

unfoldable pub write_redirection_entry_for_gsi :
    (io : Mmio) → io.Hardware → List IoApic → ℕ → ℕ → ℕ → ℕ → Bool × io.Hardware
write_redirection_entry_for_gsi io h table gsi low high phys_offset =
    elim (locate table gsi phys_offset) [
      | none ↦ (false, h)
      | some (virt, local) ↦
          (true, write_reg io (write_reg io h virt (reg_high local) high) virt (reg_low local) low)
    ]

unfoldable pub read_redirection_entry :
    (io : Mmio) → io.Hardware → List IoApic → ℕ → ℕ → Option (ℕ × ℕ) × io.Hardware
read_redirection_entry io h table gsi phys_offset = elim (locate table gsi phys_offset) [
  | none ↦ (none, h)
  | some (virt, local) ↦
      let (low, h1) = read_reg io h virt (reg_low local) in
      let (high, h2) = read_reg io h1 virt (reg_high local) in (some (low, high), h2)
]

-- `low &= !(1 << 16)`
abbrev pub clear_mask : ℕ → ℕ
clear_mask low = low - low / 2 ^ 16 % 2 * 2 ^ 16

-- `(low & !0xFF) | (vector as u32 & 0xFF)`
abbrev pub set_vector : ℕ → ℕ → ℕ
set_vector low vector = low / 256 * 256 + vector % 256

-- The writes of `unmask_gsi`; the high word that it reads first is not used.
unfoldable pub unmask_at : (io : Mmio) → io.Hardware → ℕ → ℕ → ℕ → ℕ → io.Hardware
unmask_at io h virt local vector local_apic_id =
    let (high, h1) = read_reg io h virt (reg_high local) in
    let (low, h2) = read_reg io h1 virt (reg_low local) in
    let h3 = write_reg io h2 virt (reg_high local) (u32 (local_apic_id * 2 ^ 24)) in
    write_reg io h3 virt (reg_low local) (clear_mask (set_vector low vector))

unfoldable pub unmask_gsi :
    (io : Mmio) → io.Hardware → List IoApic → ℕ → ℕ → ℕ → ℕ → Bool × io.Hardware
unmask_gsi io h table gsi vector local_apic_id phys_offset = elim (locate table gsi phys_offset) [
  | none ↦ (false, h)
  | some (virt, local) ↦ (true, unmask_at io h virt local vector local_apic_id)
]

-- The low word of a masked entry: `vector & 0xFF | (1 << 16)`.
abbrev pub masked_vector : ℕ → ℕ
masked_vector irq = u32 (0x20 + irq) % 256 + 2 ^ 16

-- `n` turns of the fallback's loop, from `irq` on.
unfoldable pub legacy_from : (io : Mmio) → io.Hardware → List IoApic → ℕ → ℕ → ℕ → io.Hardware
legacy_from io h table phys_offset irq zero = h
legacy_from io h table phys_offset irq (suc n) =
    let next =
      (write_redirection_entry_for_gsi io h table irq (masked_vector irq) 0 phys_offset).1 in
    legacy_from io next table phys_offset (irq + 1) n

unfoldable pub apply_legacy_isa_fallback : (io : Mmio) → io.Hardware → List IoApic → ℕ → io.Hardware
unfolding legacy_from
apply_legacy_isa_fallback io h table phys_offset = legacy_from io h table phys_offset 0 16
