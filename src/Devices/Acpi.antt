-- ===== src/Devices/Acpi.antt =====
-- src/devices/acpi/acpi.rs: the tables that firmware leaves in memory, found, checked and read.
-- The state is what the tables told, the device manager in which devices are registered, and the
-- ports' hardware. Memory is only read. A pointer is its address; `ptr.add` does not wrap. The
-- texts that are formatted for descriptions are a parameter.
pub mod Tables
pub mod Parse
pub mod Search
pub mod Checksum
pub mod Madt
pub mod Grew
mod Tests
use mathlib.Core.Logic.{ite}
use neutrix.Base.{
  ℕ, zero, suc, ◌+◌, ◌-◌, ◌*◌, ◌/◌, ◌%◌, ◌^◌, Bool, true, false, not, ◌&&◌, ◌||◌, Option, none,
  some, List, [], ◌∷◌, ◌++◌, if◌then◌else◌, leb, ltb, ◌==◌, u8, u64, add64, Ram, load32, load64,
  load_bytes,
}
use neutrix.Devices.Acpi.Tables.{AcpiTableHeader, Rsdp, view_acpi_table_header, view_rsdp}

-- `a == b` on arrays of one length
abbrev pub eq_bytes : List ℕ → List ℕ → Bool
eq_bytes [] [] = true
eq_bytes (x ∷ xs) (y ∷ ys) = x == y && eq_bytes xs ys
eq_bytes _ _ = false

-- `bytes.iter().fold(acc, |acc, &x| acc.wrapping_add(x))` over `n` bytes from `p` on
unfoldable pub sum_bytes : Ram → ℕ → ℕ → ℕ → ℕ
sum_bytes m p zero acc = acc
sum_bytes m p (suc n) acc = sum_bytes m (p + 1) n (u8 (acc + m p))

abbrev pub rsdp_signature : List ℕ
rsdp_signature = b'R' ∷ b'S' ∷ b'D' ∷ b' ' ∷ b'P' ∷ b'T' ∷ b'R' ∷ b' ' ∷ []

abbrev pub is_valid : Rsdp → Bool
is_valid r = eq_bytes r.signature rsdp_signature

-- `Rsdp::checksum_valid`, of the structure at `p`
unfoldable pub rsdp_checksum_valid : Ram → ℕ → Bool
rsdp_checksum_valid m p = sum_bytes m p 20 0 == 0

abbrev pub table_address : Rsdp → ℕ
table_address r = if leb 2 r.revision then r.xsdt_address else r.rsdt_address

-- `AcpiTableHeader::checksum_valid`, of the table at `p`
unfoldable pub checksum_valid : Ram → ℕ → Bool
checksum_valid m p = sum_bytes m p (view_acpi_table_header m p).length 0 == 0

abbrev pub is_rsdp_at : Ram → ℕ → Bool
is_rsdp_at m p = is_valid (view_rsdp m p) && rsdp_checksum_valid m p

-- The loop of `search_rsdp_in_range` from `ptr` on, with `fuel` rounds at most.
unfoldable pub search_from : Ram → ℕ → ℕ → ℕ → Option ℕ
search_from m end_ptr zero ptr = none
search_from m end_ptr (suc fuel) ptr =
    let rest = search_from m end_ptr fuel (ptr + 16) in
    if ltb ptr end_ptr then (if is_rsdp_at m ptr then some ptr else rest) else none

-- A round moves on by 16 bytes, so the bytes of the range are rounds enough.
unfoldable pub search_rsdp_in_range : Ram → ℕ → ℕ → ℕ → Option ℕ
unfolding search_from
search_rsdp_in_range m start end phys_offset =
    search_from m (add64 end phys_offset) (end - start) (add64 start phys_offset)

-- The result is the address of the `Rsdp`.
unfoldable pub find_rsdp : Ram → ℕ → Option ℕ
unfolding search_rsdp_in_range
find_rsdp m phys_offset =
    let bios = search_rsdp_in_range m 0xE0000 0x100000 phys_offset in
    elim (search_rsdp_in_range m 0x9FC00 0xA0000 phys_offset) [ some p ↦ some p | none ↦ bios ]

-- `length as usize - size_of::<AcpiTableHeader>()`, which wraps for a shorter table
abbrev pub payload : ℕ → ℕ
payload length = u64 (length + 2 ^ 64 - 36)

abbrev pub rsdt_entry_count : AcpiTableHeader → ℕ
rsdt_entry_count h = payload h.length / 4

abbrev pub xsdt_entry_count : AcpiTableHeader → ℕ
xsdt_entry_count h = payload h.length / 8

-- `Rsdt::table_address` and `Xsdt::table_address`, of the table at `p`
unfoldable pub rsdt_table_address : Ram → ℕ → ℕ → Option ℕ
rsdt_table_address m p index =
    if leb (rsdt_entry_count (view_acpi_table_header m p)) index
    then none
    else some (load32 m (p + 36 + index * 4))

unfoldable pub xsdt_table_address : Ram → ℕ → ℕ → Option ℕ
xsdt_table_address m p index =
    if leb (xsdt_entry_count (view_acpi_table_header m p)) index
    then none
    else some (load64 m (p + 36 + index * 8))
