-- ===== src/Devices/Acpi/Tests.antt =====
-- src/devices/acpi/acpi.rs: runs on small memories.
use neutrix.Base.{
  ℕ, zero, suc, ◌-◌, ◌≡◌, refl, true, ◌<◌, inl, inr, Bool, Bool-cases, ◌&&◌, ltb, none, some, List,
  [], ◌∷◌, ◌++◌, if◌then◌else◌, leb, arith, Ram, IsBytes,
}
use neutrix.Arch.Ports.{Ports}
use neutrix.DriverFramework.Manager.{new}
use neutrix.Devices.Acpi.{
  find_rsdp, search_rsdp_in_range, search_from, sum_bytes, rsdp_checksum_valid, checksum_valid,
}
use neutrix.Devices.Acpi.Parse.{Acpi, Texts, parse_madt, init_with_offset}
use neutrix.Devices.Acpi.Search.{Preferred, find_rsdp-Preferred}
use neutrix.Devices.Acpi.Madt.{Entry, io_apic, override, note_entries, parse_madt-encode}
use neutrix.Devices.Acpi.Grew.{Grew, init_with_offset-Grew}

-- The bytes from `base` on; other cells hold 0.
abbrev nth : List ℕ → ℕ → ℕ
nth [] i = 0
nth (b ∷ bs) zero = b
nth (b ∷ bs) (suc i) = nth bs i

abbrev image : ℕ → List ℕ → Ram
image base bs q = if leb base q then nth bs (q - base) else 0

abbrev madt_header : List ℕ
madt_header =
    65 ∷ 80 ∷ 73 ∷ 67 ∷ 66 ∷ 0 ∷ 0 ∷ 0 ∷ 1 ∷ 230 ∷ 0 ∷ 0 ∷ 0 ∷ 0 ∷ 0 ∷ 0 ∷ 0 ∷ 0 ∷ 0 ∷ 0 ∷ 0 ∷ 0 ∷ 0
    ∷ 0 ∷ 0 ∷ 0 ∷ 0 ∷ 0 ∷ 0 ∷ 0 ∷ 0 ∷ 0 ∷ 0 ∷ 0 ∷ 0 ∷ 0 ∷ []

abbrev madt_bytes : List ℕ
madt_bytes =
    madt_header
    ++ (0 ∷ 0 ∷ 224 ∷ 254 ∷ 1 ∷ 0 ∷ 0 ∷ 0 ∷ 1 ∷ 12 ∷ 2 ∷ 0 ∷ 0 ∷ 0 ∷ 192 ∷ 254 ∷ 0 ∷ 0 ∷ 0 ∷ 0 ∷ 2
        ∷ 10 ∷ 0 ∷ 0 ∷ 2 ∷ 0 ∷ 0 ∷ 0 ∷ 0 ∷ 0 ∷ [])

abbrev board : Ram
board = image 4096 madt_bytes

abbrev entries : List Entry
entries =
    io_apic (record { id = 2; addr = 0xFEC00000; gsi_base = 0 })
    ∷ override (record { bus = 0; source = 0; gsi = 2; flags = 0 })
    ∷ []

abbrev quiet : Ports
quiet = record {
  Hardware = ℕ;
  outb = λ h _ _. h;
  outw = λ h _ _. h;
  outdw = λ h _ _. h;
  inb = λ h _. (0, h);
  inw = λ h _. (0, h);
  indw = λ h _. (0, h);
}

abbrev plain : Texts
plain = record {
  table_text = λ signature. signature;
  ioapic_text = λ id gsi_base. id ∷ gsi_base ∷ [];
  hpet_text = λ addr. addr ∷ [];
  mcfg_text = λ seg start_bus end_bus base. seg ∷ start_bus ∷ end_bus ∷ base ∷ [];
}

abbrev unknown : Acpi quiet
unknown = record {
  local_apic_addr = 0;
  ioapics = [];
  isos = [];
  hpet_base = none;
  hpet_period_fs = 0;
  mcfg_allocs = [];
  manager = new;
  ports = 0;
}

board-checksum_valid : checksum_valid board 4096 ≡ true
unfolding checksum_valid sum_bytes
board-checksum_valid = refl

parse_madt-encode_example :
    parse_madt plain board 4096 unknown
    ≡ note_entries plain entries (record unknown { local_apic_addr = 0xFEE00000 })
parse_madt-encode_example =
    parse_madt-encode plain board 4096 entries unknown (λ e. omega arith) board-checksum_valid
      (
        (omega arith, omega arith, omega arith),
        ((omega arith, omega arith, omega arith, omega arith), tt),
      )
      (
        refl,
        (
          refl,
          (
            refl,
            (
              refl,
              (
                refl,
                (
                  refl,
                  (
                    refl,
                    (
                      refl,
                      (
                        refl,
                        (
                          refl,
                          (
                            refl,
                            (
                              refl,
                              (
                                refl,
                                (
                                  refl,
                                  (
                                    refl,
                                    (refl, (refl, (refl, (refl, (refl, (refl, (refl, tt))))))),
                                  ),
                                ),
                              ),
                            ),
                          ),
                        ),
                      ),
                    ),
                  ),
                ),
              ),
            ),
          ),
        ),
      )
      refl

abbrev all_bytes : List ℕ → Bool
all_bytes [] = true
all_bytes (b ∷ bs) = ltb b 256 && all_bytes bs

nth-byte : (bs : List ℕ) (i : ℕ) → all_bytes bs ≡ true → nth bs i < 256
nth-byte [] i h = omega arith
nth-byte (b ∷ bs) zero h = ground arith
nth-byte (b ∷ bs) (suc i) h = nth-byte bs i (ground arith)

board-IsBytes : IsBytes board
board-IsBytes q = elim (Bool-cases (leb 4096 q)) [
  | inl e ↦ rw e (nth-byte madt_bytes (q - 4096) refl)
  | inr e ↦ rw e (omega arith)
]

board_sum : sum_bytes board 4096 66 0 ≡ 0
unfolding sum_bytes
board_sum = refl

-- A root pointer in the extended BIOS data area.
abbrev bios : Ram
bios =
    image 0x9FC10
      (82 ∷ 83 ∷ 68 ∷ 32 ∷ 80 ∷ 84 ∷ 82 ∷ 32 ∷ 225 ∷ 0 ∷ 0 ∷ 0 ∷ 0 ∷ 0 ∷ 0 ∷ 0 ∷ 0 ∷ 0 ∷ 0 ∷ 0 ∷ [])

find_rsdp_run : find_rsdp bios 0 ≡ some 0x9FC10
unfolding find_rsdp search_rsdp_in_range search_from sum_bytes rsdp_checksum_valid
find_rsdp_run = refl

find_rsdp-Preferred_example : Preferred bios 0 (find_rsdp bios 0)
find_rsdp-Preferred_example = find_rsdp-Preferred bios 0 (omega arith)

init_with_offset-Grew_example : Grew unknown (init_with_offset plain bios 0 unknown)
init_with_offset-Grew_example = init_with_offset-Grew plain bios 0 unknown
