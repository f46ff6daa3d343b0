-- ===== src/Hal/IoApic/Tests.antt =====
-- src/hal/ioapic.rs: the theorems at a board with one I/O APIC of 24 entries.
use neutrix.Base.{
  ℕ, ◌+◌, ◌/◌, ◌%◌, ◌^◌, ◌≡◌, ◌≢◌, refl, true, some, List, [], ◌∷◌, ◌==◌, if◌then◌else◌, arith,
  poke,
}
use neutrix.Hal.IoApic.{
  IoApic, Mmio, locate, find_from, find_ioapic_for_gsi, write_redirection_entry_for_gsi,
  read_redirection_entry, unmask_gsi,
}
use neutrix.Hal.IoApic.Find.{Found, find_ioapic_for_gsi-Found}
use neutrix.Hal.IoApic.Chip.{IsChip, LowWritten, HighWritten}
use neutrix.Hal.IoApic.Entry.{read-write_redirection_entry, read-unmask_gsi}

abbrev base : ℕ
base = 0xFEC00000

abbrev chips : List IoApic
chips = record { id = 0; phys_addr = base; gsi_base = 0; redir_entries = 24 } ∷ []

-- The select register and the registers behind the window.
abbrev board : Mmio
board = record {
  Hardware = ℕ × (ℕ → ℕ);
  read_volatile = λ h addr. if addr == base + 0x10 then h.1 h.0 else h.0;
  write_volatile = λ h addr v. if addr == base + 0x10 then (h.0, poke h.1 h.0 v) else (v, h.1);
}

board-IsChip : IsChip board base
board-IsChip = record {
  register = λ h r. h.1 r;
  window = λ h r small. refl;
  select = λ h r k. refl;
  keeps = λ h r v k ne. ground arith;
  low_word = λ h i v small. ground arith;
  high_word = λ h i v small. ground arith;
}

-- Every entry is masked.
abbrev reset : board.Hardware
reset = (0, λ r. 2 ^ 16)

irq1 : locate chips 1 0 ≡ some (base, 1)
unfolding locate find_ioapic_for_gsi find_from
irq1 = refl

find_ioapic_for_gsi-Found_example : Found 0 chips 1 (find_ioapic_for_gsi chips 1)
find_ioapic_for_gsi-Found_example = find_ioapic_for_gsi-Found chips 1 (omega arith, tt)

read-write_redirection_entry_example :
    let h' = (write_redirection_entry_for_gsi board reset chips 1 0x10021 0x5000000 0).1 in
    ((l u : ℕ) × ((read_redirection_entry board h' chips 1 0).0 ≡ some (l, u))
      × LowWritten 0x10021 l
      × HighWritten 0x5000000 u)
    × ((k : ℕ) → k ≢ 18 → k ≢ 19 → h'.1 k ≡ reset.1 k)
unfolding write_redirection_entry_for_gsi board-IsChip
read-write_redirection_entry_example =
    read-write_redirection_entry board chips 1 0 base 1 board-IsChip (omega arith) irq1 reset
      0x10021 0x5000000

read-unmask_gsi_example :
    let (done, h') = unmask_gsi board reset chips 1 0x21 5 0 in
    (done ≡ true)
    × ((l u : ℕ) × ((read_redirection_entry board h' chips 1 0).0 ≡ some (l, u))
        × (l / 2 ^ 16 % 2 ≡ 0)
        × (l % 256 ≡ 0x21)
        × (u / 2 ^ 24 % 256 ≡ 5)
        × (l / 2 ^ 8 % 2 ^ 4 ≡ reset.1 18 / 2 ^ 8 % 2 ^ 4)
        × (l / 2 ^ 15 % 2 ≡ reset.1 18 / 2 ^ 15 % 2))
    × ((k : ℕ) → k ≢ 18 → k ≢ 19 → h'.1 k ≡ reset.1 k)
unfolding unmask_gsi board-IsChip
read-unmask_gsi_example =
    read-unmask_gsi board chips 1 0 base 1 board-IsChip (omega arith) irq1 reset 0x21 5
      (omega arith) (omega arith)
