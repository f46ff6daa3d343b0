-- ===== src/Devices/Pci/Tests.antt =====
-- A function with a register of each kind, and runs of the loop over its registers.
use neutrix.Base.{
  ℕ, ◌+◌, ◌-◌, ◌*◌, ◌/◌, ◌%◌, ◌≡◌, refl, ap, inr, List, [], ◌∷◌, ◌==◌, if◌then◌else◌, arith,
}
use neutrix.Arch.Ports.{Ports}
use neutrix.Arch.Machine.{Machine}
use neutrix.DriverFramework.Device.{Resource, memory_mapped, io, power_management, pci_express}
use neutrix.Devices.Pci.{pci_read, read_bars}
use neutrix.Devices.Pci.Caps.{Walk, Place, read_capabilities}
use neutrix.Devices.Acpi.Tables.Controllers.{McfgAllocation}
use neutrix.Devices.Pci.Scan.{Scan, scan_regions}
use neutrix.Devices.Pci.Registered.{Known}
use neutrix.Devices.Pci.Present.{Present}
use neutrix.Devices.Pci.Found.{scan_regions-Known}
use neutrix.Devices.Pci.Chain.{read_capabilities-listed}
use neutrix.Devices.Pci.Layout.{Registers, Holds, Laid, end, unused, ports, memory, wide}
use neutrix.Devices.Pci.Sizing.{read_bars-Laid}

-- Six registers, by index.
abbrev no_ports : Ports
no_ports = record {
  Hardware = ℕ → ℕ;
  outb = λ h _ _. h;
  outw = λ h _ _. h;
  outdw = λ h _ _. h;
  inb = λ h _. (0, h);
  inw = λ h _. (0, h);
  indw = λ h _. (0, h);
}

abbrev card_grain : ℕ → ℕ
card_grain i = if i == 0 then 0x1000 else (if i == 1 then 32 else (if i == 2 then 0x100000 else 1))

abbrev card_flags : ℕ → ℕ
card_flags i = if i == 1 then 1 else (if i == 2 then 4 else 0)

abbrev card : Machine
card = record {
  ports = no_ports;
  read_volatile = λ h a. h ((a - 0x10) / 4);
  write_volatile = λ h a v j.
      let i = (a - 0x10) / 4 in
      if i == j then v / card_grain i * card_grain i + card_flags i else h j;
}

index : (i : ℕ) → (0 + (0x10 + i * 4) - 0x10) / 4 ≡ i
index i = omega arith

abbrev card_registers : Registers card 0
card_registers = record {
  value = λ h. h;
  grain = card_grain;
  flags = card_flags;
  reads = λ h i _. ap h (index i);
  writes = λ h i j v _.
      ap (λ n. if n == j then v / card_grain n * card_grain n + card_flags n else h j) (index i);
}

abbrev card_values : ℕ → ℕ
card_values i =
    if i == 0
    then 0xFEBC0000
    else (if i == 1 then 0xC001 else (if i == 2 then 0xE0000004 else (if i == 3 then 8 else 0)))

abbrev card_bars : List Resource
card_bars =
    record { kind = memory_mapped; addr = 0xFEBC0000; len = 0x1000 }
    ∷ record { kind = io; addr = 0xC000; len = 32 }
    ∷ record { kind = memory_mapped; addr = 0x8E0000000; len = 0x100000 }
    ∷ []

card-Laid : Laid card_registers card_values 0 card_bars
card-Laid =
    let first : Holds card_registers card_values 0 (16 * 0x100) 0 0xFEBC0 = record {
      below = omega arith;
      grain_is = refl;
      flags_are = refl;
      fits = omega arith;
      value_is = refl;
      parts = 0x100000;
      divides = refl;
    } in
    let second : Holds card_registers card_values 1 (4 * 8) 1 0x600 = record {
      below = omega arith;
      grain_is = refl;
      flags_are = refl;
      fits = omega arith;
      value_is = refl;
      parts = 0x8000000;
      divides = refl;
    } in
    let low : Holds card_registers card_values 2 (16 * 0x10000) 4 0xE00 = record {
      below = omega arith;
      grain_is = refl;
      flags_are = refl;
      fits = omega arith;
      value_is = refl;
      parts = 0x1000;
      divides = refl;
    } in
    let high : Holds card_registers card_values 3 1 0 8 = record {
      below = omega arith;
      grain_is = refl;
      flags_are = refl;
      fits = omega arith;
      value_is = refl;
      parts = 0x100000000;
      divides = refl;
    } in
    memory 0x100 0xFEBC0 0 first (omega arith) refl (λ e. absurd (omega arith)) (omega arith)
      (omega arith)
      (ports 8 0x600 second (omega arith) (
        wide 0x10000 0xE00 4 1 8 0x100000 low high (omega arith) refl refl refl (omega arith)
          (unused (omega arith) refl (unused (omega arith) refl (end (omega arith))))))

read_bars-Laid_example :
    ((read_bars card 0 6 0 card_values).0 ≡ card_bars)
    × ((read_bars card 0 6 0 card_values).1 ≡ card_values)
read_bars-Laid_example = read_bars-Laid card 0 card_registers card_values card_bars card-Laid

-- The same by a run.
run_bars : (read_bars card 0 6 0 card_values).0 ≡ card_bars
unfolding read_bars
run_bars = refl

-- A function with two capabilities. The hardware is the address that was selected.
abbrev config : ℕ → ℕ
config a =
    if a == 0x04
    then 0x100000
    else (if a == 0x34
        then 0x40
        else (if a == 0x40
            then 0x00035001
            else (if a == 0x44
                then 8
                else (if a == 0x50 then 0x00020010 else (if a == 0x54 then 0x8000 else 0)))))

abbrev card_word : ℕ → ℕ
card_word off = config (off / 4 % 64 * 4)

abbrev capable : Machine
capable = record {
  ports = record {
    Hardware = ℕ;
    outb = λ h _ _. h;
    outw = λ h _ _. h;
    outdw = λ h port v. if port == 0xCF8 then v else h;
    inb = λ h _. (0, h);
    inw = λ h _. (0, h);
    indw = λ h _. (config (h % 256), h);
  };
  read_volatile = λ h a. 0;
  write_volatile = λ h a v. h;
}

abbrev first_place : Place
first_place = record { bus = 0; slot = 0; func = 0; physical_memory_offset = 0 }

low_bits : (off : ℕ) → (0x80000000 + 0 + 0 + 0 + off / 4 % 64 * 4) % 256 ≡ off / 4 % 64 * 4
low_bits off = omega arith

capable_reads : (h off : ℕ) → (pci_read capable 0 0 0 off h).0 ≡ card_word off
unfolding pci_read
capable_reads h off = ap config (low_bits off)

abbrev nothing_found : Walk capable
nothing_found = record { resources = []; capabilities = []; hardware = 0 }

read_capabilities-listed_example :
    (read_capabilities capable first_place nothing_found).capabilities
    ≡ power_management 3 8 ∷ pci_express 0x00020010 0x8000 ∷ []
read_capabilities-listed_example =
    read_capabilities-listed capable first_place card_word capable_reads (0x40 ∷ 0x50 ∷ [])
      nothing_found (omega arith) refl (refl, refl, (refl, refl, refl))

run_capabilities :
    (read_capabilities capable first_place nothing_found).capabilities
    ≡ power_management 3 8 ∷ pci_express 0x00020010 0x8000 ∷ []
unfolding read_capabilities
run_capabilities = refl

-- A board with a bridge of two functions on slot 2, and a single device on slot 5 of bus 1. The
-- second function has a register of ports that is sized and written: the hardware is its value.
abbrev board_word : ℕ → ℕ
board_word a =
    if a == 0xE0010000
    then 0x70008086
    else (if a == 0xE001000C
        then 0x800000
        else (if a == 0xE0011000
            then 0x70108086
            else (if a == 0xE0128000
                then 0x100E8086
                else (if a == 0xE012800C then 0 else 0xFFFFFFFF))))

abbrev ide_register : ℕ
ide_register = 0xE0011010

abbrev board : Machine
board = record {
  ports = record {
    Hardware = ℕ;
    outb = λ h _ _. h;
    outw = λ h _ _. h;
    outdw = λ h _ _. h;
    inb = λ h _. (0, h);
    inw = λ h _. (0, h);
    indw = λ h _. (0, h);
  };
  read_volatile = λ h a. if a == ide_register then h else board_word a;
  write_volatile = λ h a v. if a == ide_register then v / 16 * 16 + 1 else h;
}

abbrev no_text : (bus slot func : ℕ) → List ℕ
no_text bus slot func = []

abbrev region : McfgAllocation
region = record {
  base_address = 0xE0000000;
  pci_segment_group = 0;
  start_bus = 0;
  end_bus = 1;
  reserved = [];
}

abbrev unscanned : Scan board
unscanned = record {
  hardware = 0xC001;
  manager = record { next_device_id = 1; devices = []; calls = [] };
}

abbrev second_function : Present board no_text 0 region 0 2 1
second_function = record {
  bus_from = omega arith;
  bus_to = omega arith;
  slot_below = omega arith;
  func_below = omega arith;
  slot_word = 0x70008086;
  header = 0x800000;
  word = 0x70108086;
  slot_word_is = λ h. refl;
  header_is = λ h. refl;
  word_is = λ h. refl;
  slot_there = (λ e. absurd (omega arith), λ e. absurd (omega arith));
  single_or_many = inr refl;
  func_there = (λ e. absurd (omega arith), λ e. absurd (omega arith));
}

scan_regions-Known_example :
    Known (scan_regions board no_text 0 (region ∷ []) unscanned).manager 0x8086 0x7010
scan_regions-Known_example =
    scan_regions-Known board no_text 0 region 0 2 1 second_function [] [] unscanned
