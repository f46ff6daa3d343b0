-- ===== src/Hal/IoApic/Chip.antt =====
-- src/hal/ioapic.rs: what the driver relies on of an I/O APIC, by the chip's data sheet, and what
-- its register reads and writes then do.
use neutrix.Base.{ℕ, ◌+◌, ◌*◌, ◌/◌, ◌%◌, ◌^◌, ◌<◌, ◌≡◌, ◌≢◌, arith}
use neutrix.Hal.IoApic.{Mmio, read_reg, write_reg, reg_low, reg_high}

-- The fields of an entry's low word that can be written: vector, delivery mode and destination
-- mode, and trigger mode and mask. Bits 12 and 14 are read-only, bits 17 and up reserved, and
-- nothing is said of the polarity.
abbrev pub LowWritten : ℕ → ℕ → Type 0
LowWritten v new = (new % 2 ^ 12 ≡ v % 2 ^ 12) × (new / 2 ^ 15 % 4 ≡ v / 2 ^ 15 % 4)

-- The field of an entry's high word that can be written, the destination.
abbrev pub HighWritten : ℕ → ℕ → Type 0
HighWritten v new = new / 2 ^ 24 % 256 ≡ v / 2 ^ 24 % 256

-- At `base` there is an I/O APIC: the select register chooses the register that the window
-- reads and writes, and selecting alone changes none.
pub record IsChip (io : Mmio) (base : ℕ) : Type 0 where
  pub register : io.Hardware → ℕ → ℕ
  pub window :
      (h : io.Hardware) (r : ℕ)
      → r < 256
      → io.read_volatile (io.write_volatile h (base + 0x00) r) (base + 0x10) ≡ register h r
  pub select :
      (h : io.Hardware) (r k : ℕ) → register (io.write_volatile h (base + 0x00) r) k ≡ register h k
  pub keeps :
      (h : io.Hardware) (r v k : ℕ)
      → k ≢ r
      → register (io.write_volatile (io.write_volatile h (base + 0x00) r) (base + 0x10) v) k
        ≡ register h k
  pub low_word :
      (h : io.Hardware) (i v : ℕ)
      → i < 120
      → LowWritten v (
          register
            (io.write_volatile (io.write_volatile h (base + 0x00) (16 + i * 2)) (base + 0x10) v)
            (16 + i * 2))
  pub high_word :
      (h : io.Hardware) (i v : ℕ)
      → i < 120
      → HighWritten v (
          register
            (io.write_volatile (io.write_volatile h (base + 0x00) (17 + i * 2)) (base + 0x10) v)
            (17 + i * 2))

pub reg_low-eq : (i : ℕ) → i < 120 → reg_low i ≡ 16 + i * 2
reg_low-eq i h = omega arith

pub reg_high-eq : (i : ℕ) → i < 120 → reg_high i ≡ 17 + i * 2
reg_high-eq i h = omega arith

module _ (io : Mmio) (base : ℕ) (chip : IsChip io base) (h : io.Hardware) where
  pub read_reg-register : (r : ℕ) → r < 256 → (read_reg io h base r).0 ≡ chip.register h r
  unfolding read_reg
  read_reg-register r small = chip.window h r small

  pub register-read_reg : (r k : ℕ) → chip.register (read_reg io h base r).1 k ≡ chip.register h k
  unfolding read_reg
  register-read_reg r k = chip.select h r k

  pub register-write_reg :
      (r v k : ℕ) → k ≢ r → chip.register (write_reg io h base r v) k ≡ chip.register h k
  unfolding write_reg
  register-write_reg r v k ne = chip.keeps h r v k ne

  pub low-write_reg :
      (i v : ℕ)
      → i < 120
      → LowWritten v (chip.register (write_reg io h base (16 + i * 2) v) (16 + i * 2))
  unfolding write_reg
  low-write_reg i v small = chip.low_word h i v small

  pub high-write_reg :
      (i v : ℕ)
      → i < 120
      → HighWritten v (chip.register (write_reg io h base (17 + i * 2) v) (17 + i * 2))
  unfolding write_reg
  high-write_reg i v small = chip.high_word h i v small
