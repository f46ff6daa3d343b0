-- ===== src/Devices/Pci/Present.antt =====
-- src/devices/pci.rs: a function that is there, by its registers and not by the code that reads
-- them.
use neutrix.Base.{ℕ, ◌+◌, ◌/◌, ◌%◌, ◌^◌, ◌<◌, ◌≤◌, ◌≡◌, ◌≢◌, ◌⊎◌, inl, inr, false, List, arith}
use neutrix.Arch.Machine.{Machine}
use neutrix.Devices.Acpi.Tables.Controllers.{McfgAllocation}
use neutrix.Devices.Pci.Scan.{is_absent, max_funcs, function_phys}

-- An identification register that is neither all ones nor of vendor 0.
abbrev pub Answers : (word : ℕ) → Type 0
Answers word = (word % 2 ^ 16 ≢ 0xFFFF) × (word % 2 ^ 16 ≢ 0)

-- A function that answers, of a slot whose first function answers, in a region. It is the first or
-- its slot's header has the bit for many functions. Its identification register, that of the first
-- function of the slot and the header register of that one are read-only: they read the same in every
-- state of the hardware. Of other registers and other memory nothing is said.
pub record Present (mc : Machine) (text : (bus slot func : ℕ) → List ℕ) (offset : ℕ)
    (a : McfgAllocation) (bus slot func : ℕ) : Type 0 where
  pub bus_from : a.start_bus ≤ bus
  pub bus_to : bus ≤ a.end_bus
  pub slot_below : slot < 32
  pub func_below : func < 8
  pub slot_word : ℕ
  pub header : ℕ
  pub word : ℕ
  pub slot_word_is :
      (h : mc.ports.Hardware)
      → mc.read_volatile h (function_phys mc text offset a.base_address bus slot 0) ≡ slot_word
  pub header_is :
      (h : mc.ports.Hardware)
      → mc.read_volatile h (function_phys mc text offset a.base_address bus slot 0 + 12) ≡ header
  pub word_is :
      (h : mc.ports.Hardware)
      → mc.read_volatile h (function_phys mc text offset a.base_address bus slot func) ≡ word
  pub slot_there : Answers slot_word
  pub single_or_many : (func ≡ 0) ⊎ (header / 2 ^ 23 % 2 ≡ 1)
  pub func_there : Answers word

pub Answers-is_absent : (word : ℕ) → Answers word → is_absent (word % 2 ^ 16) ≡ false
Answers-is_absent word (ones, zeros) = ground arith

pub max_funcs_above :
    (header func : ℕ) → func < 8 → (func ≡ 0) ⊎ (header / 2 ^ 23 % 2 ≡ 1) → func < max_funcs header
max_funcs_above header func below (inl first) = ground arith
max_funcs_above header func below (inr many) =
    let bit : header / 2 ^ 16 / 2 ^ 7 % 2 ≡ 1 = omega arith in ground arith
