-- ===== src/Devices/Pci/Found.antt =====
-- src/devices/pci.rs: each function that the regions hold is known to the device manager after the
-- scan.
use neutrix.Base.{
  ℕ, zero, suc, ◌+◌, ◌-◌, ◌/◌, ◌%◌, ◌^◌, ◌<◌, ◌≤◌, ◌≡◌, refl, sym, ap, ◌∙◌, inl, inr, false,
  Bool-cases, ==_iff, List, [], ◌∷◌, ◌++◌, ◌==◌, if◌then◌else◌, arith,
}
use mathlib.Core.Path.{subst}
use neutrix.Arch.Machine.{Machine}
use neutrix.Devices.Acpi.Tables.Controllers.{McfgAllocation}
use neutrix.Devices.Pci.Scan.{
  Scan, is_absent, max_funcs, add_device, function_phys, describe, scan_function, scan_functions,
  scan_slot, scan_slots, scan_buses, scan_regions,
}
use neutrix.Devices.Pci.Present.{Answers-is_absent, Present, max_funcs_above}
use neutrix.Devices.Pci.Registered.{Known, add_device-Known}

-- A loop over counters: what a step keeps the loop keeps, and what one step brings is there then.
module _ {S : Type 0} (step : ℕ → S → S) (loop : ℕ → ℕ → S → S)
    (ends : (i : ℕ) (s : S) → loop zero i s ≡ s)
    (goes_on : (n i : ℕ) (s : S) → loop (suc n) i s ≡ loop n (i + 1) (step i s)) (P : S → Type 0)
    (keeps : (i : ℕ) (s : S) → P s → P (step i s)) where
  loop_keeps : (n i : ℕ) (s : S) → P s → P (loop n i s)
  loop_keeps zero i s h = subst P (sym (ends i s)) h
  loop_keeps (suc n) i s h =
      subst P (sym (goes_on n i s)) (loop_keeps n (i + 1) (step i s) (keeps i s h))

  loop_brings : (n i k : ℕ) (s : S) → i ≤ k → k < i + n → ((t : S) → P (step k t)) → P (loop n i s)
  loop_brings zero i k s le lt brings = absurd (omega arith)
  loop_brings (suc n) i k s le lt brings = elim (Bool-cases (i == k)) [
    | inl same ↦ subst P (sym (goes_on n i s)) (
        loop_keeps n (i + 1) (step i s)
          (subst (λ j. P (step j s)) (sym ((==_iff i k).0 same)) (brings s)))
    | inr other ↦
        subst P (sym (goes_on n i s))
          (loop_brings n (i + 1) k (step i s) (ground arith) (omega arith) brings)
  ]

module _ (mc : Machine) (text : (bus slot func : ℕ) → List ℕ) (offset : ℕ) (v d : ℕ) where
  abbrev Has : Scan mc → Type 0
  Has s = Known s.manager v d

  scan_function-keeps :
      (base bus slot func : ℕ) (s : Scan mc)
      → Has s
      → Has (scan_function mc text offset base bus slot func s)
  unfolding scan_function describe
  scan_function-keeps base bus slot func s has =
      let phys = function_phys mc text offset base bus slot func in
      let (info, h) = describe mc text offset bus slot func phys s.hardware in
      let found : Scan mc = record { hardware = h; manager = add_device info s.manager } in
      elim (Bool-cases (is_absent (mc.read_volatile s.hardware phys % 2 ^ 16))) [
        | inl e ↦ subst (λ b. Has (if b then s else found)) (sym e) has
        | inr e ↦
            subst (λ b. Has (if b then s else found)) (sym e)
              (add_device-Known info s.manager v d (inl has))
      ]

  scan_functions-keeps :
      (base bus slot n func : ℕ) (s : Scan mc)
      → Has s
      → Has (scan_functions mc text offset base bus slot n func s)
  unfolding scan_functions
  scan_functions-keeps base bus slot =
      loop_keeps (scan_function mc text offset base bus slot)
        (scan_functions mc text offset base bus slot) (λ _ _. refl) (λ _ _ _. refl) Has
        (scan_function-keeps base bus slot)

  scan_slot-keeps :
      (base bus slot : ℕ) (s : Scan mc) → Has s → Has (scan_slot mc text offset base bus slot s)
  unfolding scan_slot
  scan_slot-keeps base bus slot s has =
      let phys = function_phys mc text offset base bus slot 0 in
      let funcs = max_funcs (mc.read_volatile s.hardware (phys + 12)) in
      elim (Bool-cases (is_absent (mc.read_volatile s.hardware phys % 2 ^ 16))) [
        | inl e ↦
            subst
              (λ b. Has (if b then s else scan_functions mc text offset base bus slot funcs 0 s))
              (sym e) has
        | inr e ↦
            subst
              (λ b. Has (if b then s else scan_functions mc text offset base bus slot funcs 0 s))
              (sym e) (scan_functions-keeps base bus slot funcs 0 s has)
      ]

  scan_slots-keeps :
      (base bus n slot : ℕ) (s : Scan mc)
      → Has s
      → Has (scan_slots mc text offset base bus n slot s)
  unfolding scan_slots
  scan_slots-keeps base bus =
      loop_keeps (scan_slot mc text offset base bus) (scan_slots mc text offset base bus)
        (λ _ _. refl) (λ _ _ _. refl) Has (scan_slot-keeps base bus)

  scan_buses-keeps :
      (base n bus : ℕ) (s : Scan mc) → Has s → Has (scan_buses mc text offset base n bus s)
  unfolding scan_buses
  scan_buses-keeps base =
      loop_keeps (λ bus. scan_slots mc text offset base bus 32 0) (scan_buses mc text offset base)
        (λ _ _. refl) (λ _ _ _. refl) Has (λ bus. scan_slots-keeps base bus 32 0)

  scan_regions-keeps :
      (regions : List McfgAllocation) (s : Scan mc)
      → Has s
      → Has (scan_regions mc text offset regions s)
  unfolding scan_regions
  scan_regions-keeps [] s has = has
  scan_regions-keeps (a ∷ as') s has =
      scan_regions-keeps as'
        (scan_buses mc text offset a.base_address (a.end_bus + 1 - a.start_bus) a.start_bus s)
        (scan_buses-keeps a.base_address (a.end_bus + 1 - a.start_bus) a.start_bus s has)

  scan_function-brings :
      (base bus slot func : ℕ) (s : Scan mc)
      → is_absent
          (mc.read_volatile s.hardware (function_phys mc text offset base bus slot func) % 2 ^ 16)
        ≡ false
      → mc.read_volatile s.hardware (function_phys mc text offset base bus slot func) % 2 ^ 16 ≡ v
      → mc.read_volatile s.hardware (function_phys mc text offset base bus slot func)
          / 2 ^ 16
          % 2 ^ 16
        ≡ d
      → Has (scan_function mc text offset base bus slot func s)
  unfolding scan_function describe
  scan_function-brings base bus slot func s there ev ed =
      let phys = function_phys mc text offset base bus slot func in
      let (info, h) = describe mc text offset bus slot func phys s.hardware in
      let found : Scan mc = record { hardware = h; manager = add_device info s.manager } in
      subst (λ b. Has (if b then s else found)) (sym there)
        (add_device-Known info s.manager v d (inr (ev, ed)))

module _ (mc : Machine) (text : (bus slot func : ℕ) → List ℕ) (offset : ℕ) (a : McfgAllocation)
    (bus slot func : ℕ) (present : Present mc text offset a bus slot func) where
  -- The ids of the function.
  abbrev vendor_of : ℕ
  vendor_of = present.word % 2 ^ 16

  abbrev device_of : ℕ
  device_of = present.word / 2 ^ 16 % 2 ^ 16

  abbrev Comes : Scan mc → Type 0
  Comes s = Has mc text offset vendor_of device_of s

  present-function :
      (s : Scan mc) → Comes (scan_function mc text offset a.base_address bus slot func s)
  present-function s =
      let is = present.word_is s.hardware in
      scan_function-brings mc text offset vendor_of device_of a.base_address bus slot func s
        (ap (λ w. is_absent (w % 2 ^ 16)) is ∙ Answers-is_absent (present.word) present.func_there)
        (ap (λ w. w % 2 ^ 16) is) (ap (λ w. w / 2 ^ 16 % 2 ^ 16) is)

  present-slot : (s : Scan mc) → Comes (scan_slot mc text offset a.base_address bus slot s)
  unfolding scan_slot scan_functions
  present-slot s =
      let base = a.base_address in
      let phys = function_phys mc text offset base bus slot 0 in
      let funcs = max_funcs (mc.read_volatile s.hardware (phys + 12)) in
      let below : func < funcs =
        subst (λ w. func < max_funcs w) (sym (present.header_is s.hardware))
          (max_funcs_above present.header func present.func_below present.single_or_many) in
      let there =
        ap (λ w. is_absent (w % 2 ^ 16)) (present.slot_word_is s.hardware)
        ∙ Answers-is_absent present.slot_word present.slot_there in
      subst (λ b. Comes (if b then s else scan_functions mc text offset base bus slot funcs 0 s))
        (sym there)
        (loop_brings (scan_function mc text offset base bus slot)
          (scan_functions mc text offset base bus slot) (λ _ _. refl) (λ _ _ _. refl) Comes
          (scan_function-keeps mc text offset vendor_of device_of base bus slot) funcs 0 func s
          (omega arith) (omega arith) present-function)

  present-slots : (s : Scan mc) → Comes (scan_slots mc text offset a.base_address bus 32 0 s)
  unfolding scan_slots
  present-slots s =
      loop_brings (scan_slot mc text offset a.base_address bus)
        (scan_slots mc text offset a.base_address bus) (λ _ _. refl) (λ _ _ _. refl) Comes
        (scan_slot-keeps mc text offset vendor_of device_of a.base_address bus) 32 0 slot s
        (omega arith) present.slot_below present-slot

  present-buses :
      (s : Scan mc)
      → Comes (scan_buses mc text offset a.base_address (a.end_bus + 1 - a.start_bus) a.start_bus s)
  unfolding scan_buses
  present-buses s =
      let from = present.bus_from in
      let to = present.bus_to in
      loop_brings (λ bus. scan_slots mc text offset a.base_address bus 32 0)
        (scan_buses mc text offset a.base_address) (λ _ _. refl) (λ _ _ _. refl) Comes
        (λ bus. scan_slots-keeps mc text offset vendor_of device_of a.base_address bus 32 0)
        (a.end_bus + 1 - a.start_bus) a.start_bus bus s from (omega arith) present-slots

  -- A function that answers, on a slot whose first function answers, in any of the regions, is known
  -- to the device manager under its ids after the scan, whatever was known before it and whatever else
  -- the scan writes, where its id register, that of the first function of its slot and that one's
  -- header register are read-only. A function other than the first counts where the header of its
  -- slot has the bit for many functions.
  pub scan_regions-Known :
      (before after : List McfgAllocation) (s : Scan mc)
      → Known (scan_regions mc text offset (before ++ a ∷ after) s).manager vendor_of device_of
  unfolding scan_regions
  scan_regions-Known [] after s =
      scan_regions-keeps mc text offset vendor_of device_of after
        (scan_buses mc text offset a.base_address (a.end_bus + 1 - a.start_bus) a.start_bus s)
        (present-buses s)
  scan_regions-Known (b ∷ before) after s =
      scan_regions-Known before after
        (scan_buses mc text offset b.base_address (b.end_bus + 1 - b.start_bus) b.start_bus s)
