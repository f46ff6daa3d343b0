-- ===== src/Devices/Pci/Scan.antt =====
-- src/devices/pci.rs: the scan of the buses, through the regions that ACPI's MCFG lists or through
-- the ports, and the registration of what is found. Texts of descriptions are a parameter.
use neutrix.Base.{
  ℕ, zero, suc, ◌+◌, ◌-◌, ◌*◌, ◌/◌, ◌%◌, ◌^◌, Bool, not, ◌&&◌, ◌||◌, none, some, List, [], ◌∷◌,
  ◌++◌, ◌==◌, if◌then◌else◌, add64,
}
use neutrix.Arch.Machine.{Machine}
use neutrix.DriverFramework.Device.{Resource, interrupt, DeviceInfo}
use neutrix.DriverFramework.Manager.{DeviceManager, merge_or_register, register_device}
use neutrix.Devices.Acpi.Tables.Controllers.{McfgAllocation}
use neutrix.Devices.Pci.{ecam_read, pci_read, read_bars}
use neutrix.Devices.Pci.Caps.{Place, bare, read_capabilities}

pub record Scan (mc : Machine) : Type 0 where
  pub hardware : mc.ports.Hardware
  pub manager : DeviceManager

-- `vendor == 0xFFFF || vendor == 0x0000`
abbrev pub is_absent : (vendor : ℕ) → Bool
is_absent vendor = vendor == 0xFFFF || vendor == 0

-- Eight functions if the header says so, one if not.
abbrev pub max_funcs : (header_dword : ℕ) → ℕ
max_funcs header_dword = if not (header_dword / 2 ^ 16 / 2 ^ 7 % 2 == 0) then 8 else 1

-- A merge into a device that is known, or else a new device.
abbrev pub add_device : DeviceInfo → DeviceManager → DeviceManager
add_device info m =
    let (merged, existing) = merge_or_register m info in
    elim existing [ some _ ↦ merged | none ↦ (register_device merged info).0 ]

-- An interrupt line, unless it is none.
abbrev pub line_resource : (intr_dword : ℕ) → List Resource
line_resource intr_dword =
    let irq_line = intr_dword % 256 in
    if not (irq_line == 0) && not (irq_line == 0xFF) then bare (interrupt irq_line) ∷ [] else []

module _ (mc : Machine) (text : (bus slot func : ℕ) → List ℕ) (physical_memory_offset : ℕ) where
  -- Where the configuration registers of a function are mapped.
  abbrev pub function_phys : (base bus slot func : ℕ) → ℕ
  function_phys base bus slot func =
      add64 physical_memory_offset
        (add64 (add64 (add64 base (bus * 2 ^ 20)) (slot * 2 ^ 15)) (func * 2 ^ 12))

  -- The description of a function that is there, and the hardware after it was read.
  unfoldable pub describe :
      (bus slot func phys : ℕ) → mc.ports.Hardware → DeviceInfo × mc.ports.Hardware
  unfolding read_bars read_capabilities
  describe bus slot func phys h =
      let dword = mc.read_volatile h phys in
      let class_dword = mc.read_volatile h (phys + 8) in
      let (bars, h1) = read_bars mc phys 6 0 h in
      let line = line_resource (ecam_read mc phys 0x3C h1) in
      let place : Place = record {
        bus = bus;
        slot = slot;
        func = func;
        physical_memory_offset = physical_memory_offset;
      } in
      let walked =
        read_capabilities mc place
          (record { resources = bars ++ line; capabilities = []; hardware = h1 }) in
      (
        record {
          vendor_id = dword % 2 ^ 16;
          device_id = dword / 2 ^ 16 % 2 ^ 16;
          class = class_dword / 2 ^ 24 % 256;
          subclass = class_dword / 2 ^ 16 % 256;
          prog_if = class_dword / 2 ^ 8 % 256;
          resources = walked.resources;
          capabilities = walked.capabilities;
          description = text bus slot func;
        },
        walked.hardware,
      )

  unfoldable pub scan_function : (base bus slot func : ℕ) → Scan mc → Scan mc
  unfolding describe merge_or_register register_device
  scan_function base bus slot func s =
      let phys = function_phys base bus slot func in
      let (info, h) = describe bus slot func phys s.hardware in
      if is_absent (mc.read_volatile s.hardware phys % 2 ^ 16)
      then s
      else record { hardware = h; manager = add_device info s.manager }

  -- The loops over functions, slots, buses and regions, `n` rounds from the first on.
  unfoldable pub scan_functions : (base bus slot n func : ℕ) → Scan mc → Scan mc
  unfolding scan_function
  scan_functions base bus slot zero func s = s
  scan_functions base bus slot (suc n) func s =
      scan_functions base bus slot n (func + 1) (scan_function base bus slot func s)

  unfoldable pub scan_slot : (base bus slot : ℕ) → Scan mc → Scan mc
  unfolding scan_functions
  scan_slot base bus slot s =
      let phys = function_phys base bus slot 0 in
      let funcs = max_funcs (mc.read_volatile s.hardware (phys + 12)) in
      if is_absent (mc.read_volatile s.hardware phys % 2 ^ 16)
      then s
      else scan_functions base bus slot funcs 0 s

  unfoldable pub scan_slots : (base bus n slot : ℕ) → Scan mc → Scan mc
  unfolding scan_slot
  scan_slots base bus zero slot s = s
  scan_slots base bus (suc n) slot s = scan_slots base bus n (slot + 1) (scan_slot base bus slot s)

  unfoldable pub scan_buses : (base n bus : ℕ) → Scan mc → Scan mc
  unfolding scan_slots
  scan_buses base zero bus s = s
  scan_buses base (suc n) bus s = scan_buses base n (bus + 1) (scan_slots base bus 32 0 s)

  unfoldable pub scan_regions : List McfgAllocation → Scan mc → Scan mc
  unfolding scan_buses
  scan_regions [] s = s
  scan_regions (a ∷ as') s =
      scan_regions as' (scan_buses a.base_address (a.end_bus + 1 - a.start_bus) a.start_bus s)

  -- The scan through the ports only reads.
  unfoldable pub legacy_functions : (bus slot n func : ℕ) → mc.ports.Hardware → mc.ports.Hardware
  unfolding pci_read
  legacy_functions bus slot zero func h = h
  legacy_functions bus slot (suc n) func h =
      legacy_functions bus slot n (func + 1) (pci_read mc bus slot func 0 h).1

  unfoldable pub legacy_slots : (bus n slot : ℕ) → mc.ports.Hardware → mc.ports.Hardware
  unfolding legacy_functions
  legacy_slots bus zero slot h = h
  legacy_slots bus (suc n) slot h =
      let (vendor_device, h1) = pci_read mc bus slot 0 0 h in
      let (header_dword, h2) = pci_read mc bus slot 0 0x0C h1 in
      let next =
        if is_absent (vendor_device % 2 ^ 16)
        then h1
        else legacy_functions bus slot (max_funcs header_dword) 0 h2 in
      legacy_slots bus n (slot + 1) next

  unfoldable pub legacy_buses : (n bus : ℕ) → mc.ports.Hardware → mc.ports.Hardware
  unfolding legacy_slots
  legacy_buses zero bus h = h
  legacy_buses (suc n) bus h = legacy_buses n (bus + 1) (legacy_slots bus 32 0 h)

  unfoldable pub scan_and_register_with_phys_offset : List McfgAllocation → Scan mc → Scan mc
  unfolding scan_regions legacy_buses
  scan_and_register_with_phys_offset [] s = record s { hardware = legacy_buses 256 0 s.hardware }
  scan_and_register_with_phys_offset (a ∷ mcfgs) s = scan_regions (a ∷ mcfgs) s

-- `scan_and_register`
unfoldable pub scan_and_register :
    (mc : Machine) → ((bus slot func : ℕ) → List ℕ) → List McfgAllocation → Scan mc → Scan mc
unfolding scan_and_register_with_phys_offset
scan_and_register mc text mcfgs s = scan_and_register_with_phys_offset mc text 0 mcfgs s
