-- ===== src/Main.antt =====
-- src/main.rs: the parts of `kernel_main` that decide something: the reserved end of the kernel, the
-- memory with the heap, the devices that are registered by hand, and which interrupt the mouse gets.
pub mod Boot
mod Tests
use neutrix.Base.{
  ℕ, zero, suc, ◌+◌, ◌-◌, ◌*◌, ◌%◌, ◌^◌, Bool, true, false, ◌||◌, Option, none, some, List, [], ◌∷◌,
  ◌==◌, leb, if◌then◌else◌, add64, page_down, Ram,
}
use neutrix.Arch.Ports.{Ports}
use neutrix.Memory.Frame.{MemoryRegion, init}
use neutrix.Memory.Heap.{PageMapper, MapToError, Kernel, init_heap}
use neutrix.Devices.Acpi.Tables.Controllers.{IsoInfo}
use neutrix.DriverFramework.Device.{Resource, ResourceKind, interrupt, DeviceInfo, Driver}
use neutrix.DriverFramework.Manager.{
  RegistryEntry, DeviceManager, Result, register_device, attach_driver,
}
use neutrix.Hal.IoApic.{IoApic, Mmio, unmask_gsi, read_redirection_entry}

-- The address of `kernel_main`'s page, and 1 MiB after it.
abbrev pub kernel_reserved_end : (fn_virt phys_offset : ℕ) → Option ℕ
kernel_reserved_end fn_virt phys_offset =
    if leb fn_virt phys_offset
    then none
    else some (add64 (page_down (fn_virt - phys_offset)) (1024 * 1024))

-- The frame allocator, and the heap in pages of it.
unfoldable pub boot_memory :
    (mp : PageMapper)
    → mp.Tables
    → List MemoryRegion
    → (fn_virt phys_offset : ℕ) → Ram
    → Option MapToError × Kernel mp × Option (ℕ × ℕ)
unfolding init init_heap
boot_memory mp tables rs fn_virt phys_offset m =
    let (alloc, ram) = init rs phys_offset (kernel_reserved_end fn_virt phys_offset) m in
    init_heap mp (record { tables = tables; alloc = alloc; ram = ram })

abbrev pub logical_device :
    (vendor_id class : ℕ) → List Resource → (description : List ℕ) → DeviceInfo
logical_device vendor_id class resources description = record {
  vendor_id = vendor_id;
  device_id = 0xffff;
  class = class;
  subclass = 0;
  prog_if = 0;
  resources = resources;
  capabilities = [];
  description = description;
}

abbrev pub interrupt_at : ℕ → List Resource
interrupt_at vector = record { kind = interrupt vector; addr = 0; len = 0 } ∷ []

abbrev pub kbd_info : DeviceInfo
kbd_info =
    logical_device 0xffff 0x09 (interrupt_at 33) (
      b'P' ∷ b'S' ∷ b'/' ∷ b'2' ∷ b' ' ∷ b'K' ∷ b'e' ∷ b'y' ∷ b'b' ∷ b'o' ∷ b'a' ∷ b'r' ∷ b'd' ∷ [])

abbrev pub mouse_info : DeviceInfo
mouse_info =
    logical_device 0xffff 0x09 (interrupt_at 44)
      (b'P' ∷ b'S' ∷ b'/' ∷ b'2' ∷ b' ' ∷ b'M' ∷ b'o' ∷ b'u' ∷ b's' ∷ b'e' ∷ [])

-- The text is "Logical Console Device".
abbrev pub console_info : DeviceInfo
console_info = logical_device 0xfffe 0xFF [] (
    b'L' ∷ b'o' ∷ b'g' ∷ b'i' ∷ b'c' ∷ b'a' ∷ b'l' ∷ b' ' ∷ b'C' ∷ b'o' ∷ b'n' ∷ b's' ∷ b'o' ∷ b'l'
    ∷ b'e' ∷ b' ' ∷ b'D' ∷ b'e' ∷ b'v' ∷ b'i' ∷ b'c' ∷ b'e' ∷ [])

-- A device that is registered, its id, and whether its driver was attached.
unfoldable pub add_with_driver : DeviceInfo → Driver → DeviceManager → DeviceManager × ℕ × Result
unfolding register_device attach_driver
add_with_driver info drv m =
    let (m1, id) = register_device m info in
    let (m2, result) = attach_driver m1 id drv in (m2, id, result)

-- The ids of the display controllers, and the loop that attaches a driver to each; refusals are
-- ignored.
unfoldable pub display_ids : List RegistryEntry → List ℕ
display_ids [] = []
display_ids (e ∷ es) =
    if e.device.info.class == 0x03 then e.device.id ∷ display_ids es else display_ids es

unfoldable pub attach_displays : Driver → List ℕ → DeviceManager → DeviceManager
unfolding attach_driver
attach_displays drv [] m = m
attach_displays drv (id ∷ ids) m = attach_displays drv ids (attach_driver m id drv).0

-- The devices in the order in which they are brought up, and whether the mouse was.
unfoldable pub bring_up :
    (kbd console vbe mouse : Driver) → DeviceManager → DeviceManager × ℕ × Result
unfolding add_with_driver display_ids attach_displays
bring_up kbd console vbe mouse m =
    let m1 = (add_with_driver kbd_info kbd m).0 in
    let m2 = (add_with_driver console_info console m1).0 in
    let m3 = attach_displays vbe (display_ids m2.devices) m2 in add_with_driver mouse_info mouse m3

-- All interrupts of the legacy controllers are masked.
unfoldable pub mask_pics : (io : Ports) → io.Hardware → io.Hardware
mask_pics io h = io.outb (io.outb h 0x21 0xFF) 0xA1 0xFF

-- `(vector as u32).wrapping_sub(0x20) & 0xFF`
abbrev pub legacy_irq : ℕ → ℕ
legacy_irq vector = (vector + 2 ^ 32 - 0x20) % 2 ^ 32 % 256

-- The interrupt that the first override for `irq` names, or else `irq`.
unfoldable pub gsi_candidate : (irq : ℕ) → List IsoInfo → ℕ
gsi_candidate irq [] = irq
gsi_candidate irq (iso ∷ isos) = if iso.source == irq then iso.gsi else gsi_candidate irq isos

module _ (io : Mmio) (table : List IoApic) (isos : List IsoInfo) (apic_id phys_offset : ℕ) where
  -- The entry is read again for its message if it could be unmasked.
  unfoldable pub unmask_and_read : (gsi vector : ℕ) → io.Hardware → io.Hardware
  unfolding unmask_gsi read_redirection_entry
  unmask_and_read gsi vector h =
      let (unmasked, h1) = unmask_gsi io h table gsi vector apic_id phys_offset in
      if unmasked then (read_redirection_entry io h1 table gsi phys_offset).1 else h1

  -- For a resource: whether it is an interrupt, and the hardware after it was unmasked.
  abbrev pub unmask_resource : ResourceKind → io.Hardware → Bool × io.Hardware
  unmask_resource (interrupt vector) h =
      (true, unmask_and_read (gsi_candidate (legacy_irq vector) isos) vector h)
  unmask_resource _ h = (false, h)

  -- The loop over the resources, and whether one was handled.
  unfoldable pub unmask_resources : List Resource → io.Hardware → Bool × io.Hardware
  unfolding unmask_and_read gsi_candidate
  unmask_resources [] h = (false, h)
  unmask_resources (r ∷ rs) h =
      let (handled, h1) = unmask_resource r.kind h in
      let (handled_later, h2) = unmask_resources rs h1 in (handled || handled_later, h2)

  -- The mouse's interrupt, or else the legacy interrupt 12.
  unfoldable pub unmask_mouse : Option DeviceInfo → io.Hardware → io.Hardware
  unfolding unmask_resources
  unmask_mouse none h = unmask_and_read 12 0x2C h
  unmask_mouse (some info) h =
      let (handled, h1) = unmask_resources info.resources h in
      if handled then h1 else unmask_and_read 12 0x2C h1
