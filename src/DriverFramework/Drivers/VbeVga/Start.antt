-- ===== src/DriverFramework/Drivers/VbeVga/Start.antt =====
-- src/driver_framework/drivers/vbe_vga.rs: the display mode, the mappings of the driver's start,
-- and its stop. The page tables with the frame allocator are a parameter, as are the ports.
use neutrix.Base.{
  ℕ, zero, suc, ◌+◌, ◌-◌, ◌*◌, ◌/◌, ◌^◌, Bool, true, false, not, ◌&&◌, ◌||◌, Option, none, some,
  List, [], ◌∷◌, ◌++◌, ◌==◌, if◌then◌else◌, u64, add64, page_down, page_up, Ram,
}
use neutrix.Arch.Ports.{Ports}
use neutrix.DriverFramework.Device.{Resource, DeviceInfo, ResourceKind, memory_mapped}
use neutrix.DriverFramework.Drivers.VbeVga.{FbMapping, FramebufferInfo, VbeVgaDriver}
use neutrix.DriverFramework.Drivers.VbeVga.Paint.{paint_rows}

-- `Mapper::map_to`, and whether it succeeded, and `Mapper::unmap`, of the library.
pub record Mapper : Type 1 where
  pub Tables : Type 0
  pub map_to : Tables → (page frame : ℕ) → Bool × Tables
  pub unmap : Tables → (page : ℕ) → Tables

-- What the driver at the address `self` reads and writes. `tables` is missing while the global
-- pointers are null.
pub record Display (io : Ports) (mp : Mapper) : Type 0 where
  pub driver : VbeVgaDriver
  pub active : Option ℕ
  pub ports : io.Hardware
  pub tables : Option mp.Tables
  pub ram : Ram

pub data StartError : Type 0 where
  already_started mapper_not_set no_bars : StartError

-- A display interface's register: the index port, then the data port.
unfoldable pub write_dispi : (io : Ports) → ℕ → ℕ → io.Hardware → io.Hardware
write_dispi io index value h = io.outw (io.outw h 0x01CE index) 0x01CF value

unfoldable pub read_dispi : (io : Ports) → ℕ → io.Hardware → ℕ × io.Hardware
read_dispi io index h = io.inw (io.outw h 0x01CE index) 0x01CF

unfoldable pub set_vbe_mode_dispi :
    (io : Ports) → (xres yres bpp : ℕ) → io.Hardware → Bool × io.Hardware
unfolding write_dispi read_dispi
set_vbe_mode_dispi io xres yres bpp h =
    let (id, h1) = read_dispi io 0 h in
    let h2 =
      write_dispi io 3 bpp
        (write_dispi io 2 yres (write_dispi io 1 xres (write_dispi io 4 0 h1))) in
    if id == 0 || id == 0xFFFF then (false, h1) else (true, write_dispi io 4 0x41 h2)

unfoldable pub probe : DeviceInfo → Bool
probe info = info.class == 0x03

-- The loop over a region's pages, from page `i` on; it breaks at the first that is refused.
unfoldable pub map_pages :
    (mp : Mapper) → (virt_base phys_map_start n i : ℕ) → mp.Tables → mp.Tables
map_pages mp virt_base phys_map_start zero i t = t
map_pages mp virt_base phys_map_start (suc n) i t =
    let page = page_down (add64 virt_base (i * 0x1000)) in
    let (mapped, t1) = mp.map_to t page (add64 phys_map_start (i * 0x1000)) in
    let rest = map_pages mp virt_base phys_map_start n (i + 1) t1 in if mapped then rest else t1

abbrev pub bar_mapping : ℕ → Resource → FbMapping
bar_mapping phys_offset r =
    let bar_len = if r.len == 0 then 0x1000 else r.len in
    let start = page_down r.addr in
    let end = page_up (add64 r.addr bar_len) in
    record {
      virt_base = add64 phys_offset start;
      phys_map_start = start;
      bar_phys = r.addr;
      pages = u64 (end + 2 ^ 64 - start) / 0x1000;
    }

abbrev pub is_memory_mapped : ResourceKind → Bool
is_memory_mapped memory_mapped = true
is_memory_mapped _ = false

-- The loop over the resources; nothing if the mapper is missing when it is needed.
unfoldable pub map_bars :
    (mp : Mapper)
    → ℕ
    → List Resource
    → List FbMapping
    → Option mp.Tables
    → Option (List FbMapping × Option mp.Tables)
unfolding map_pages
map_bars mp phys_offset [] created t = some (created, t)
map_bars mp phys_offset (r ∷ rs) created t =
    let b = bar_mapping phys_offset r in
    let mapped : Option (List FbMapping × Option mp.Tables) = elim t [
      | none ↦ none
      | some tables ↦
          some
            (created ++ (b ∷ []), some (map_pages mp b.virt_base b.phys_map_start b.pages 0 tables))
    ] in
    let next =
      if is_memory_mapped r.kind && not (b.pages == 0) then mapped else some (created, t) in
    elim next [ none ↦ none | some (created1, t1) ↦ map_bars mp phys_offset rs created1 t1 ]

-- The mode that the registers tell; the old one if a size reads 0.
unfoldable pub read_mode :
    (io : Ports) → Option FramebufferInfo → io.Hardware → Option FramebufferInfo × io.Hardware
unfolding read_dispi
read_mode io old h =
    let (xres, h1) = read_dispi io 1 h in
    let (yres, h2) = read_dispi io 2 h1 in
    let (bpp, h3) = read_dispi io 3 h2 in
    let info : FramebufferInfo = record {
      width = xres;
      height = yres;
      bpp = bpp;
      pitch = xres * ((bpp + 7) / 8);
    } in
    (if not (xres == 0) && not (yres == 0) then some info else old, h3)

-- The box in every mapping is cleared, with the pitch of the mode that `start` asked for.
unfoldable pub clear_boxes : List FbMapping → Ram → Ram
unfolding paint_rows
clear_boxes [] m = m
clear_boxes (b ∷ bs) m =
    let fb = add64 b.virt_base (b.bar_phys - b.phys_map_start) in
    let cleared = paint_rows (λ _ _. true) fb (1024 * 4) 100 100 200 (λ _ _. 0) 200 0 m in
    clear_boxes bs (if fb == 0 then m else cleared)

unfoldable pub unmap_pages : (mp : Mapper) → ℕ → (n i : ℕ) → mp.Tables → mp.Tables
unmap_pages mp virt_base zero i t = t
unmap_pages mp virt_base (suc n) i t =
    unmap_pages mp virt_base n (i + 1) (mp.unmap t (page_down (add64 virt_base (i * 0x1000))))

unfoldable pub unmap_all : (mp : Mapper) → List FbMapping → mp.Tables → mp.Tables
unfolding unmap_pages
unmap_all mp [] t = t
unmap_all mp (b ∷ bs) t = unmap_all mp bs (unmap_pages mp b.virt_base b.pages 0 t)

module _ {io : Ports} {mp : Mapper} where
  -- What `start` does with the mappings that were created.
  unfoldable pub activate : ℕ → List FbMapping → Display io mp → Option StartError × Display io mp
  unfolding read_mode
  activate self [] s = (some no_bars, s)
  activate self (b ∷ bs) s =
      let (info, h) = read_mode io s.driver.fb_info s.ports in
      (
        none,
        record s {
          driver = record { started = true; mappings = b ∷ bs; fb_info = info };
          active = some self;
          ports = h;
        },
      )

  unfoldable pub start : ℕ → ℕ → DeviceInfo → Display io mp → Option StartError × Display io mp
  unfolding set_vbe_mode_dispi map_bars activate
  start self phys_offset info s =
      let s1 = record s { ports = (set_vbe_mode_dispi io 1024 768 32 s.ports).1 } in
      if s.driver.started
      then (some already_started, s)
      else elim (map_bars mp phys_offset info.resources [] s.tables) [
        | none ↦ (some mapper_not_set, s1)
        | some (created, t) ↦ activate self created (record s1 { tables = t })
      ]

  unfoldable pub stop : ℕ → Display io mp → Display io mp
  unfolding clear_boxes unmap_all
  stop self s =
      let own : Bool = elim s.active [ none ↦ false | some a ↦ a == self ] in
      let t : Option mp.Tables = elim s.tables [
        | none ↦ none
        | some tables ↦ some (unmap_all mp s.driver.mappings tables)
      ] in
      let stopped : Display io mp = record s {
        driver = record { started = false; mappings = []; fb_info = s.driver.fb_info };
        active = if own then none else s.active;
        tables = t;
        ram = clear_boxes s.driver.mappings s.ram;
      } in
      if not s.driver.started then s else stopped
