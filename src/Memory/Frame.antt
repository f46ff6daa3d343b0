-- ===== src/Memory/Frame.antt =====
-- src/memory/frame.rs: the bitmap frame allocator. The bitmap lies in physical memory, which the
-- kernel sees at `phys_offset`; it is read and written here through an explicit memory.
-- A frame is its number: the source hands out the frame at physical address `i * 0x1000`.
pub mod Bitmap
pub mod Alloc
pub mod Init
pub mod Boot
pub mod History
pub mod Reserved
mod Tests
use neutrix.Base.{
  ℕ, zero, suc, ◌+◌, ◌-◌, ◌*◌, ◌/◌, ◌%◌, Bool, true, false, not, ◌||◌, Option, none, some, List, [],
  ◌∷◌, if◌then◌else◌, leb, ltb, ◌==◌, add64, page_down, page_up, bit, put_bit, Ram, poke,
}

-- What the boot loader's map gives for one region: `range.start_addr()`, `range.end_addr()`, and
-- whether `region_type` is `Usable`.
pub record MemoryRegion : Type 0 where
  pub start_addr : ℕ
  pub end_addr : ℕ
  pub usable : Bool

pub record BootInfoFrameAllocator : Type 0 where
  pub memory_map : List MemoryRegion
  pub phys_offset : ℕ
  pub kernel_reserved_end : Option ℕ
  pub bitmap_phys_start : ℕ
  pub bitmap_bytes : ℕ
  pub num_frames : ℕ
  pub next_search : ℕ

-- The search for the highest usable address.
unfoldable pub max_usable : List MemoryRegion → ℕ → ℕ
max_usable [] m = m
max_usable (r ∷ rs) m =
    max_usable rs (if r.usable then (if ltb m r.end_addr then r.end_addr else m) else m)

-- The first loop over the map for a place of the bitmap; 0 when there is none.
unfoldable pub place_after : Option ℕ → ℕ → List MemoryRegion → ℕ
place_after kend bytes [] = 0
place_after kend bytes (r ∷ rs) =
    let rest = place_after kend bytes rs in
    let try =
      λ (start : ℕ). if leb (add64 (page_up start) bytes) r.end_addr then page_up start else rest in
    if not r.usable then rest else elim kend [
      | none ↦ try r.start_addr
      | some k ↦
          if leb r.end_addr k
          then rest
          else (if ltb r.start_addr k then try (page_up k) else try r.start_addr)
    ]

-- The second loop, which may overlap the kernel.
unfoldable pub place_anywhere : ℕ → List MemoryRegion → ℕ
place_anywhere bytes [] = 0
place_anywhere bytes (r ∷ rs) =
    let rest = place_anywhere bytes rs in
    if not r.usable
    then rest
    else (if leb (add64 (page_up r.start_addr) bytes) r.end_addr
        then page_up r.start_addr
        else rest)

-- `for b in bitmap_slice.iter_mut() { write_volatile(b, 0xFF) }`
unfoldable pub fill_ones : Ram → ℕ → ℕ → Ram
fill_ones m base zero = m
fill_ones m base (suc n) = poke (fill_ones m base n) (base + n) 0xFF

-- The closure `set_bit` of `init`.
unfoldable pub set_bit : ℕ → ℕ → Ram → ℕ → Bool → Ram
set_bit base num_frames m idx val =
    if leb num_frames idx
    then m
    else poke m (base + idx / 8) (put_bit (m (base + idx / 8)) (idx % 8) val)

-- `for i in start..start + n { set_bit(i, val) }`
unfoldable pub set_range : ℕ → ℕ → Ram → Bool → ℕ → ℕ → Ram
set_range base num_frames m val start zero = m
set_range base num_frames m val start (suc n) =
    set_range base num_frames (set_bit base num_frames m start val) val (start + 1) n

-- `clear_range` over the usable regions.
unfoldable pub clear_usable : ℕ → ℕ → Ram → List MemoryRegion → Ram
clear_usable base num_frames m [] = m
clear_usable base num_frames m (r ∷ rs) =
    let start_idx = r.start_addr / 0x1000 in
    let end_idx = add64 r.end_addr 0xFFF / 0x1000 in
    clear_usable base num_frames
      (if r.usable then set_range base num_frames m false start_idx (end_idx - start_idx) else m) rs

-- `[0, end_idx)` marked used, if a kernel end is given.
unfoldable pub reserve_kernel : ℕ → ℕ → Ram → Option ℕ → Ram
reserve_kernel base num_frames m none = m
reserve_kernel base num_frames m (some kend) =
    set_range base num_frames m true 0 (add64 kend 0xFFF / 0x1000)

-- The writes of `init` from `bitmap_slice` on, for a bitmap of `bytes` bytes placed at `start`.
unfoldable pub build_bitmap : List MemoryRegion → ℕ → Option ℕ → ℕ → ℕ → ℕ → Ram → Ram
build_bitmap memory_map phys_offset kend num_frames bytes start m =
    let base = add64 phys_offset start in
    let cleared = clear_usable base num_frames (fill_ones m base bytes) memory_map in
    let reserved = reserve_kernel base num_frames cleared kend in
    let bmp_start = start / 0x1000 in
    let bmp_end = add64 (add64 start bytes) 0xFFF / 0x1000 in
    set_range base num_frames reserved true bmp_start (bmp_end - bmp_start)

-- Where `init` puts a bitmap of `bytes` bytes; 0 when it finds no place.
unfoldable pub bitmap_place : List MemoryRegion → Option ℕ → ℕ → ℕ
bitmap_place memory_map kend bytes =
    let found = place_after kend bytes memory_map in
    if found == 0 then place_anywhere bytes memory_map else found

unfoldable pub init : List MemoryRegion → ℕ → Option ℕ → Ram → BootInfoFrameAllocator × Ram
init memory_map phys_offset kend m =
    let max_addr = max_usable memory_map 0 in
    let num_frames = add64 max_addr 0xFFF / 0x1000 in
    let bytes = (num_frames + 7) / 8 in
    let start = bitmap_place memory_map kend bytes in
    let empty : BootInfoFrameAllocator = record {
      memory_map = memory_map;
      phys_offset = phys_offset;
      kernel_reserved_end = kend;
      bitmap_phys_start = 0;
      bitmap_bytes = 0;
      num_frames = 0;
      next_search = 0;
    } in
    let built = build_bitmap memory_map phys_offset kend num_frames bytes start m in
    if max_addr == 0
    then (empty, m)
    else (if start == 0 then (record empty { num_frames = num_frames }, m) else (
      record empty { bitmap_phys_start = start; bitmap_bytes = bytes; num_frames = num_frames },
      built,
    ))

-- `phys_offset.wrapping_add(bitmap_phys_start)`
abbrev pub bitmap_base : BootInfoFrameAllocator → ℕ
bitmap_base a = add64 a.phys_offset a.bitmap_phys_start

-- The argument is the frame's start address. Its index is not held against `num_frames`.
unfoldable pub free_frame : BootInfoFrameAllocator → Ram → ℕ → Ram
free_frame a m start_address =
    let idx = start_address / 0x1000 in
    let p = bitmap_base a + idx / 8 in
    if a.bitmap_bytes == 0 then m else poke m p (put_bit (m p) (idx % 8) false)

unfoldable pub test_bit : BootInfoFrameAllocator → Ram → ℕ → Bool
test_bit a m idx =
    if a.bitmap_bytes == 0 || leb a.num_frames idx
    then true
    else bit (m (add64 (bitmap_base a) (idx / 8))) (idx % 8)

unfoldable pub set_bit_runtime : BootInfoFrameAllocator → Ram → ℕ → Bool → Ram
set_bit_runtime a m idx val =
    let p = add64 (bitmap_base a) (idx / 8) in
    if a.bitmap_bytes == 0 || leb a.num_frames idx
    then m
    else poke m p (put_bit (m p) (idx % 8) val)

-- `while i < i + left { if !self.test_bit(i) { … } i += 1 }`: the first free index.
unfoldable pub scan : BootInfoFrameAllocator → Ram → ℕ → ℕ → Option ℕ
scan a m zero i = none
scan a m (suc left) i =
    let rest = scan a m left (i + 1) in if not (test_bit a m i) then some i else rest

-- The body of both loops' tests: mark the frame, move `next_search`, return its address. The panic of
-- `PhysAddr::new` from 2^52 on is left out: the frames of an allocator that `init` returns are below.
unfoldable pub take_frame :
    BootInfoFrameAllocator → Ram → ℕ → Option ℕ × BootInfoFrameAllocator × Ram
take_frame a m i = (some (i * 0x1000), record a { next_search = i + 1 }, set_bit_runtime a m i true)

unfoldable pub allocate_frame :
    BootInfoFrameAllocator → Ram → Option ℕ × BootInfoFrameAllocator × Ram
unfolding take_frame
allocate_frame a m =
    if a.bitmap_bytes == 0
    then (none, a, m)
    else elim (scan a m (a.num_frames - a.next_search) a.next_search) [
      | some i ↦ take_frame a m i
      | none ↦ elim (scan a m a.next_search 0) [ some i ↦ take_frame a m i | none ↦ (none, a, m) ]
    ]
