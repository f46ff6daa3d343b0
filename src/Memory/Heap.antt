-- ===== src/Memory/Heap.antt =====
-- src/memory/allocator.rs: the pages of the heap. The page tables are a parameter: a mapping may take
-- frames for tables from the frame allocator, and write to them. The allocator of the heap is the
-- library's; here it is the span that it is given.
pub mod Sound
pub mod Backed
mod Tests
use neutrix.Base.{
  ℕ, zero, suc, ◌+◌, ◌-◌, ◌*◌, ◌/◌, Bool, Option, none, some, if◌then◌else◌, page_down, Ram,
}
use neutrix.Memory.Frame.{BootInfoFrameAllocator, allocate_frame}

-- `Mapper::map_to`: whether it succeeded, the tables, and the frame allocator and the memory.
pub record PageMapper : Type 1 where
  pub Tables : Type 0
  pub map_to :
      Tables
      → BootInfoFrameAllocator
      → Ram
      → (page frame : ℕ) → Bool × Tables × BootInfoFrameAllocator × Ram

pub data MapToError : Type 0 where
  frame_allocation_failed map_failed : MapToError

abbrev pub heap_start : ℕ
heap_start = 0x444444440000

abbrev pub heap_size : ℕ
heap_size = 100 * 1024

-- The pages from the heap's first to its last, both included.
abbrev pub heap_pages : ℕ
heap_pages = (page_down (heap_start + heap_size - 1) - page_down heap_start) / 0x1000 + 1

module _ (mp : PageMapper) where
  pub record Kernel : Type 0 where
    pub tables : mp.Tables
    pub alloc : BootInfoFrameAllocator
    pub ram : Ram

  -- A page with the frame that was found for it, and the rounds that follow.
  abbrev pub map_page :
      (rest : Kernel → Option MapToError × Kernel)
      → (page : ℕ) → Option ℕ
      → Kernel
      → Option MapToError × Kernel
  map_page rest page none k = (some frame_allocation_failed, k)
  map_page rest page (some frame) k =
      let (mapped, tables, alloc, ram) = mp.map_to k.tables k.alloc k.ram page frame in
      let k' : Kernel = record { tables = tables; alloc = alloc; ram = ram } in
      if mapped then rest k' else (some map_failed, k')

  -- The loop over the pages from `page` on; the first error ends it.
  unfoldable pub map_pages : (n page : ℕ) → Kernel → Option MapToError × Kernel
  map_pages zero page k = (none, k)
  map_pages (suc n) page k =
      let (found, alloc, ram) = allocate_frame k.alloc k.ram in
      map_page (map_pages n (page + 0x1000)) page found (record k { alloc = alloc; ram = ram })

  -- The error, the kernel, and the span that the heap is given.
  unfoldable pub init_heap : Kernel → Option MapToError × Kernel × Option (ℕ × ℕ)
  unfolding map_pages
  init_heap k =
      let (error, k') = map_pages heap_pages (page_down heap_start) k in
      (error, k', elim error [ none ↦ some (heap_start, heap_size) | some _ ↦ none ])
