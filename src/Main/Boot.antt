-- ===== src/Main/Boot.antt =====
-- src/main.rs: the heap's frames after the boot, on the frame allocator that the entry point sets up.
use neutrix.Base.{
  ℕ, ◌<◌, ◌≤◌, ◌^◌, ◌≡◌, ◌≢◌, ◌∙◌, ap, true, false, not, ◌||◌, List, All, Ram, IsBytes,
}
use neutrix.Memory.Frame.{MemoryRegion, init}
use neutrix.Memory.Frame.Init.{in_usable, in_kernel, RegionIsPhys, EndIsPhys}
use neutrix.Memory.Frame.Boot.{init-Booted}
use neutrix.Memory.Frame.History.{Distinct, All-map}
use neutrix.Memory.Frame.Reserved.{off_limits}
use neutrix.Memory.Heap.{PageMapper}
use neutrix.Memory.Heap.Backed.{IsMapper, HeapEnds, init_heap-ends}
use neutrix.Memory.Heap.Sound.{Sound, of_bitmap}
use neutrix.Main.{kernel_reserved_end, boot_memory}

module _ (mp : PageMapper) (law : IsMapper mp) (rs : List MemoryRegion) (fn_virt off : ℕ)
    (m : Ram) where
  -- A frame that the allocator covers and that may not be handed out.
  abbrev pub Reserved : ℕ → Type 0
  Reserved j =
      (j < (init rs off (kernel_reserved_end fn_virt off) m).0.num_frames)
      × (off_limits rs off (kernel_reserved_end fn_virt off) m j ≡ true)

  -- The law of the page tables (`IsMapper`) is that `map_to` maps its page and no other, gets frames
  -- for new tables from the frame allocator, and writes to the frames of the tables only. If the
  -- boot finds a place for the bitmap, on a memory map of physical addresses with no inverted region,
  -- with the reserved end at 2^52 at most and the physical memory mapped at 2^63 at most, and the
  -- page tables that it starts with are not in the bitmap, then `init_heap` ends as it may from an
  -- allocator on which all reserved frames are owned: so no frame of the heap overlaps the bitmap, lies
  -- below the reserved end that is computed from the address of `kernel_main`, or is without usable
  -- memory.
  pub boot_memory-ends :
      (tables : mp.Tables) (reserved : List ℕ)
      → All RegionIsPhys rs
      → EndIsPhys (kernel_reserved_end fn_virt off)
      → off ≤ 2 ^ 63
      → IsBytes m
      → (init rs off (kernel_reserved_end fn_virt off) m).0.bitmap_bytes ≢ 0
      → All
          (λ g. of_bitmap (init rs off (kernel_reserved_end fn_virt off) m).0 g ≡ false)
          (law.table_frames tables)
      → All Reserved reserved
      → Distinct reserved
      → let (alloc, ram) = init rs off (kernel_reserved_end fn_virt off) m in
        HeapEnds mp law reserved
          (record { tables = tables; alloc = alloc; ram = ram })
          (boot_memory mp tables rs fn_virt off m)
  unfolding boot_memory
  boot_memory-ends tables reserved ok kok low cells has_bitmap tables_apart withheld apart =
      let k = kernel_reserved_end fn_virt off in
      let (alloc, ram) = init rs off k m in
      let b = init-Booted rs off k m ok kok low cells has_bitmap in
      let s : Sound alloc ram reserved (law.table_frames tables) = record {
        safe = record {
          valid = b.valid;
          distinct = apart;
          held = All-map reserved (λ j h. (h.0, b.frames j ∙ h.1)) withheld;
        };
        guarded = λ j e. b.frames j ∙ ap (λ b. b || (in_kernel k j || not (in_usable rs j))) e;
        apart = tables_apart;
        no_wrap = rw b.offset b.no_wrap;
      } in
      init_heap-ends mp law reserved (record { tables = tables; alloc = alloc; ram = ram }) s
