-- ===== src/Memory/Frame/Tests.antt =====
-- src/memory/frame.rs: runs of the allocator and the theorems at concrete inputs.
use neutrix.Base.{
  ℕ, ◌≡◌, ◌≢◌, All, ◌⊎◌, refl, true, false, none, some, [], ◌∷◌, if◌then◌else◌, ◌==◌, Ram, IsBytes,
  put_bit, arith,
}
use neutrix.Memory.Frame.{
  MemoryRegion, BootInfoFrameAllocator, test_bit, allocate_frame, free_frame, init, max_usable,
  bitmap_place, place_after, build_bitmap, fill_ones, clear_usable, set_range, set_bit,
  reserve_kernel, scan, set_bit_runtime,
}
use neutrix.Memory.Frame.Bitmap.{IsValid}
use neutrix.Memory.Frame.Alloc.{Took, allocate_frame_cases, free_frame-test_bit}
use neutrix.Memory.Frame.Boot.{Booted, init-Booted}
use neutrix.Memory.Frame.History.{World, IsSafe, Reach-IsSafe, here, next, allocates}
use neutrix.Memory.Frame.Reserved.{fresh, off_limits, init-history}

-- Ten frames, of which only frame 1 is free.
abbrev small : BootInfoFrameAllocator
small = record {
  memory_map = [];
  phys_offset = 0;
  kernel_reserved_end = none;
  bitmap_phys_start = 0x1000;
  bitmap_bytes = 2;
  num_frames = 10;
  next_search = 3;
}

abbrev cells : Ram
cells p = if p == 0x1000 then 0xFD else 0xFF

cells-IsBytes : IsBytes cells
cells-IsBytes p = ground arith

small-IsValid : IsValid small cells
small-IsValid = record {
  present = omega arith;
  fits = omega arith;
  covers = omega arith;
  cells = cells-IsBytes;
}

allocate_wraps : (allocate_frame small cells).0 ≡ some 0x1000
unfolding allocate_frame scan test_bit
allocate_wraps = refl

allocate_then_none : let (o, a, m) = allocate_frame small cells in (allocate_frame a m).0 ≡ none
unfolding allocate_frame scan test_bit set_bit_runtime put_bit
allocate_then_none = refl

-- One usable region of 16 frames from 0x10000 on; the bitmap takes its first frame.
abbrev region : MemoryRegion
region = record { start_addr = 0x10000; end_addr = 0x20000; usable = true }

abbrev blank : Ram
blank p = 0

blank-IsBytes : IsBytes blank
blank-IsBytes p = omega arith

booted : (init (region ∷ []) 0x100000 none blank).0.bitmap_bytes ≡ 4
unfolding init bitmap_place place_after max_usable
booted = refl

first_boot_frame :
    let (a, m) = init (region ∷ []) 0x100000 none blank in (allocate_frame a m).0 ≡ some 0x11000
unfolding init bitmap_place place_after max_usable build_bitmap fill_ones clear_usable set_range
    set_bit reserve_kernel allocate_frame scan test_bit put_bit
first_boot_frame = refl

allocate_frame_cases_example :
    ((i : ℕ) × Took small cells i (allocate_frame small cells))
    ⊎ ((allocate_frame small cells ≡ (none, small, cells))
        × ((j : ℕ) → test_bit small cells j ≡ true))
allocate_frame_cases_example = allocate_frame_cases small cells small-IsValid

free_frame-test_bit_example :
    IsValid small (free_frame small cells 0x5000)
    × ((j : ℕ)
        → test_bit small (free_frame small cells 0x5000) j
          ≡ (if 5 == j then false else test_bit small cells j))
free_frame-test_bit_example = free_frame-test_bit small cells 5 small-IsValid (omega arith)

init-Booted_example : Booted (region ∷ []) 0x100000 none (init (region ∷ []) 0x100000 none blank)
init-Booted_example =
    init-Booted (region ∷ []) 0x100000 none blank ((omega arith), tt) tt (omega arith) blank-IsBytes
      (rw booted (omega arith))

abbrev start_world : World
start_world = record { alloc = small; ram = cells; owned = [] }

start-IsSafe : IsSafe start_world
start-IsSafe = record { valid = small-IsValid; distinct = tt; held = tt }

abbrev taken_world : World
taken_world = record {
  alloc = (allocate_frame small cells).1;
  ram = (allocate_frame small cells).2;
  owned = 1 ∷ [];
}

Reach-IsSafe_example : IsSafe taken_world
Reach-IsSafe_example =
    Reach-IsSafe start-IsSafe (next here (allocates start_world 1 allocate_wraps))

abbrev booted_world : World
booted_world = record {
  alloc =
      (allocate_frame (fresh (region ∷ []) 0x100000 none blank).alloc
        (fresh (region ∷ []) 0x100000 none blank).ram).1;
  ram =
      (allocate_frame (fresh (region ∷ []) 0x100000 none blank).alloc
        (fresh (region ∷ []) 0x100000 none blank).ram).2;
  owned = 17 ∷ [];
}

init-history_example :
    IsSafe booted_world
    × ((j : ℕ) → off_limits (region ∷ []) 0x100000 none blank j ≡ true → All (λ y. y ≢ j) (17 ∷ []))
init-history_example =
    init-history (region ∷ []) 0x100000 none blank ((omega arith), tt) tt (omega arith)
      blank-IsBytes (rw booted (omega arith))
      (next here (allocates (fresh (region ∷ []) 0x100000 none blank) 17 first_boot_frame))
