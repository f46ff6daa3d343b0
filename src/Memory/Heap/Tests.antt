-- ===== src/Memory/Heap/Tests.antt =====
-- Page tables without errors, and a bitmap with 26 free frames.
use neutrix.Base.{
  ℕ, ◌≡◌, ◌≢◌, refl, true, Option, none, some, [], ◌==◌, if◌then◌else◌, Ram, IsBytes, put_bit,
  arith,
}
use neutrix.Memory.Frame.{BootInfoFrameAllocator, allocate_frame, scan, test_bit, set_bit_runtime}
use neutrix.Memory.Frame.Bitmap.{IsValid}
use neutrix.Memory.Heap.{PageMapper, Kernel, init_heap}
use neutrix.Memory.Heap.Backed.{IsMapper}
use neutrix.Memory.Heap.Sound.{idle}

abbrev plain : PageMapper
plain = record {
  Tables = ℕ → Option ℕ;
  map_to = λ t a m page frame. (true, λ q. if q == page then some frame else t q, a, m);
}

maps :
    (t : ℕ → Option ℕ) (page frame : ℕ) → (if page == page then some frame else t page) ≡ some frame
maps t page frame = ground arith

keeps :
    (t : ℕ → Option ℕ) (page frame q : ℕ) → q ≢ page → (if q == page then some frame else t q) ≡ t q
keeps t page frame q other = ground arith

abbrev plain-IsMapper : IsMapper plain
plain-IsMapper = record {
  mapping = λ t. t;
  maps = λ t a m page frame _. maps t page frame;
  keeps = λ t a m page frame q _ other. keeps t page frame q other;
  table_frames = λ t. [];
  uses = λ t a m page frame v. idle;
}

abbrev wide : BootInfoFrameAllocator
wide = record {
  memory_map = [];
  phys_offset = 0;
  kernel_reserved_end = none;
  bitmap_phys_start = 0x1000;
  bitmap_bytes = 4;
  num_frames = 32;
  next_search = 0;
}

-- Frames 0 to 5 are used.
abbrev cells : Ram
cells p = if p == 0x1000 then 0x3F else 0

cells-IsBytes : IsBytes cells
cells-IsBytes p = ground arith

wide-IsValid : IsValid wide cells
wide-IsValid = record {
  present = omega arith;
  fits = omega arith;
  covers = omega arith;
  cells = cells-IsBytes;
}

abbrev kernel : Kernel plain
kernel = record { tables = λ q. none; alloc = wide; ram = cells }

-- The heap's last page gets the 25th free frame.
run_heap : (init_heap plain kernel).1.tables 0x444444458000 ≡ some 0x1E000
unfolding init_heap allocate_frame scan test_bit set_bit_runtime put_bit
run_heap = refl
