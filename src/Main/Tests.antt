-- ===== src/Main/Tests.antt =====
-- src/main.rs: a boot with one usable region, and a bring-up of devices.
use neutrix.Base.{
  ◌+◌, ◌*◌, ◌/◌, ◌∙◌, ap, sym, inl, inr, Bool, true, false, ◌&&◌, leb, ltb, List, length, ℕ, ◌≡◌,
  ◌≢◌, refl, none, some, Option, [], ◌∷◌, Ram, IsBytes, ◌==◌, if◌then◌else◌, arith,
}
use neutrix.Memory.Frame.{
  BootInfoFrameAllocator, allocate_frame, MemoryRegion, init, bitmap_place, place_after, max_usable,
}
use neutrix.Memory.Frame.Init.{in_usable}
use neutrix.Memory.Frame.Reserved.{off_limits}
use neutrix.Memory.Heap.{PageMapper}
use mathlib.Core.Path.{subst}
use neutrix.Memory.Frame.Bitmap.{IsValid}
use neutrix.Memory.Frame.Alloc.{allocate_frame_cases}
use neutrix.Memory.Heap.Sound.{Uses, idle, takes, finds_none, writes, Outside, of_bitmap}
use neutrix.Memory.Heap.Backed.{IsMapper, HeapEnds}
use neutrix.DriverFramework.Device.{Driver}
use neutrix.DriverFramework.Manager.{new, set_driver, find_entry}
use neutrix.Main.{kernel_reserved_end, boot_memory, bring_up, gsi_candidate, legacy_irq}
use neutrix.Main.Boot.{boot_memory-ends}

-- Page tables with a root. The first mapping gets a frame for a table and clears it.
abbrev Walk : Type 0
Walk = (ℕ → Option ℕ) × List ℕ

abbrev set : (ℕ → Option ℕ) → (page frame : ℕ) → ℕ → Option ℕ
set t page frame q = if q == page then some frame else t q

abbrev cleared : BootInfoFrameAllocator → ℕ → Ram → Ram
cleared a f m p =
    if leb (a.phys_offset + f * 0x1000) p && ltb p (a.phys_offset + f * 0x1000 + 0x1000)
    then 0
    else m p

abbrev Outcome : Type 0
Outcome = Bool × Walk × BootInfoFrameAllocator × Ram

abbrev with_table : Option ℕ → Walk → BootInfoFrameAllocator → Ram → (page frame : ℕ) → Outcome
with_table none t a m page frame = (false, t, a, m)
with_table (some addr) t a m page frame =
    let f = addr / 0x1000 in (true, (set t.0 page frame, f ∷ t.1), a, cleared a f m)

abbrev walk :
    (needs_table : Bool)
    → Option ℕ × BootInfoFrameAllocator × Ram
    → Walk
    → BootInfoFrameAllocator
    → Ram
    → (page frame : ℕ) → Outcome
walk true got t a m page frame = with_table got.0 t got.1 got.2 page frame
walk false got t a m page frame = (true, (set t.0 page frame, t.1), a, m)

abbrev walker : PageMapper
walker = record {
  Tables = Walk;
  map_to = λ t a m page frame. walk (length t.1 == 1) (allocate_frame a m) t a m page frame;
}

walk_maps :
    (needs_table : Bool) (found : Option ℕ) (t : Walk) (a a1 : BootInfoFrameAllocator) (m m1 : Ram)
    (page frame : ℕ)
    → (walk needs_table (found, a1, m1) t a m page frame).0 ≡ true
    → (q : ℕ)
    → (walk needs_table (found, a1, m1) t a m page frame).1.0 q
      ≡ (if q == page then some frame else t.0 q)
walk_maps true none t a a1 m m1 page frame done q = absurd (cc done)
walk_maps true (some addr) t a a1 m m1 page frame done q = refl
walk_maps false found t a a1 m m1 page frame done q = refl

cleared-IsBytes :
    (a : BootInfoFrameAllocator) (f : ℕ) (m : Ram) → IsBytes m → IsBytes (cleared a f m)
cleared-IsBytes a f m cells p = let cell = cells p in ground arith

cleared-Outside :
    (a : BootInfoFrameAllocator) (f p : ℕ) (m : Ram)
    → Outside a.phys_offset p f
    → cleared a f m p ≡ m p
cleared-Outside a f p m out = ground arith

walk-Uses :
    (needs_table : Bool) (t : Walk) (a : BootInfoFrameAllocator) (m : Ram) (page frame : ℕ)
    → IsValid a m
    → Uses t.1 a m
        (walk needs_table (allocate_frame a m) t a m page frame).1.1
        (walk needs_table (allocate_frame a m) t a m page frame).2
        (walk needs_table (allocate_frame a m) t a m page frame).3
walk-Uses false t a m page frame v = idle
walk-Uses true t a m page frame v =
    let (found, a1, m1) = allocate_frame a m in
    elim (allocate_frame_cases a m v) [
      | inl (f, took) ↦
          let same : f * 0x1000 / 0x1000 ≡ f = omega arith in
          let is : found ≡ some (f * 0x1000 / 0x1000 * 0x1000) =
            took.address ∙ ap (λ n. some (n * 0x1000)) (sym same) in
          subst
            (λ o.
              Uses t.1 a m (with_table o t a1 m1 page frame).1.1 (with_table o t a1 m1 page frame).2
                (with_table o t a1 m1 page frame).3)
            (sym took.address)
            (writes (cleared a1 (f * 0x1000 / 0x1000) m1) (takes (f * 0x1000 / 0x1000) idle is)
              (cleared-IsBytes a1 (f * 0x1000 / 0x1000) m1 took.valid.cells)
              (λ p out. cleared-Outside a1 (f * 0x1000 / 0x1000) p m1 out.0))
      | inr (failed, full) ↦
          let is : found ≡ none = ap (λ r. r.0) failed in
          subst
            (λ o.
              Uses t.1 a m (with_table o t a1 m1 page frame).1.1 (with_table o t a1 m1 page frame).2
                (with_table o t a1 m1 page frame).3)
            (sym is) (finds_none idle is)
    ]

here :
    (t : ℕ → Option ℕ) (page frame : ℕ) → (if page == page then some frame else t page) ≡ some frame
here t page frame = ground arith

there :
    (t : ℕ → Option ℕ) (page frame q : ℕ) → q ≢ page → (if q == page then some frame else t q) ≡ t q
there t page frame q other = ground arith

abbrev walker-IsMapper : IsMapper walker
walker-IsMapper = record {
  mapping = λ t. t.0;
  table_frames = λ t. t.1;
  maps = λ t a m page frame done.
      walk_maps (length t.1 == 1) (allocate_frame a m).0 t a (allocate_frame a m).1 m
        (allocate_frame a m).2 page frame done page
      ∙ here (t.0) page frame;
  keeps = λ t a m page frame q done other.
      walk_maps (length t.1 == 1) (allocate_frame a m).0 t a (allocate_frame a m).1 m
        (allocate_frame a m).2 page frame done q
      ∙ there (t.0) page frame q other;
  uses = λ t a m page frame v. walk-Uses (length t.1 == 1) t a m page frame v;
}

-- 64 frames from 0x200000 on.
abbrev region : MemoryRegion
region = record { start_addr = 0x200000; end_addr = 0x240000; usable = true }

abbrev offset : ℕ
offset = 0x1000000

-- `kernel_main` lies in the second page, so that the reserved end is 0x101000.
abbrev kernel_main : ℕ
kernel_main = 0x1001234

abbrev zeroed : Ram
zeroed p = 0

zeroed-IsBytes : IsBytes zeroed
zeroed-IsBytes p = omega arith

booted :
    (init (region ∷ []) offset (kernel_reserved_end kernel_main offset) zeroed).0.bitmap_bytes ≡ 72
unfolding init bitmap_place place_after max_usable
booted = refl

frames :
    (init (region ∷ []) offset (kernel_reserved_end kernel_main offset) zeroed).0.num_frames ≡ 0x240
unfolding init bitmap_place place_after max_usable
frames = refl

withheld : off_limits (region ∷ []) offset (some 0x101000) zeroed 0x100 ≡ true
unfolding in_usable init max_usable bitmap_place place_after
withheld = refl

-- The root of the page tables is frame 0x50, and the bitmap starts at frame 0x200.
root_apart :
    of_bitmap (init (region ∷ []) offset (kernel_reserved_end kernel_main offset) zeroed).0 0x50
    ≡ false
unfolding init bitmap_place place_after max_usable
root_apart = refl

abbrev root : Walk
root = (λ q. none, 0x50 ∷ [])

boot_memory-ends_example :
    let (alloc, ram) = init (region ∷ []) offset (some 0x101000) zeroed in
    HeapEnds walker walker-IsMapper
      (0x100 ∷ [])
      (record { tables = root; alloc = alloc; ram = ram })
      (boot_memory walker root (region ∷ []) kernel_main offset zeroed)
boot_memory-ends_example =
    boot_memory-ends walker walker-IsMapper (region ∷ []) kernel_main offset zeroed root
      (0x100 ∷ []) ((omega arith), tt) (omega arith) (omega arith) zeroed-IsBytes
      (rw booted (omega arith)) (root_apart, tt) ((rw frames (omega arith), withheld), tt) (tt, tt)

-- The interrupt of the mouse, with and without an override.
mouse_gsi : gsi_candidate (legacy_irq 44) [] ≡ 12
unfolding gsi_candidate
mouse_gsi = refl

abbrev willing : Driver
willing = record { probe = λ d. none; start = λ d. none }

-- The keyboard, the console and the mouse get the ids 1, 2 and 3.
run_bring_up : (bring_up willing willing willing willing new).1 ≡ 3
unfolding bring_up find_entry set_driver
run_bring_up = refl
