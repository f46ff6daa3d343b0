-- ===== src/Memory/Frame/Boot.antt =====
-- src/memory/frame.rs: the allocator that `init` returns.
use native.Mathlib.Decide.{ℕ_discrete, dec_lt}
use neutrix.Base.{
  ℕ, ◌+◌, ◌*◌, ◌/◌, ◌^◌, ◌≤◌, ◌≡◌, ◌≢◌, refl, ◌∙◌, sym, inl, inr, Bool, true, not, ◌||◌, Option,
  List, Bool-cases, add64, Ram, IsBytes, arith, All,
}
use neutrix.Memory.Frame.{
  MemoryRegion, BootInfoFrameAllocator, test_bit, max_usable, place_after, bitmap_place,
  build_bitmap, init,
}
use neutrix.Memory.Frame.Bitmap.{IsValid, test_bit_inside, test_bit_outside}
use neutrix.Memory.Frame.Init.{
  in_usable, in_kernel, touches, IsPhys, RegionIsPhys, EndIsPhys, build_bitmap_lem,
  build_bitmap-IsBytes,
}
use neutrix.Memory.Frame.Init.Place.{
  max_usable-IsPhys, in_usable-lt, holds, holds-IsPhys, Above, bitmap_place_lem,
}

-- What a successful `init` gives.
pub record Booted (rs : List MemoryRegion) (off : ℕ) (k : Option ℕ)
    (r : BootInfoFrameAllocator × Ram) : Type 0 where
  pub valid : IsValid r.0 r.1
  pub frames :
      (j : ℕ)
      → test_bit r.0 r.1 j ≡ (
          touches r.0.bitmap_phys_start (r.0.bitmap_phys_start + r.0.bitmap_bytes) j
          || (in_kernel k j || not (in_usable rs j)))
  pub placed : holds rs r.0.bitmap_phys_start r.0.bitmap_bytes ≡ true
  pub no_wrap : off + r.0.bitmap_phys_start + r.0.bitmap_bytes ≤ 2 ^ 64
  pub addresses : r.0.num_frames * 0x1000 ≤ 2 ^ 52
  pub offset : r.0.phys_offset ≡ off
  pub above : place_after k r.0.bitmap_bytes rs ≢ 0 → Above k r.0.bitmap_phys_start
  pub first : r.0.next_search ≡ 0

module _ (rs : List MemoryRegion) (off : ℕ) (k : Option ℕ) (m : Ram) where
  abbrev frames : ℕ
  frames = add64 (max_usable rs 0) 0xFFF / 0x1000

  abbrev bytes : ℕ
  bytes = (frames + 7) / 8

  abbrev start : ℕ
  start = bitmap_place rs k bytes

  abbrev allocator : BootInfoFrameAllocator
  allocator = record {
    memory_map = rs;
    phys_offset = off;
    kernel_reserved_end = k;
    bitmap_phys_start = start;
    bitmap_bytes = bytes;
    num_frames = frames;
    next_search = 0;
  }

  init_built :
      (init rs off k m).0.bitmap_bytes ≢ 0
      → (init rs off k m ≡ (allocator, build_bitmap rs off k frames bytes start m))
        × (start ≢ 0)
        × (max_usable rs 0 ≢ 0)
  unfolding init
  init_built h = elim (ℕ_discrete (max_usable rs 0) 0) [
    | yes e ↦ absurd (ground arith)
    | no ne ↦ elim (ℕ_discrete start 0) [
      | yes z ↦ absurd (ground arith)
      | no nz ↦ (ground arith, nz, ne)
    ]
  ]

  -- A frame beyond the highest usable address has no usable byte.
  beyond :
      (b : Bool) (j : ℕ)
      → frames ≤ j
      → IsPhys (max_usable rs 0)
      → b || (in_kernel k j || not (in_usable rs j)) ≡ true
  beyond b j out phys = elim (Bool-cases (in_usable rs j)) [
    | inl u ↦ absurd (let low = in_usable-lt rs 0 j u in omega arith)
    | inr n ↦ rw n (ends b (in_kernel k j))
  ]
    where
      ends : (b c : Bool) → b || (c || true) ≡ true
      ends b c = ground arith

  -- An `init` that gets a bitmap, on a memory map of physical addresses with no inverted region, with
  -- the kernel's reserved end at 2^52 at most and the physical memory mapped at 2^63 at most, returns a
  -- valid allocator in which exactly these frames are free: those with usable memory, none of it below
  -- the kernel's reserved end, that do not overlap the bitmap. The bitmap lies in one usable region,
  -- above the reserved end if `place_after` finds room there, and no address of it wraps around. All
  -- frames lie below 2^52, so that each is a physical address.
  pub init-Booted :
      All RegionIsPhys rs
      → EndIsPhys k
      → off ≤ 2 ^ 63
      → IsBytes m
      → (init rs off k m).0.bitmap_bytes ≢ 0
      → Booted rs off k (init rs off k m)
  init-Booted ok kok low cells h =
      let built = init_built h in
      let phys : max_usable rs 0 ≤ 2 ^ 52 = max_usable-IsPhys rs 0 ok (omega arith) in
      let place = bitmap_place_lem rs k bytes ok kok (omega arith) built.1 in
      let room : start + bytes ≤ 2 ^ 52 = holds-IsPhys rs start bytes ok place.0 in
      let written = build_bitmap rs off k frames bytes start m in
      let valid : IsValid allocator written = record {
        present = let some_usable = built.2 in omega arith;
        fits = omega arith;
        covers = omega arith;
        cells = build_bitmap-IsBytes rs off k frames bytes start m cells;
      } in
      rw built.0 (record {
        valid = valid;
        frames = λ j. elim (dec_lt j frames) [
          | yes inside ↦
              test_bit_inside allocator written j valid inside
              ∙ build_bitmap_lem rs off k frames bytes start j m cells ok kok (omega arith)
                  (omega arith) inside
          | no out ↦
              test_bit_outside allocator written j (omega arith)
              ∙ sym (beyond _ j (omega arith) phys)
        ];
        placed = place.0;
        no_wrap = omega arith;
        addresses = omega arith;
        offset = refl;
        above = place.2;
        first = refl;
      })
