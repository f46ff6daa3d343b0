-- ===== src/Memory/Frame/Init.antt =====
-- src/memory/frame.rs: which frames `init` leaves free, and where it puts its bitmap.
pub mod Place
use native.Mathlib.Decide.{ℕ_discrete, dec_lt}
use neutrix.Base.{
  ℕ, zero, suc, ◌+◌, ◌-◌, ◌*◌, ◌/◌, ◌%◌, ◌^◌, ◌≤◌, ◌<◌, ◌≡◌, ◌≢◌, refl, ◌∙◌, sym, ap, ◌⊎◌, inl, inr,
  Bool, true, false, not, ◌||◌, ◌&&◌, Option, none, some, List, [], ◌∷◌, ◌++◌, if◌then◌else◌, leb,
  ltb, ◌==◌, ==_iff, Bool-cases, Option-cases, add64, page_up, page_down, bit, put_bit, Ram, poke,
  IsBytes, arith, All,
}
use neutrix.Memory.Frame.{
  MemoryRegion, BootInfoFrameAllocator, bitmap_base, test_bit, max_usable, place_after,
  place_anywhere, bitmap_place, fill_ones, set_range, clear_usable, reserve_kernel, build_bitmap,
  init,
}
use neutrix.Memory.Frame.Bitmap.{
  IsValid, bit_at, bit_at-set_range, set_range-IsBytes, bit_at-fill_ones, fill_ones-IsBytes,
  test_bit_inside,
}

-- Frame `j` has a byte in `[start, end)`.
abbrev pub touches : ℕ → ℕ → ℕ → Bool
touches start end j = ltb start ((j + 1) * 0x1000) && ltb (j * 0x1000) end

-- Frame `j` has a byte in a usable region.
unfoldable pub in_usable : List MemoryRegion → ℕ → Bool
in_usable [] j = false
in_usable (r ∷ rs) j = (r.usable && touches r.start_addr r.end_addr j) || in_usable rs j

-- Frame `j` has a byte below the reserved end.
abbrev pub in_kernel : Option ℕ → ℕ → Bool
in_kernel none j = false
in_kernel (some k) j = ltb (j * 0x1000) k

abbrev pub IsPhys : ℕ → Type 0
IsPhys x = x ≤ 2 ^ 52

-- Addresses of the map and the kernel's end are physical, and regions are not inverted.
abbrev pub RegionIsPhys : MemoryRegion → Type 0
RegionIsPhys r = (r.start_addr ≤ r.end_addr) × IsPhys r.end_addr

abbrev pub EndIsPhys : Option ℕ → Type 0
EndIsPhys none = Unit {0}
EndIsPhys (some k) = IsPhys k

clear_usable-IsBytes :
    (base n : ℕ) (rs : List MemoryRegion) (m : Ram) → IsBytes m → IsBytes (clear_usable base n m rs)
unfolding clear_usable
clear_usable-IsBytes base n [] m h = h
clear_usable-IsBytes base n (r ∷ rs) m h =
    clear_usable-IsBytes base n rs _ (elim (Bool-cases r.usable) [
      | inl u ↦ rw u (set_range-IsBytes base n m false _ _ h)
      | inr u ↦ rw u h
    ])

bit_at-clear_usable :
    (base n : ℕ) (rs : List MemoryRegion) (j : ℕ) (m : Ram)
    → IsBytes m
    → All RegionIsPhys rs
    → j < n
    → bit_at base (clear_usable base n m rs) j ≡ (if in_usable rs j then false else bit_at base m j)
unfolding clear_usable in_usable
bit_at-clear_usable base n [] j m h ok lt = refl
bit_at-clear_usable base n (r ∷ rs) j m h ok lt = elim (Bool-cases r.usable) [
  | inl u ↦
      let start = r.start_addr / 0x1000 in
      let end = add64 r.end_addr 0xFFF / 0x1000 in
      rw
        (
          u,
          bit_at-clear_usable base n rs j _ (set_range-IsBytes base n m false start (end - start) h)
              ok.1 lt,
          bit_at-set_range base n m false start (end - start) j h lt,
        )
        (let bound = ok.0 in ground arith)
  | inr u ↦ rw (u, bit_at-clear_usable base n rs j m h ok.1 lt) refl
]

reserve_kernel-IsBytes :
    (base n : ℕ) (m : Ram) (k : Option ℕ) → IsBytes m → IsBytes (reserve_kernel base n m k)
unfolding reserve_kernel
reserve_kernel-IsBytes base n m none h = h
reserve_kernel-IsBytes base n m (some k) h = set_range-IsBytes base n m true 0 _ h

bit_at-reserve_kernel :
    (base n : ℕ) (m : Ram) (k : Option ℕ) (j : ℕ)
    → IsBytes m
    → EndIsPhys k
    → j < n
    → bit_at base (reserve_kernel base n m k) j ≡ (in_kernel k j || bit_at base m j)
unfolding reserve_kernel
bit_at-reserve_kernel base n m none j h ok lt = refl
bit_at-reserve_kernel base n m (some k) j h ok lt =
    rw (bit_at-set_range base n m true 0 (add64 k 0xFFF / 0x1000) j h lt) (ground arith)

-- The whole of `init`'s writes: a frame reads as used when no usable region has a byte of it,
-- when the kernel has, or when the bitmap has.
pub build_bitmap_lem :
    (rs : List MemoryRegion) (off : ℕ) (k : Option ℕ) (n bytes start j : ℕ) (m : Ram)
    → IsBytes m
    → All RegionIsPhys rs
    → EndIsPhys k
    → start + bytes ≤ 2 ^ 53
    → n ≤ bytes * 8
    → j < n
    → bit_at (add64 off start) (build_bitmap rs off k n bytes start m) j
      ≡ (touches start (start + bytes) j || (in_kernel k j || not (in_usable rs j)))
unfolding build_bitmap
build_bitmap_lem rs off k n bytes start j m h ok kok small cover lt =
    let base = add64 off start in
    let filled = fill_ones m base bytes in
    let filled_bytes = fill_ones-IsBytes m base bytes h in
    let cleared = clear_usable base n filled rs in
    let cleared_bytes = clear_usable-IsBytes base n rs filled filled_bytes in
    let kept = reserve_kernel base n cleared k in
    let stop = add64 (add64 start bytes) 0xFFF / 0x1000 in
    ground (
      arith,
      bit_at-set_range base n kept true (start / 0x1000) (stop - start / 0x1000) j
          (reserve_kernel-IsBytes base n cleared k cleared_bytes) lt,
      bit_at-reserve_kernel base n cleared k j cleared_bytes kok lt,
      bit_at-clear_usable base n rs j filled filled_bytes ok lt,
      bit_at-fill_ones m base bytes j (omega arith),
    )

pub build_bitmap-IsBytes :
    (rs : List MemoryRegion) (off : ℕ) (k : Option ℕ) (n bytes start : ℕ) (m : Ram)
    → IsBytes m
    → IsBytes (build_bitmap rs off k n bytes start m)
unfolding build_bitmap
build_bitmap-IsBytes rs off k n bytes start m h =
    set_range-IsBytes _ n _ true _ _ (
      reserve_kernel-IsBytes _ n _ k
        (clear_usable-IsBytes _ n rs _ (fill_ones-IsBytes m _ bytes h)))
