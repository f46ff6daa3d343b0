-- ===== src/Memory/Frame/Init/Place.antt =====
-- src/memory/frame.rs: the bounds and the place of the bitmap that `init` chooses.
use native.Mathlib.Decide.{ℕ_discrete}
use neutrix.Base.{
  ℕ, ◌+◌, ◌*◌, ◌%◌, ◌^◌, ◌≤◌, ◌<◌, ◌≡◌, ◌≢◌, refl, ◌∙◌, Bool, true, false, ◌||◌, ◌&&◌, Option, none,
  some, List, [], ◌∷◌, leb, arith, All,
}
use neutrix.Memory.Frame.{MemoryRegion, max_usable, place_after, place_anywhere, bitmap_place}
use neutrix.Memory.Frame.Init.{in_usable, IsPhys, RegionIsPhys, EndIsPhys}

pub max_usable-ge : (rs : List MemoryRegion) (m : ℕ) → m ≤ max_usable rs m
unfolding max_usable
max_usable-ge [] m = omega arith
max_usable-ge (r ∷ rs) m = ground (arith, max_usable-ge rs m, max_usable-ge rs r.end_addr)

pub max_usable-IsPhys :
    (rs : List MemoryRegion) (m : ℕ) → All RegionIsPhys rs → IsPhys m → IsPhys (max_usable rs m)
unfolding max_usable
max_usable-IsPhys [] m ok h = h
max_usable-IsPhys (r ∷ rs) m ok h =
    let bound = ok.0 in
    ground (arith, max_usable-IsPhys rs m ok.1, max_usable-IsPhys rs r.end_addr ok.1)

-- Every frame with usable bytes lies below the highest usable address.
pub in_usable-lt :
    (rs : List MemoryRegion) (m j : ℕ) → in_usable rs j ≡ true → j * 0x1000 < max_usable rs m
unfolding max_usable in_usable
in_usable-lt [] m j h = absurd (cc)
in_usable-lt (r ∷ rs) m j h = ground (
  arith,
  in_usable-lt rs m j,
  in_usable-lt rs r.end_addr j,
  max_usable-ge rs m,
  max_usable-ge rs r.end_addr,
)

-- `[start, start + bytes)` lies in one usable region.
pub holds : List MemoryRegion → ℕ → ℕ → Bool
holds [] start bytes = false
holds (r ∷ rs) start bytes =
    (r.usable && (leb r.start_addr start && leb (start + bytes) r.end_addr)) || holds rs start bytes

-- The kernel's end lies at or below `start`.
abbrev pub Above : Option ℕ → ℕ → Type 0
Above none start = Unit {0}
Above (some k) start = k ≤ start

pub place_after_lem :
    (k : Option ℕ) (bytes : ℕ) (rs : List MemoryRegion)
    → All RegionIsPhys rs
    → EndIsPhys k
    → bytes ≤ 2 ^ 40
    → place_after k bytes rs ≢ 0
    → (holds rs (place_after k bytes rs) bytes ≡ true)
      × Above k (place_after k bytes rs)
      × (place_after k bytes rs % 0x1000 ≡ 0)
unfolding place_after holds
place_after_lem k bytes [] ok kok small h = absurd (h refl)
place_after_lem none bytes (r ∷ rs) ok kok small h =
    let bound = ok.0 in ground (arith, place_after_lem none bytes rs ok.1 kok small)
place_after_lem (some k) bytes (r ∷ rs) ok kok small h =
    let bound = ok.0 in ground (arith, place_after_lem (some k) bytes rs ok.1 kok small)

pub place_anywhere_lem :
    (bytes : ℕ) (rs : List MemoryRegion)
    → All RegionIsPhys rs
    → bytes ≤ 2 ^ 40
    → place_anywhere bytes rs ≢ 0
    → (holds rs (place_anywhere bytes rs) bytes ≡ true) × (place_anywhere bytes rs % 0x1000 ≡ 0)
unfolding place_anywhere holds
place_anywhere_lem bytes [] ok small h = absurd (h refl)
place_anywhere_lem bytes (r ∷ rs) ok small h =
    let bound = ok.0 in ground (arith, place_anywhere_lem bytes rs ok.1 small)

pub holds-IsPhys :
    (rs : List MemoryRegion) (start bytes : ℕ)
    → All RegionIsPhys rs
    → holds rs start bytes ≡ true
    → start + bytes ≤ 2 ^ 52
unfolding holds
holds-IsPhys [] start bytes ok h = absurd (cc)
holds-IsPhys (r ∷ rs) start bytes ok h =
    let bound = ok.0 in ground (arith, holds-IsPhys rs start bytes ok.1)

-- Where `init` puts a bitmap: page aligned and wholly in a usable region, and above the kernel's
-- end unless no usable region has room there.
pub bitmap_place_lem :
    (rs : List MemoryRegion) (k : Option ℕ) (bytes : ℕ)
    → All RegionIsPhys rs
    → EndIsPhys k
    → bytes ≤ 2 ^ 40
    → bitmap_place rs k bytes ≢ 0
    → (holds rs (bitmap_place rs k bytes) bytes ≡ true)
      × (bitmap_place rs k bytes % 0x1000 ≡ 0)
      × (place_after k bytes rs ≢ 0 → Above k (bitmap_place rs k bytes))
unfolding bitmap_place
bitmap_place_lem rs k bytes ok kok small h = elim (ℕ_discrete (place_after k bytes rs) 0) [
  | yes e ↦
      let fallback : bitmap_place rs k bytes ≡ place_anywhere bytes rs =
        rw (e, bitmap_place) refl in
      let placed = place_anywhere_lem bytes rs ok small λ z. h (fallback ∙ z) in
      rw fallback (placed.0, placed.1, λ ne. absurd (ne e))
  | no ne ↦
      let first : bitmap_place rs k bytes ≡ place_after k bytes rs = ground arith in
      let placed = place_after_lem k bytes rs ok kok small ne in
      rw first (placed.0, placed.2, λ _. placed.1)
]
