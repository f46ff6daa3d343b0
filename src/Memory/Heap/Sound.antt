-- ===== src/Memory/Heap/Sound.antt =====
-- src/memory/allocator.rs: what page tables do with the frame allocator and the memory, and that it
-- leaves the allocator's bitmap alone.
use neutrix.Base.{
  ℕ, Bool, add64, ◌+◌, ◌*◌, ◌/◌, ◌<◌, ◌≤◌, ◌≡◌, ◌^◌, refl, sym, ap, ◌∙◌, ◌⊎◌, inl, inr, true, false,
  Bool-cases, none, some, List, ◌∷◌, Ram, IsBytes, All, arith,
}
use native.Mathlib.Decide.{dec_lt}
use neutrix.Memory.Frame.{BootInfoFrameAllocator, bitmap_base, test_bit, allocate_frame}
use neutrix.Memory.Frame.Init.{touches}
use neutrix.Memory.Frame.Bitmap.{IsValid}
use neutrix.Memory.Frame.Alloc.{allocate_frame_cases}
use neutrix.Memory.Frame.History.{IsSafe, Step-IsSafe, allocates, All-map, same_frame}

-- The allocator with its memory is safe, with these owned frames.
abbrev pub Safe : BootInfoFrameAllocator → Ram → List ℕ → Type 0
Safe alloc ram owned = IsSafe (record { alloc = alloc; ram = ram; owned = owned })

-- An address outside the frame, where the physical memory is mapped at `off`.
abbrev pub Outside : (off : ℕ) → (p frame : ℕ) → Type 0
Outside off p frame = (p < off + frame * 0x1000) ⊎ (off + frame * 0x1000 + 0x1000 ≤ p)

-- What page tables may do, from the frames that they consist of to those that they consist of then:
-- they get frames from the frame allocator, and write to the frames that they consist of.
pub data Uses (fs : List ℕ) (a : BootInfoFrameAllocator) (m : Ram)
    : List ℕ → BootInfoFrameAllocator → Ram → Type 0 where
  idle : Uses fs a m fs a m
  takes :
      {gs : List ℕ} {a1 : BootInfoFrameAllocator} {m1 : Ram} (f : ℕ)
      → Uses fs a m gs a1 m1
      → (allocate_frame a1 m1).0 ≡ some (f * 0x1000)
      → Uses fs a m (f ∷ gs) (allocate_frame a1 m1).1 (allocate_frame a1 m1).2
  finds_none :
      {gs : List ℕ} {a1 : BootInfoFrameAllocator} {m1 : Ram}
      → Uses fs a m gs a1 m1
      → (allocate_frame a1 m1).0 ≡ none
      → Uses fs a m gs (allocate_frame a1 m1).1 (allocate_frame a1 m1).2
  writes :
      {gs : List ℕ} {a1 : BootInfoFrameAllocator} {m1 : Ram} (m2 : Ram)
      → Uses fs a m gs a1 m1
      → IsBytes m2
      → ((p : ℕ) → All (Outside a1.phys_offset p) gs → m2 p ≡ m1 p)
      → Uses fs a m gs a1 m2

-- Frame `j` has a byte of the bitmap.
abbrev pub of_bitmap : BootInfoFrameAllocator → ℕ → Bool
of_bitmap a j = touches a.bitmap_phys_start (a.bitmap_phys_start + a.bitmap_bytes) j

-- The allocator is safe and its bitmap's frames are not free; the tables are not in the bitmap. No
-- address of the bitmap wraps around.
pub record Sound (a : BootInfoFrameAllocator) (m : Ram) (owned fs : List ℕ) : Type 0 where
  pub safe : Safe a m owned
  pub guarded : (j : ℕ) → of_bitmap a j ≡ true → test_bit a m j ≡ true
  pub apart : All (λ g. of_bitmap a g ≡ false) fs
  pub no_wrap : a.phys_offset + a.bitmap_phys_start + a.bitmap_bytes ≤ 2 ^ 64

-- Frames that have no byte of the bitmap leave its addresses alone.
Outside-of_bitmap :
    (a : BootInfoFrameAllocator) (p g : ℕ)
    → a.phys_offset + a.bitmap_phys_start + a.bitmap_bytes ≤ 2 ^ 64
    → 0 < a.bitmap_bytes
    → bitmap_base a ≤ p
    → p < bitmap_base a + a.bitmap_bytes
    → of_bitmap a g ≡ false
    → Outside a.phys_offset p g
Outside-of_bitmap a p g plain some_bytes from to other =
    let base : bitmap_base a ≡ a.phys_offset + a.bitmap_phys_start = omega arith in ground arith

test_bit-agree :
    (a : BootInfoFrameAllocator) (m m2 : Ram) (j : ℕ)
    → IsValid a m
    → ((p : ℕ) → bitmap_base a ≤ p → p < bitmap_base a + a.bitmap_bytes → m2 p ≡ m p)
    → test_bit a m2 j ≡ test_bit a m j
unfolding test_bit
test_bit-agree a m m2 j v same = elim (dec_lt j a.num_frames) [
  | no out ↦ ground arith
  | yes inside ↦
      let fits = v.fits in
      let covers = v.covers in
      let at : add64 (bitmap_base a) (j / 8) ≡ bitmap_base a + j / 8 = omega arith in
      let cell = same (bitmap_base a + j / 8) (omega arith) (omega arith) in rw (at, cell) refl
]

writes-Sound :
    (a : BootInfoFrameAllocator) (m m2 : Ram) (owned gs : List ℕ)
    → IsBytes m2
    → ((p : ℕ) → All (Outside a.phys_offset p) gs → m2 p ≡ m p)
    → Sound a m owned gs
    → Sound a m2 owned gs
writes-Sound a m m2 owned gs cells same s =
    let v = s.safe.valid in
    let kept : (j : ℕ) → test_bit a m2 j ≡ test_bit a m j = λ j.
      test_bit-agree a m m2 j v (λ p from to. same p (
        All-map gs (λ g other. Outside-of_bitmap a p g s.no_wrap v.present from to other)
          s.apart)) in
    record {
      safe = record {
        valid = record { present = v.present; fits = v.fits; covers = v.covers; cells = cells };
        distinct = s.safe.distinct;
        held = All-map owned (λ j h. (h.0, kept j ∙ h.1)) s.safe.held;
      };
      guarded = λ j e. kept j ∙ s.guarded j e;
      apart = s.apart;
      no_wrap = s.no_wrap;
    }

-- A frame that is handed out is not of the bitmap, and may go to its owner or to the tables.
pub allocates-Sound :
    (a : BootInfoFrameAllocator) (m : Ram) (owned gs : List ℕ) (f : ℕ)
    → (allocate_frame a m).0 ≡ some (f * 0x1000)
    → Sound a m owned gs
    → Sound (allocate_frame a m).1 (allocate_frame a m).2 (f ∷ owned) (f ∷ gs)
allocates-Sound a m owned gs f is s = elim (allocate_frame_cases a m s.safe.valid) [
  | inr (r, _) ↦ absurd (cc (ap (λ t. t.0) r))
  | inl (k, t) ↦
      let same : k ≡ f = same_frame (sym t.address ∙ is) in
      let free : of_bitmap a f ≡ false = elim (Bool-cases (of_bitmap a f)) [
        | inr other ↦ other
        | inl of ↦ absurd (cc (t.was_free, same, s.guarded f of, ap (test_bit a m) same))
      ] in
      let count : (allocate_frame a m).1 ≡ record a { next_search = k + 1 } = t.allocator in
      record {
        safe = Step-IsSafe (allocates (record { alloc = a; ram = m; owned = owned }) f is) s.safe;
        guarded = λ j e.
            let was = s.guarded j (sym (ap (λ b. of_bitmap b j) count) ∙ e) in
            let now = t.marked j in ground arith;
        apart = (
          ap (λ b. of_bitmap b f) count ∙ free,
          All-map gs (λ g other. ap (λ b. of_bitmap b g) count ∙ other) s.apart,
        );
        no_wrap = rw count s.no_wrap;
      }
]

pub finds_none-Sound :
    (a : BootInfoFrameAllocator) (m : Ram) (owned gs : List ℕ)
    → (allocate_frame a m).0 ≡ none
    → Sound a m owned gs
    → Sound (allocate_frame a m).1 (allocate_frame a m).2 owned gs
finds_none-Sound a m owned gs is s = elim (allocate_frame_cases a m s.safe.valid) [
  | inl (k, t) ↦ absurd (cc (t.address))
  | inr (r, _) ↦ rw r s
]

-- A frame that goes to its owner alone.
pub without_table :
    (a : BootInfoFrameAllocator) (m : Ram) (owned gs : List ℕ) (f : ℕ)
    → Sound a m owned (f ∷ gs)
    → Sound a m owned gs
without_table a m owned gs f s = record {
  safe = s.safe;
  guarded = s.guarded;
  apart = s.apart.1;
  no_wrap = s.no_wrap;
}

-- A frame that goes to the tables alone.
disown :
    (a : BootInfoFrameAllocator) (m : Ram) (owned gs : List ℕ) (f : ℕ)
    → Sound a m (f ∷ owned) gs
    → Sound a m owned gs
disown a m owned gs f s = record {
  safe = record { valid = s.safe.valid; distinct = s.safe.distinct.1; held = s.safe.held.1 };
  guarded = s.guarded;
  apart = s.apart;
  no_wrap = s.no_wrap;
}

-- Whatever page tables do, the allocator stays sound.
pub Uses-Sound :
    {fs : List ℕ} {a : BootInfoFrameAllocator} {m : Ram} {gs : List ℕ} {a' : BootInfoFrameAllocator}
    {m' : Ram} (owned : List ℕ)
    → Uses fs a m gs a' m'
    → Sound a m owned fs
    → Sound a' m' owned gs
Uses-Sound owned idle s = s
Uses-Sound owned (takes {gs} {a1} {m1} f u is) s =
    disown (allocate_frame a1 m1).1 (allocate_frame a1 m1).2 owned (f ∷ gs) f
      (allocates-Sound a1 m1 owned gs f is (Uses-Sound owned u s))
Uses-Sound owned (finds_none {gs} {a1} {m1} u is) s =
    finds_none-Sound a1 m1 owned gs is (Uses-Sound owned u s)
Uses-Sound owned (writes {gs} {a1} {m1} m2 u cells same) s =
    writes-Sound a1 m1 m2 owned gs cells same (Uses-Sound owned u s)
