-- ===== src/Memory/Frame/Reserved.antt =====
-- src/memory/frame.rs: the frames that `init` does not leave free, over any history of calls.
use neutrix.Base.{
  ℕ, ◌+◌, ◌^◌, ◌≤◌, ◌≡◌, ◌≢◌, ◌∙◌, sym, ap, inl, inr, Bool, true, not, ◌||◌, Option, List, [], Ram,
  IsBytes, arith, All,
}
use neutrix.Memory.Frame.{MemoryRegion, test_bit, init}
use neutrix.Memory.Frame.Init.{in_usable, in_kernel, touches, RegionIsPhys, EndIsPhys}
use neutrix.Memory.Frame.Alloc.{allocate_frame_cases, free_frame-test_bit}
use neutrix.Memory.Frame.Boot.{init-Booted}
use neutrix.Memory.Frame.History.{
  World, Step, allocates, fails, frees, Reach, here, next, IsSafe, IsHeld, same_frame, All-split,
  Reach-IsSafe,
}

-- Frame `j` reads as used and nobody owns it.
abbrev pub Withheld : ℕ → World → Type 0
Withheld j w = (test_bit w.alloc w.ram j ≡ true) × All (λ y. y ≢ j) w.owned

Step-Withheld : {w u : World} (j : ℕ) → Step w u → IsSafe w → Withheld j w → Withheld j u
Step-Withheld j (allocates w i e) s h = elim (allocate_frame_cases w.alloc w.ram s.valid) [
  | inr (r, _) ↦ absurd (cc (ap (λ t. t.0) r))
  | inl (k, t) ↦
      let same : k ≡ i = same_frame (sym t.address ∙ e) in
      (
        (let now = t.marked j in let was = h.0 in ground arith),
        (λ e'. absurd (cc (t.was_free, same, h.0, ap (test_bit w.alloc w.ram) e')), h.1),
      )
]
Step-Withheld j (fails w e) s h = elim (allocate_frame_cases w.alloc w.ram s.valid) [
  | inl (k, t) ↦ absurd (cc (t.address))
  | inr (r, _) ↦ rw r h
]
Step-Withheld j (frees w xs ys i e) s h =
    let apart = All-split (λ y. y ≢ j) xs ys i (rw e at h.1) in
    let held = All-split (IsHeld w.alloc w.ram) xs ys i (rw e at s.held) in
    let freed = free_frame-test_bit w.alloc w.ram i s.valid held.0.0 in
    (let now = freed.1 j in let was = h.0 in let ne = apart.0 in ground arith, apart.1)

Reach-Withheld : {w u : World} (j : ℕ) → IsSafe w → Withheld j w → Reach w u → Withheld j u
Reach-Withheld j s h here = h
Reach-Withheld j s h (next r st) = Step-Withheld j st (Reach-IsSafe s r) (Reach-Withheld j s h r)

module _ (rs : List MemoryRegion) (off : ℕ) (k : Option ℕ) (m : Ram) where
  -- The allocator as `init` leaves it, before the first call.
  abbrev pub fresh : World
  fresh = record { alloc = (init rs off k m).0; ram = (init rs off k m).1; owned = [] }

  -- A frame that may not be handed out: of the bitmap, below the reserved end, or outside every
  -- usable region.
  abbrev pub off_limits : ℕ → Bool
  off_limits j =
      let a = (init rs off k m).0 in
      touches a.bitmap_phys_start (a.bitmap_phys_start + a.bitmap_bytes) j
      || (in_kernel k j || not (in_usable rs j))

  -- After `init` with a bitmap, on a memory map of physical addresses with no inverted region, with
  -- the kernel's reserved end at 2^52 at most and the physical memory mapped at 2^63 at most, and any
  -- number of `allocate_frame` calls and of `free_frame` calls for owned frames: no frame has
  -- two owners, owned frames read as used, and none of them overlaps the bitmap, lies below the
  -- kernel's reserved end or is without usable memory.
  pub init-history :
      {u : World}
      → All RegionIsPhys rs
      → EndIsPhys k
      → off ≤ 2 ^ 63
      → IsBytes m
      → (init rs off k m).0.bitmap_bytes ≢ 0
      → Reach fresh u
      → IsSafe u × ((j : ℕ) → off_limits j ≡ true → All (λ y. y ≢ j) u.owned)
  init-history ok kok low cells h r =
      let b = init-Booted rs off k m ok kok low cells h in
      let s : IsSafe fresh = record { valid = b.valid; distinct = tt; held = tt } in
      (Reach-IsSafe s r, λ j e. (Reach-Withheld j s (b.frames j ∙ e, tt) r).1)
