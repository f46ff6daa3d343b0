-- ===== src/Memory/Frame/Alloc.antt =====
-- src/memory/frame.rs: `allocate_frame` and `free_frame` against the map from frames to "used".
use native.Mathlib.Decide.{ℕ_discrete, dec_lt}
use neutrix.Base.{
  ℕ, zero, suc, ◌+◌, ◌-◌, ◌*◌, ◌/◌, ◌%◌, ◌≤◌, ◌<◌, ◌≡◌, ◌↔◌, refl, ◌⊎◌, inl, inr, true, false,
  Option, none, some, if◌then◌else◌, ◌==◌, Bool-cases, Option-cases, put_bit, Ram, poke, arith,
}
use neutrix.Memory.Frame.{
  BootInfoFrameAllocator, bitmap_base, test_bit, scan, take_frame, allocate_frame, free_frame,
}
use neutrix.Memory.Frame.Bitmap.{
  IsValid, put-IsBytes, test_bit-poke, test_bit_outside, set_bit_runtime_inside,
}

module _ (a : BootInfoFrameAllocator) (m : Ram) where
  scan_found :
      (left i k : ℕ)
      → scan a m left i ≡ some k
      → (i ≤ k) × (k < i + left) × (test_bit a m k ≡ false)
  unfolding scan
  scan_found zero i k h = absurd (cc)
  scan_found (suc left) i k h = elim (Bool-cases (test_bit a m i)) [
    | inl used ↦ ground (arith, scan_found left (i + 1) k)
    | inr free ↦ ground arith
  ]

  -- Every index that the search passes is used, up to the one it stops at.
  scan_passed :
      (left i j : ℕ) (o : Option ℕ)
      → scan a m left i ≡ o
      → i ≤ j
      → j < i + left
      → ((k : ℕ) → o ≡ some k → j < k)
      → test_bit a m j ≡ true
  unfolding scan
  scan_passed zero i j o h p q below = absurd (omega arith)
  scan_passed (suc left) i j o h p q below = elim (Bool-cases (test_bit a m i)) [
    | inl used ↦ elim (ℕ_discrete i j) [
      | yes e ↦ ground arith
      | no ne ↦ scan_passed left (i + 1) j o (ground arith) (omega arith) (omega arith) below
    ]
    | inr free ↦ absurd (let stop : j < i = below i (ground arith) in omega arith)
  ]

-- `j` comes before `i` in the order in which a search that starts at `start` visits the frames.
abbrev pub Before : ℕ → ℕ → ℕ → Type 0
Before start j i = (start ≤ j) × (j < i) ⊎ (i < start) × (start ≤ j) ⊎ (i < start) × (j < i)

-- `allocate_frame` handed out frame `i`.
pub record Took (a : BootInfoFrameAllocator) (m : Ram) (i : ℕ)
    (r : Option ℕ × BootInfoFrameAllocator × Ram) : Type 0 where
  pub address : r.0 ≡ some (i * 0x1000)
  pub inside : i < a.num_frames
  pub was_free : test_bit a m i ≡ false
  pub marked : (j : ℕ) → test_bit r.1 r.2 j ≡ (if i == j then true else test_bit a m j)
  pub allocator : r.1 ≡ record a { next_search = i + 1 }
  pub valid : IsValid r.1 r.2
  pub elsewhere : (p : ℕ) → (p < bitmap_base a) ⊎ (bitmap_base a + a.bitmap_bytes ≤ p) → r.2 p ≡ m p
  pub next_fit : (j : ℕ) → j < a.num_frames → Before a.next_search j i → test_bit a m j ≡ true

take_frame-Took :
    (a : BootInfoFrameAllocator) (m : Ram) (i : ℕ)
    → IsValid a m
    → i < a.num_frames
    → test_bit a m i ≡ false
    → ((j : ℕ) → j < a.num_frames → Before a.next_search j i → test_bit a m j ≡ true)
    → Took a m i (take_frame a m i)
unfolding take_frame
take_frame-Took a m i v inside free first =
    rw (set_bit_runtime_inside a m i true v inside) (record {
      address = refl;
      inside = inside;
      was_free = free;
      marked = λ j. unfold test_bit in test_bit-poke a m i j true v inside;
      allocator = refl;
      valid = record {
        present = v.present;
        fits = v.fits;
        covers = v.covers;
        cells = put-IsBytes (bitmap_base a) m i true v.cells;
      };
      elsewhere = λ p out. let c = v.covers in ground arith;
      next_fit = first;
    })

module _ (a : BootInfoFrameAllocator) (m : Ram) (present : 0 < a.bitmap_bytes) where
  allocate_ahead :
      (k : ℕ)
      → scan a m (a.num_frames - a.next_search) a.next_search ≡ some k
      → allocate_frame a m ≡ take_frame a m k
  unfolding allocate_frame
  allocate_ahead k e = ground arith

  allocate_wrapped :
      (k : ℕ)
      → scan a m (a.num_frames - a.next_search) a.next_search ≡ none
      → scan a m a.next_search 0 ≡ some k
      → allocate_frame a m ≡ take_frame a m k
  unfolding allocate_frame
  allocate_wrapped k e f = ground arith

  allocate_exhausted :
      scan a m (a.num_frames - a.next_search) a.next_search ≡ none
      → scan a m a.next_search 0 ≡ none
      → allocate_frame a m ≡ (none, a, m)
  unfolding allocate_frame
  allocate_exhausted e f = ground arith

-- A frame that reads as free lies inside the bitmap.
free_inside :
    (a : BootInfoFrameAllocator) (m : Ram) (i : ℕ) → test_bit a m i ≡ false → i < a.num_frames
free_inside a m i free = elim (dec_lt i a.num_frames) [
  | yes h ↦ h
  | no h ↦ cc (test_bit_outside a m i (omega arith))
]

-- `allocate_frame` on a valid allocator either hands out the first free frame of the bitmap from
-- `next_search` on, going round, marks it and no other as used, keeps the allocator valid, moves
-- `next_search` behind it and writes no byte outside the bitmap; or every frame is used, and it
-- returns `None` and changes nothing.
pub allocate_frame_cases :
    (a : BootInfoFrameAllocator) (m : Ram)
    → IsValid a m
    → ((i : ℕ) × Took a m i (allocate_frame a m))
      ⊎ ((allocate_frame a m ≡ (none, a, m)) × ((j : ℕ) → test_bit a m j ≡ true))
allocate_frame_cases a m v = ahead (Option-cases _)
  where
    open a use {next_search as next, num_frames as num}

    passed :
        (j : ℕ) → scan a m (num - next) next ≡ none → next ≤ j → j < num → test_bit a m j ≡ true
    passed j e p q = scan_passed a m (num - next) next j none e p (omega arith) (λ k h. absurd (cc))

    wrapped :
        scan a m (num - next) next ≡ none
        → (scan a m next 0 ≡ none) ⊎ ((k : ℕ) × (scan a m next 0 ≡ some k))
        → ((i : ℕ) × Took a m i (allocate_frame a m))
          ⊎ ((allocate_frame a m ≡ (none, a, m)) × ((j : ℕ) → test_bit a m j ≡ true))
    wrapped e (inr (k, f)) =
        let found = scan_found a m next 0 k f in
        inl (
          k,
          rw (allocate_wrapped a m v.present k e f) (
              take_frame-Took a m k v (free_inside a m k found.2) found.2 λ j inside before.
                elim before [
                  | inl (p, q) ↦ absurd (omega arith)
                  | inr (inl (p, q)) ↦ passed j e q inside
                  | inr (inr (p, q)) ↦
                      scan_passed a m next 0 j (some k) f (omega arith) (omega arith)
                        λ k' h. ground arith
                ]),
        )
    wrapped e (inl f) = inr (
      allocate_exhausted a m v.present e f,
      λ j. elim (dec_lt j num) [
        | no out ↦ test_bit_outside a m j (omega arith)
        | yes inside ↦ elim (dec_lt j next) [
          | yes low ↦ scan_passed a m next 0 j none f (omega arith) (omega arith) λ k h. absurd (cc)
          | no high ↦ passed j e (omega arith) inside
        ]
      ],
    )

    ahead :
        (scan a m (num - next) next ≡ none) ⊎ ((k : ℕ) × (scan a m (num - next) next ≡ some k))
        → ((i : ℕ) × Took a m i (allocate_frame a m))
          ⊎ ((allocate_frame a m ≡ (none, a, m)) × ((j : ℕ) → test_bit a m j ≡ true))
    ahead (inl e) = wrapped e (Option-cases _)
    ahead (inr (k, e)) =
        let found = scan_found a m (num - next) next k e in
        inl (
          k,
          rw (allocate_ahead a m v.present k e) (
              take_frame-Took a m k v (free_inside a m k found.2) found.2 λ j inside before.
                elim before [
                  | inl (p, q) ↦
                      scan_passed a m (num - next) next j (some k) e p (omega arith)
                        λ k' h. ground arith
                  | inr (inl (p, q)) ↦ absurd (omega arith)
                  | inr (inr (p, q)) ↦ absurd (omega arith)
                ]),
        )

-- `allocate_frame` on a valid allocator returns `None` exactly when every frame that the bitmap
-- covers is used.
pub allocate_frame-none_iff :
    (a : BootInfoFrameAllocator) (m : Ram)
    → IsValid a m
    → ((allocate_frame a m).0 ≡ none) ↔ ((j : ℕ) → j < a.num_frames → test_bit a m j ≡ true)
allocate_frame-none_iff a m v = elim (allocate_frame_cases a m v) [
  | inl (i, t) ↦ (λ e. absurd (cc (t.address)), λ all. absurd (cc (all i t.inside, t.was_free)))
  | inr (e, all) ↦ (λ _ j _. all j, λ _. rw e refl)
]

-- `free_frame` at a frame that a valid allocator covers frees that frame and no other, and keeps
-- the allocator valid.
pub free_frame-test_bit :
    (a : BootInfoFrameAllocator) (m : Ram) (i : ℕ)
    → IsValid a m
    → i < a.num_frames
    → IsValid a (free_frame a m (i * 0x1000))
      × ((j : ℕ)
          → test_bit a (free_frame a m (i * 0x1000)) j ≡ (if i == j then false else test_bit a m j))
free_frame-test_bit a m i v inside =
    let index : i * 0x1000 / 0x1000 ≡ i = omega arith in
    let freed : free_frame a m (i * 0x1000)
        ≡ poke m (bitmap_base a + i / 8) (put_bit (m (bitmap_base a + i / 8)) (i % 8) false) =
      unfold free_frame in rw index (let p = v.present in ground arith) in
    rw freed (
      record {
        present = v.present;
        fits = v.fits;
        covers = v.covers;
        cells = put-IsBytes (bitmap_base a) m i false v.cells;
      },
      λ j. test_bit-poke a m i j false v inside,
    )
