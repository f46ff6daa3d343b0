-- ===== src/Memory/Heap/Backed.antt =====
-- src/memory/allocator.rs: what `init_heap` leads to, on each of its ends.
use neutrix.Base.{
  ℕ, zero, suc, ◌+◌, ◌*◌, ◌<◌, ◌≡◌, ◌≢◌, refl, sym, ap, ◌∙◌, ◌⊎◌, inl, inr, true, Bool-cases,
  Option, none, some, List, [], ◌∷◌, length, Ram, if◌then◌else◌, arith,
}
use mathlib.Core.Path.{subst}
use neutrix.Memory.Frame.{BootInfoFrameAllocator, test_bit, allocate_frame}
use neutrix.Memory.Frame.Bitmap.{IsValid}
use neutrix.Memory.Frame.Alloc.{allocate_frame_cases}
use neutrix.Memory.Heap.Sound.{Uses, Sound, Uses-Sound, allocates-Sound, without_table}
use neutrix.Memory.Heap.{
  PageMapper, MapToError, frame_allocation_failed, map_failed, Kernel, map_page, map_pages,
  init_heap, heap_start, heap_size,
}

-- What page tables do. A mapping that succeeds maps its page and no other. The tables consist of
-- frames; others for new tables come from the frame allocator.
pub record IsMapper (mp : PageMapper) : Type 0 where
  pub mapping : mp.Tables → (page : ℕ) → Option ℕ
  pub table_frames : mp.Tables → List ℕ
  pub maps :
      (t : mp.Tables) (a : BootInfoFrameAllocator) (m : Ram) (page frame : ℕ)
      → (mp.map_to t a m page frame).0 ≡ true
      → mapping (mp.map_to t a m page frame).1 page ≡ some frame
  pub keeps :
      (t : mp.Tables) (a : BootInfoFrameAllocator) (m : Ram) (page frame q : ℕ)
      → (mp.map_to t a m page frame).0 ≡ true
      → q ≢ page
      → mapping (mp.map_to t a m page frame).1 q ≡ mapping t q
  pub uses :
      (t : mp.Tables) (a : BootInfoFrameAllocator) (m : Ram) (page frame : ℕ)
      → IsValid a m
      → Uses
          (table_frames t)
          a
          m
          (table_frames (mp.map_to t a m page frame).1)
          (mp.map_to t a m page frame).2
          (mp.map_to t a m page frame).3

-- The owned frames after these were handed out, one after the other.
abbrev pub handed_out : List ℕ → List ℕ → List ℕ
handed_out [] owned = owned
handed_out (f ∷ fs) owned = handed_out fs (f ∷ owned)

module _ (mp : PageMapper) (law : IsMapper mp) where
  -- The kernel's allocator is sound beside its page tables.
  abbrev pub IsSound : List ℕ → Kernel mp → Type 0
  IsSound owned k = Sound k.alloc k.ram owned (law.table_frames k.tables)

  -- The pages from `page` on are mapped to these frames.
  abbrev pub Backed : mp.Tables → (page : ℕ) → List ℕ → Type 0
  Backed t page [] = Unit
  Backed t page (f ∷ fs) = (law.mapping t page ≡ some (f * 0x1000)) × Backed t (page + 0x1000) fs

  -- The pages are backed by as many frames, that are handed out from now on and were not before.
  pub record Mapped (n page : ℕ) (owned : List ℕ) (before k : Kernel mp) : Type 0 where
    pub frames : List ℕ
    pub count : length frames ≡ n
    pub backed : Backed k.tables page frames
    pub kept : (q : ℕ) → q < page → law.mapping k.tables q ≡ law.mapping before.tables q
    pub is_sound : IsSound (handed_out frames owned) k

  -- The ends of the loop.
  pub data Ends (n page : ℕ) (owned : List ℕ) (before : Kernel mp)
      : Option MapToError × Kernel mp → Type 0 where
    all_mapped : {k : Kernel mp} → Mapped n page owned before k → Ends n page owned before (none, k)
    no_frame :
        {k : Kernel mp}
        → ((i : ℕ) → test_bit k.alloc k.ram i ≡ true)
        → Ends n page owned before (some frame_allocation_failed, k)
    refused : {k : Kernel mp} → Ends n page owned before (some map_failed, k)

  -- What the rest comes to, behind a page that is mapped.
  behind :
      (n page f : ℕ) (owned : List ℕ) (before k1 : Kernel mp) (r : Option MapToError × Kernel mp)
      → law.mapping k1.tables page ≡ some (f * 0x1000)
      → ((q : ℕ) → q ≢ page → law.mapping k1.tables q ≡ law.mapping before.tables q)
      → Ends n (page + 0x1000) (f ∷ owned) k1 r
      → Ends (suc n) page owned before r
  behind n page f owned before k1 r mapped others (all_mapped m) = all_mapped (record {
    frames = f ∷ m.frames;
    count = ap suc m.count;
    backed = (m.kept page (omega arith) ∙ mapped, m.backed);
    kept = λ q below. m.kept q (omega arith) ∙ others q (λ e. absurd (omega arith));
    is_sound = m.is_sound;
  })
  behind n page f owned before k1 r mapped others (no_frame full) = no_frame full
  behind n page f owned before k1 r mapped others refused = refused

  map_page-Ends :
      (n page f : ℕ) (owned : List ℕ) (before k : Kernel mp)
      → k.tables ≡ before.tables
      → IsSound (f ∷ owned) k
      → ((k' : Kernel mp)
          → IsSound (f ∷ owned) k'
          → Ends n (page + 0x1000) (f ∷ owned) k' (map_pages mp n (page + 0x1000) k'))
      → Ends
          (suc n)
          page
          owned
          before
          (map_page mp (map_pages mp n (page + 0x1000)) page (some (f * 0x1000)) k)
  map_page-Ends n page f owned before k same s rest =
      let (mapped, tables, alloc, ram) = mp.map_to k.tables k.alloc k.ram page (f * 0x1000) in
      let k' : Kernel mp = record { tables = tables; alloc = alloc; ram = ram } in
      let more = map_pages mp n (page + 0x1000) k' in
      let s' =
        Uses-Sound (f ∷ owned) (law.uses k.tables k.alloc k.ram page (f * 0x1000) s.safe.valid) s in
      elim (Bool-cases mapped) [
        | inl done ↦
            subst (λ b. Ends (suc n) page owned before (if b then more else (some map_failed, k')))
              (sym done)
              (behind n page f owned before k' more
                (law.maps k.tables k.alloc k.ram page (f * 0x1000) done)
                (λ q other.
                  law.keeps k.tables k.alloc k.ram page (f * 0x1000) q done other
                  ∙ ap (λ t. law.mapping t q) same)
                (rest k' s'))
        | inr failed ↦
            subst (λ b. Ends (suc n) page owned before (if b then more else (some map_failed, k')))
              (sym failed) refused
      ]

  map_pages-Ends :
      (n page : ℕ) (owned : List ℕ) (k : Kernel mp)
      → IsSound owned k
      → Ends n page owned k (map_pages mp n page k)
  unfolding map_pages
  map_pages-Ends zero page owned k s =
      all_mapped
        (record { frames = []; count = refl; backed = tt; kept = λ q below. refl; is_sound = s })
  map_pages-Ends (suc n) page owned k s = elim (allocate_frame_cases k.alloc k.ram s.safe.valid) [
    | inl (f, took) ↦
        let (found, alloc, ram) = allocate_frame k.alloc k.ram in
        let k0 : Kernel mp = record k { alloc = alloc; ram = ram } in
        let fs = law.table_frames k.tables in
        let s0 : IsSound (f ∷ owned) k0 =
          without_table alloc ram (f ∷ owned) fs f
            (allocates-Sound k.alloc k.ram owned fs f took.address s) in
        subst
          (λ o. Ends (suc n) page owned k (map_page mp (map_pages mp n (page + 0x1000)) page o k0))
          (sym took.address)
          (map_page-Ends n page f owned k k0 refl s0 (map_pages-Ends n (page + 0x1000) (f ∷ owned)))
    | inr (failed, full) ↦
        subst
          (λ (r : Option ℕ × BootInfoFrameAllocator × Ram). Ends (suc n) page owned k (
            map_page mp (map_pages mp n (page + 0x1000)) page r.0
              (record k { alloc = r.1; ram = r.2 })))
          (sym failed) (no_frame full)
  ]

  -- The ways in which `init_heap` ends.
  pub HeapEnds : List ℕ → Kernel mp → Option MapToError × Kernel mp × Option (ℕ × ℕ) → Type 0
  HeapEnds owned before (error, k, span) =
      ((error ≡ none) × Mapped 25 heap_start owned before k × (span ≡ some (heap_start, heap_size)))
      ⊎ ((error ≡ some frame_allocation_failed)
          × ((i : ℕ) → test_bit k.alloc k.ram i ≡ true)
          × (span ≡ none))
      ⊎ ((error ≡ some map_failed) × (span ≡ none))

  spanned :
      (owned : List ℕ) (before : Kernel mp) (r : Option MapToError × Kernel mp)
      → Ends 25 heap_start owned before r
      → HeapEnds owned before
          (r.0, r.1, elim r.0 [ none ↦ some (heap_start, heap_size) | some _ ↦ none ])
  unfolding HeapEnds
  spanned owned before r (all_mapped m) = inl (refl, m, refl)
  spanned owned before r (no_frame full) = inr (inl (refl, full, refl))
  spanned owned before r refused = inr (inr (refl, refl))

  -- From a sound allocator, `init_heap` ends in one of these ways: each of the 25 pages of the heap is
  -- mapped to a frame of its own, that nobody owned, and the heap gets its span; or every frame is
  -- used; or the page tables refused a page. In the last two the heap gets no span.
  pub init_heap-ends :
      (owned : List ℕ) (k : Kernel mp) → IsSound owned k → HeapEnds owned k (init_heap mp k)
  unfolding init_heap
  init_heap-ends owned k s =
      spanned owned k (map_pages mp 25 heap_start k) (map_pages-Ends 25 heap_start owned k s)
