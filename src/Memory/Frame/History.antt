-- ===== src/Memory/Frame/History.antt =====
-- src/memory/frame.rs: any history of `allocate_frame` and `free_frame` calls.
use neutrix.Base.{
  ℕ, ◌*◌, ◌<◌, ◌≡◌, ◌≢◌, ◌∙◌, sym, ap, inl, inr, true, none, some, List, [], ◌∷◌, ◌++◌, Ram, arith,
  All,
}
use neutrix.Memory.Frame.{BootInfoFrameAllocator, test_bit, allocate_frame, free_frame}
use neutrix.Memory.Frame.Bitmap.{IsValid}
use neutrix.Memory.Frame.Alloc.{allocate_frame_cases, free_frame-test_bit}

-- The allocator, the memory, and the frames that are handed out and not given back.
pub record World : Type 0 where
  pub alloc : BootInfoFrameAllocator
  pub ram : Ram
  pub owned : List ℕ

-- One call. `free_frame` may be called, as its comment asks, for an owned frame only.
pub data Step : World → World → Type 0 where
  allocates :
      (w : World) (i : ℕ)
      → (allocate_frame w.alloc w.ram).0 ≡ some (i * 0x1000)
      → Step w (record {
        alloc = (allocate_frame w.alloc w.ram).1;
        ram = (allocate_frame w.alloc w.ram).2;
        owned = i ∷ w.owned;
      })
  fails :
      (w : World)
      → (allocate_frame w.alloc w.ram).0 ≡ none
      → Step w (record {
        alloc = (allocate_frame w.alloc w.ram).1;
        ram = (allocate_frame w.alloc w.ram).2;
        owned = w.owned;
      })
  frees :
      (w : World) (xs ys : List ℕ) (i : ℕ)
      → w.owned ≡ xs ++ (i ∷ ys)
      → Step w (record w { ram = free_frame w.alloc w.ram (i * 0x1000); owned = xs ++ ys })

pub data Reach (s : World) : World → Type 0 where
  here : Reach s s
  next : {t u : World} → Reach s t → Step t u → Reach s u

abbrev pub Distinct : List ℕ → Type 0
Distinct [] = Unit
Distinct (x ∷ xs) = All (λ y. y ≢ x) xs × Distinct xs

-- An owned frame lies inside the bitmap and reads as used.
abbrev pub IsHeld : BootInfoFrameAllocator → Ram → ℕ → Type 0
IsHeld a m i = (i < a.num_frames) × (test_bit a m i ≡ true)

-- No frame is handed out twice, and every one handed out reads as used.
pub record IsSafe (w : World) : Type 0 where
  pub valid : IsValid w.alloc w.ram
  pub distinct : Distinct w.owned
  pub held : All (IsHeld w.alloc w.ram) w.owned

pub All-map : {P Q : ℕ → Type 0} (xs : List ℕ) → ((x : ℕ) → P x → Q x) → All P xs → All Q xs
All-map [] f h = tt
All-map (x ∷ xs) f h = (f x h.0, All-map xs f h.1)

All-zip :
    {P Q R : ℕ → Type 0} (xs : List ℕ)
    → ((x : ℕ) → P x → Q x → R x)
    → All P xs
    → All Q xs
    → All R xs
All-zip [] f h k = tt
All-zip (x ∷ xs) f h k = (f x h.0 k.0, All-zip xs f h.1 k.1)

pub All-split :
    (P : ℕ → Type 0) (xs ys : List ℕ) (i : ℕ) → All P (xs ++ (i ∷ ys)) → P i × All P (xs ++ ys)
All-split P [] ys i h = h
All-split P (x ∷ xs) ys i h = let rest = All-split P xs ys i h.1 in (rest.0, (h.0, rest.1))

Distinct-split :
    (xs ys : List ℕ) (i : ℕ)
    → Distinct (xs ++ (i ∷ ys))
    → All (λ y. y ≢ i) (xs ++ ys) × Distinct (xs ++ ys)
Distinct-split [] ys i h = h
Distinct-split (x ∷ xs) ys i h =
    let rest = Distinct-split xs ys i h.1 in
    let apart = All-split (λ y. y ≢ x) xs ys i h.0 in
    ((λ e. apart.0 (sym e), rest.0), (apart.1, rest.1))

pub same_frame : {k i : ℕ} → some (k * 0x1000) ≡ some (i * 0x1000) → k ≡ i
same_frame e = ground arith

allocates-IsSafe :
    (w : World) (i : ℕ)
    → (allocate_frame w.alloc w.ram).0 ≡ some (i * 0x1000)
    → IsSafe w
    → IsSafe (record {
      alloc = (allocate_frame w.alloc w.ram).1;
      ram = (allocate_frame w.alloc w.ram).2;
      owned = i ∷ w.owned;
    })
allocates-IsSafe w i e s = elim (allocate_frame_cases w.alloc w.ram s.valid) [
  | inr (r, _) ↦ absurd (cc (ap (λ t. t.0) r))
  | inl (k, t) ↦
      let same : k ≡ i = same_frame (sym t.address ∙ e) in
      let count : (allocate_frame w.alloc w.ram).1.num_frames ≡ w.alloc.num_frames =
        ap (λ b. b.num_frames) t.allocator in
      record {
        valid = t.valid;
        distinct = (
          All-map w.owned
              (λ j h. λ e'. absurd (cc (h.1, t.was_free, same, ap (test_bit w.alloc w.ram) e')))
              s.held,
          s.distinct,
        );
        held = (
          (rw (count, ← same) t.inside, let now = t.marked i in ground arith),
          All-map w.owned
              (λ j h. (rw count h.0, let now = t.marked j in let was = h.1 in ground arith)) s.held,
        );
      }
]

pub Step-IsSafe : {w u : World} → Step w u → IsSafe w → IsSafe u
Step-IsSafe (allocates w i e) s = allocates-IsSafe w i e s
Step-IsSafe (fails w e) s = elim (allocate_frame_cases w.alloc w.ram s.valid) [
  | inl (k, t) ↦ absurd (cc (t.address))
  | inr (r, _) ↦ rw r s
]
Step-IsSafe (frees w xs ys i e) s =
    let held = All-split (IsHeld w.alloc w.ram) xs ys i (rw e at s.held) in
    let apart = Distinct-split xs ys i (rw e at s.distinct) in
    let freed = free_frame-test_bit w.alloc w.ram i s.valid held.0.0 in
    record {
      valid = freed.0;
      distinct = apart.1;
      held =
          All-zip {R = IsHeld w.alloc (free_frame w.alloc w.ram (i * 0x1000))} (xs ++ ys)
            (λ j h ne. (h.0, let now = freed.1 j in let was = h.1 in ground arith)) held.1 apart.0;
    }

-- Any history of `allocate_frame` calls, and of `free_frame` calls for owned frames, keeps the
-- allocator valid: no frame is owned twice, and owned frames lie in the bitmap and read as used.
pub Reach-IsSafe : {w u : World} → IsSafe w → Reach w u → IsSafe u
Reach-IsSafe s here = s
Reach-IsSafe s (next r st) = Step-IsSafe st (Reach-IsSafe s r)
