-- ===== src/Memory/VirtualPages/Pages.antt =====
-- src/memory/virtual_alloc.rs: the pages that a run of calls hands out.
use neutrix.Base.{
  ℕ, zero, suc, ◌+◌, ◌-◌, ◌*◌, ◌^◌, ◌<◌, ◌≤◌, ◌≡◌, ◌⊎◌, refl, sym, ◌∙◌, ap, inl, inr, true, false,
  Option, none, some, List, [], ◌∷◌, leb, ltb, if◌then◌else◌, get_elem?, Bool-cases, page_down,
  arith,
}
use mathlib.Core.Path.{subst}
use neutrix.Memory.VirtualPages.{VirtualPageAllocator, VirtAddrSum, allocate_page, allocate_pages}

-- An address of 64 bits whose upper bits repeat bit 47.
abbrev pub IsCanonical : ℕ → Type 0
IsCanonical n = (n < 2 ^ 47) ⊎ ((2 ^ 64 - 2 ^ 47 ≤ n) × (n < 2 ^ 64))

-- The sum of an address and a number is there if it is an address.
pub record IsSum (virt : VirtAddrSum) : Type 0 where
  pub sums : (x y : ℕ) → IsCanonical (x + y) → virt.add x y ≡ some (x + y)

-- The page that call `i` hands out: page `i` of the range, while it starts in front of the end.
abbrev pub page_of : VirtualPageAllocator → ℕ → Option ℕ
page_of a i = if ltb (a.next + i * 4096) a.end then some (a.next + i * 4096) else none

-- Each page that starts in front of the end is followed by an address.
abbrev pub Addressed : VirtualPageAllocator → Type 0
Addressed a = (i : ℕ) → a.next + i * 4096 < a.end → IsCanonical (a.next + i * 4096 + 4096)

module _ (virt : VirtAddrSum) (law : IsSum virt) where
  allocate_page_room :
      (a : VirtualPageAllocator) (k : ℕ)
      → a.next ≡ k * 4096
      → leb a.end a.next ≡ false
      → IsCanonical (a.next + 4096)
      → allocate_page virt a ≡ some (some a.next, record a { next = a.next + 4096 })
  unfolding allocate_page
  allocate_page_room a k e room there =
      let same : page_down a.next ≡ a.next = omega arith in
      rw (room, law.sums a.next 4096 there, same) refl

  allocate_page_full :
      (a : VirtualPageAllocator) → leb a.end a.next ≡ true → allocate_page virt a ≡ some (none, a)
  unfolding allocate_page
  allocate_page_full a h = rw h refl

  -- The runs of a call and those behind it.
  Handed : (n : ℕ) → VirtualPageAllocator → Type 0
  Handed n a =
      (ps : List (Option ℕ)) × (a' : VirtualPageAllocator) × (allocate_pages virt n a
        ≡ some (ps, a'))
      × ((i : ℕ) → i < n → get_elem? ps i ≡ some (page_of a i))

  behind :
      (n : ℕ) (a a1 : VirtualPageAllocator) (p : Option ℕ)
      → allocate_page virt a ≡ some (p, a1)
      → p ≡ page_of a 0
      → ((i : ℕ) → page_of a1 i ≡ page_of a (suc i))
      → Handed n a1
      → Handed (suc n) a
  unfolding Handed allocate_pages
  behind n a a1 p is first shifted (ps, a', ran, all) = (
    p ∷ ps,
    a',
    ap
          (λ o. elim o [
            | none ↦ none
            | some (p, a1) ↦ elim (allocate_pages virt n a1) [
              | none ↦ none
              | some (ps, a2) ↦ some (p ∷ ps, a2)
            ]
          ])
          is
        ∙ ap (λ o. elim o [ none ↦ none | some (ps, a2) ↦ some (p ∷ ps, a2) ]) ran,
    λ i below. later i below,
  )
    where
      later : (i : ℕ) → i < suc n → get_elem? (p ∷ ps) i ≡ some (page_of a i)
      later zero below = ap some first
      later (suc i) below = all i (omega arith) ∙ ap some (shifted i)

  allocate_pages-Handed :
      (n k : ℕ) (a : VirtualPageAllocator) → a.next ≡ k * 4096 → Addressed a → Handed n a
  unfolding Handed allocate_pages
  allocate_pages-Handed zero k a e there = ([], a, refl, λ i below. absurd (omega arith))
  allocate_pages-Handed (suc n) k a e there = elim (Bool-cases (leb a.end a.next)) [
    | inl full ↦
        behind n a a none (allocate_page_full a full) (ground arith) (λ i. ground arith)
          (allocate_pages-Handed n k a e there)
    | inr room ↦
        let a1 : VirtualPageAllocator = record a { next = a.next + 4096 } in
        let at : (i : ℕ) → a.next + 4096 + i * 4096 ≡ a.next + suc i * 4096 = λ i. omega arith in
        let start : a.next + 0 * 4096 ≡ a.next = omega arith in
        let next : IsCanonical (a.next + 4096) =
          subst (λ n. IsCanonical (n + 4096)) start (there 0 (ground arith)) in
        let there1 : Addressed a1 = λ i inside.
          subst (λ n. IsCanonical (n + 4096)) (sym (at i)) (there (suc i) (rw (at i) at inside)) in
        behind n a a1 (some a.next) (allocate_page_room a k e room next) (ground arith)
          (λ i. rw (at i) refl) (allocate_pages-Handed n (k + 1) a1 (omega arith) there1)
  ]

  -- The sum of an address and a number does not panic where it is a canonical address (`IsSum`). From
  -- an allocator whose next address is a page's, and where each page in front of the end is followed by
  -- a canonical address, no run of calls panics: call `i` hands out the `i`-th page from there, so no
  -- page twice, and nothing once the end is reached.
  pub get_elem-allocate_pages :
      (n k : ℕ) (a : VirtualPageAllocator)
      → a.next ≡ k * 4096
      → Addressed a
      → (ps : List (Option ℕ)) × (a' : VirtualPageAllocator) × (allocate_pages virt n a
          ≡ some (ps, a'))
        × ((i : ℕ) → i < n → get_elem? ps i ≡ some (page_of a i))
  unfolding Handed
  get_elem-allocate_pages n k a e there = allocate_pages-Handed n k a e there
