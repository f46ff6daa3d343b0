-- ===== src/Memory/VirtualPages.antt =====
-- src/memory/virtual_alloc.rs: the bump allocator of virtual pages. Addresses are numbers.
-- The library's sum of an address and a number, which panics if it is no address, is a parameter.
pub mod Pages
mod Tests
use neutrix.Base.{
  ℕ, zero, suc, ◌+◌, ◌*◌, Option, none, some, List, [], ◌∷◌, leb, if◌then◌else◌, page_down,
}

pub record VirtualPageAllocator : Type 0 where
  pub start : ℕ
  pub end : ℕ
  pub next : ℕ

abbrev pub over : ℕ → ℕ → VirtualPageAllocator
over start end = record { start = start; end = end; next = start }

-- `VirtAddr + u64`, with `none` for a panic.
pub record VirtAddrSum : Type 0 where
  pub add : ℕ → ℕ → Option ℕ

abbrev pub reset : VirtualPageAllocator → VirtualPageAllocator
reset a = record a { next = a.start }

module _ (virt : VirtAddrSum) where
  -- The page is its first address, that of `Page::containing_address`. `none` is a panic.
  unfoldable pub allocate_page : VirtualPageAllocator → Option (Option ℕ × VirtualPageAllocator)
  allocate_page a =
      let handed_out : Option (Option ℕ × VirtualPageAllocator) = elim (virt.add a.next 4096) [
        | none ↦ none
        | some next ↦ some (some (page_down a.next), record a { next = next })
      ] in
      if leb a.end a.next then some (none, a) else handed_out

  -- The pages of `n` calls.
  unfoldable pub allocate_pages :
      ℕ → VirtualPageAllocator → Option (List (Option ℕ) × VirtualPageAllocator)
  unfolding allocate_page
  allocate_pages zero a = some ([], a)
  allocate_pages (suc n) a = elim (allocate_page a) [
    | none ↦ none
    | some (p, a1) ↦ elim (allocate_pages n a1) [ none ↦ none | some (ps, a2) ↦ some (p ∷ ps, a2) ]
  ]
