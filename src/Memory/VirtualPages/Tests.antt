-- ===== src/Memory/VirtualPages/Tests.antt =====
-- src/memory/virtual_alloc.rs: a range of two pages, and one that reaches the end of the lower half.
use neutrix.Base.{
  ℕ, ◌+◌, ◌-◌, ◌^◌, ◌<◌, ◌≡◌, refl, inl, Option, none, some, List, [], ◌∷◌, get_elem?, ◌||◌, ◌&&◌,
  ltb, leb, if◌then◌else◌, arith,
}
use neutrix.Memory.VirtualPages.{
  VirtualPageAllocator, VirtAddrSum, over, allocate_page, allocate_pages,
}
use neutrix.Memory.VirtualPages.Pages.{IsCanonical, IsSum, page_of, get_elem-allocate_pages}

abbrev checked : VirtAddrSum
checked = record {
  add = λ x y.
      if ltb (x + y) (2 ^ 47) || (leb (2 ^ 64 - 2 ^ 47) (x + y) && ltb (x + y) (2 ^ 64))
      then some (x + y)
      else none;
}

checked_sums : (x y : ℕ) → IsCanonical (x + y) → checked.add x y ≡ some (x + y)
checked_sums x y h = ground arith

abbrev checked-IsSum : IsSum checked
checked-IsSum = record { sums = checked_sums }

abbrev two_pages : VirtualPageAllocator
two_pages = over 0x10000 0x12000

three_calls :
    allocate_pages checked 3 two_pages
    ≡ some (some 0x10000 ∷ some 0x11000 ∷ none ∷ [], record two_pages { next = 0x12000 })
unfolding allocate_pages allocate_page
three_calls = refl

-- The last page of the lower half is not handed out: the sum behind it panics.
last_page : allocate_pages checked 1 (over 0x7FFFFFFFF000 0x800000000000) ≡ none
unfolding allocate_pages allocate_page
last_page = refl

get_elem-allocate_pages_example :
    (ps : List (Option ℕ)) × (a' : VirtualPageAllocator) × (allocate_pages checked 3 two_pages
      ≡ some (ps, a'))
    × ((i : ℕ) → i < 3 → get_elem? ps i ≡ some (page_of two_pages i))
get_elem-allocate_pages_example =
    get_elem-allocate_pages checked checked-IsSum 3 16 two_pages (omega arith)
      (λ i inside. inl (omega arith))
