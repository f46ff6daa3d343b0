-- ===== src/Memory/Frame/Bitmap.antt =====
-- src/memory/frame.rs: what the bitmap's reads and writes do to single frames.
use neutrix.Base.{
  ℕ, zero, suc, ◌+◌, ◌*◌, ◌/◌, ◌%◌, ◌^◌, ◌≤◌, ◌<◌, ◌≡◌, inl, inr, Bool, true, ◌&&◌, if◌then◌else◌,
  leb, ltb, ◌==◌, Bool-cases, add64, bit, put_bit, bit-put_bit, put_bit-lt, Ram, poke, IsBytes,
  poke-IsBytes, arith, bit-ones,
}
use native.Mathlib.Decide.{ℕ_discrete, dec_lt}
use neutrix.Memory.Frame.{
  BootInfoFrameAllocator, bitmap_base, set_bit, set_range, fill_ones, test_bit, set_bit_runtime,
}

-- The bitmap's bit of frame `i`, for a bitmap at `base`.
abbrev pub bit_at : ℕ → Ram → ℕ → Bool
bit_at base m i = bit (m (base + i / 8)) (i % 8)

-- One write of a bit changes that frame's bit and no other.
pub bit_at-put :
    (base : ℕ) (m : Ram) (i j : ℕ) (v : Bool)
    → IsBytes m
    → bit_at base (poke m (base + i / 8) (put_bit (m (base + i / 8)) (i % 8) v)) j
      ≡ (if i == j then v else bit_at base m j)
bit_at-put base m i j v h = elim (ℕ_discrete (i / 8) (j / 8)) [
  | yes e ↦ rw (← e) (
      ground (
        arith,
        bit-put_bit (m (base + i / 8)) (i % 8) (j % 8) v (h (base + i / 8)) (omega arith)
            (omega arith),
      ))
  | no ne ↦ ground arith
]

pub put-IsBytes :
    (base : ℕ) (m : Ram) (i : ℕ) (v : Bool)
    → IsBytes m
    → IsBytes (poke m (base + i / 8) (put_bit (m (base + i / 8)) (i % 8) v))
put-IsBytes base m i v h =
    poke-IsBytes m _ _ h (put_bit-lt (m (base + i / 8)) (i % 8) v (h (base + i / 8)) (omega arith))

pub set_bit-IsBytes :
    (base n : ℕ) (m : Ram) (i : ℕ) (v : Bool) → IsBytes m → IsBytes (set_bit base n m i v)
unfolding set_bit
set_bit-IsBytes base n m i v h p = ground (arith, put-IsBytes base m i v h p, h p)

pub bit_at-set_bit :
    (base n : ℕ) (m : Ram) (i j : ℕ) (v : Bool)
    → IsBytes m
    → j < n
    → bit_at base (set_bit base n m i v) j ≡ (if i == j then v else bit_at base m j)
unfolding set_bit
bit_at-set_bit base n m i j v h lt = elim (Bool-cases (leb n i)) [
  | inl out ↦ rw out (ground arith)
  | inr inside ↦ rw inside (bit_at-put base m i j v h)
]

pub set_range-IsBytes :
    (base n : ℕ) (m : Ram) (v : Bool) (s k : ℕ) → IsBytes m → IsBytes (set_range base n m v s k)
unfolding set_range
set_range-IsBytes base n m v s zero h = h
set_range-IsBytes base n m v s (suc k) h =
    set_range-IsBytes base n (set_bit base n m s v) v (s + 1) k (set_bit-IsBytes base n m s v h)

-- A loop of writes from frame `s` on over `k` frames.
pub bit_at-set_range :
    (base n : ℕ) (m : Ram) (v : Bool) (s k j : ℕ)
    → IsBytes m
    → j < n
    → bit_at base (set_range base n m v s k) j
      ≡ (if leb s j && ltb j (s + k) then v else bit_at base m j)
unfolding set_range
bit_at-set_range base n m v s zero j h lt = ground arith
bit_at-set_range base n m v s (suc k) j h lt =
    rw
      (
        bit_at-set_range base n (set_bit base n m s v) v (s + 1) k j
            (set_bit-IsBytes base n m s v h) lt,
        bit_at-set_bit base n m s j v h lt,
      )
      (ground arith)

pub fill_ones_inside : (m : Ram) (base k i : ℕ) → i < k → fill_ones m base k (base + i) ≡ 0xFF
unfolding fill_ones
fill_ones_inside m base zero i h = elim h [ ]
fill_ones_inside m base (suc k) i h = ground (arith, fill_ones_inside m base k i)

pub fill_ones-IsBytes : (m : Ram) (base k : ℕ) → IsBytes m → IsBytes (fill_ones m base k)
unfolding fill_ones
fill_ones-IsBytes m base zero h = h
fill_ones-IsBytes m base (suc k) h =
    poke-IsBytes _ (base + k) 0xFF (fill_ones-IsBytes m base k h) (omega arith)

pub bit_at-fill_ones :
    (m : Ram) (base k j : ℕ) → j < k * 8 → bit_at base (fill_ones m base k) j ≡ true
bit_at-fill_ones m base k j h =
    rw (fill_ones_inside m base k (j / 8) (omega arith)) (bit-ones (j % 8) (omega arith))

-- A bitmap that is there, lies below the end of the address space and has a bit for each frame.
pub record IsValid (a : BootInfoFrameAllocator) (m : Ram) : Type 0 where
  pub present : 0 < a.bitmap_bytes
  pub fits : bitmap_base a + a.bitmap_bytes ≤ 2 ^ 64
  pub covers : a.num_frames ≤ a.bitmap_bytes * 8
  pub cells : IsBytes m

pub test_bit_inside :
    (a : BootInfoFrameAllocator) (m : Ram) (i : ℕ)
    → IsValid a m
    → i < a.num_frames
    → test_bit a m i ≡ bit_at (bitmap_base a) m i
unfolding test_bit
test_bit_inside a m i v h =
    let no_wrap : add64 (bitmap_base a) (i / 8) ≡ bitmap_base a + i / 8 = omega arith in
    rw no_wrap (ground arith)

pub test_bit_outside :
    (a : BootInfoFrameAllocator) (m : Ram) (i : ℕ) → a.num_frames ≤ i → test_bit a m i ≡ true
unfolding test_bit
test_bit_outside a m i h = ground arith

pub set_bit_runtime_inside :
    (a : BootInfoFrameAllocator) (m : Ram) (i : ℕ) (v : Bool)
    → IsValid a m
    → i < a.num_frames
    → set_bit_runtime a m i v
      ≡ poke m (bitmap_base a + i / 8) (put_bit (m (bitmap_base a + i / 8)) (i % 8) v)
unfolding set_bit_runtime
set_bit_runtime_inside a m i v w h =
    let no_wrap : add64 (bitmap_base a) (i / 8) ≡ bitmap_base a + i / 8 = omega arith in
    rw no_wrap (ground arith)

-- What `test_bit` reads after one frame's bit has been written.
pub test_bit-poke :
    (a : BootInfoFrameAllocator) (m : Ram) (i j : ℕ) (v : Bool)
    → IsValid a m
    → i < a.num_frames
    → test_bit a (poke m (bitmap_base a + i / 8) (put_bit (m (bitmap_base a + i / 8)) (i % 8) v)) j
      ≡ (if i == j then v else test_bit a m j)
test_bit-poke a m i j v w h = elim (dec_lt j a.num_frames) [
  | yes inside ↦
      rw
        (
          test_bit_inside a _ j
              (record {
                present = w.present;
                fits = w.fits;
                covers = w.covers;
                cells = put-IsBytes (bitmap_base a) m i v w.cells;
              })
              inside,
          test_bit_inside a m j w inside,
        )
        (bit_at-put (bitmap_base a) m i j v w.cells)
  | no outside ↦
      rw (test_bit_outside a _ j (omega arith), test_bit_outside a m j (omega arith)) (ground arith)
]
