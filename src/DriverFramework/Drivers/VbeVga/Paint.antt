-- ===== src/DriverFramework/Drivers/VbeVga/Paint.antt =====
-- src/driver_framework/drivers/vbe_vga.rs: the loops of the drawing functions over a rectangle of
-- pixels, those that are written told by a test on their row and column.
use native.Mathlib.Decide.{ℕ_discrete}
use native.Mathlib.Nat.{mul-le-mul_right}
use mathlib.Core.Path.{subst}
use neutrix.Base.{
  ℕ, zero, suc, ◌+◌, ◌*◌, ◌^◌, ◌≤◌, ◌<◌, ◌≡◌, refl, ◌∙◌, sym, ap, ◌⊎◌, inl, inr, Bool, true, false,
  if◌then◌else◌, Bool-cases, Ram, load32, store32, load32-store32, store32_other, arith,
}

-- The `n` columns from `c` on, of the row of pixels at the address `row`.
unfoldable pub paint_cols : (ℕ → Bool) → (row x : ℕ) → (ℕ → ℕ) → (n c : ℕ) → Ram → Ram
paint_cols on row x color zero c m = m
paint_cols on row x color (suc n) c m =
    paint_cols on row x color n (c + 1)
      (if on c then store32 m (row + (x + c) * 4) (color c) else m)

-- The `n` rows from `r` on, each of `w` columns; the first pixel of all is in column `x` and
-- row `y` of the frame buffer at `base`.
unfoldable pub paint_rows :
    (ℕ → ℕ → Bool) → (base pitch x y w : ℕ) → (ℕ → ℕ → ℕ) → (n r : ℕ) → Ram → Ram
unfolding paint_cols
paint_rows on base pitch x y w color zero r m = m
paint_rows on base pitch x y w color (suc n) r m =
    paint_rows on base pitch x y w color n (r + 1)
      (paint_cols (on r) (base + (y + r) * pitch) x (color r) w 0 m)

-- Two memories agree on the four bytes from `p` on.
abbrev Agree : Ram → Ram → ℕ → Type 0
Agree m m' p =
    (m p ≡ m' p) × (m (p + 1) ≡ m' (p + 1)) × (m (p + 2) ≡ m' (p + 2)) × (m (p + 3) ≡ m' (p + 3))

load32-Agree : (m m' : Ram) (p : ℕ) → Agree m m' p → load32 m p ≡ load32 m' p
load32-Agree m m' p h =
    let e : p + 2 + 1 ≡ p + 3 = omega arith in rw e (omega (arith, h.0, h.1, h.2, h.3))

-- The bytes that a row leaves as they are.
pub paint_cols_other :
    (on : ℕ → Bool) (row x : ℕ) (color : ℕ → ℕ) (n c : ℕ) (m : Ram) (q : ℕ)
    → (q < row + (x + c) * 4) ⊎ (row + (x + c + n) * 4 ≤ q)
    → paint_cols on row x color n c m q ≡ m q
unfolding paint_cols
paint_cols_other on row x color zero c m q h = refl
paint_cols_other on row x color (suc n) c m q h = elim (Bool-cases (on c)) [
  | inl e ↦ rw e (
      paint_cols_other on row x color n (c + 1) (store32 m (row + (x + c) * 4) (color c)) q
        (ground arith)
      ∙ store32_other m (row + (x + c) * 4) (color c) q (ground arith))
  | inr e ↦ rw e (paint_cols_other on row x color n (c + 1) m q (ground arith))
]

load32-store32_other :
    (m : Ram) (p v q : ℕ) → (q + 4 ≤ p) ⊎ (p + 4 ≤ q) → load32 (store32 m p v) q ≡ load32 m q
load32-store32_other m p v q h = load32-Agree (store32 m p v) m q (
  store32_other m p v q (ground arith),
  store32_other m p v (q + 1) (ground arith),
  store32_other m p v (q + 2) (ground arith),
  store32_other m p v (q + 3) (ground arith),
)

load32-paint_cols_other :
    (on : ℕ → Bool) (row x : ℕ) (color : ℕ → ℕ) (n c : ℕ) (m : Ram) (q : ℕ)
    → (q + 4 ≤ row + (x + c) * 4) ⊎ (row + (x + c + n) * 4 ≤ q)
    → load32 (paint_cols on row x color n c m) q ≡ load32 m q
load32-paint_cols_other on row x color n c m q h =
    let kept = paint_cols_other on row x color n c m in
    load32-Agree (paint_cols on row x color n c m) m q (
      kept q (ground arith),
      kept (q + 1) (ground arith),
      kept (q + 2) (ground arith),
      kept (q + 3) (ground arith),
    )

-- A pixel of a row is the colour where the test says so, and what it was where not.
pub paint_cols_pixel :
    (on : ℕ → Bool) (row x : ℕ) (color : ℕ → ℕ) (n c : ℕ) (m : Ram) (k : ℕ)
    → ((k : ℕ) → color k < 2 ^ 32)
    → c ≤ k
    → k < c + n
    → load32 (paint_cols on row x color n c m) (row + (x + k) * 4)
      ≡ (if on k then color k else load32 m (row + (x + k) * 4))
unfolding paint_cols
paint_cols_pixel on row x color zero c m k fits l h = absurd (omega arith)
paint_cols_pixel on row x color (suc n) c m k fits l h =
    let p = row + (x + c) * 4 in
    let m1 : Ram = if on c then store32 m p (color c) else m in
    elim (ℕ_discrete c k) [
      | yes e ↦
          let first : load32 m1 p ≡ (if on c then color c else load32 m p) = written (on c) p m in
          rw (sym e)
            (load32-paint_cols_other on row x color n (c + 1) m1 p (inl (omega arith)) ∙ first)
      | no ne ↦
          let later =
            paint_cols_pixel on row x color n (c + 1) m1 k fits (ground arith) (omega arith) in
          later
          ∙ ap (λ old. if on k then color k else old)
              (unwritten (on c) p m (row + (x + k) * 4) (ground arith))
    ]
  where
    written :
        (b : Bool) (p : ℕ) (m : Ram)
        → load32 (if b then store32 m p (color c) else m) p ≡ (if b then color c else load32 m p)
    written true p m = load32-store32 m p (color c) (fits c)
    written false p m = refl

    unwritten :
        (b : Bool) (p : ℕ) (m : Ram) (q : ℕ)
        → p + 4 ≤ q
        → load32 (if b then store32 m p (color c) else m) q ≡ load32 m q
    unwritten true p m q far = load32-store32_other m p (color c) q (inr far)
    unwritten false p m q far = refl

-- A later row of pixels starts a pitch behind at least.
rows_apart : (i j pitch : ℕ) → i < j → i * pitch + pitch ≤ j * pitch
rows_apart i j pitch h = let e = mul-le-mul_right pitch h in omega (arith, e)

-- What lies outside the rows' spans stays.
pub paint_rows_other :
    (on : ℕ → ℕ → Bool) (base pitch x y w : ℕ) (color : ℕ → ℕ → ℕ) (n r : ℕ) (m : Ram) (q : ℕ)
    → ((j : ℕ)
        → r ≤ j
        → j < r + n
        → (q < base + (y + j) * pitch + x * 4) ⊎ (base + (y + j) * pitch + (x + w) * 4 ≤ q))
    → paint_rows on base pitch x y w color n r m q ≡ m q
unfolding paint_rows
paint_rows_other on base pitch x y w color zero r m q away = refl
paint_rows_other on base pitch x y w color (suc n) r m q away =
    let m1 = paint_cols (on r) (base + (y + r) * pitch) x (color r) w 0 m in
    let here = away r (omega arith) (omega arith) in
    paint_rows_other on base pitch x y w color n (r + 1) m1 q
      (λ j l h. away j (omega (arith, l)) (omega (arith, h)))
    ∙ paint_cols_other (on r) (base + (y + r) * pitch) x (color r) w 0 m q (ground arith)

load32-paint_rows_other :
    (on : ℕ → ℕ → Bool) (base pitch x y w : ℕ) (color : ℕ → ℕ → ℕ) (n r : ℕ) (m : Ram) (q : ℕ)
    → ((j : ℕ)
        → r ≤ j
        → j < r + n
        → (q + 4 ≤ base + (y + j) * pitch + x * 4) ⊎ (base + (y + j) * pitch + (x + w) * 4 ≤ q))
    → load32 (paint_rows on base pitch x y w color n r m) q ≡ load32 m q
load32-paint_rows_other on base pitch x y w color n r m q away =
    let kept = paint_rows_other on base pitch x y w color n r m in
    load32-Agree (paint_rows on base pitch x y w color n r m) m q (
      kept q (λ j l h. shifted q j (away j l h) (omega arith) (omega arith)),
      kept (q + 1) (λ j l h. shifted (q + 1) j (away j l h) (omega arith) (omega arith)),
      kept (q + 2) (λ j l h. shifted (q + 2) j (away j l h) (omega arith) (omega arith)),
      kept (q + 3) (λ j l h. shifted (q + 3) j (away j l h) (omega arith) (omega arith)),
    )
  where
    shifted :
        (q' j : ℕ)
        → (q + 4 ≤ base + (y + j) * pitch + x * 4) ⊎ (base + (y + j) * pitch + (x + w) * 4 ≤ q)
        → q ≤ q'
        → q' < q + 4
        → (q' < base + (y + j) * pitch + x * 4) ⊎ (base + (y + j) * pitch + (x + w) * 4 ≤ q')
    shifted q' j h a b = ground arith

-- Where the rows do not overlap, a pixel of the rectangle is the colour where the test says so,
-- and what it was where not.
pub paint_rows_pixel :
    (on : ℕ → ℕ → Bool) (base pitch x y w : ℕ) (color : ℕ → ℕ → ℕ) (n r : ℕ) (m : Ram) (i j : ℕ)
    → ((j i : ℕ) → color j i < 2 ^ 32)
    → w * 4 ≤ pitch
    → i < w
    → r ≤ j
    → j < r + n
    → load32 (paint_rows on base pitch x y w color n r m) (base + (y + j) * pitch + (x + i) * 4)
      ≡ (if on j i then color j i else load32 m (base + (y + j) * pitch + (x + i) * 4))
unfolding paint_rows
paint_rows_pixel on base pitch x y w color zero r m i j fits wide hi l h = absurd (omega arith)
paint_rows_pixel on base pitch x y w color (suc n) r m i j fits wide hi l h =
    let m1 = paint_cols (on r) (base + (y + r) * pitch) x (color r) w 0 m in
    let p = base + (y + j) * pitch + (x + i) * 4 in
    elim (ℕ_discrete r j) [
      | yes e ↦
          let here : load32 m1 (base + (y + r) * pitch + (x + i) * 4)
              ≡ (if on r i then color r i else load32 m (base + (y + r) * pitch + (x + i) * 4)) =
            paint_cols_pixel (on r) (base + (y + r) * pitch) x (color r) w 0 m i (fits r)
              (omega arith) (omega arith) in
          load32-paint_rows_other on base pitch x y w color n (r + 1) m1 p
            (λ k a b. inl (above k a e))
          ∙ subst
              (λ k.
                load32 m1 (base + (y + k) * pitch + (x + i) * 4)
                ≡ (if on k i then color k i else load32 m (base + (y + k) * pitch + (x + i) * 4)))
              e here
      | no ne ↦
          paint_rows_pixel on base pitch x y w color n (r + 1) m1 i j fits wide hi (ground arith)
            (omega arith)
          ∙ ap (λ old. if on j i then color j i else old)
              (load32-paint_cols_other (on r) (base + (y + r) * pitch) x (color r) w 0 m p (
                inr (
                  let gap = rows_apart (y + r) (y + j) pitch (ground arith) in omega (arith, gap))))
    ]
  where
    above :
        (k : ℕ)
        → r + 1 ≤ k
        → r ≡ j
        → base + (y + j) * pitch + (x + i) * 4 + 4 ≤ base + (y + k) * pitch + x * 4
    above k a e = let gap = rows_apart (y + j) (y + k) pitch (omega arith) in omega (arith, gap)
