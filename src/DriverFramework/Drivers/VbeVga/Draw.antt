-- ===== src/DriverFramework/Drivers/VbeVga/Draw.antt =====
-- src/driver_framework/drivers/vbe_vga.rs: what the drawing functions leave in the frame buffer.
use neutrix.Base.{
  ℕ, zero, suc, ◌+◌, ◌-◌, ◌*◌, ◌^◌, ◌≤◌, ◌<◌, ◌≡◌, ◌≢◌, refl, ◌⊎◌, inl, inr, Bool, true, ◌||◌,
  Option, none, some, Bool-cases, List, [], ◌∷◌, length, get_elem?, ltb, if◌then◌else◌, Ram, load32,
  arith,
}
use neutrix.DriverFramework.Drivers.VbeVga.Font.{font8x8}
use neutrix.DriverFramework.Drivers.VbeVga.Paint.{paint_rows, paint_rows_pixel, paint_rows_other}
use neutrix.DriverFramework.Drivers.VbeVga.{
  VbeVgaDriver, get_glyph, pixel, pitch_of, glyph_on, fallback_on, draw_char_at, draw_rect_at,
}

-- `m'` is `m` with the pixels of a rectangle, those that the test picks, of one colour.
pub record Painted (d : VbeVgaDriver) (on : ℕ → ℕ → Bool) (fb_virt x y w h color : ℕ) (m m' : Ram)
    : Type 0 where
  pub inside :
      (i j : ℕ)
      → i < w
      → j < h
      → load32 m' (pixel d fb_virt (x + i) (y + j))
        ≡ (if on j i then color else load32 m (pixel d fb_virt (x + i) (y + j)))
  pub outside :
      (q : ℕ)
      → ((j : ℕ) → j < h → (q < pixel d fb_virt x (y + j)) ⊎ (pixel d fb_virt (x + w) (y + j) ≤ q))
      → m' q ≡ m q

paint_rows-Painted :
    (d : VbeVgaDriver) (on : ℕ → ℕ → Bool) (fb_virt x y w h color : ℕ) (m : Ram)
    → color < 2 ^ 32
    → w * 4 ≤ pitch_of d
    → Painted d on fb_virt x y w h color m
        (paint_rows on fb_virt (pitch_of d) x y w (λ _ _. color) h 0 m)
paint_rows-Painted d on fb_virt x y w h color m fits wide = record {
  inside = λ i j a b.
      paint_rows_pixel on fb_virt (pitch_of d) x y w (λ _ _. color) h 0 m i j (λ _ _. fits) wide a
        (omega arith) (omega (arith, b));
  outside = λ q away.
      paint_rows_other on fb_virt (pitch_of d) x y w (λ _ _. color) h 0 m q
        (λ j _ b. away j (omega (arith, b)));
}

-- Where the pitch holds the rectangle's width, `draw_rect_at` gives each of its pixels the colour
-- and leaves every other byte.
pub draw_rect_at-Painted :
    (d : VbeVgaDriver) (fb_virt x y w h color : ℕ) (m : Ram)
    → color < 2 ^ 32
    → w * 4 ≤ pitch_of d
    → Painted d (λ _ _. true) fb_virt x y w h color m (draw_rect_at d fb_virt x y w h color m)
unfolding draw_rect_at
draw_rect_at-Painted d fb_virt x y w h color m fits wide =
    paint_rows-Painted d (λ _ _. true) fb_virt x y w h color m fits wide

-- The pixels of a character's cell that are drawn, by its glyph if it has one.
abbrev pub shows : Option (List ℕ) → ℕ → ℕ → ℕ → Bool
shows (some glyph) ch r c = glyph_on glyph r c
shows none ch r c = fallback_on ch r c

get_elem-some :
    (xs : List (List ℕ)) (i : ℕ) → i < length xs → (a : List ℕ) × (get_elem? xs i ≡ some a)
get_elem-some [] i h = absurd (omega arith)
get_elem-some (x ∷ xs) zero h = (x, refl)
get_elem-some (x ∷ xs) (suc i) h = get_elem-some xs i (omega arith)

font8x8_size : length font8x8 ≡ 95
unfolding font8x8
font8x8_size = refl

get_glyph-some : (ch : ℕ) → ch ≢ 0x7F → (g : Option (List ℕ)) × (get_glyph ch ≡ some g)
unfolding get_glyph
get_glyph-some ch ne = elim (Bool-cases (ltb ch 0x20 || ltb 0x7F ch)) [
  | inl e ↦ (none, rw e refl)
  | inr e ↦
      let (g, is) =
        get_elem-some font8x8 (ch - 0x20) (let size = font8x8_size in ground (arith, ne, size)) in
      (some g, rw (e, is) refl)
]

pub draw_char_at-some :
    (d : VbeVgaDriver) (fb_virt x y ch color : ℕ) (m : Ram)
    → ch ≢ 0x7F
    → (m' : Ram) × (draw_char_at d fb_virt x y ch color m ≡ some m')
draw_char_at-some d fb_virt x y ch color m ne = let (g, e) = get_glyph-some ch ne in drawn g e
  where
    drawn :
        (g : Option (List ℕ))
        → get_glyph ch ≡ some g
        → (m' : Ram) × (draw_char_at d fb_virt x y ch color m ≡ some m')
    drawn (some glyph) e = (
      paint_rows (glyph_on glyph) fb_virt (pitch_of d) x y 8 (λ _ _. color) 8 0 m,
      unfold draw_char_at in rw (e, draw_char_at) refl,
    )
    drawn none e = (
      paint_rows (fallback_on ch) fb_virt (pitch_of d) x y 8 (λ _ _. color) 8 0 m,
      unfold draw_char_at in rw (e, draw_char_at) refl,
    )

-- Where the pitch holds eight pixels, drawing any character but 0x7F does not panic; it gives the
-- pixels of the character's glyph, or of the made-up one for a character without, the colour, and
-- leaves the others of its cell of eight by eight pixels, and every byte outside of the cell.
pub draw_char_at-Painted :
    (d : VbeVgaDriver) (fb_virt x y ch color : ℕ) (m : Ram)
    → ch ≢ 0x7F
    → color < 2 ^ 32
    → 32 ≤ pitch_of d
    → (g : Option (List ℕ)) × (m' : Ram) × (get_glyph ch ≡ some g)
      × (draw_char_at d fb_virt x y ch color m ≡ some m')
      × Painted d (shows g ch) fb_virt x y 8 8 color m m'
draw_char_at-Painted d fb_virt x y ch color m ne fits wide =
    let (g, e) = get_glyph-some ch ne in drawn g e
  where
    drawn :
        (g : Option (List ℕ))
        → get_glyph ch ≡ some g
        → (g : Option (List ℕ)) × (m' : Ram) × (get_glyph ch ≡ some g)
          × (draw_char_at d fb_virt x y ch color m ≡ some m')
          × Painted d (shows g ch) fb_virt x y 8 8 color m m'
    drawn (some glyph) e = (
      some glyph,
      paint_rows (glyph_on glyph) fb_virt (pitch_of d) x y 8 (λ _ _. color) 8 0 m,
      e,
      unfold draw_char_at in rw (e, draw_char_at) refl,
      paint_rows-Painted d (glyph_on glyph) fb_virt x y 8 8 color m fits wide,
    )
    drawn none e = (
      none,
      paint_rows (fallback_on ch) fb_virt (pitch_of d) x y 8 (λ _ _. color) 8 0 m,
      e,
      unfold draw_char_at in rw (e, draw_char_at) refl,
      paint_rows-Painted d (fallback_on ch) fb_virt x y 8 8 color m fits wide,
    )
