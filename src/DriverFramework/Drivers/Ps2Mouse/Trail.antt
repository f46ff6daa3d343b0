-- ===== src/DriverFramework/Drivers/Ps2Mouse/Trail.antt =====
-- src/driver_framework/drivers/ps2mouse.rs: the cursor leaves no trail when it moves.
use mathlib.Core.Path.{subst, fun_ext, ap₂}
use native.Mathlib.Decide.{ℕ_discrete}
use neutrix.Base.{
  ℕ, zero, suc, ◌+◌, ◌*◌, ◌≤◌, ◌<◌, ◌≡◌, ◌≢◌, refl, ◌∙◌, sym, ap, ◌⊎◌, inl, inr, Bool, true, false,
  not, ◌||◌, ◌&&◌, leb, Bool-cases, none, some, List, [], ◌∷◌, ◌++◌, ◌==◌, ltb, if◌then◌else◌,
  get_or, length, Ram, IsBytes, load32, arith,
}
use neutrix.Base.Int.{ℤ}
use neutrix.DriverFramework.Drivers.VbeVga.{
  VbeVgaDriver, FramebufferInfo, get_framebuffer_addrs, pitch_of, pixel,
}
use neutrix.DriverFramework.Drivers.VbeVga.Paint.{paint_rows_other}
use neutrix.DriverFramework.Drivers.VbeVga.Restore.{paint_rows-back}
use neutrix.DriverFramework.Drivers.Ps2Mouse.Cursor.{
  Cursor, arrow_on, clamp, capture_cols, capture_rows, capture, restore, draw_arrow, uncovered,
  redraw_at, redraw_first, redraw_cursor,
}

-- On the screen `clean` the arrow is shown at a position, and what it covers is saved.
pub record ShownAt (d : VbeVgaDriver) (fb px py : ℕ) (clean : Ram) (s : Cursor) (m : Ram)
    : Type 0 where
  pub saved : s.saved_bg ≡ some (px, py, capture d fb px py clean)
  pub drawn : m ≡ draw_arrow d fb px py clean

-- What a redraw at a position may start from: the screen alone, or with the arrow elsewhere.
abbrev pub Redrawable : VbeVgaDriver → (fb : ℕ) → Ram → (bx by : ℕ) → Cursor → Ram → Type 0
Redrawable d fb clean bx by s m =
    ((s.saved_bg ≡ none) × (m ≡ clean))
    ⊎ ((px : ℕ) × (py : ℕ) × ((px ≢ bx) ⊎ (py ≢ by)) × ShownAt d fb px py clean s m)

-- The saved pixels by their places.
capture_cols-length :
    (d : VbeVgaDriver) (fb bx y : ℕ) (m : Ram) (n c : ℕ) → length (capture_cols d fb bx y m n c) ≡ n
unfolding capture_cols
capture_cols-length d fb bx y m zero c = refl
capture_cols-length d fb bx y m (suc n) c = omega (arith, capture_cols-length d fb bx y m n (c + 1))

get_or-capture_cols :
    (d : VbeVgaDriver) (fb bx y : ℕ) (m : Ram) (n c k a : ℕ)
    → k < n
    → a ≡ c + k
    → get_or (capture_cols d fb bx y m n c) k 0 ≡ load32 m (pixel d fb (bx + a) y)
unfolding capture_cols
get_or-capture_cols d fb bx y m zero c k a h e = absurd (omega arith)
get_or-capture_cols d fb bx y m (suc n) c zero a h e =
    ap (λ a. load32 m (pixel d fb (bx + a) y)) (let is : c ≡ a = omega arith in is)
get_or-capture_cols d fb bx y m (suc n) c (suc k) a h e =
    get_or-capture_cols d fb bx y m n (c + 1) k a (omega arith) (omega arith)

get_or-front : (xs ys : List ℕ) (k : ℕ) → k < length xs → get_or (xs ++ ys) k 0 ≡ get_or xs k 0
get_or-front [] ys k h = absurd (omega arith)
get_or-front (x ∷ xs) ys zero h = refl
get_or-front (x ∷ xs) ys (suc k) h = get_or-front xs ys k (omega arith)

get_or-back : (xs ys : List ℕ) (n k : ℕ) → n ≡ length xs + k → get_or (xs ++ ys) n 0 ≡ get_or ys k 0
get_or-back [] ys n k e = ap (λ i. get_or ys i 0) (omega arith)
get_or-back (x ∷ xs) ys zero k e = absurd (omega arith)
get_or-back (x ∷ xs) ys (suc n) k e = get_or-back xs ys n k (omega arith)

get_or-capture_rows :
    (d : VbeVgaDriver) (fb bx by : ℕ) (m : Ram) (n r j k i b : ℕ)
    → k < 12
    → j < n
    → i ≡ j * 12 + k
    → b ≡ r + j
    → get_or (capture_rows d fb bx by m n r) i 0 ≡ load32 m (pixel d fb (bx + k) (by + b))
unfolding capture_rows
get_or-capture_rows d fb bx by m zero r j k i b hk hj e f = absurd (omega arith)
get_or-capture_rows d fb bx by m (suc n) r zero k i b hk hj e f =
    let cols = capture_cols d fb bx (by + r) m 12 0 in
    let size = capture_cols-length d fb bx (by + r) m 12 0 in
    let is_row : r ≡ b = omega arith in
    let is_place : k ≡ i = omega arith in
    subst
      (λ i.
        get_or (cols ++ capture_rows d fb bx by m n (r + 1)) i 0
        ≡ load32 m (pixel d fb (bx + k) (by + b)))
      is_place
      (get_or-front cols (capture_rows d fb bx by m n (r + 1)) k (omega (arith, size))
        ∙ get_or-capture_cols d fb bx (by + r) m 12 0 k k hk (omega arith)
        ∙ ap (λ b. load32 m (pixel d fb (bx + k) (by + b))) is_row)
get_or-capture_rows d fb bx by m (suc n) r (suc j) k i b hk hj e f =
    let cols = capture_cols d fb bx (by + r) m 12 0 in
    let size = capture_cols-length d fb bx (by + r) m 12 0 in
    get_or-back cols (capture_rows d fb bx by m n (r + 1)) i (j * 12 + k) (omega (arith, size))
    ∙ get_or-capture_rows d fb bx by m n (r + 1) j k (j * 12 + k) b hk (omega arith) refl
        (omega arith)

-- A byte is in one of the rows' spans, or away from all.
covered :
    (base pitch x y w n r q : ℕ)
    → ((j : ℕ) × (r ≤ j)
        × (j < r + n)
        × (base + (y + j) * pitch + x * 4 ≤ q)
        × (q < base + (y + j) * pitch + (x + w) * 4))
      ⊎ ((j : ℕ)
          → r ≤ j
          → j < r + n
          → (q < base + (y + j) * pitch + x * 4) ⊎ (base + (y + j) * pitch + (x + w) * 4 ≤ q))
covered base pitch x y w zero r q = inr (λ j a b. absurd (omega (arith, a, b)))
covered base pitch x y w (suc n) r q = elim (covered base pitch x y w n (r + 1) q) [
  | inl (j, a, b, low, high) ↦ inl (j, omega (arith, a), omega (arith, b), low, high)
  | inr away ↦
      elim (Bool-cases
        (leb (base + (y + r) * pitch + x * 4) q && ltb q (base + (y + r) * pitch + (x + w) * 4))) [
          | inl e ↦ inl (r, omega arith, omega arith, ground (arith, e), ground (arith, e))
          | inr e ↦ inr (λ j a b. elim (ℕ_discrete r j) [
            | yes is ↦
                subst
                  (λ j.
                    (q < base + (y + j) * pitch + x * 4)
                    ⊎ (base + (y + j) * pitch + (x + w) * 4 ≤ q))
                  is (ground (arith, e))
            | no ne ↦ away j (ground (arith, a, ne)) (omega (arith, b))
          ])
        ]
]

module _ (d : VbeVgaDriver) (fb : ℕ) (clean : Ram) (cells : IsBytes clean) where
  -- Writing the saved pixels back over the arrow gives the screen without it.
  restore-draw_arrow :
      (px py : ℕ)
      → restore d fb px py (capture d fb px py clean) (draw_arrow d fb px py clean) ≡ clean
  restore-draw_arrow px py = fun_ext (λ q.
      paint_rows-back clean cells fb (pitch_of d) px py 12
        (λ ry rx. get_or (capture d fb px py clean) (ry * 12 + rx) 0) 16 0
        (draw_arrow d fb px py clean) q
        (λ j k _ b c.
          get_or-capture_rows d fb px py clean 16 0 j k (j * 12 + k) j c (omega (arith, b)) refl
            (omega arith))
        (elim (covered fb (pitch_of d) px py 12 16 0 q) [
          | inl inside ↦ inr inside
          | inr away ↦ inl (
              paint_rows_other arrow_on fb (pitch_of d) px py 12 (λ _ _. 0xFFFFFFFF) 16 0 clean q
                away)
        ]))

  uncovered-clean :
      (bx by : ℕ) (s : Cursor) (m : Ram)
      → Redrawable d fb clean bx by s m
      → uncovered d fb bx by s.saved_bg m ≡ clean
  unfolding uncovered
  uncovered-clean bx by s m (inl (unsaved, alone)) = rw (unsaved, uncovered) alone
  uncovered-clean bx by s m (inr (px, py, elsewhere, shown)) =
      let differs : (not (px == bx) || not (py == by)) ≡ true = ground (arith, elsewhere) in
      rw (shown.saved, uncovered)
        (picked px py (not (px == bx) || not (py == by)) differs m shown.drawn)
    where
      picked :
          (px py : ℕ) (b : Bool)
          → b ≡ true
          → (m : Ram) → m ≡ draw_arrow d fb px py clean
          → (if b then restore d fb px py (capture d fb px py clean) m else m) ≡ clean
      picked px py true e m drawn =
          ap (restore d fb px py (capture d fb px py clean)) drawn ∙ restore-draw_arrow px py
      picked px py false e m drawn = absurd (cc e)

  redraw_at-ShownAt :
      (bx by : ℕ) (s : Cursor) (m : Ram)
      → Redrawable d fb clean bx by s m
      → let (s', m') = redraw_at d fb bx by s m in ShownAt d fb bx by clean s' m'
  unfolding redraw_at
  redraw_at-ShownAt bx by s m start =
      let e = uncovered-clean bx by s m start in
      record {
        saved = ap (λ c. some (bx, by, capture d fb bx by c)) e;
        drawn = ap (draw_arrow d fb bx by) e;
      }

clamp-le : (x : ℤ) (size extent : ℕ) → extent ≤ size → clamp x size extent + extent ≤ size
unfolding clamp
clamp-le x size extent fits =
    let wide : leb extent size ≡ true = ground arith in rw (wide, clamp) (ground arith)

-- Where the frame buffer is mapped and its mode is known and not smaller than the arrow: a redraw
-- of the cursor on a screen without it, or with it at another position, shows it within the screen
-- at its own position, over exactly the screen without it, and saves what it covers. So nothing is
-- left of it where it was.
pub redraw_cursor-ShownAt :
    (d : VbeVgaDriver) (fb : ℕ) (rest : List ℕ) (info : FramebufferInfo) (clean : Ram) (s : Cursor)
    (m : Ram)
    → IsBytes clean
    → get_framebuffer_addrs d ≡ fb ∷ rest
    → d.fb_info ≡ some info
    → 12 ≤ info.width
    → 16 ≤ info.height
    → Redrawable d fb clean (clamp s.cursor_x info.width 12) (clamp s.cursor_y info.height 16) s m
    → let bx = clamp s.cursor_x info.width 12 in
      let by = clamp s.cursor_y info.height 16 in
      let (s', m') = redraw_cursor (some d) s m in
      ShownAt d fb bx by clean s' m' × (bx + 12 ≤ info.width) × (by + 16 ≤ info.height)
unfolding redraw_cursor redraw_first
redraw_cursor-ShownAt d fb rest info clean s m cells mapped mode wide high start =
    let bx = clamp s.cursor_x info.width 12 in
    let by = clamp s.cursor_y info.height 16 in
    let e : redraw_cursor (some d) s m ≡ redraw_at d fb bx by s m =
      ap₂ (λ addrs mode. redraw_first d addrs mode s m) mapped mode in
    (
      subst (λ r. ShownAt d fb bx by clean r.0 r.1) (sym e)
          (redraw_at-ShownAt d fb clean cells bx by s m start),
      clamp-le s.cursor_x info.width 12 wide,
      clamp-le s.cursor_y info.height 16 high,
    )
