-- ===== src/DriverFramework/Drivers/Console/Inside.antt =====
-- src/driver_framework/drivers/console.rs: the cursor stays inside the console.
use neutrix.Base.{
  ℕ, ◌+◌, ◌*◌, ◌<◌, ◌≡◌, ◌≢◌, refl, inl, inr, Bool, true, false, Bool-cases, Option, none, some,
  List, [], ◌∷◌, ◌==◌, leb, ltb, if◌then◌else◌, All, get_elem?, zero, suc, ◌/◌, ◌∙◌, ap, Ram, arith,
}
use neutrix.DriverFramework.Drivers.VbeVga.{
  VbeVgaDriver, FramebufferInfo, get_framebuffer_addrs, draw_char_at,
}
use neutrix.DriverFramework.Drivers.VbeVga.Draw.{draw_char_at-some}
use neutrix.DriverFramework.Drivers.Console.{
  Console, Screens, create_console, get_or_create_console, put_at, with_console,
  console_print_first, newline, step_back, console_scroll_mut, scroll_below, advance, put_byte,
  put_bytes,
}

abbrev pub IsInside : Console → Type 0
IsInside c = (c.cur_x < c.cols) × (c.cur_y < c.rows)

scroll_below-IsInside :
    (d : VbeVgaDriver) (c : Console) (m : Ram)
    → c.cur_x < c.cols
    → 0 < c.rows
    → IsInside (scroll_below d c m).0
unfolding scroll_below console_scroll_mut
scroll_below-IsInside d c m x y = elim (Bool-cases (leb c.rows c.cur_y)) [
  | inr above ↦ rw above (x, ground arith)
  | inl below ↦ elim (Bool-cases (leb c.rows 1)) [
    | inl e ↦ rw (below, e) (omega arith, omega arith)
    | inr e ↦ rw (below, e) (x, omega arith)
  ]
]

advance-IsInside :
    (d : VbeVgaDriver) (c : Console) (m : Ram) → IsInside c → IsInside (advance d c m).0
unfolding advance
advance-IsInside d c m (x, y) = elim (Bool-cases (leb c.cols (c.cur_x + 1))) [
  | inr within ↦ rw within (ground arith, y)
  | inl at_end ↦ rw at_end (
      scroll_below-IsInside d (newline (record c { cur_x = c.cur_x + 1 })) m (omega arith)
        (omega arith))
]

step_back-IsInside : (c : Console) → IsInside c → IsInside (step_back c)
step_back-IsInside c (x, y) = elim (Bool-cases (ltb 0 c.cur_x)) [
  | inl e ↦ rw e (omega arith, y)
  | inr e ↦ elim (Bool-cases (ltb 0 c.cur_y)) [
    | inl f ↦ rw (e, f) (omega arith, omega arith)
    | inr f ↦ rw (e, f) (x, y)
  ]
]

-- Neither a tab nor the character that has no glyph.
abbrev pub IsPlain : ℕ → Type 0
IsPlain b = (b ≢ 9) × (b ≢ 0x7F)

-- A result that keeps the cursor inside.
abbrev pub StaysInside : Option (Console × Ram) → Type 0
StaysInside r = (c : Console) × (m : Ram) × (r ≡ some (c, m)) × IsInside c

stays_if :
    (b : Bool) (x y : Option (Console × Ram))
    → (b ≡ true → StaysInside x)
    → (b ≡ false → StaysInside y)
    → StaysInside (if b then x else y)
stays_if true x y p q = p refl
stays_if false x y p q = q refl

drawn-StaysInside :
    (d : VbeVgaDriver) (c : Console) (r : Option Ram)
    → IsInside c
    → ((m1 : Ram) × (r ≡ some m1))
    → StaysInside (elim r [ none ↦ none | some m1 ↦ some (advance d c m1) ])
drawn-StaysInside d c none inside (m1, e) = absurd (cc e)
drawn-StaysInside d c (some m1) inside _ =
    ((advance d c m1).0, (advance d c m1).1, refl, advance-IsInside d c m1 inside)

put_byte-StaysInside :
    (d : VbeVgaDriver) (fb b : ℕ) (c : Console) (m : Ram)
    → IsPlain b
    → IsInside c
    → StaysInside (put_byte d fb b c m)
unfolding put_byte
put_byte-StaysInside d fb b c m (no_tab, glyph) inside =
    let (x, y) = inside in
    stays_if (b == b'\n') _ _
      (λ _. (_, _, refl, scroll_below-IsInside d (newline c) m (omega arith) (omega arith)))
      (λ _.
        stays_if (b == 13) _ _ (λ _. (_, _, refl, (omega arith, y)))
          (λ _.
            stays_if (b == 8) _ _ (λ _. (_, _, refl, step_back-IsInside c inside))
              (λ _.
                stays_if (b == 9) _ _ (λ e. absurd (no_tab (ground arith)))
                  (λ _.
                    drawn-StaysInside d c
                      (draw_char_at d fb (c.cur_x * c.char_w) (c.cur_y * c.char_h) b c.fg m) inside
                      (draw_char_at-some d fb (c.cur_x * c.char_w) (c.cur_y * c.char_h) b c.fg m
                        glyph)))))

put_bytes-StaysInside :
    (d : VbeVgaDriver) (fb : ℕ) (text : List ℕ) (c : Console) (m : Ram)
    → All IsPlain text
    → IsInside c
    → StaysInside (put_bytes d fb text c m)
unfolding put_bytes
put_bytes-StaysInside d fb [] c m plain inside = (c, m, refl, inside)
put_bytes-StaysInside d fb (b ∷ text) c m plain inside =
    let (c1, m1, e, inside1) = put_byte-StaysInside d fb b c m plain.0 inside in
    rw (e, put_bytes) (put_bytes-StaysInside d fb text c1 m1 plain.1 inside1)

-- The console that is found or made, and the consoles with another in its place.
get_or_create_console-IsInside :
    (fb : ℕ) (info : Option FramebufferInfo) (cs : List Console)
    → All IsInside cs
    → let (cs', i) = get_or_create_console fb info cs in
      All IsInside cs' × ((c : Console) × (get_elem? cs' i ≡ some c) × IsInside c)
unfolding get_or_create_console
get_or_create_console-IsInside fb info [] inside =
    let made = created info in ((made, tt), (create_console fb info, refl, made))
  where
    some_cells : (n fixed : ℕ) → 0 < fixed → 0 < (if n == 0 then fixed else n)
    some_cells n fixed h = ground arith

    created : (info : Option FramebufferInfo) → IsInside (create_console fb info)
    created none = (omega arith, omega arith)
    created (some i) =
        (some_cells (i.width / 9) 80 (omega arith), some_cells (i.height / 8) 25 (omega arith))
get_or_create_console-IsInside fb info (c ∷ cs) inside =
    let later = get_or_create_console fb info cs in
    let (rest, (c1, is, inside1)) = get_or_create_console-IsInside fb info cs inside.1 in
    let place : later.1 + 1 ≡ suc later.1 = omega arith in
    elim (Bool-cases (c.fb_virt == fb)) [
      | inl e ↦ rw (e, get_or_create_console) (inside, (c, refl, inside.0))
      | inr e ↦
          rw (e, get_or_create_console)
            ((inside.0, rest), (c1, ap (get_elem? (c ∷ later.0)) place ∙ is, inside1))
    ]

put_at-IsInside :
    (i : ℕ) (c : Console) (cs : List Console)
    → IsInside c
    → All IsInside cs
    → All IsInside (put_at i c cs)
put_at-IsInside i c [] h inside = tt
put_at-IsInside zero c (x ∷ xs) h inside = (h, inside.1)
put_at-IsInside (suc i) c (x ∷ xs) h inside = (inside.0, put_at-IsInside i c xs h inside.1)

-- A change that keeps a cursor inside keeps all cursors inside.
with_console-IsInside :
    (d : VbeVgaDriver) (fb : ℕ) (f : Console → Ram → Option (Console × Ram)) (s : Screens)
    → ((c : Console) (m : Ram) → IsInside c → StaysInside (f c m))
    → All IsInside s.consoles
    → (s' : Screens) × (with_console d fb f s ≡ some s') × All IsInside s'.consoles
unfolding with_console
with_console-IsInside d fb f s keeps inside =
    let found = get_or_create_console fb d.fb_info s.consoles in
    let (all, (c, is, one)) = get_or_create_console-IsInside fb d.fb_info s.consoles inside in
    let (c1, m1, e, one1) = keeps c s.ram one in
    (
      record s { consoles = put_at found.1 c1 found.0; ram = m1 },
      rw (is, e, with_console) refl,
      put_at-IsInside found.1 c1 found.0 one1 all,
    )

-- While a frame buffer is mapped and the cursors of all consoles are inside them, a text without tabs
-- and without the character 0x7F goes to the frame buffer's console without a panic, and the cursors
-- are inside in the end, whatever scrolls were needed and whether the console had to be made.
pub console_print_first-IsInside :
    (d : VbeVgaDriver) (fb : ℕ) (rest text : List ℕ) (s : Screens)
    → get_framebuffer_addrs d ≡ fb ∷ rest
    → All IsPlain text
    → All IsInside s.consoles
    → (s' : Screens) × (console_print_first (some d) text s ≡ (true, some s'))
      × All IsInside s'.consoles
unfolding console_print_first
console_print_first-IsInside d fb rest text s mapped plain inside =
    let (s', e, all) =
      with_console-IsInside d fb (put_bytes d fb text) s
        (λ c m one. put_bytes-StaysInside d fb text c m plain one) inside in
    (s', rw (mapped, e, console_print_first) refl, all)
