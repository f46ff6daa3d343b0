-- ===== src/DriverFramework/Drivers/Console.antt =====
-- src/driver_framework/drivers/console.rs: a console for each frame buffer, its cursor and what it
-- draws. The state is the list of consoles, the memory, and the boot text writer that is used while
-- no frame buffer is mapped. `none` is a panic. The lock of the consoles is not modelled.
pub mod Inside
mod Tests
use neutrix.Base.{
  ℕ, zero, suc, ◌+◌, ◌-◌, ◌*◌, ◌/◌, min, Bool, true, false, Option, none, some, List, [], ◌∷◌, ◌++◌,
  ◌==◌, leb, ltb, if◌then◌else◌, get_elem?, Ram, poke, store32,
}
use neutrix.Bootvga.Writer.{Writer, write_string, clear_screen}
use neutrix.Rlib.Mem.Span.{copied}
use neutrix.DriverFramework.Drivers.VbeVga.{
  VbeVgaDriver, FramebufferInfo, get_framebuffer_addrs, pitch_of, draw_rect_at, draw_char_at,
}

pub record Console : Type 0 where
  pub fb_virt : ℕ
  pub cols : ℕ
  pub rows : ℕ
  pub cur_x : ℕ
  pub cur_y : ℕ
  pub fg : ℕ
  pub bg : ℕ
  pub char_w : ℕ
  pub char_h : ℕ

abbrev pub newline : Console → Console
newline c = record c { cur_x = 0; cur_y = c.cur_y + 1 }

-- A size in cells, or a fixed one if it would be none.
abbrev cells_or : ℕ → ℕ → ℕ
cells_or n fixed = if n == 0 then fixed else n

abbrev pub create_console : ℕ → Option FramebufferInfo → Console
create_console fb_virt info = record {
  fb_virt = fb_virt;
  cols = elim info [ none ↦ 80 | some i ↦ cells_or (i.width / 9) 80 ];
  rows = elim info [ none ↦ 25 | some i ↦ cells_or (i.height / 8) 25 ];
  cur_x = 0;
  cur_y = 0;
  fg = 0xFFFFFFFF;
  bg = 0;
  char_w = 9;
  char_h = 8;
}

-- The consoles with one for the frame buffer put at the end if there was none, and its place.
unfoldable pub get_or_create_console : ℕ → Option FramebufferInfo → List Console → List Console × ℕ
get_or_create_console fb_virt info [] = (create_console fb_virt info ∷ [], 0)
get_or_create_console fb_virt info (c ∷ cs) =
    let (rest, i) = get_or_create_console fb_virt info cs in
    if c.fb_virt == fb_virt then (c ∷ cs, 0) else (c ∷ rest, i + 1)

-- The loop that clears from `p` to `end`, four bytes at a time, on fuel: a round moves on by one
-- byte at least.
unfoldable pub clear_from : (bg end fuel p : ℕ) → Ram → Ram
clear_from bg end zero p m = m
clear_from bg end (suc fuel) p m =
    let by_four = clear_from bg end fuel (p + 4) (store32 m p bg) in
    let by_one = clear_from bg end fuel (p + 1) (poke m p 0) in
    if ltb p end then (if leb 4 (end - p) then by_four else by_one) else m

unfoldable pub console_scroll_mut : VbeVgaDriver → (lines : ℕ) → Console → Ram → Console × Ram
unfolding clear_from draw_rect_at
console_scroll_mut d lines c m =
    let all = draw_rect_at d c.fb_virt 0 0 (c.cols * c.char_w) (c.rows * c.char_h) c.bg m in
    let pitch = pitch_of d in
    let move_height = (c.rows - lines) * c.char_h in
    let moved = copied m c.fb_virt (c.fb_virt + lines * c.char_h * pitch) (move_height * pitch) in
    let clear_start = c.fb_virt + (c.rows - lines) * c.char_h * pitch in
    let clear_bytes = lines * c.char_h * pitch in
    let cleared = clear_from c.bg (clear_start + clear_bytes) clear_bytes clear_start moved in
    if lines == 0
    then (c, m)
    else (if leb c.rows lines then (record c { cur_x = 0; cur_y = 0 }, all) else (c, cleared))

-- What follows a new line: a scroll by one row below the last.
unfoldable pub scroll_below : VbeVgaDriver → Console → Ram → Console × Ram
unfolding console_scroll_mut
scroll_below d c m =
    let (c1, m1) = console_scroll_mut d 1 c m in
    if leb c.rows c.cur_y then (record c1 { cur_y = c1.rows - 1 }, m1) else (c, m)

-- The cell to the left, or the last of the row above.
abbrev pub step_back : Console → Console
step_back c =
    if ltb 0 c.cur_x
    then record c { cur_x = c.cur_x - 1 }
    else (if ltb 0 c.cur_y then record c { cur_y = c.cur_y - 1; cur_x = c.cols - 1 } else c)

abbrev pub tab : Console → Console
tab c =
    let next = (c.cur_x / 8 + 1) * 8 in
    if leb c.cols next then newline c else record c { cur_x = next }

-- The cursor moves on behind a character that was drawn.
unfoldable pub advance : VbeVgaDriver → Console → Ram → Console × Ram
unfolding scroll_below
advance d c m =
    let c1 = record c { cur_x = c.cur_x + 1 } in
    if leb c.cols (c.cur_x + 1) then scroll_below d (newline c1) m else (c1, m)

-- The body of the loop over the bytes.
unfoldable pub put_byte : VbeVgaDriver → (fb b : ℕ) → Console → Ram → Option (Console × Ram)
unfolding advance draw_char_at draw_rect_at scroll_below
put_byte d fb b c m =
    let back = step_back c in
    let erased =
      draw_rect_at d fb (back.cur_x * back.char_w) (back.cur_y * back.char_h) back.char_w
        back.char_h back.bg m in
    let drawn : Option (Console × Ram) =
      elim (draw_char_at d fb (c.cur_x * c.char_w) (c.cur_y * c.char_h) b c.fg m) [
        | none ↦ none
        | some m1 ↦ some (advance d c m1)
      ] in
    if b == b'\n'
    then some (scroll_below d (newline c) m)
    else (if b == 13
        then some (record c { cur_x = 0 }, m)
        else (if b == 8 then some (back, erased) else (if b == 9 then some (tab c, m) else drawn)))

unfoldable pub put_bytes : VbeVgaDriver → (fb : ℕ) → List ℕ → Console → Ram → Option (Console × Ram)
unfolding put_byte
put_bytes d fb [] c m = some (c, m)
put_bytes d fb (b ∷ s) c m = elim (put_byte d fb b c m) [
  | none ↦ none
  | some (c1, m1) ↦ put_bytes d fb s c1 m1
]

pub record Screens : Type 0 where
  pub consoles : List Console
  pub ram : Ram
  pub writer : Writer

-- The place is that of a console.
abbrev pub put_at : ℕ → Console → List Console → List Console
put_at i c [] = []
put_at zero c (x ∷ xs) = c ∷ xs
put_at (suc i) c (x ∷ xs) = x ∷ put_at i c xs

-- A change of the console of the frame buffer `fb`, by a function that may panic.
unfoldable pub with_console :
    VbeVgaDriver → (fb : ℕ) → (Console → Ram → Option (Console × Ram)) → Screens → Option Screens
unfolding get_or_create_console
with_console d fb f s =
    let (cs, i) = get_or_create_console fb d.fb_info s.consoles in
    elim (get_elem? cs i) [
      | none ↦ none
      | some c ↦ elim (f c s.ram) [
        | none ↦ none
        | some (c1, m1) ↦ some (record s { consoles = put_at i c1 cs; ram = m1 })
      ]
    ]

-- The first frame buffer of the display driver that is active.
abbrev pub first_fb : Option VbeVgaDriver → Option (VbeVgaDriver × ℕ)
first_fb none = none
first_fb (some d) = elim (get_framebuffer_addrs d) [ [] ↦ none | fb ∷ _ ↦ some (d, fb) ]

-- Whether the text went to a frame buffer.
unfoldable pub console_print_first : Option VbeVgaDriver → List ℕ → Screens → Bool × Option Screens
unfolding with_console put_bytes
console_print_first display text s = elim (first_fb display) [
  | none ↦ elim (write_string s.writer text) [
    | none ↦ (false, none)
    | some w ↦ (false, some (record s { writer = w }))
  ]
  | some (d, fb) ↦ (true, with_console d fb (put_bytes d fb text) s)
]

unfoldable pub console_clear_first : Option VbeVgaDriver → Screens → Option Screens
unfolding with_console draw_rect_at
console_clear_first display s = elim (first_fb display) [
  | none ↦ some (record s { writer = clear_screen s.writer })
  | some (d, fb) ↦
      with_console d fb
        (λ c m. some (
          record c { cur_x = 0; cur_y = 0 },
          draw_rect_at d c.fb_virt 0 0 (c.cols * c.char_w) (c.rows * c.char_h) c.bg m,
        ))
        s
]

unfoldable pub console_set_colors_first :
    Option VbeVgaDriver → (fg bg : ℕ) → Screens → Option Screens
unfolding with_console
console_set_colors_first display fg bg s = elim (first_fb display) [
  | none ↦ some s
  | some (d, fb) ↦ with_console d fb (λ c m. some (record c { fg = fg; bg = bg }, m)) s
]

unfoldable pub console_set_cursor_first :
    Option VbeVgaDriver → (col row : ℕ) → Screens → Option Screens
unfolding with_console
console_set_cursor_first display col row s = elim (first_fb display) [
  | none ↦ some s
  | some (d, fb) ↦
      with_console d fb
        (λ c m. some (record c { cur_x = min col (c.cols - 1); cur_y = min row (c.rows - 1) }, m)) s
]
