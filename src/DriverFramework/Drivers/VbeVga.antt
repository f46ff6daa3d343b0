-- ===== src/DriverFramework/Drivers/VbeVga.antt =====
-- src/driver_framework/drivers/vbe_vga.rs: the frame buffer's driver, drawing. Addresses and
-- products with the pitch are natural numbers: a frame buffer that reaches the end of the address
-- space is not described. `none` is a panic. The logging prints are left out.
pub mod Font
pub mod Paint
pub mod Start
pub mod Draw
pub mod Restore
mod Tests
use neutrix.Base.{
  ℕ, zero, suc, ◌+◌, ◌-◌, ◌*◌, ◌/◌, ◌%◌, ◌^◌, bit_xor, Bool, true, false, ◌||◌, Option, none, some,
  List, [], ◌∷◌, ◌==◌, ltb, if◌then◌else◌, get_elem?, get_or, length, u8, add64, bit, Ram, store32,
}
use neutrix.Bootvga.Writer.{
  Color, black, blue, green, cyan, red, magenta, brown, light_gray, dark_gray, light_blue,
  light_green, light_cyan, light_red, pink, yellow, white,
}
use neutrix.DriverFramework.Drivers.VbeVga.Font.{font8x8}
use neutrix.DriverFramework.Drivers.VbeVga.Paint.{paint_cols, paint_rows}

pub record FbMapping : Type 0 where
  pub virt_base : ℕ
  pub phys_map_start : ℕ
  pub bar_phys : ℕ
  pub pages : ℕ

pub record FramebufferInfo : Type 0 where
  pub width : ℕ
  pub height : ℕ
  pub bpp : ℕ
  pub pitch : ℕ

pub record VbeVgaDriver : Type 0 where
  pub started : Bool
  pub mappings : List FbMapping
  pub fb_info : Option FramebufferInfo

abbrev pub new_driver : VbeVgaDriver
new_driver = record { started = false; mappings = []; fb_info = none }

-- The result is a panic, or what the function returns.
unfoldable pub get_glyph : ℕ → Option (Option (List ℕ))
unfolding font8x8
get_glyph ch =
    if ltb ch 0x20 || ltb 0x7F ch
    then some none
    else elim (get_elem? font8x8 (ch - 0x20)) [ none ↦ none | some glyph ↦ some (some glyph) ]

unfoldable pub vbe_color_from_vga_color : Color → ℕ
vbe_color_from_vga_color black = 0xFF000000
vbe_color_from_vga_color blue = 0xFF0000AA
vbe_color_from_vga_color green = 0xFF00AA00
vbe_color_from_vga_color cyan = 0xFF00AAAA
vbe_color_from_vga_color red = 0xFFAA0000
vbe_color_from_vga_color magenta = 0xFFAA00AA
vbe_color_from_vga_color brown = 0xFFAA5500
vbe_color_from_vga_color light_gray = 0xFFAAAAAA
vbe_color_from_vga_color dark_gray = 0xFF555555
vbe_color_from_vga_color light_blue = 0xFF5555FF
vbe_color_from_vga_color light_green = 0xFF55FF55
vbe_color_from_vga_color light_cyan = 0xFF55FFFF
vbe_color_from_vga_color light_red = 0xFFFF5555
vbe_color_from_vga_color pink = 0xFFFF55FF
vbe_color_from_vga_color yellow = 0xFFFFFF55
vbe_color_from_vga_color white = 0xFFFFFFFF

abbrev addresses_of : List FbMapping → List ℕ
addresses_of [] = []
addresses_of (b ∷ bs) = add64 b.virt_base (b.bar_phys - b.phys_map_start) ∷ addresses_of bs

-- `get_framebuffer_addrs`; a base register lies behind the start of its mapping.
abbrev pub get_framebuffer_addrs : VbeVgaDriver → List ℕ
get_framebuffer_addrs d = addresses_of d.mappings

abbrev pub pitch_of : VbeVgaDriver → ℕ
pitch_of d = elim d.fb_info [ some info ↦ info.pitch | none ↦ 1024 * 4 ]

-- The address of a pixel.
abbrev pub pixel : VbeVgaDriver → ℕ → ℕ → ℕ → ℕ
pixel d fb_virt x y = fb_virt + y * pitch_of d + x * 4

unfoldable pub draw_pixel_at : VbeVgaDriver → (fb_virt x y color : ℕ) → Ram → Ram
draw_pixel_at d fb_virt x y color m = store32 m (pixel d fb_virt x y) color

unfoldable pub draw_rect_at : VbeVgaDriver → (fb_virt x y w h color : ℕ) → Ram → Ram
unfolding paint_rows
draw_rect_at d fb_virt x y w h color m =
    paint_rows (λ _ _. true) fb_virt (pitch_of d) x y w (λ _ _. color) h 0 m

-- `bits & (1 << (7 - c))`
abbrev pub glyph_on : List ℕ → ℕ → ℕ → Bool
glyph_on glyph r c = bit (get_or glyph r 0) (7 - c)

-- `u8::rotate_left`
abbrev pub rotate_left : ℕ → ℕ → ℕ
rotate_left b k = u8 (b * 2 ^ k) + b / 2 ^ (8 - k)

-- The glyph that is made up for other characters.
unfoldable pub fallback_on : ℕ → ℕ → ℕ → Bool
fallback_on ch r c = bit (rotate_left (bit_xor (u8 (ch + r)) (ch / 2 ^ (r % 8))) (r % 8)) c

unfoldable pub draw_char_at : VbeVgaDriver → (fb_virt x y ch color : ℕ) → Ram → Option Ram
unfolding get_glyph paint_rows fallback_on
draw_char_at d fb_virt x y ch color m = elim (get_glyph ch) [
  | none ↦ none
  | some (some glyph) ↦
      some (paint_rows (glyph_on glyph) fb_virt (pitch_of d) x y 8 (λ _ _. color) 8 0 m)
  | some none ↦ some (paint_rows (fallback_on ch) fb_virt (pitch_of d) x y 8 (λ _ _. color) 8 0 m)
]

-- The loop over the bytes, at the column `cx`.
unfoldable pub draw_text_absolute :
    VbeVgaDriver → (fb_virt cx y : ℕ) → List ℕ → (color : ℕ) → Ram → Option Ram
unfolding draw_char_at
draw_text_absolute d fb_virt cx y [] color m = some m
draw_text_absolute d fb_virt cx y (b ∷ s) color m =
    let drawn : Option Ram = if b == b'\n' then some m else draw_char_at d fb_virt cx y b color m in
    let next = if b == b'\n' then cx else cx + 9 in
    elim drawn [ none ↦ none | some m1 ↦ draw_text_absolute d fb_virt next y s color m1 ]
