-- ===== src/DriverFramework/Drivers/VbeVga/Tests.antt =====
-- src/driver_framework/drivers/vbe_vga.rs: the letter L on a screen with a pitch of 64 bytes.
use neutrix.Base.{ℕ, ◌+◌, ◌≡◌, ◌*◌, refl, Option, none, some, List, Ram, load32, arith}
use neutrix.DriverFramework.Drivers.VbeVga.Font.{font8x8}
use neutrix.DriverFramework.Drivers.VbeVga.Paint.{paint_rows, paint_cols}
use neutrix.DriverFramework.Drivers.VbeVga.{VbeVgaDriver, new_driver, get_glyph, draw_char_at}
use neutrix.DriverFramework.Drivers.VbeVga.Draw.{Painted, shows, draw_char_at-Painted}

abbrev screen : VbeVgaDriver
screen = record new_driver {
  fb_info = some (record { width = 16; height = 16; bpp = 32; pitch = 64 });
}

abbrev dark : Ram
dark p = 0

abbrev pixel_of : Option Ram → ℕ → ℕ
pixel_of none x = 0
pixel_of (some m) x = load32 m (4096 + x * 4)

-- The first row of L is 0xf0: its fourth pixel is lit.
draw_run : pixel_of (draw_char_at screen 4096 8 0 b'L' 0xFFFFFF dark) 11 ≡ 0xFFFFFF
unfolding draw_char_at get_glyph font8x8 paint_rows paint_cols
draw_run = refl

-- There is no row for 0x7F.
draw_panics : draw_char_at screen 4096 8 0 0x7F 0xFFFFFF dark ≡ none
unfolding draw_char_at get_glyph font8x8
draw_panics = refl

draw_char_at-Painted_example :
    (g : Option (List ℕ)) × (m' : Ram) × (get_glyph b'L' ≡ some g)
    × (draw_char_at screen 4096 8 0 b'L' 0xFFFFFF dark ≡ some m')
    × Painted screen (shows g b'L') 4096 8 0 8 8 0xFFFFFF dark m'
draw_char_at-Painted_example =
    draw_char_at-Painted screen 4096 8 0 b'L' 0xFFFFFF dark (λ e. omega arith) (omega arith)
      (omega arith)
