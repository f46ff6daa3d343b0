-- ===== src/DriverFramework/Drivers/Ps2Mouse/CursorTests.antt =====
-- src/driver_framework/drivers/ps2mouse.rs: a cursor that moves on a dark screen.
use neutrix.Base.{◌+◌, ◌≤◌, ◌≡◌, refl, inl, inr, some, [], ◌∷◌, true, Ram, arith}
use neutrix.Base.Int.{pos}
use neutrix.DriverFramework.Drivers.VbeVga.{VbeVgaDriver}
use neutrix.DriverFramework.Drivers.Ps2Mouse.Cursor.{
  Cursor, new_cursor, clamp, capture, draw_arrow, redraw_cursor,
}
use neutrix.DriverFramework.Drivers.Ps2Mouse.Trail.{ShownAt, redraw_cursor-ShownAt}

abbrev display : VbeVgaDriver
display = record {
  started = true;
  mappings = record { virt_base = 4096; phys_map_start = 0; bar_phys = 0; pages = 768 } ∷ [];
  fb_info = some (record { width = 1024; height = 768; bpp = 32; pitch = 4096 });
}

abbrev dark : Ram
dark p = 0

-- The arrow is shown in the corner.
abbrev in_corner : Cursor
in_corner = record new_cursor { saved_bg = some (0, 0, capture display 4096 0 0 dark) }

clamp_run : clamp (pos 2000) 1024 12 ≡ 1012
unfolding clamp
clamp_run = refl

redraw_cursor-ShownAt_example :
    let bx = clamp (pos 40) 1024 12 in
    let by = clamp (pos 40) 768 16 in
    let (s', m') = redraw_cursor (some display) in_corner (draw_arrow display 4096 0 0 dark) in
    ShownAt display 4096 bx by dark s' m' × (bx + 12 ≤ 1024) × (by + 16 ≤ 768)
redraw_cursor-ShownAt_example =
    redraw_cursor-ShownAt display 4096 []
      (record { width = 1024; height = 768; bpp = 32; pitch = 4096 }) dark in_corner
      (draw_arrow display 4096 0 0 dark) (λ p. omega arith) refl refl (omega arith) (omega arith)
      (inr (0, 0, inl (unfold clamp in λ e. omega arith), record { saved = refl; drawn = refl }))
