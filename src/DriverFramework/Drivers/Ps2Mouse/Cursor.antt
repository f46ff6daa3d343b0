-- ===== src/DriverFramework/Drivers/Ps2Mouse/Cursor.antt =====
-- src/driver_framework/drivers/ps2mouse.rs: the cursor, moved by packets and drawn into the frame
-- buffer over the pixels that it saves. Positions on the screen and addresses are natural numbers.
use neutrix.Base.{
  ℕ, zero, suc, ◌+◌, ◌-◌, ◌*◌, ◌^◌, Bool, true, not, ◌||◌, Option, none, some, List, [], ◌∷◌, ◌++◌,
  ◌==◌, ltb, if◌then◌else◌, get_or, bit, Ram, load32,
}
use neutrix.Base.Int.{ℤ, pos, negsuc, sub_ℕ, neg, saturating_add}
use neutrix.DriverFramework.Drivers.VbeVga.{
  VbeVgaDriver, FramebufferInfo, get_framebuffer_addrs, pitch_of, pixel,
}
use neutrix.DriverFramework.Drivers.VbeVga.Paint.{paint_rows}
use neutrix.DriverFramework.Drivers.Ps2Mouse.{MousePacket}

pub record Cursor : Type 0 where
  pub cursor_x : ℤ
  pub cursor_y : ℤ
  pub saved_bg : Option (ℕ × ℕ × List ℕ)

abbrev pub new_cursor : Cursor
new_cursor = record { cursor_x = pos 40; cursor_y = pos 40; saved_bg = none }

-- `ARROW`
abbrev pub arrow : List ℕ
arrow =
    2048 ∷ 3072 ∷ 3584 ∷ 3840 ∷ 3968 ∷ 4032 ∷ 4064 ∷ 4080 ∷ 4064 ∷ 4032 ∷ 3968 ∷ 3840 ∷ 3584 ∷ 3072
    ∷ 2048 ∷ 0 ∷ []

abbrev pub arrow_on : ℕ → ℕ → Bool
arrow_on row col = bit (get_or arrow row 0) (11 - col)

-- A coordinate cut to 0 and to the last at which `extent` pixels fit, `as usize`.
unfoldable pub clamp : ℤ → (size extent : ℕ) → ℕ
clamp x size extent =
    let c : ℕ = elim x [ pos n ↦ n | negsuc _ ↦ 0 ] in
    elim (sub_ℕ size extent) [
      | pos last ↦ if ltb last c then last else c
      | negsuc k ↦ 2 ^ 64 - 1 - k
    ]

-- The pixels read, a row after the other.
unfoldable pub capture_cols : VbeVgaDriver → (fb bx y : ℕ) → Ram → (n c : ℕ) → List ℕ
capture_cols d fb bx y m zero c = []
capture_cols d fb bx y m (suc n) c =
    load32 m (pixel d fb (bx + c) y) ∷ capture_cols d fb bx y m n (c + 1)

unfoldable pub capture_rows : VbeVgaDriver → (fb bx by : ℕ) → Ram → (n r : ℕ) → List ℕ
unfolding capture_cols
capture_rows d fb bx by m zero r = []
capture_rows d fb bx by m (suc n) r =
    capture_cols d fb bx (by + r) m 12 0 ++ capture_rows d fb bx by m n (r + 1)

abbrev pub capture : VbeVgaDriver → (fb bx by : ℕ) → Ram → List ℕ
capture d fb bx by m = capture_rows d fb bx by m 16 0

-- The saved pixels written back; a saved area has all its 12 times 16 pixels.
abbrev pub restore : VbeVgaDriver → (fb px py : ℕ) → List ℕ → Ram → Ram
restore d fb px py bg m =
    paint_rows (λ _ _. true) fb (pitch_of d) px py 12 (λ ry rx. get_or bg (ry * 12 + rx) 0) 16 0 m

abbrev pub draw_arrow : VbeVgaDriver → (fb bx by : ℕ) → Ram → Ram
draw_arrow d fb bx by m = paint_rows arrow_on fb (pitch_of d) bx by 12 (λ _ _. 0xFFFFFFFF) 16 0 m

-- The frame buffer once a background that was saved elsewhere is written back.
unfoldable pub uncovered : VbeVgaDriver → (fb bx by : ℕ) → Option (ℕ × ℕ × List ℕ) → Ram → Ram
unfolding paint_rows
uncovered d fb bx by none m = m
uncovered d fb bx by (some (px, py, bg)) m =
    if not (px == bx) || not (py == by) then restore d fb px py bg m else m

-- `redraw_cursor` at the position that was cut to the screen.
unfoldable pub redraw_at : VbeVgaDriver → (fb bx by : ℕ) → Cursor → Ram → Cursor × Ram
unfolding paint_rows capture_rows uncovered
redraw_at d fb bx by s m =
    let m1 = uncovered d fb bx by s.saved_bg m in
    (record s { saved_bg = some (bx, by, capture d fb bx by m1) }, draw_arrow d fb bx by m1)

unfoldable pub redraw_first :
    VbeVgaDriver → List ℕ → Option FramebufferInfo → Cursor → Ram → Cursor × Ram
unfolding redraw_at clamp
redraw_first d [] info s m = (s, m)
redraw_first d (fb ∷ _) none s m = (s, m)
redraw_first d (fb ∷ _) (some info) s m =
    redraw_at d fb (clamp s.cursor_x info.width 12) (clamp s.cursor_y info.height 16) s m

-- The display driver that is active, if one is.
unfoldable pub redraw_cursor : Option VbeVgaDriver → Cursor → Ram → Cursor × Ram
unfolding redraw_first
redraw_cursor none s m = (s, m)
redraw_cursor (some d) s m = redraw_first d (get_framebuffer_addrs d) d.fb_info s m

-- A delta cut to -16 and 16; the sensitivity is one.
abbrev pub clamp_delta : ℤ → ℤ
clamp_delta (pos n) = if ltb 16 n then pos 16 else pos n
clamp_delta (negsuc n) = if ltb 15 n then negsuc 15 else negsuc n

abbrev pub moved : MousePacket → Cursor → Cursor
moved pkt s = record s {
  cursor_x = saturating_add s.cursor_x (clamp_delta pkt.dx);
  cursor_y = saturating_add s.cursor_y (neg (clamp_delta pkt.dy));
}

-- The body of the loop over the packets, and the loop.
unfoldable pub on_packet : Option VbeVgaDriver → MousePacket → Cursor → Ram → Cursor × Ram
unfolding redraw_cursor
on_packet screen pkt s m = redraw_cursor screen (moved pkt s) m

unfoldable pub mouse_event_loop :
    Option VbeVgaDriver → List MousePacket → Cursor → Ram → Cursor × Ram
unfolding on_packet
mouse_event_loop screen [] s m = (s, m)
mouse_event_loop screen (pkt ∷ pkts) s m =
    let (s1, m1) = on_packet screen pkt s m in mouse_event_loop screen pkts s1 m1

unfoldable pub set_cursor_pos : Option VbeVgaDriver → ℤ → ℤ → Cursor → Ram → Cursor × Ram
unfolding redraw_cursor
set_cursor_pos screen x y s m = redraw_cursor screen (record s { cursor_x = x; cursor_y = y }) m
