-- ===== src/Bootvga/Writer/Screen.antt =====
-- src/bootvga/vga_buffer.rs: what scrolling and clearing leave on the screen.
use neutrix.Base.{
  ℕ, zero, suc, ◌+◌, ◌-◌, ◌<◌, ◌≡◌, refl, ◌∙◌, ◌&&◌, if◌then◌else◌, leb, ltb, ◌==◌, arith,
}
use neutrix.Bootvga.Writer.{
  ScreenChar, Buffer, put, Writer, shift_cols, shift_rows, clear_cols, clear_row, shift_up,
  clear_rows, clear_screen, buffer_height, buffer_width,
}

shift_cols_lem :
    (b : Buffer) (row col left r k : ℕ)
    → 0 < row
    → shift_cols b row col left r k
      ≡ (if (r == row - 1) && (leb col k && ltb k (col + left)) then b row k else b r k)
unfolding shift_cols
shift_cols_lem b row col zero r k h = ground arith
shift_cols_lem b row col (suc left) r k h =
    rw (shift_cols_lem (put b (row - 1) col (b row col)) row (col + 1) left r k h) (ground arith)

shift_rows_lem :
    (b : Buffer) (row left r k : ℕ)
    → 0 < row
    → k < buffer_width
    → shift_rows b row left r k
      ≡ (if leb (row - 1) r && ltb r (row - 1 + left) then b (r + 1) k else b r k)
unfolding shift_rows
shift_rows_lem b row zero r k h in_row = ground arith
shift_rows_lem b row (suc left) r k h in_row =
    rw (shift_rows_lem (shift_cols b row 0 buffer_width) (row + 1) left r k (omega arith) in_row) (
      ground (
        arith,
        shift_cols_lem b row 0 buffer_width (r + 1) k h,
        shift_cols_lem b row 0 buffer_width r k h,
      ))

clear_cols_lem :
    (b : Buffer) (blank : ScreenChar) (row col left r k : ℕ)
    → clear_cols b blank row col left r k
      ≡ (if (r == row) && (leb col k && ltb k (col + left)) then blank else b r k)
unfolding clear_cols
clear_cols_lem b blank row col zero r k = ground arith
clear_cols_lem b blank row col (suc left) r k =
    rw (clear_cols_lem (put b row col blank) blank row (col + 1) left r k) (ground arith)

abbrev pub blank_of : Writer → ScreenChar
blank_of w = record { ascii_character = b' '; color_code = w.color }

-- `shift_up` moves every row of the screen one up and blanks the last.
pub shift_up_lem :
    (w : Writer) (r k : ℕ)
    → r < buffer_height
    → k < buffer_width
    → (shift_up w).buffer r k ≡ (if r == buffer_height - 1 then blank_of w else w.buffer (r + 1) k)
unfolding shift_up clear_row
shift_up_lem w r k hr hk =
    rw (clear_cols_lem (shift_rows w.buffer 1 24) (blank_of w) 24 0 80 r k)
      (ground (arith, shift_rows_lem w.buffer 1 24 r k (omega arith) hk))

clear_rows_lem :
    (w : Writer) (row left r k : ℕ)
    → k < buffer_width
    → ((clear_rows w row left).buffer r k
        ≡ (if leb row r && ltb r (row + left) then blank_of w else w.buffer r k))
      × ((clear_rows w row left).color ≡ w.color)
unfolding clear_rows clear_row
clear_rows_lem w row zero r k hk = (ground arith, refl)
clear_rows_lem w row (suc left) r k hk =
    let next = clear_rows_lem (clear_row w row) (row + 1) left r k hk in
    (ground (arith, next.0, clear_cols_lem w.buffer (blank_of w) row 0 80 r k), next.1)

-- `clear_screen` blanks every cell of the screen and moves to the top left corner.
pub clear_screen_lem :
    (w : Writer) (r k : ℕ)
    → r < buffer_height
    → k < buffer_width
    → ((clear_screen w).buffer r k ≡ blank_of w)
      × ((clear_screen w).row_position ≡ 0)
      × ((clear_screen w).column_position ≡ 0)
unfolding clear_screen
clear_screen_lem w r k hr hk =
    ((clear_rows_lem w 0 buffer_height r k hk).0 ∙ ground arith, refl, refl)
