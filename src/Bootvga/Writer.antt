-- ===== src/Bootvga/Writer.antt =====
-- src/bootvga/vga_buffer.rs: the text writer. The screen is a function of row and column, and the
-- bytes sent to the CRT controller's ports are kept as a list, newest first. `none` is a panic on
-- an index out of the array.
pub mod Screen
pub mod Write
pub mod Text
mod Tests
use neutrix.Base.{
  ℕ, zero, suc, ◌+◌, ◌-◌, ◌*◌, ◌/◌, ◌%◌, ◌^◌, Bool, true, false, not, ◌||◌, ◌&&◌, Option, none,
  some, List, [], ◌∷◌, if◌then◌else◌, leb, ltb, ◌==◌, bit_or, u8, u16, ◌>>>◌,
}

pub data Color : Type 0 where
  black blue green cyan red magenta brown light_gray : Color
  dark_gray light_blue light_green light_cyan light_red pink yellow white : Color

-- `color as u8`
unfoldable pub color_index : Color → ℕ
color_index black = 0
color_index blue = 1
color_index green = 2
color_index cyan = 3
color_index red = 4
color_index magenta = 5
color_index brown = 6
color_index light_gray = 7
color_index dark_gray = 8
color_index light_blue = 9
color_index light_green = 10
color_index light_cyan = 11
color_index light_red = 12
color_index pink = 13
color_index yellow = 14
color_index white = 15

-- `ColorCode::new`
unfoldable pub color_code : Color → Color → ℕ
unfolding color_index
color_code foreground background =
    bit_or (u8 (color_index background * 2 ^ 4)) (color_index foreground)

pub record ScreenChar : Type 0 where
  pub ascii_character : ℕ
  pub color_code : ℕ

abbrev pub buffer_height : ℕ
buffer_height = 25

abbrev pub buffer_width : ℕ
buffer_width = 80

abbrev pub Buffer : Type 0
Buffer = ℕ → ℕ → ScreenChar

-- `chars[row][col].write(c)`, for a row and a column inside the array
abbrev pub put : Buffer → ℕ → ℕ → ScreenChar → Buffer
put b row col c r k = if r == row && k == col then c else b r k

pub record Writer : Type 0 where
  pub row_position : ℕ
  pub column_position : ℕ
  pub color : ℕ
  pub buffer : Buffer
  pub ports : List (ℕ × ℕ)

-- `WRITER` as it is first created, over what the screen shows.
unfoldable pub initial : Buffer → Writer
unfolding color_code
initial b = record {
  row_position = buffer_height - 1;
  column_position = 0;
  color = color_code yellow black;
  buffer = b;
  ports = [];
}

-- `pos` in `u16`
unfoldable pub cursor_pos : Writer → ℕ
cursor_pos w = u16 (u16 (u16 w.row_position * buffer_width) + u16 w.column_position)

unfoldable pub update_cursor : Writer → Writer
unfolding cursor_pos
update_cursor w = record w {
  ports =
      (0x3D5, cursor_pos w % 256)
      ∷ (0x3D4, 0x0F)
      ∷ (0x3D5, u8 (cursor_pos w >>> 8))
      ∷ (0x3D4, 0x0E)
      ∷ w.ports;
}

-- `for col in col..col + left` of `shift_up`
unfoldable pub shift_cols : Buffer → ℕ → ℕ → ℕ → Buffer
shift_cols b row col zero = b
shift_cols b row col (suc left) = shift_cols (put b (row - 1) col (b row col)) row (col + 1) left

-- `for row in row..row + left` of `shift_up`
unfoldable pub shift_rows : Buffer → ℕ → ℕ → Buffer
shift_rows b row zero = b
shift_rows b row (suc left) = shift_rows (shift_cols b row 0 buffer_width) (row + 1) left

unfoldable pub clear_cols : Buffer → ScreenChar → ℕ → ℕ → ℕ → Buffer
clear_cols b blank row col zero = b
clear_cols b blank row col (suc left) = clear_cols (put b row col blank) blank row (col + 1) left

unfoldable pub clear_row : Writer → ℕ → Writer
clear_row w row =
    let blank : ScreenChar = record { ascii_character = b' '; color_code = w.color } in
    record w { buffer = clear_cols w.buffer blank row 0 buffer_width }

unfoldable pub shift_up : Writer → Writer
shift_up w =
    clear_row (record w { buffer = shift_rows w.buffer 1 (buffer_height - 1) }) (buffer_height - 1)

unfoldable pub new_line : Writer → Writer
new_line w =
    let start = record w { column_position = 0 } in
    update_cursor (
      if ltb w.row_position (buffer_height - 1)
      then record start { row_position = w.row_position + 1 }
      else shift_up start)

-- The second half of `write_byte`'s main branch: the write at `row`, `col`, and the cursor.
unfoldable pub put_byte : Writer → ℕ → Option Writer
put_byte w byte =
    let char : ScreenChar = record { ascii_character = byte; color_code = w.color } in
    if ltb w.row_position buffer_height && ltb w.column_position buffer_width
    then some (
        update_cursor (record w {
          buffer = put w.buffer w.row_position w.column_position char;
          column_position = w.column_position + 1;
        }))
    else none

unfoldable pub write_byte : Writer → ℕ → Option Writer
write_byte w byte =
    let wrapped = if leb buffer_width w.column_position then new_line w else w in
    let scrolled =
      if leb buffer_height wrapped.row_position
      then record (shift_up wrapped) { row_position = buffer_height - 1 }
      else wrapped in
    if byte == b'\n' then some (new_line w) else put_byte scrolled byte

-- What `write_string` sends for a byte.
unfoldable pub shown : ℕ → ℕ
shown byte = if (leb 0x20 byte && leb byte 0x7e) || byte == b'\n' then byte else 0xfe

unfoldable pub write_string : Writer → List ℕ → Option Writer
write_string w [] = some w
write_string w (byte ∷ s) = elim (write_byte w (shown byte)) [
  | none ↦ none
  | some w' ↦ write_string w' s
]

unfoldable pub set_color : Writer → Color → Color → Writer
unfolding color_code
set_color w foreground background = record w { color = color_code foreground background }

unfoldable pub set_position : Writer → ℕ → ℕ → Writer
set_position w row col = update_cursor (
    if ltb row buffer_height && ltb col buffer_width
    then record w { row_position = row; column_position = col }
    else w)

-- `for row in row..row + left { self.clear_row(row) }`
unfoldable pub clear_rows : Writer → ℕ → ℕ → Writer
clear_rows w row zero = w
clear_rows w row (suc left) = clear_rows (clear_row w row) (row + 1) left

unfoldable pub clear_screen : Writer → Writer
clear_screen w = record (clear_rows w 0 buffer_height) { row_position = 0; column_position = 0 }
