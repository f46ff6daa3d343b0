-- ===== src/Bootvga/Writer/Write.antt =====
-- src/bootvga/vga_buffer.rs: `write_byte` on every branch.
use neutrix.Base.{
  ℕ, ◌+◌, ◌*◌, ◌/◌, ◌%◌, ◌≤◌, ◌<◌, ◌≡◌, ◌≢◌, refl, ◌∙◌, ap, inl, inr, Bool, false, not, ◌&&◌,
  Option, some, List, ◌∷◌, if◌then◌else◌, leb, ltb, ◌==◌, Bool-cases, min, u8, u16, ◌>>>◌, arith,
}
use neutrix.Bootvga.Writer.{
  ScreenChar, put, Writer, cursor_pos, update_cursor, clear_row, shift_up, new_line, put_byte,
  write_byte, buffer_height, buffer_width,
}
use neutrix.Bootvga.Writer.Screen.{blank_of, shift_up_lem}

-- The cursor's row is on the screen, and its column on it or just behind its right edge.
pub record IsValid (w : Writer) : Type 0 where
  pub row_in : w.row_position < buffer_height
  pub col_in : w.column_position ≤ buffer_width

-- The row and the column that the next visible byte goes to, and whether the screen scrolls first.
abbrev pub wraps : Writer → Bool
wraps w = leb buffer_width w.column_position

abbrev pub target_row : Writer → ℕ
target_row w = if wraps w then min (w.row_position + 1) 24 else w.row_position

abbrev pub target_col : Writer → ℕ
target_col w = if wraps w then 0 else w.column_position

abbrev pub scrolls : Writer → Bool
scrolls w = wraps w && w.row_position == 24

shift_up_fields :
    (w : Writer)
    → ((shift_up w).row_position ≡ w.row_position)
      × ((shift_up w).column_position ≡ w.column_position)
      × ((shift_up w).color ≡ w.color)
unfolding shift_up clear_row
shift_up_fields w = (refl, refl, refl)

-- A new line goes to the start of the next row, or of the last row of a screen moved up by one.
pub new_line_lem :
    (w : Writer)
    → IsValid w
    → ((new_line w).row_position ≡ min (w.row_position + 1) 24)
      × ((new_line w).column_position ≡ 0)
      × ((new_line w).color ≡ w.color)
      × ((r k : ℕ)
          → r < buffer_height
          → k < buffer_width
          → (new_line w).buffer r k ≡ (
              if not (w.row_position == 24)
              then w.buffer r k
              else (if r == 24 then blank_of w else w.buffer (r + 1) k)))
unfolding new_line update_cursor
new_line_lem w v = elim (Bool-cases (ltb w.row_position 24)) [
  | inl above ↦ rw above (ground arith, refl, refl, λ r k hr hk. ground arith)
  | inr last ↦
      let start : Writer = record w { column_position = 0 } in
      let same = shift_up_fields start in
      rw last (
        ground (arith, same),
        same.1,
        same.2,
        λ r k hr hk. ground (arith, shift_up_lem start r k hr hk),
      )
]

pub new_line-IsValid : (w : Writer) → IsValid w → IsValid (new_line w)
new_line-IsValid w v =
    let n = new_line_lem w v in
    record { row_in = let e = n.0 in omega arith; col_in = let e = n.1 in omega arith }

-- The last four port writes put the hardware cursor at the writer's row and column.
abbrev pub CursorSent : Writer → Type 0
CursorSent w =
    (rest : List (ℕ × ℕ)) × (w.ports
      ≡ (0x3D5, (w.row_position * 80 + w.column_position) % 256)
        ∷ (0x3D4, 0x0F)
        ∷ (0x3D5, (w.row_position * 80 + w.column_position) / 256)
        ∷ (0x3D4, 0x0E)
        ∷ rest)

pub update_cursor-CursorSent : (w : Writer) → IsValid w → CursorSent (update_cursor w)
unfolding update_cursor cursor_pos
update_cursor-CursorSent w v =
    let pos : u16 (u16 (u16 w.row_position * buffer_width) + u16 w.column_position)
        ≡ w.row_position * 80 + w.column_position =
      (let r = v.row_in in let c = v.col_in in omega arith) in
    let high : u8 ((w.row_position * 80 + w.column_position) >>> 8)
        ≡ (w.row_position * 80 + w.column_position) / 256 =
      (let r = v.row_in in let c = v.col_in in omega arith) in
    (w.ports, rw (pos, high) refl)

-- What a visible byte does.
pub record Wrote (w : Writer) (byte : ℕ) (r : Option Writer) : Type 0 where
  pub out : Writer
  pub returns : r ≡ some out
  pub row : out.row_position ≡ target_row w
  pub col : out.column_position ≡ target_col w + 1
  pub color : out.color ≡ w.color
  pub cells :
      (i k : ℕ)
      → i < buffer_height
      → k < buffer_width
      → out.buffer i k ≡ (
          if i == target_row w && k == target_col w
          then (let c : ScreenChar = record { ascii_character = byte; color_code = w.color } in c)
          else (if not (scrolls w)
              then w.buffer i k
              else (if i == 24 then blank_of w else w.buffer (i + 1) k)))
  pub valid : IsValid out
  pub cursor : CursorSent out

-- `put_byte` in front of the right edge.
put_byte_lem :
    (w : Writer) (byte : ℕ)
    → w.row_position < buffer_height
    → w.column_position < buffer_width
    → (out : Writer) × (put_byte w byte ≡ some out)
      × (out.row_position ≡ w.row_position)
      × (out.column_position ≡ w.column_position + 1)
      × (out.color ≡ w.color)
      × ((i k : ℕ)
          → out.buffer i k ≡ (
              if i == w.row_position && k == w.column_position
              then (let c : ScreenChar = record { ascii_character = byte; color_code = w.color } in
                  c)
              else w.buffer i k))
      × CursorSent out
unfolding put_byte
put_byte_lem w byte hr hc =
    let char : ScreenChar = record { ascii_character = byte; color_code = w.color } in
    let next : Writer = record w {
      buffer = put w.buffer w.row_position w.column_position char;
      column_position = w.column_position + 1;
    } in
    (
      update_cursor next,
      ground arith,
      (unfold update_cursor in refl),
      (unfold update_cursor in refl),
      (unfold update_cursor in refl),
      (λ i k. unfold update_cursor in ground arith),
      update_cursor-CursorSent next (record { row_in = hr; col_in = omega arith }),
    )

module _ (w : Writer) (byte : ℕ) (v : IsValid w) (visible : byte ≢ b'\n') where
  -- The writer that the byte is put by.
  abbrev ready : Writer
  ready = if wraps w then new_line w else w

  ready_row : ready.row_position ≡ target_row w
  ready_row = ground (arith, new_line_lem w v)

  ready_col : ready.column_position ≡ target_col w
  ready_col = ground (arith, new_line_lem w v)

  ready_color : ready.color ≡ w.color
  ready_color = ground (arith, new_line_lem w v)

  ready_cells :
      (i k : ℕ)
      → i < buffer_height
      → k < buffer_width
      → ready.buffer i k ≡ (
          if not (scrolls w)
          then w.buffer i k
          else (if i == 24 then blank_of w else w.buffer (i + 1) k))
  ready_cells i k hi hk = let cells = (new_line_lem w v).3 i k hi hk in ground arith

  write_byte-ready : write_byte w byte ≡ put_byte ready byte
  unfolding write_byte
  write_byte-ready =
      let inside : leb buffer_height ready.row_position ≡ false =
        (let r = v.row_in in rw ready_row (ground arith)) in
      let other : (byte == b'\n') ≡ false = ground arith in rw (other, inside) refl

  -- From a cursor on the screen, a byte that is no newline goes to the cursor's cell, or to the
  -- start of the next row behind the right edge, with a scroll on the last row; no other cell
  -- changes, nothing panics, the cursor stays on the screen and is sent to the hardware.
  pub write_byte-Wrote : Wrote w byte (write_byte w byte)
  write_byte-Wrote =
      let r = v.row_in in
      let c = v.col_in in
      let p = put_byte_lem ready byte (rw ready_row (ground arith)) (rw ready_col (ground arith)) in
      record {
        out = p.0;
        returns = write_byte-ready ∙ p.1;
        row = p.2 ∙ ready_row;
        col = p.3 ∙ ap (λ x. x + 1) ready_col;
        color = p.4 ∙ ready_color;
        cells = λ i k hi hk.
            p.5 i k ∙ (rw (ready_row, ready_col, ready_color, ready_cells i k hi hk) refl);
        valid = record {
          row_in = rw (p.2, ready_row) (ground arith);
          col_in = rw (p.3, ready_col) (ground arith);
        };
        cursor = p.6;
      }
