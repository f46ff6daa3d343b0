-- ===== src/Bootvga/Writer/Text.antt =====
-- src/bootvga/vga_buffer.rs: `write_string`, and moves of the cursor.
use neutrix.Base.{
  ℕ, ◌+◌, ◌<◌, ◌≡◌, ◌≢◌, refl, ◌⊎◌, inl, inr, Bool, true, false, not, ◌||◌, ◌&&◌, Option, some,
  List, [], ◌∷◌, if◌then◌else◌, leb, ltb, ◌==◌, Bool-cases, arith,
}
use native.Mathlib.Decide.{ℕ_discrete}
use neutrix.Bootvga.Writer.{
  ScreenChar, Writer, new_line, write_byte, write_string, shown, update_cursor, set_position,
  buffer_height, buffer_width,
}
use neutrix.Bootvga.Writer.Write.{
  IsValid, Wrote, CursorSent, new_line_lem, new_line-IsValid, write_byte-Wrote,
  update_cursor-CursorSent, scrolls, target_row, target_col,
}

-- A character of the printable ASCII range, or the replacement 0xfe.
abbrev pub is_glyph : ℕ → Bool
is_glyph x = (leb 0x20 x && leb x 0x7e) || x == 0xfe

-- Every cell of the screen shows such a character.
abbrev pub IsClean : Writer → Type 0
IsClean w =
    (i k : ℕ)
    → i < buffer_height
    → k < buffer_width
    → is_glyph (w.buffer i k).ascii_character ≡ true

glyph_if :
    (b : Bool) (x y : ScreenChar)
    → is_glyph x.ascii_character ≡ true
    → is_glyph y.ascii_character ≡ true
    → is_glyph (if b then x else y).ascii_character ≡ true
glyph_if true x y h k = h
glyph_if false x y h k = k

new_line-IsClean : (w : Writer) → IsValid w → IsClean w → IsClean (new_line w)
new_line-IsClean w v c i k hi hk = rw ((new_line_lem w v).3 i k hi hk) (
    glyph_if (not (w.row_position == 24)) _ _ (c i k hi hk) (elim (Bool-cases (i == 24)) [
      | inl last ↦ rw last refl
      | inr up ↦ rw up (c (i + 1) k (ground arith) hk)
    ]))

Wrote-IsClean :
    (w : Writer) (byte : ℕ) {r : Option Writer} (t : Wrote w byte r)
    → is_glyph byte ≡ true
    → IsClean w
    → IsClean t.out
Wrote-IsClean w byte t g c i k hi hk = rw (t.cells i k hi hk) (
    glyph_if (i == target_row w && k == target_col w) _ _ g (
      glyph_if (not (scrolls w)) _ _ (c i k hi hk) (elim (Bool-cases (i == 24)) [
        | inl last ↦ rw last refl
        | inr up ↦ rw up (c (i + 1) k (ground arith) hk)
      ])))

shown_cases :
    (byte : ℕ) → (shown byte ≡ b'\n') ⊎ ((shown byte ≢ b'\n') × (is_glyph (shown byte) ≡ true))
unfolding shown
shown_cases byte = elim (ℕ_discrete byte b'\n') [
  | yes e ↦ inl (ground arith)
  | no ne ↦ elim (Bool-cases (leb 0x20 byte && leb byte 0x7e)) [
    | inl seen ↦ inr (ground arith, ground arith)
    | inr other ↦
        let e : shown byte ≡ 0xfe =
          (let ne' : (byte == b'\n') ≡ false = ground arith in rw (other, ne', shown) refl) in
        inr (rw e (omega arith), rw e refl)
  ]
]

-- One byte of a text: it never panics, and keeps the cursor and the screen in order.
shown_step :
    (w : Writer) (byte : ℕ)
    → IsValid w
    → IsClean w
    → (out : Writer) × (write_byte w (shown byte) ≡ some out) × IsValid out × IsClean out
shown_step w byte v c = elim (shown_cases byte) [
  | inl newline ↦ (
    new_line w,
    rw newline (unfold write_byte in refl),
    new_line-IsValid w v,
    new_line-IsClean w v c,
  )
  | inr (visible, glyph) ↦
      let t = write_byte-Wrote w (shown byte) v visible in
      (t.out, t.returns, t.valid, Wrote-IsClean w (shown byte) t glyph c)
]

-- `write_string` on any bytes, from a cursor on the screen, panics nowhere, leaves the cursor on
-- the screen, and leaves only printable characters and 0xfe on a screen that had no others.
pub write_string-IsClean :
    (w : Writer) (s : List ℕ)
    → IsValid w
    → IsClean w
    → (out : Writer) × (write_string w s ≡ some out) × IsValid out × IsClean out
unfolding write_string
write_string-IsClean w [] v c = (w, refl, v, c)
write_string-IsClean w (byte ∷ s) v c =
    let one = shown_step w byte v c in
    let rest = write_string-IsClean one.0 s one.2 one.3 in
    (rest.0, rw (one.1, write_string) rest.1, rest.2, rest.3)

-- `set_position` moves to a cell of the screen and ignores any other position; the hardware
-- cursor is sent in both cases.
pub set_position_lem :
    (w : Writer) (row col : ℕ)
    → IsValid w
    → let out = set_position w row col in
      let inside = ltb row buffer_height && ltb col buffer_width in
      IsValid out
      × (out.row_position ≡ (if inside then row else w.row_position))
      × (out.column_position ≡ (if inside then col else w.column_position))
      × (out.buffer ≡ w.buffer)
      × CursorSent out
unfolding set_position
set_position_lem w row col v = elim (Bool-cases (ltb row 25 && ltb col 80)) [
  | inl inside ↦
      let moved : Writer = record w { row_position = row; column_position = col } in
      let valid : IsValid moved = record { row_in = ground arith; col_in = ground arith } in
      rw (inside, set_position)
        (
          (let u = valid in
              unfold update_cursor in record { row_in = u.row_in; col_in = u.col_in }),
          (unfold update_cursor in refl),
          (unfold update_cursor in refl),
          (unfold update_cursor in refl),
          update_cursor-CursorSent moved valid,
        )
  | inr out ↦
      rw (out, set_position)
        (
          (unfold update_cursor in record { row_in = v.row_in; col_in = v.col_in }),
          (unfold update_cursor in refl),
          (unfold update_cursor in refl),
          (unfold update_cursor in refl),
          update_cursor-CursorSent w v,
        )
]
