-- ===== src/Bootvga/Writer/Tests.antt =====
-- src/bootvga/vga_buffer.rs: runs of the writer and the theorems at concrete inputs.
use neutrix.Base.{◌≡◌, refl, some, [], ◌∷◌, arith}
use neutrix.Bootvga.Writer.{ScreenChar, Buffer, Writer, initial, write_byte, write_string}
use neutrix.Bootvga.Writer.Write.{IsValid, Wrote, write_byte-Wrote}
use neutrix.Bootvga.Writer.Text.{IsClean, write_string-IsClean}

abbrev space : ScreenChar
space = record { ascii_character = b' '; color_code = 14 }

abbrev empty_screen : Buffer
empty_screen r k = space

-- The last cell of the screen has been written.
abbrev at_end : Writer
at_end = record {
  row_position = 24;
  column_position = 80;
  color = 14;
  buffer = empty_screen;
  ports = [];
}

yellow_on_black : (initial empty_screen).color ≡ 14
unfolding initial
yellow_on_black = refl

at_end-IsValid : IsValid at_end
at_end-IsValid = record { row_in = omega arith; col_in = omega arith }

at_end-IsClean : IsClean at_end
at_end-IsClean i k hi hk = refl

write_byte-Wrote_example : Wrote at_end 65 (write_byte at_end 65)
write_byte-Wrote_example = write_byte-Wrote at_end 65 at_end-IsValid (omega arith)

write_string-IsClean_example :
    (out : Writer) × (write_string at_end (72 ∷ 7 ∷ 10 ∷ 105 ∷ []) ≡ some out)
    × IsValid out
    × IsClean out
write_string-IsClean_example =
    write_string-IsClean at_end (72 ∷ 7 ∷ 10 ∷ 105 ∷ []) at_end-IsValid at_end-IsClean
