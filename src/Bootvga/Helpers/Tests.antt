-- ===== src/Bootvga/Helpers/Tests.antt =====
-- Printing before a frame buffer is there.
use neutrix.Base.{ℕ, ◌≡◌, refl, Option, none, some, [], ◌∷◌}
use neutrix.Bootvga.Writer.{initial, put_byte, update_cursor, write_byte, shown, write_string}
use neutrix.DriverFramework.Drivers.Console.{Screens, console_print_first}
use neutrix.Bootvga.Helpers.{on_writer, print}
use neutrix.Bootvga.Helpers.Twice.{print-twice}

abbrev blank_screen : Screens
blank_screen = record {
  consoles = [];
  ram = λ p. 0;
  writer = initial (λ _ _. record { ascii_character = 32; color_code = 0 });
}

print-twice_example :
    print none (b'o' ∷ b'k' ∷ []) blank_screen
    ≡ on_writer (λ w. write_string w (b'o' ∷ b'k' ∷ b'o' ∷ b'k' ∷ [])) blank_screen
print-twice_example = print-twice none (b'o' ∷ b'k' ∷ []) blank_screen refl

abbrev column : Option Screens → ℕ
column none = 0
column (some s) = s.writer.column_position

-- Four cells are written for two characters.
run_print : column (print none (b'o' ∷ b'k' ∷ []) blank_screen) ≡ 4
unfolding print console_print_first write_string write_byte shown initial put_byte update_cursor
run_print = refl
