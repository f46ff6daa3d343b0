-- ===== src/Bootvga/Helpers.antt =====
-- src/bootvga/vga_helpers.rs, and `_print` of vga_buffer.rs with `vbe_try_print` of
-- src/driver_framework/drivers/vbe_vga.rs: printing, and the macros that act on the first console and
-- on the boot text writer. What `format_args!` makes is a text here. `none` is a panic.
pub mod Twice
mod Tests
use neutrix.Base.{ℕ, Bool, Option, none, some, List, [], ◌∷◌, ◌++◌, if◌then◌else◌}
use neutrix.Bootvga.Writer.{Color, Writer, write_string, set_color, set_position, clear_screen}
use neutrix.DriverFramework.Drivers.VbeVga.{VbeVgaDriver, vbe_color_from_vga_color}
use neutrix.DriverFramework.Drivers.Console.{
  Screens, console_print_first, console_clear_first, console_set_colors_first,
  console_set_cursor_first,
}

-- A change of the boot text writer, that may panic.
abbrev pub on_writer : (Writer → Option Writer) → Screens → Option Screens
on_writer f s = elim (f s.writer) [ none ↦ none | some w ↦ some (record s { writer = w }) ]

unfoldable pub vbe_try_print : Option VbeVgaDriver → List ℕ → Screens → Bool × Option Screens
vbe_try_print display text s = console_print_first display text s

-- What `_print` does behind `vbe_try_print`.
abbrev pub print_rest : List ℕ → Bool × Option Screens → Option Screens
print_rest text (handled, none) = none
print_rest text (handled, some s) =
    if handled then some s else on_writer (λ w. write_string w text) s

unfoldable pub print : Option VbeVgaDriver → List ℕ → Screens → Option Screens
unfolding vbe_try_print
print display text s = print_rest text (vbe_try_print display text s)

abbrev pub println : Option VbeVgaDriver → List ℕ → Screens → Option Screens
println display text s = print display (text ++ (10 ∷ [])) s

unfoldable pub setcolor : Option VbeVgaDriver → (fg bg : Color) → Screens → Option Screens
unfolding console_set_colors_first vbe_color_from_vga_color
setcolor display fg bg s =
    elim (console_set_colors_first display (vbe_color_from_vga_color fg)
      (vbe_color_from_vga_color bg) s) [
        | none ↦ none
        | some s1 ↦ some (record s1 { writer = set_color s1.writer fg bg })
      ]

unfoldable pub setpos : Option VbeVgaDriver → (row col : ℕ) → Screens → Option Screens
unfolding console_set_cursor_first
setpos display row col s = elim (console_set_cursor_first display col row s) [
  | none ↦ none
  | some s1 ↦ some (record s1 { writer = set_position s1.writer row col })
]

unfoldable pub cls : Option VbeVgaDriver → Screens → Option Screens
unfolding console_clear_first
cls display s = elim (console_clear_first display s) [
  | none ↦ none
  | some s1 ↦ some (record s1 { writer = clear_screen s1.writer })
]
