-- ===== src/DriverFramework/Drivers/Console/Tests.antt =====
-- src/driver_framework/drivers/console.rs: a text of two lines, and a tab in the last row.
use neutrix.Base.{◌≡◌, refl, true, some, [], ◌∷◌, All, arith}
use neutrix.Bootvga.Writer.{initial}
use neutrix.DriverFramework.Drivers.VbeVga.{VbeVgaDriver}
use neutrix.DriverFramework.Drivers.Console.{
  Console, create_console, tab, Screens, console_print_first,
}
use neutrix.DriverFramework.Drivers.Console.Inside.{IsInside, console_print_first-IsInside}

abbrev display : VbeVgaDriver
display = record {
  started = true;
  mappings = record { virt_base = 4096; phys_map_start = 0; bar_phys = 0; pages = 1 } ∷ [];
  fb_info = some (record { width = 18; height = 16; bpp = 32; pitch = 72 });
}

abbrev nothing_shown : Screens
nothing_shown = record {
  consoles = [];
  ram = λ p. 0;
  writer = initial (λ _ _. record { ascii_character = 32; color_code = 0 });
}

abbrev last_row : Console
last_row = record (create_console 4096 display.fb_info) { cur_x = 1; cur_y = 1 }

-- The cursor leaves the console's two rows.
tab_run : (tab last_row).cur_y ≡ 2
tab_run = refl

console_print_first-IsInside_example :
    (s' : Screens) × (console_print_first (some display) (b'a' ∷ 10 ∷ b'b' ∷ 10 ∷ []) nothing_shown
      ≡ (true, some s'))
    × All IsInside s'.consoles
console_print_first-IsInside_example =
    console_print_first-IsInside display 4096 [] (b'a' ∷ 10 ∷ b'b' ∷ 10 ∷ []) nothing_shown refl
      (
        (λ e. omega arith, λ e. omega arith),
        (
          (λ e. omega arith, λ e. omega arith),
          ((λ e. omega arith, λ e. omega arith), ((λ e. omega arith, λ e. omega arith), tt)),
        ),
      )
      tt
