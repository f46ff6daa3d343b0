-- ===== src/Bootvga/Helpers/Twice.antt =====
-- src/bootvga/vga_buffer.rs: what `_print` comes to with and without a frame buffer.
use neutrix.Base.{ℕ, ◌≡◌, refl, sym, ap, ◌∙◌, true, false, Option, none, some, List, [], ◌∷◌, ◌++◌}
use neutrix.Bootvga.Writer.{Writer, shown, write_byte, write_string}
use neutrix.DriverFramework.Drivers.VbeVga.{VbeVgaDriver}
use neutrix.DriverFramework.Drivers.Console.{
  Screens, first_fb, with_console, put_bytes, console_print_first,
}
use neutrix.Bootvga.Helpers.{on_writer, print_rest, print}

-- What is written behind a first part, that may have panicked.
written_behind :
    (o : Option Writer) (xs ys : List ℕ)
    → ((w : Writer)
        → write_string w (xs ++ ys)
          ≡ (elim (write_string w xs) [ none ↦ none | some w1 ↦ write_string w1 ys ]))
    → ◌≡◌ {A = Option Writer}
        (elim o [ none ↦ none | some w ↦ write_string w (xs ++ ys) ])
        (elim (elim o as (λ _. Option Writer) [ none ↦ none | some w ↦ write_string w xs ]) [
          | none ↦ none
          | some w1 ↦ write_string w1 ys
        ])
written_behind none xs ys later = refl
written_behind (some w) xs ys later = later w

write_string-append :
    (xs ys : List ℕ) (w : Writer)
    → write_string w (xs ++ ys)
      ≡ (elim (write_string w xs) [ none ↦ none | some w1 ↦ write_string w1 ys ])
unfolding write_string
write_string-append [] ys w = refl
write_string-append (x ∷ xs) ys w =
    written_behind (write_byte w (shown x)) xs ys (write_string-append xs ys)

-- The fallback of the console, and then that of `_print`.
both_fallbacks :
    (o : Option Writer) (text : List ℕ) (s : Screens)
    → print_rest text
        (elim o [ none ↦ (false, none) | some w ↦ (false, some (record s { writer = w })) ])
      ≡ on_writer (λ _. elim o [ none ↦ none | some w1 ↦ write_string w1 text ]) s
both_fallbacks none text s = refl
both_fallbacks (some w) text s = refl

-- Without a frame buffer, `_print` writes the text to the boot text writer twice: once by the
-- console's fallback, whose answer says that it was not printed, and once more by its own.
pub print-twice :
    (display : Option VbeVgaDriver) (text : List ℕ) (s : Screens)
    → first_fb display ≡ none
    → print display text s ≡ on_writer (λ w. write_string w (text ++ text)) s
unfolding print console_print_first
print-twice display text s no_fb =
    ap
      (λ (o : Option (VbeVgaDriver × ℕ)). print_rest text (elim o [
        | none ↦ elim (write_string s.writer text) [
          | none ↦ (false, none)
          | some w ↦ (false, some (record s { writer = w }))
        ]
        | some (d, fb) ↦ (true, with_console d fb (put_bytes d fb text) s)
      ]))
      no_fb
    ∙ both_fallbacks (write_string s.writer text) text s
    ∙ ap (λ o. on_writer (λ _. o) s) (sym (write_string-append text text s.writer))
