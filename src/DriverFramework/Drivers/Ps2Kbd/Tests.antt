-- ===== src/DriverFramework/Drivers/Ps2Kbd/Tests.antt =====
-- A decoder that takes each scancode below 128 for its character, and a controller that is ready.
use neutrix.Base.{ℕ, ◌≡◌, refl, none, some, List, [], ◌∷◌, ◌++◌, ◌==◌, false, ltb, if◌then◌else◌}
use neutrix.Arch.Ports.{Ports}
use neutrix.DriverFramework.Drivers.Ps2Kbd.{
  DecodedKey, unicode, raw_key, Decoder, Typed, getline, enable_keyboard_port,
  disable_keyboard_port,
}
use neutrix.DriverFramework.Drivers.Ps2Kbd.Screen.{Shows}
use neutrix.DriverFramework.Drivers.Ps2Kbd.Line.{getline-edited}

abbrev plain : Decoder
plain = record {
  Keyboard = ℕ;
  KeyEvent = ℕ;
  new = 0;
  add_byte = λ kb sc. (some (if ltb sc 128 then some sc else none), kb);
  process_keyevent = λ kb ev. (some (if ev == 27 then raw_key ev else unicode ev), kb);
}

-- The commands that the controller got, the last one first.
abbrev ready : Ports
ready = record {
  Hardware = List ℕ;
  outb = λ h port v. if port == 0x64 then v ∷ h else h;
  outw = λ h _ _. h;
  outdw = λ h _ _. h;
  inb = λ h _. (0, h);
  inw = λ h _. (0, h);
  indw = λ h _. (0, h);
}

-- "hj", a backspace, a key without a character, "i", and Enter.
abbrev scancodes : List ℕ
scancodes = b'h' ∷ b'j' ∷ 8 ∷ 200 ∷ 27 ∷ b'i' ∷ 13 ∷ b'x' ∷ []

abbrev keys : List DecodedKey
keys = unicode b'h' ∷ unicode b'j' ∷ unicode 8 ∷ raw_key 27 ∷ unicode b'i' ∷ []

getline-edited_example :
    (t : Typed) × Shows t (b'i' ∷ b'h' ∷ [])
    × ((getline plain ready scancodes false []).0 ≡ some (b'h' ∷ b'i' ∷ []))
    × ((getline plain ready scancodes false []).1.typed.printed ≡ t.printed ++ (10 ∷ []))
    × ((getline plain ready scancodes false []).2
        ≡ disable_keyboard_port ready (enable_keyboard_port ready []))
getline-edited_example =
    getline-edited plain ready scancodes [] keys (unicode b'x' ∷ []) 13
      (refl, (refl, (refl, (refl, (refl, tt))))) refl refl

abbrev started : List ℕ
started = b'h' ∷ b'j' ∷ 8 ∷ []

run_line : (getline plain ready scancodes false []).0 ≡ some (b'h' ∷ b'i' ∷ [])
unfolding getline
run_line = refl

-- The port is enabled, and disabled at the end.
run_commands : (getline plain ready scancodes false []).2 ≡ 0xAD ∷ 0xAE ∷ []
unfolding getline
run_commands = refl
