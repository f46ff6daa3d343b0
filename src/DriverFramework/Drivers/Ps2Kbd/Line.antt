-- ===== src/DriverFramework/Drivers/Ps2Kbd/Line.antt =====
-- src/driver_framework/drivers/ps2kbd.rs: `getline` is a line editor on a stack of characters, and
-- what it prints shows the line on a terminal.
use neutrix.Base.{
  ℕ, ◌≡◌, refl, sym, ap, ◌∙◌, inl, inr, true, false, ◌||◌, Option, Option-cases, none, some, List,
  [], ◌∷◌, ◌++◌, if◌then◌else◌, All,
}
use mathlib.Core.List.{reverse}
use mathlib.Core.Path.{subst}
use neutrix.Arch.Ports.{Ports}
use neutrix.DriverFramework.Drivers.Ps2Kbd.{
  DecodedKey, unicode, Decoder, Typed, Reading, is_enter, press, press_any, decode, read_keys,
  getline, enable_keyboard_port, disable_keyboard_port,
}
use neutrix.DriverFramework.Drivers.Ps2Kbd.Screen.{
  edited, edited_all, Shows, ends_line, cons_eq, nil_cons, press-Shows, press-enter,
}

module _ (dec : Decoder) where
  -- The keys that scancodes stand for.
  abbrev pub keys_of : dec.Keyboard → List ℕ → List DecodedKey
  keys_of kb [] = []
  keys_of kb (sc ∷ scs) =
      let (key, kb1) = decode dec kb sc in
      elim key [ none ↦ keys_of kb1 scs | some k ↦ k ∷ keys_of kb1 scs ]

  -- The reading of a line that shows `stack`, when it is ended, or while it is not.
  abbrev pub Entered : List ℕ → Reading → Type 0
  Entered stack r =
      (r.entered ≡ true)
      × ((t : Typed) × Shows t stack × (r.typed ≡ record t { printed = t.printed ++ (10 ∷ []) }))

  abbrev pub Typing : List ℕ → Reading → Type 0
  Typing stack r = (r.entered ≡ false) × Shows r.typed stack

  -- A scancode that completes no key, or a key within the line.
  read_on :
      (sc : ℕ) (scs : List ℕ) (kb : dec.Keyboard) (t : Typed)
      → (press_any (decode dec kb sc).0 t).0 ≡ false
      → read_keys dec (sc ∷ scs) kb t
        ≡ read_keys dec scs (decode dec kb sc).1 (press_any (decode dec kb sc).0 t).1
  unfolding read_keys
  read_on sc scs kb t e =
      ap
        (λ b.
          if b
          then record { entered = true; typed = (press_any (decode dec kb sc).0 t).1; rest = scs }
          else read_keys dec scs (decode dec kb sc).1 (press_any (decode dec kb sc).0 t).1)
        e

  read_end :
      (sc : ℕ) (scs : List ℕ) (kb : dec.Keyboard) (t : Typed)
      → (press_any (decode dec kb sc).0 t).0 ≡ true
      → read_keys dec (sc ∷ scs) kb t
        ≡ record { entered = true; typed = (press_any (decode dec kb sc).0 t).1; rest = scs }
  unfolding read_keys
  read_end sc scs kb t e =
      ap
        (λ b.
          if b
          then record { entered = true; typed = (press_any (decode dec kb sc).0 t).1; rest = scs }
          else read_keys dec scs (decode dec kb sc).1 (press_any (decode dec kb sc).0 t).1)
        e

  module _ (sc : ℕ) (scs : List ℕ) (kb : dec.Keyboard) (t : Typed) where
    keys_of-none :
        (decode dec kb sc).0 ≡ none
        → (keys_of kb (sc ∷ scs) ≡ keys_of (decode dec kb sc).1 scs)
          × (read_keys dec (sc ∷ scs) kb t ≡ read_keys dec scs (decode dec kb sc).1 t)
    keys_of-none e = (
      ap
          (λ (o : Option DecodedKey). elim o [
            | none ↦ keys_of (decode dec kb sc).1 scs
            | some k ↦ k ∷ keys_of (decode dec kb sc).1 scs
          ])
          e,
      read_on sc scs kb t (ap (λ o. (press_any o t).0) e)
          ∙ ap (λ o. read_keys dec scs (decode dec kb sc).1 (press_any o t).1) e,
    )

    module _ (k : DecodedKey) (e : (decode dec kb sc).0 ≡ some k) where
      keys_of-some : keys_of kb (sc ∷ scs) ≡ k ∷ keys_of (decode dec kb sc).1 scs
      keys_of-some =
          ap
            (λ (o : Option DecodedKey). elim o [
              | none ↦ keys_of (decode dec kb sc).1 scs
              | some k ↦ k ∷ keys_of (decode dec kb sc).1 scs
            ])
            e

      read_key :
          (press k t).0 ≡ false
          → read_keys dec (sc ∷ scs) kb t ≡ read_keys dec scs (decode dec kb sc).1 (press k t).1
      read_key f =
          read_on sc scs kb t (ap (λ o. (press_any o t).0) e ∙ f)
          ∙ ap (λ o. read_keys dec scs (decode dec kb sc).1 (press_any o t).1) e

      read_enter :
          (press k t).0 ≡ true
          → read_keys dec (sc ∷ scs) kb t
            ≡ record { entered = true; typed = (press k t).1; rest = scs }
      read_enter f =
          read_end sc scs kb t (ap (λ o. (press_any o t).0) e ∙ f)
          ∙ ap (λ o. record { entered = true; typed = (press_any o t).1; rest = scs }) e

  enter_read :
      (sc : ℕ) (scs : List ℕ) (kb : dec.Keyboard) (t : Typed) (stack : List ℕ) (c : ℕ)
      → Shows t stack
      → is_enter c ≡ true
      → (decode dec kb sc).0 ≡ some (unicode c)
      → Entered stack (read_keys dec (sc ∷ scs) kb t)
  enter_read sc scs kb t stack c s enter e =
      let pressed = press-enter c t enter in
      let run = read_enter sc scs kb t (unicode c) e (ap (λ p. p.0) pressed) in
      subst (λ r. Entered stack r) (sym run) (refl, (t, s, ap (λ p. p.1) pressed))

  read_keys-Entered :
      (scs : List ℕ) (kb : dec.Keyboard) (t : Typed) (stack : List ℕ)
      (before after : List DecodedKey) (c : ℕ)
      → Shows t stack
      → All (λ k. ends_line k ≡ false) before
      → is_enter c ≡ true
      → keys_of kb scs ≡ before ++ (unicode c ∷ after)
      → Entered (edited_all stack before) (read_keys dec scs kb t)
  read_keys-Entered [] kb t stack [] after c s within enter keys = absurd (nil_cons keys)
  read_keys-Entered [] kb t stack (b ∷ before) after c s within enter keys = absurd (nil_cons keys)
  read_keys-Entered (sc ∷ scs) kb t stack before after c s within enter keys =
      let kb1 = (decode dec kb sc).1 in
      elim (Option-cases (decode dec kb sc).0) [
        | inl e ↦
            let (same, run) = keys_of-none sc scs kb t e in
            subst (λ r. Entered (edited_all stack before) r) (sym run)
              (read_keys-Entered scs kb1 t stack before after c s within enter (sym same ∙ keys))
        | inr (k, e) ↦
            let keys' = sym (keys_of-some sc scs kb t k e) ∙ keys in
            elim before
                as (λ (before : List DecodedKey).
                  All (λ k. ends_line k ≡ false) before
                  → k ∷ keys_of kb1 scs ≡ before ++ (unicode c ∷ after)
                  → Entered (edited_all stack before) (read_keys dec (sc ∷ scs) kb t)) [
                    | [] ↦ λ _ keys.
                        enter_read sc scs kb t stack c s enter (e ∙ ap some (cons_eq keys).0)
                    | b ∷ bs ↦ λ within keys.
                        let (same, keys1) = cons_eq keys in
                        let (goes_on, s1) = press-Shows b t stack within.0 s in
                        let run = read_key sc scs kb t b (e ∙ ap some same) goes_on in
                        subst (λ r. Entered (edited_all (edited stack b) bs) r) (sym run)
                          (read_keys-Entered scs kb1 (press b t).1 (edited stack b) bs after c s1
                            within.1 enter keys1)
                  ]
              within keys'
      ]

  read_keys-Typing :
      (scs : List ℕ) (kb : dec.Keyboard) (t : Typed) (stack : List ℕ)
      → Shows t stack
      → All (λ k. ends_line k ≡ false) (keys_of kb scs)
      → Typing (edited_all stack (keys_of kb scs)) (read_keys dec scs kb t)
  unfolding read_keys
  read_keys-Typing [] kb t stack s within = (refl, s)
  read_keys-Typing (sc ∷ scs) kb t stack s within =
      let kb1 = (decode dec kb sc).1 in
      elim (Option-cases (decode dec kb sc).0) [
        | inl e ↦
            let (same, run) = keys_of-none sc scs kb t e in
            subst (λ r. Typing (edited_all stack (keys_of kb (sc ∷ scs))) r) (sym run)
              (subst (λ ks. Typing (edited_all stack ks) (read_keys dec scs kb1 t)) (sym same)
                (read_keys-Typing scs kb1 t stack s
                  (subst (λ ks. All (λ k. ends_line k ≡ false) ks) same within)))
        | inr (k, e) ↦
            let same = keys_of-some sc scs kb t k e in
            let within' = subst (λ ks. All (λ k. ends_line k ≡ false) ks) same within in
            let (goes_on, s1) = press-Shows k t stack within'.0 s in
            let run = read_key sc scs kb t k e goes_on in
            subst (λ r. Typing (edited_all stack (keys_of kb (sc ∷ scs))) r) (sym run)
              (subst (λ ks. Typing (edited_all stack ks) (read_keys dec scs kb1 (press k t).1))
                (sym same) (read_keys-Typing scs kb1 (press k t).1 (edited stack k) s1 within'.1))
      ]

  nothing_typed : Shows (record { buf = []; printed = [] }) []
  nothing_typed = record { buf_is = refl; behind = 0; shown = refl }

  module _ (io : Ports) (scancodes : List ℕ) (h : io.Hardware) where
    -- If the keys of the scancodes have an Enter, then `getline` returns what the keys before the
    -- first one leave on the stack, with the keyboard's port disabled again; what was printed
    -- before the final newline shows exactly this line on a terminal, with only blanks behind it.
    pub getline-edited :
        (before after : List DecodedKey) (c : ℕ)
        → All (λ k. ends_line k ≡ false) before
        → is_enter c ≡ true
        → keys_of dec.new scancodes ≡ before ++ (unicode c ∷ after)
        → (t : Typed) × Shows t (edited_all [] before)
          × ((getline dec io scancodes false h).0 ≡ some (reverse (edited_all [] before)))
          × ((getline dec io scancodes false h).1.typed.printed ≡ t.printed ++ (10 ∷ []))
          × ((getline dec io scancodes false h).2
              ≡ disable_keyboard_port io (enable_keyboard_port io h))
    unfolding getline
    getline-edited before after c within enter keys =
        let (entered, (t, s, typed)) =
          read_keys-Entered scancodes dec.new (record { buf = []; printed = [] }) [] before after c
            nothing_typed within enter keys in
        let reading = read_keys dec scancodes dec.new (record { buf = []; printed = [] }) in
        let h1 = enable_keyboard_port io h in
        let run : getline dec io scancodes false h
            ≡ (some reading.typed.buf, reading, disable_keyboard_port io h1) =
          ap
            (λ b.
              if b || false
              then (some reading.typed.buf, reading, disable_keyboard_port io h1)
              else (none, reading, h1))
            entered in
        (
          t,
          s,
          ap (λ r. r.0) run ∙ ap (λ (t : Typed). some t.buf) typed ∙ ap some s.buf_is,
          ap (λ r. r.1.typed.printed) run ∙ ap (λ (t : Typed). t.printed) typed,
          ap (λ r. r.2) run,
        )

    -- While the keys of the scancodes have no Enter, `getline` returns no line and leaves the port
    -- enabled, and a terminal shows the line so far, with only blanks behind it.
    pub getline-waits :
        All (λ k. ends_line k ≡ false) (keys_of dec.new scancodes)
        → ((getline dec io scancodes false h).0 ≡ none)
          × Shows
              (getline dec io scancodes false h).1.typed
              (edited_all [] (keys_of dec.new scancodes))
          × ((getline dec io scancodes false h).2 ≡ enable_keyboard_port io h)
    unfolding getline
    getline-waits within =
        let (typing, s) =
          read_keys-Typing scancodes dec.new (record { buf = []; printed = [] }) [] nothing_typed
            within in
        let reading = read_keys dec scancodes dec.new (record { buf = []; printed = [] }) in
        let h1 = enable_keyboard_port io h in
        let run : getline dec io scancodes false h ≡ (none, reading, h1) =
          ap
            (λ b.
              if b || false
              then (some reading.typed.buf, reading, disable_keyboard_port io h1)
              else (none, reading, h1))
            typing in
        (
          ap (λ r. r.0) run,
          subst (λ (r : Reading). Shows r.typed (edited_all [] (keys_of dec.new scancodes)))
              (sym (ap (λ r. r.1) run)) s,
          ap (λ r. r.2) run,
        )
