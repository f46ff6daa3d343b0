-- ===== src/DriverFramework/Drivers/Ps2Kbd/Screen.antt =====
-- src/driver_framework/drivers/ps2kbd.rs: each key edits the line as a stack of
-- characters, and what is printed shows it on a terminal.
use neutrix.Base.{
  ℕ, zero, suc, ◌-◌, ◌≡◌, refl, sym, ap, ◌∙◌, inl, inr, Bool, true, false, Bool-cases, some, List,
  [], ◌∷◌, ◌++◌, ◌==◌, if◌then◌else◌, arith,
}
use mathlib.Core.List.{reverse, reverse-cons}
use mathlib.Core.Path.{subst}
use neutrix.DriverFramework.Drivers.Ps2Kbd.{
  DecodedKey, unicode, raw_key, Typed, drop_last, erase, is_enter, press,
}

-- The line as a stack: a backspace takes the last character, a key without a character does nothing.
abbrev pub edited : List ℕ → DecodedKey → List ℕ
edited stack (unicode c) = if c == 8 then (elim stack [ [] ↦ [] | x ∷ rest ↦ rest ]) else c ∷ stack
edited stack (raw_key k) = stack

abbrev pub edited_all : List ℕ → List DecodedKey → List ℕ
edited_all stack [] = stack
edited_all stack (k ∷ ks) = edited_all (edited stack k) ks

-- A line of a terminal: what stands left of the cursor, the nearest first, and right of it. The
-- character 8 moves the cursor back, and any other replaces what is under it.
pub record Terminal : Type 0 where
  pub left : List ℕ
  pub right : List ℕ

abbrev pub back : List ℕ → List ℕ → Terminal
back [] right = record { left = []; right = right }
back (x ∷ left) right = record { left = left; right = x ∷ right }

abbrev pub over : List ℕ → List ℕ
over [] = []
over (x ∷ right) = right

abbrev pub put : Terminal → ℕ → Terminal
put t c = if c == 8 then back t.left t.right else record { left = c ∷ t.left; right = over t.right }

abbrev pub show : Terminal → List ℕ → Terminal
show t [] = t
show t (c ∷ cs) = show (put t c) cs

abbrev pub empty_line : Terminal
empty_line = record { left = []; right = [] }

abbrev pub blanks : ℕ → List ℕ
blanks zero = []
blanks (suc n) = b' ' ∷ blanks n

show-append : (t : Terminal) (xs ys : List ℕ) → show t (xs ++ ys) ≡ show (show t xs) ys
show-append t [] ys = refl
show-append t (x ∷ xs) ys = show-append (put t x) xs ys

drop_last-append : (xs : List ℕ) (x : ℕ) → drop_last (xs ++ (x ∷ [])) ≡ some xs
drop_last-append [] x = refl
drop_last-append (y ∷ ys) x = rw (drop_last-append ys x) refl

over-blanks : (n : ℕ) → over (blanks n) ≡ blanks (n - 1)
over-blanks zero = refl
over-blanks (suc n) = ap blanks (omega arith)

-- The buffer is the stack, and a terminal shows it, with blanks behind the cursor.
pub record Shows (t : Typed) (stack : List ℕ) : Type 0 where
  pub buf_is : t.buf ≡ reverse stack
  pub behind : ℕ
  pub shown : show empty_line t.printed ≡ record { left = stack; right = blanks behind }

abbrev pub ends_line : DecodedKey → Bool
ends_line (unicode c) = is_enter c
ends_line (raw_key k) = false

-- A character is put behind the line.
append_char :
    (c : ℕ) (t : Typed) (stack : List ℕ)
    → (c == 8) ≡ false
    → Shows t stack
    → Shows (record { buf = t.buf ++ (c ∷ []); printed = t.printed ++ (c ∷ []) }) (c ∷ stack)
append_char c t stack e s = record {
  buf_is = ap (λ b. b ++ (c ∷ [])) s.buf_is ∙ sym (reverse-cons c stack);
  behind = s.behind - 1;
  shown =
      show-append empty_line t.printed (c ∷ [])
      ∙ ap (λ z. put z c) s.shown
      ∙ rw e (ap (λ r. record { left = c ∷ stack; right = r }) (over-blanks s.behind));
}

-- The last character is taken, and blanked.
erase_char :
    (x : ℕ) (t : Typed) (stack : List ℕ)
    → Shows t (x ∷ stack)
    → Shows (erase (drop_last t.buf) t) stack
erase_char x t stack s =
    let last : drop_last t.buf ≡ some (reverse stack) =
      ap drop_last (s.buf_is ∙ reverse-cons x stack) ∙ drop_last-append (reverse stack) x in
    subst (λ o. Shows (erase o t) stack) (sym last)
      (record {
        buf_is = refl;
        behind = suc s.behind;
        shown =
            show-append empty_line t.printed (8 ∷ b' ' ∷ 8 ∷ [])
            ∙ ap (λ z. show z (8 ∷ b' ' ∷ 8 ∷ [])) s.shown;
      })

nothing_to_erase : (t : Typed) → Shows t [] → Shows (erase (drop_last t.buf) t) []
nothing_to_erase t s = subst (λ b. Shows (erase (drop_last b) t) []) (sym s.buf_is) s

erase_any :
    (t : Typed) (stack : List ℕ)
    → Shows t stack
    → Shows (erase (drop_last t.buf) t) (elim stack [ [] ↦ [] | x ∷ rest ↦ rest ])
erase_any t [] s = nothing_to_erase t s
erase_any t (x ∷ stack) s = erase_char x t stack s

pub cons_eq : {A : Type 0} {x y : A} {xs ys : List A} → x ∷ xs ≡ y ∷ ys → (x ≡ y) × (xs ≡ ys)
cons_eq e = (cc, cc)

pub nil_cons : {A : Type 0} {x : A} {xs : List A} → [] ≡ x ∷ xs → ⊥
nil_cons e = cc

pub press-Shows :
    (k : DecodedKey) (t : Typed) (stack : List ℕ)
    → ends_line k ≡ false
    → Shows t stack
    → ((press k t).0 ≡ false) × Shows (press k t).1 (edited stack k)
unfolding press
press-Shows (raw_key k) t stack e s = (refl, s)
press-Shows (unicode c) t stack e s = elim (Bool-cases (c == 8)) [
  | inl erases ↦ rw (e, erases) (refl, erase_any t stack s)
  | inr other ↦ rw (e, other) (refl, append_char c t stack other s)
]

-- Enter leaves the line as it is, and ends what is printed.
pub press-enter :
    (c : ℕ) (t : Typed)
    → is_enter c ≡ true
    → press (unicode c) t ≡ (true, record t { printed = t.printed ++ (10 ∷ []) })
unfolding press
press-enter c t e = rw e refl
