-- ===== src/Rlib/Mem/Span.antt =====
-- Copies and fills of whole spans, as one assignment: what src/rlib/mem.rs is held against.
use mathlib.Core.Path.{fun_ext}
use neutrix.Base.{
  ℕ, ◌+◌, ◌-◌, ◌≤◌, ◌≡◌, ◌⊎◌, inl, inr, ◌&&◌, if◌then◌else◌, leb, ltb, Ram, poke, arith,
}

-- `n` bytes from `src` placed at `dst`, all read before any is written
abbrev pub copied : Ram → ℕ → ℕ → ℕ → Ram
copied m dst src n p = if leb dst p && ltb p (dst + n) then m (src + (p - dst)) else m p

-- `n` bytes at `dst` set to `v`
abbrev pub filled : Ram → ℕ → ℕ → ℕ → Ram
filled m dst v n p = if leb dst p && ltb p (dst + n) then v else m p

-- A copy that goes upwards may be cut in two if it never reads what it wrote.
abbrev pub Upwards : ℕ → ℕ → ℕ → Type 0
Upwards dst src n = (dst ≤ src) ⊎ (src + n ≤ dst)

pub copied-zero : (m : Ram) (dst src : ℕ) → copied m dst src 0 ≡ m
copied-zero m dst src = fun_ext λ p. ground arith

pub copied-one : (m : Ram) (dst src : ℕ) → poke m dst (m src) ≡ copied m dst src 1
copied-one m dst src = fun_ext λ p. ground arith

pub copied-Upwards :
    (m : Ram) (dst src a b : ℕ)
    → Upwards dst src (a + b)
    → copied (copied m dst src a) (dst + a) (src + a) b ≡ copied m dst src (a + b)
copied-Upwards m dst src a b (inl h) = fun_ext λ p. ground arith
copied-Upwards m dst src a b (inr h) = fun_ext λ p. ground arith

pub copied_downwards :
    (m : Ram) (dst src a b : ℕ)
    → src ≤ dst
    → copied (copied m (dst + b) (src + b) a) dst src b ≡ copied m dst src (b + a)
copied_downwards m dst src a b h = fun_ext λ p. ground arith

pub filled-zero : (m : Ram) (dst v : ℕ) → filled m dst v 0 ≡ m
filled-zero m dst v = fun_ext λ p. ground arith

pub filled-one : (m : Ram) (dst v : ℕ) → poke m dst v ≡ filled m dst v 1
filled-one m dst v = fun_ext λ p. ground arith

pub filled-append :
    (m : Ram) (dst v a b : ℕ) → filled (filled m dst v a) (dst + a) v b ≡ filled m dst v (a + b)
filled-append m dst v a b = fun_ext λ p. ground arith
