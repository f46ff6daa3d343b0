-- ===== src/Base/Bits.antt =====
-- Single bits of a byte, under the source's `|`, `& !` and `&`.
use Prim.Native.Nat.{ℕ, zero, suc, ◌-◌, ◌^◌, ◌<◌, bit_and, bit_or}
use mathlib.Core.Path.{◌≡◌, refl}
use mathlib.Core.Bool.{Bool, true, false, not, ◌&&◌}
use native.Mathlib.Omega.{arith}
use neutrix.Base.Tests.{◌==◌, ltb, ltb→lt, if◌then◌else◌}

-- A test that each number under `bound` passes, for tables that are computed.
every : (test : ℕ → Bool) (bound : ℕ) → Bool
every test zero = true
every test (suc top) = if test top then every test top else false

every-at :
    (test : ℕ → Bool) (bound value : ℕ)
    → value < bound
    → every test bound ≡ true
    → test value ≡ true
unfolding every
every-at test zero value under pass = absurd (omega arith)
every-at test (suc top) value under pass = ground (arith, every-at test top value, under, pass)

-- `(x & (1 << b)) != 0`
abbrev pub bit : ℕ → ℕ → Bool
bit x b = not (bit_and x (2 ^ b) == 0)

-- `if v { x | (1 << b) } else { x & !(1 << b) }` on a byte
unfoldable pub put_bit : ℕ → ℕ → Bool → ℕ
put_bit x b v = if v then bit_or x (2 ^ b) else bit_and x (255 - 2 ^ b)

same : Bool → Bool → Bool
same true c = c
same false c = not c

same_sound : (b c : Bool) → same b c ≡ true → b ≡ c
unfolding same
same_sound b c h = ground arith

row : Bool → ℕ → ℕ → ℕ → Bool
row v x b c =
    ltb (put_bit x b v) 256 && same (bit (put_bit x b v) c) (if b == c then v else bit x c)

table : (v : Bool) → every (λ x. every (λ b. every (row v x b) 8) 8) 256 ≡ true
unfolding every row put_bit same
table true = refl
table false = refl

row_holds : (x b c : ℕ) (v : Bool) → x < 256 → b < 8 → c < 8 → row v x b c ≡ true
row_holds x b c v hx hb hc =
    every-at (row v x b) 8 c hc (every-at _ 8 b hb (every-at _ 256 x hx (table v)))

pub put_bit-lt : (x b : ℕ) (v : Bool) → x < 256 → b < 8 → put_bit x b v < 256
put_bit-lt x b v hx hb = ltb→lt _ _ (unfold row in ground (arith, row_holds x b 0 v hx hb))

pub bit-put_bit :
    (x b c : ℕ) (v : Bool)
    → x < 256
    → b < 8
    → c < 8
    → bit (put_bit x b v) c ≡ (if b == c then v else bit x c)
bit-put_bit x b c v hx hb hc =
    same_sound _ _ (unfold row in ground (arith, row_holds x b c v hx hb hc))

ones_table : every (bit 0xFF) 8 ≡ true
unfolding every
ones_table = refl

pub bit-ones : (c : ℕ) → c < 8 → bit 0xFF c ≡ true
bit-ones c h = every-at (bit 0xFF) 8 c h ones_table
