-- ===== src/Base/Words.antt =====
-- Machine words: a `w`-bit value is a number, and what wraps in the source is cut by `% 2 ^ w`.
use Prim.Native.Nat.{ℕ, ◌+◌, ◌*◌, ◌/◌, ◌%◌, ◌^◌}

abbrev pub u8 : ℕ → ℕ
u8 n = n % 2 ^ 8

abbrev pub u16 : ℕ → ℕ
u16 n = n % 2 ^ 16

abbrev pub u32 : ℕ → ℕ
u32 n = n % 2 ^ 32

abbrev pub u64 : ℕ → ℕ
u64 n = n % 2 ^ 64

-- `usize` and `u64` addition
abbrev pub add64 : ℕ → ℕ → ℕ
add64 a b = u64 (a + b)

-- `x & !0xFFF` and `(x + 0xFFF) & !0xFFF`
abbrev pub page_down : ℕ → ℕ
page_down x = x / 0x1000 * 0x1000

abbrev pub page_up : ℕ → ℕ
page_up x = page_down (add64 x 0xFFF)

-- `x >> k`
infixl 75 ◌>>>◌
abbrev pub ◌>>>◌ : ℕ → ℕ → ℕ
x >>> k = x / 2 ^ k
