-- ===== src/Base/Bytes.antt =====
-- A byte-addressed memory: what raw pointers read and write.
use Prim.Native.Nat.{ℕ, zero, suc, ◌+◌, ◌*◌, ◌/◌, ◌%◌, ◌^◌, ◌<◌, ◌≤◌}
use mathlib.Core.Logic.{◌⊎◌}
use mathlib.Core.Path.{◌≡◌}
use mathlib.Core.List.{List, [], ◌∷◌}
use native.Mathlib.Omega.{arith}
use neutrix.Base.Tests.{◌==◌, if◌then◌else◌}

abbrev pub Ram : Type 0
Ram = ℕ → ℕ

-- `*p = v`, and `ptr::write_volatile(p, v)` at a byte
abbrev pub poke : Ram → ℕ → ℕ → Ram
poke m p v q = if p == q then v else m q

abbrev pub IsBytes : Ram → Type 0
IsBytes m = (p : ℕ) → m p < 256

pub poke-IsBytes : (m : Ram) (p v : ℕ) → IsBytes m → v < 256 → IsBytes (poke m p v)
poke-IsBytes m p v h hv q = ground (arith, h q)

-- `u16`, `u32` and `u64` read at an address, the low byte first
abbrev pub load16 : Ram → ℕ → ℕ
load16 m p = m p + m (p + 1) * 2 ^ 8

abbrev pub load32 : Ram → ℕ → ℕ
load32 m p = load16 m p + load16 m (p + 2) * 2 ^ 16

abbrev pub load64 : Ram → ℕ → ℕ
load64 m p = load32 m p + load32 m (p + 4) * 2 ^ 32

-- `n` bytes from an address on
abbrev pub load_bytes : Ram → ℕ → ℕ → List ℕ
load_bytes m p zero = []
load_bytes m p (suc n) = m p ∷ load_bytes m (p + 1) n

-- The memory holds `bs` from `p` on.
abbrev pub Holds : Ram → ℕ → List ℕ → Type 0
Holds m p [] = Unit {0}
Holds m p (b ∷ bs) = (m p ≡ b) × Holds m (p + 1) bs

-- `ptr::write_volatile` of a `u32`, the low byte first
abbrev pub store32 : Ram → ℕ → ℕ → Ram
store32 m p v =
    poke (poke (poke (poke m p (v % 256)) (p + 1) (v / 2 ^ 8 % 256)) (p + 2) (v / 2 ^ 16 % 256))
      (p + 3) (v / 2 ^ 24 % 256)

pub load32-store32 : (m : Ram) (p v : ℕ) → v < 2 ^ 32 → load32 (store32 m p v) p ≡ v
load32-store32 m p v h = ground arith

-- A byte that is not among the four.
pub store32_other : (m : Ram) (p v q : ℕ) → (q < p) ⊎ (p + 4 ≤ q) → store32 m p v q ≡ m q
store32_other m p v q h = ground arith
