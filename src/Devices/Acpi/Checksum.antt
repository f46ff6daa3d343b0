-- ===== src/Devices/Acpi/Checksum.antt =====
-- src/devices/acpi/acpi.rs: what the checksum of a table detects.
use native.Mathlib.Decide.{ℕ_discrete}
use neutrix.Base.{ℕ, zero, suc, ◌+◌, ◌%◌, ◌≤◌, ◌<◌, ◌≡◌, ◌≢◌, refl, u8, Ram, IsBytes, poke, arith}
use neutrix.Devices.Acpi.{sum_bytes}

total : Ram → ℕ → ℕ → ℕ
total m p zero = 0
total m p (suc n) = m p + total m (p + 1) n

sum_bytes-total :
    (m : Ram) (p n acc : ℕ) → acc < 256 → sum_bytes m p n acc ≡ (acc + total m p n) % 256
unfolding sum_bytes total
sum_bytes-total m p zero acc h = omega arith
sum_bytes-total m p (suc n) acc h = omega (arith, sum_bytes-total m (p + 1) n (u8 (acc + m p)))

total-poke_out : (m : Ram) (p n q v : ℕ) → (q < p) → total (poke m q v) p n ≡ total m p n
unfolding total
total-poke_out m p zero q v h = refl
total-poke_out m p (suc n) q v h = ground (arith, total-poke_out m (p + 1) n q v)

total-poke :
    (m : Ram) (p n q v : ℕ) → p ≤ q → q < p + n → total (poke m q v) p n + m q ≡ total m p n + v
unfolding total
total-poke m p zero q v l h = absurd (omega arith)
total-poke m p (suc n) q v l h = elim (ℕ_discrete p q) [
  | yes e ↦ ground (arith, total-poke_out m (p + 1) n q v)
  | no ne ↦ ground (arith, total-poke m (p + 1) n q v)
]

-- Overwriting one byte of a span by another value changes the span's checksum.
pub sum_bytes-poke :
    (m : Ram) (p n q v : ℕ)
    → IsBytes m
    → v < 256
    → p ≤ q
    → q < p + n
    → v ≢ m q
    → sum_bytes m p n 0 ≡ 0
    → sum_bytes (poke m q v) p n 0 ≢ 0
sum_bytes-poke m p n q v cells b l h ne ok bad =
    let was = sum_bytes-total m p n 0 (omega arith) in
    let now = sum_bytes-total (poke m q v) p n 0 (omega arith) in
    ne (omega (arith, total-poke m p n q v l h, cells q))
