-- ===== src/Devices/Pci/Layout.antt =====
-- src/devices/pci.rs: the base address registers that a function may have, and what their values
-- tell, for the loop of `read_bars`.
use neutrix.Base.{
  ℕ, zero, suc, ◌+◌, ◌-◌, ◌*◌, ◌/◌, ◌%◌, ◌^◌, ◌<◌, ◌≤◌, ◌≡◌, ◌≢◌, true, false, ◌||◌, List, [], ◌∷◌,
  ◌==◌, if◌then◌else◌, arith,
}
use native.Mathlib.Nat.{mul-add-div_right, div-eq_of_lt}
use mathlib.Core.Path.{ap₂}
use neutrix.Arch.Machine.{Machine}
use neutrix.DriverFramework.Device.{Resource, ResourceKind, memory_mapped, io}
use neutrix.Devices.Pci.{negated32, negated64}

-- The base address registers of the function whose configuration registers are at `phys`. Of a
-- value that is written to a register, the bits below its grain are replaced by its fixed flags.
pub record Registers (mc : Machine) (phys : ℕ) : Type 0 where
  pub value : mc.ports.Hardware → ℕ → ℕ
  pub grain : ℕ → ℕ
  pub flags : ℕ → ℕ
  pub reads :
      (h : mc.ports.Hardware) (i : ℕ)
      → i < 6
      → mc.read_volatile h (phys + (0x10 + i * 4)) ≡ value h i
  pub writes :
      (h : mc.ports.Hardware) (i j v : ℕ)
      → i < 6
      → value (mc.write_volatile h (phys + (0x10 + i * 4)) v) j
        ≡ (if i == j then v / grain i * grain i + flags i else value h j)

-- A register that holds the multiple `n` of its grain `g`, a divisor of 2^32, with its flags `f`.
pub record Holds {mc : Machine} {phys : ℕ} (reg : Registers mc phys) (v : ℕ → ℕ) (i g f n : ℕ)
    : Type 0 where
  pub below : i < 6
  pub grain_is : reg.grain i ≡ g
  pub flags_are : reg.flags i ≡ f
  pub fits : f < g
  pub value_is : v i ≡ n * g + f
  pub parts : ℕ
  pub divides : g * parts ≡ 2 ^ 32

-- The registers from `i` on, whose values are `v`, are laid out as these resources.
pub data Laid {mc : Machine} {phys : ℕ} (reg : Registers mc phys) (v : ℕ → ℕ)
    : ℕ → List Resource → Type 0 where
  end : {i : ℕ} → 6 ≤ i → Laid reg v i []
  unused : {i : ℕ} {rs : List Resource} → i < 6 → v i ≡ 0 → Laid reg v (i + 1) rs → Laid reg v i rs
  ports :
      {i : ℕ} {rs : List Resource} (k n : ℕ)
      → Holds reg v i (4 * k) 1 n
      → 4 * k < 2 ^ 32
      → Laid reg v (i + 1) rs
      → Laid reg v i (record { kind = io; addr = n * (4 * k); len = 4 * k } ∷ rs)
  memory :
      {i : ℕ} {rs : List Resource} (k n f : ℕ)
      → Holds reg v i (16 * k) f n
      → f < 16
      → f % 2 ≡ 0
      → f / 2 % 4 ≢ 2
      → 0 < n
      → 16 * k < 2 ^ 32
      → Laid reg v (i + 1) rs
      → Laid reg v i (record { kind = memory_mapped; addr = n * (16 * k); len = 16 * k } ∷ rs)
  wide :
      {i : ℕ} {rs : List Resource} (k n f k' n' size : ℕ)
      → Holds reg v i (16 * k) f n
      → Holds reg v (i + 1) k' 0 n'
      → f < 16
      → f % 2 ≡ 0
      → f / 2 % 4 ≡ 2
      → size + 2 ^ 32 ≡ k' * 2 ^ 32 + 16 * k
      → size < 2 ^ 64
      → Laid reg v (i + 2) rs
      → Laid reg v i
          (record { kind = memory_mapped; addr = n' * k' * 2 ^ 32 + n * (16 * k); len = size } ∷ rs)

-- A value loses what is below the grain.
pub floor_grain : (n g f : ℕ) → f < g → (n * g + f) / g * g ≡ n * g
floor_grain n g f l =
    rw (mul-add-div_right {m = g} (omega arith) n f, div-eq_of_lt {n = f} {m = g} l) (omega arith)

-- All ones lose all but the upper multiple.
pub floor_ones : (g e : ℕ) → 0 < g → g * e ≡ 2 ^ 32 → 0xFFFFFFFF / g * g + g ≡ 2 ^ 32
floor_ones g zero pos h = absurd (omega arith)
floor_ones g (suc e) pos h =
    let all : 0xFFFFFFFF ≡ e * g + (g - 1) = omega arith in
    rw (all, floor_grain e g (g - 1) (omega arith)) (omega arith)

pub same_place : (i : ℕ) → i < 6 → (0x10 + i * 4) / 4 % 64 * 4 ≡ 0x10 + i * 4
same_place i h = omega arith

pub next_place : (i : ℕ) → (0x10 + i * 4) + 4 ≡ 0x10 + (i + 1) * 4
next_place i = omega arith

pub resource :
    (kind : ResourceKind) {a b m n : ℕ}
    → a ≡ b
    → m ≡ n
    → ◌≡◌ {A = Resource}
        (record { kind = kind; addr = a; len = m })
        (record { kind = kind; addr = b; len = n })
resource kind e f = ap₂ (λ a m. record { kind = kind; addr = a; len = m }) e f

-- How a register's value tells its kind.
pub is_ports :
    (t o : ℕ)
    → o ≡ 4 * t + 1
    → ((o == 0 || o == 0xFFFFFFFF) ≡ false) × ((o % 2 == 1) ≡ true) × (o / 4 * 4 ≡ 4 * t)
is_ports t o e = (ground arith, ground arith, omega arith)

pub is_even :
    (t o f : ℕ)
    → o ≡ 16 * t + f
    → f < 16
    → f % 2 ≡ 0
    → 0 < o
    → ((o == 0 || o == 0xFFFFFFFF) ≡ false)
      × ((o % 2 == 1) ≡ false)
      × (o / 16 * 16 ≡ 16 * t)
      × (o / 2 % 4 ≡ f / 2 % 4)
is_even t o f e l two pos = (ground arith, ground arith, omega arith, omega arith)

pub at_least_four : (o t f : ℕ) → o ≡ 16 * t + f → f / 2 % 4 ≡ 2 → 0 < o
at_least_four o t f e two = omega arith

pub pos_mul : (n k : ℕ) → 0 < n → 0 < k → 0 < n * k
pos_mul zero k p q = absurd (omega arith)
pos_mul (suc n) k p q = omega arith

-- The size that a mask tells.
pub ports_size :
    (k mask : ℕ) → mask + 4 * k ≡ 2 ^ 32 + 1 → 4 * k < 2 ^ 32 → negated32 (mask / 4 * 4) ≡ 4 * k
ports_size k mask e l = omega arith

pub memory_size :
    (k f mask : ℕ)
    → mask + 16 * k ≡ 2 ^ 32 + f
    → f < 16
    → 0 < k
    → 16 * k < 2 ^ 32
    → negated32 (mask / 16 * 16) ≡ 16 * k
memory_size k f mask e l pos small = omega arith

pub wide_size :
    (k f k' size high low : ℕ)
    → low + 16 * k ≡ 2 ^ 32 + f
    → high + k' ≡ 2 ^ 32
    → f < 16
    → 0 < k
    → size + 2 ^ 32 ≡ k' * 2 ^ 32 + 16 * k
    → 0 < size
    → size < 2 ^ 64
    → negated64 ((high * 2 ^ 32 + low) / 16 * 16) ≡ size
wide_size k f k' size high low el eh l pos es sp sl = omega arith
