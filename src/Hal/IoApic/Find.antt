-- ===== src/Hal/IoApic/Find.antt =====
-- src/hal/ioapic.rs: which I/O APIC handles a global system interrupt.
use neutrix.Base.{
  ℕ, suc, ◌+◌, ◌-◌, ◌^◌, ◌≤◌, ◌<◌, ◌≡◌, refl, ◌⊎◌, inl, inr, true, Option, none, some, List, [],
  ◌∷◌, get_elem?, u32, Bool-cases, arith, All,
}
use neutrix.Hal.IoApic.{IoApic, handles, find_from, find_ioapic_for_gsi}

-- The controller's interrupts do not reach the end of the 32-bit numbers.
abbrev pub IsBelow : IoApic → Type 0
IsBelow a = a.gsi_base + a.redir_entries < 2 ^ 32

abbrev pub Covers : IoApic → ℕ → Type 0
Covers a gsi = (a.gsi_base ≤ gsi) × (gsi < a.gsi_base + a.redir_entries)

-- The result for the table `rest`, which stands from index `i` on: a controller that covers the
-- interrupt, with the interrupt's number there, or none covers it.
abbrev pub Found : ℕ → List IoApic → ℕ → Option (ℕ × ℕ) → Type 0
Found i rest gsi r =
    ((k local : ℕ) × (a : IoApic) × (r ≡ some (i + k, local))
      × (get_elem? rest k ≡ some a)
      × Covers a gsi
      × (gsi ≡ a.gsi_base + local))
    ⊎ ((r ≡ none) × All (λ a. ¬ (Covers a gsi)) rest)

handles-Covers : (a : IoApic) (gsi : ℕ) → IsBelow a → handles a gsi ≡ true → Covers a gsi
handles-Covers a gsi low h =
    let e : u32 (a.gsi_base + a.redir_entries) ≡ a.gsi_base + a.redir_entries = omega arith in
    ground arith

Covers-handles : (a : IoApic) (gsi : ℕ) → IsBelow a → Covers a gsi → handles a gsi ≡ true
Covers-handles a gsi low h =
    let e : u32 (a.gsi_base + a.redir_entries) ≡ a.gsi_base + a.redir_entries = omega arith in
    ground (arith, h.0, h.1)

find_from-Found :
    (i : ℕ) (table : List IoApic) (gsi : ℕ)
    → All IsBelow table
    → Found i table gsi (find_from i table gsi)
unfolding find_from
find_from-Found i [] gsi low = inr (refl, tt)
find_from-Found i (a ∷ table) gsi low = elim (Bool-cases (handles a gsi)) [
  | inl hit ↦
      let c = handles-Covers a gsi low.0 hit in
      let first : i + 0 ≡ i = omega arith in
      inl (0, gsi - a.gsi_base, a, rw (hit, first) refl, refl, c, omega (arith, c.0))
  | inr miss ↦ elim (find_from-Found (i + 1) table gsi low.1) [
    | inl (k, local, b, e, at, c, g) ↦
        let next : i + suc k ≡ i + 1 + k = omega arith in
        inl (suc k, local, b, rw (miss, next) e, at, c, g)
    | inr (e, all) ↦ inr (rw miss e, ((λ c. absurd (cc (Covers-handles a gsi low.0 c, miss))), all))
  ]
]

-- If no controller's interrupts reach the end of the 32-bit numbers, `find_ioapic_for_gsi` answers
-- with a controller of the table that covers the interrupt and the interrupt's number there, or
-- with nothing when no controller covers it.
pub find_ioapic_for_gsi-Found :
    (table : List IoApic) (gsi : ℕ)
    → All IsBelow table
    → Found 0 table gsi (find_ioapic_for_gsi table gsi)
unfolding find_ioapic_for_gsi
find_ioapic_for_gsi-Found table gsi low = find_from-Found 0 table gsi low
