-- ===== src/Devices/Acpi/Search.antt =====
-- src/devices/acpi/acpi.rs: the search for the root pointer.
use neutrix.Base.{
  ℕ, zero, suc, ◌+◌, ◌-◌, ◌*◌, ◌^◌, ◌≤◌, ◌<◌, ◌≡◌, ◌≢◌, refl, inl, inr, ◌⊎◌, true, false, Option,
  none, some, ltb, Bool-cases, add64, Ram, arith,
}
use neutrix.Devices.Acpi.{is_rsdp_at, search_from, search_rsdp_in_range, find_rsdp}

-- `r` is the first root pointer at a multiple of 16 from `lo` on, in front of `hi`.
abbrev pub FirstRsdp : Ram → ℕ → ℕ → Option ℕ → Type 0
FirstRsdp m lo hi r =
    ((k : ℕ) × (r ≡ some (lo + k * 16))
      × (lo + k * 16 < hi)
      × (is_rsdp_at m (lo + k * 16) ≡ true)
      × ((j : ℕ) → j < k → is_rsdp_at m (lo + j * 16) ≡ false))
    ⊎ ((r ≡ none) × ((j : ℕ) → lo + j * 16 < hi → is_rsdp_at m (lo + j * 16) ≡ false))

module _ (m : Ram) (hi lo : ℕ) (miss : is_rsdp_at m lo ≡ false) where
  at_next : (k : ℕ) → lo + 16 + k * 16 ≡ lo + suc k * 16
  at_next k = omega arith

  misses_before :
      (k : ℕ)
      → ((j : ℕ) → j < k → is_rsdp_at m (lo + 16 + j * 16) ≡ false)
      → (j : ℕ) → j < suc k
      → is_rsdp_at m (lo + j * 16) ≡ false
  misses_before k before zero h = let at : lo + 0 * 16 ≡ lo = omega arith in rw at miss
  misses_before k before (suc j) h = rw⁻¹ (at_next j) (before j (omega arith))

  misses_all :
      ((j : ℕ) → lo + 16 + j * 16 < hi → is_rsdp_at m (lo + 16 + j * 16) ≡ false)
      → (j : ℕ) → lo + j * 16 < hi
      → is_rsdp_at m (lo + j * 16) ≡ false
  misses_all all zero h = let at : lo + 0 * 16 ≡ lo = omega arith in rw at miss
  misses_all all (suc j) h = rw⁻¹ (at_next j) (all j (omega arith))

  FirstRsdp-later : (r : Option ℕ) → FirstRsdp m (lo + 16) hi r → FirstRsdp m lo hi r
  FirstRsdp-later r (inl (k, e, inside, hit, before)) =
      inl (suc k, rw⁻¹ (at_next k) e, omega arith, rw⁻¹ (at_next k) hit, misses_before k before)
  FirstRsdp-later r (inr (e, all)) = inr (e, misses_all all)

search_from-FirstRsdp :
    (m : Ram) (hi fuel lo : ℕ) → hi ≤ lo + fuel → FirstRsdp m lo hi (search_from m hi fuel lo)
unfolding search_from
search_from-FirstRsdp m hi zero lo h = inr (refl, λ j l. absurd (omega arith))
search_from-FirstRsdp m hi (suc fuel) lo h = elim (Bool-cases (ltb lo hi)) [
  | inr past ↦ inr (rw past refl, λ j l. absurd (ground arith))
  | inl ahead ↦ elim (Bool-cases (is_rsdp_at m lo)) [
    | inl hit ↦
        let at : lo + 0 * 16 ≡ lo = omega arith in
        inl (
          0,
          rw (ahead, hit, at) refl,
          rw at (ground arith),
          rw at hit,
          λ j l. absurd (omega arith),
        )
    | inr miss ↦
        rw (ahead, miss)
          (FirstRsdp-later m hi lo miss _ (search_from-FirstRsdp m hi fuel (lo + 16) (omega arith)))
  ]
]

search_rsdp_in_range-FirstRsdp :
    (m : Ram) (start end off : ℕ)
    → start + off < 2 ^ 64
    → end + off < 2 ^ 64
    → FirstRsdp m (start + off) (end + off) (search_rsdp_in_range m start end off)
unfolding search_rsdp_in_range
search_rsdp_in_range-FirstRsdp m start end off a b =
    let e1 : add64 start off ≡ start + off = omega arith in
    let e2 : add64 end off ≡ end + off = omega arith in
    rw (e1, e2) (search_from-FirstRsdp m (end + off) (end - start) (start + off) (omega arith))

-- The first of the extended BIOS data area, or else the first of the main BIOS area.
abbrev pub Preferred : Ram → ℕ → Option ℕ → Type 0
Preferred m off r =
    ((r ≢ none) × FirstRsdp m (0x9FC00 + off) (0xA0000 + off) r)
    ⊎ (FirstRsdp m (0x9FC00 + off) (0xA0000 + off) none
        × FirstRsdp m (0xE0000 + off) (0x100000 + off) r)

chosen :
    (m : Ram) (off : ℕ) (a b : Option ℕ)
    → FirstRsdp m (0x9FC00 + off) (0xA0000 + off) a
    → FirstRsdp m (0xE0000 + off) (0x100000 + off) b
    → Preferred m off (elim a [ some p ↦ some p | none ↦ b ])
chosen m off (some p) b x y = inl (λ e. cc e, x)
chosen m off none b x y = inr (x, y)

-- Where neither area wraps around the address space, `find_rsdp` returns the first valid root
-- pointer at a multiple of 16 in the extended BIOS data area, or else the first in the main BIOS
-- area, and nothing only if there is none in both.
pub find_rsdp-Preferred :
    (m : Ram) (off : ℕ) → off + 0x100000 < 2 ^ 64 → Preferred m off (find_rsdp m off)
unfolding find_rsdp
find_rsdp-Preferred m off small =
    chosen m off (search_rsdp_in_range m 0x9FC00 0xA0000 off)
      (search_rsdp_in_range m 0xE0000 0x100000 off)
      (search_rsdp_in_range-FirstRsdp m 0x9FC00 0xA0000 off (omega arith) (omega arith))
      (search_rsdp_in_range-FirstRsdp m 0xE0000 0x100000 off (omega arith) (omega arith))
