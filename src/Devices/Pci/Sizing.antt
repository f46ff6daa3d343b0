-- ===== src/Devices/Pci/Sizing.antt =====
-- src/devices/pci.rs: what the base address registers of a function are read as.
use neutrix.Base.{
  ℕ, zero, suc, ◌+◌, ◌<◌, ◌≤◌, ◌≡◌, refl, sym, ap, ◌∙◌, true, false, List, [], ◌∷◌, ◌++◌, ltb,
  arith,
}
use mathlib.Core.Path.{subst}
use neutrix.Arch.Machine.{Machine}
use neutrix.DriverFramework.Device.{Resource}
use neutrix.Devices.Pci.{read_bars}
use neutrix.Devices.Pci.Layout.{Registers, Laid, end, unused, ports, memory, wide}
use neutrix.Devices.Pci.Rounds.{Round, unused-Round, ports-Round, memory-Round, wide-Round}

module _ (mc : Machine) (phys : ℕ) (reg : Registers mc phys) where
  Found : (h : mc.ports.Hardware) (n i : ℕ) → List Resource → Type 0
  Found h n i rs =
      ((read_bars mc phys n i h).0 ≡ rs) × (reg.value (read_bars mc phys n i h).1 ≡ reg.value h)

  -- A round, and what the rest then finds.
  Found-Round :
      (h : mc.ports.Hardware) (n i taken : ℕ) (found rs : List Resource)
      → i < 6
      → (round : Round mc phys reg h i found taken)
      → ((h1 : mc.ports.Hardware) → reg.value h1 ≡ reg.value h → Found h1 n (i + taken) rs)
      → Found h (suc n) i (found ++ rs)
  unfolding Found Round read_bars
  Found-Round h n i taken found rs l (h1, is, same) later =
      let (finds, keeps) = later h1 same in
      let inside : ltb i 6 ≡ true = ground arith in
      let is_rest = read_bars mc phys n (i + taken) h1 in
      let run : read_bars mc phys (suc n) i h ≡ (found ++ is_rest.0, is_rest.1) =
        rw (is, inside) refl in
      (ap (λ r. r.0) run ∙ ap (λ t. found ++ t) finds, ap (λ r. reg.value r.1) run ∙ keeps ∙ same)

  Found-Laid :
      (h : mc.ports.Hardware) (n i : ℕ) (rs : List Resource)
      → 6 ≤ i + n
      → Laid reg (reg.value h) i rs
      → Found h n i rs
  unfolding Found read_bars
  Found-Laid h zero i [] enough (end ge) = (refl, refl)
  Found-Laid h (suc n) i [] enough (end ge) =
      let outside : ltb i 6 ≡ false = ground arith in rw outside (refl, refl)
  Found-Laid h zero i rs enough (unused l e rest) = absurd (omega arith)
  Found-Laid h (suc n) i rs enough (unused l e rest) =
      Found-Round h n i 1 [] rs l (unused-Round mc phys reg h i l e) (λ h1 same.
        Found-Laid h1 n (i + 1) rs (omega arith)
          (subst (λ v. Laid reg v (i + 1) rs) (sym same) rest))
  Found-Laid h zero i (r ∷ rs) enough (ports k n held small rest) =
      absurd (omega (arith, held.below))
  Found-Laid h (suc m) i (r ∷ rs) enough (ports k n held small rest) =
      Found-Round h m i 1 (r ∷ []) rs held.below (ports-Round mc phys reg h i k n held small)
        (λ h1 same.
          Found-Laid h1 m (i + 1) rs (omega arith)
            (subst (λ v. Laid reg v (i + 1) rs) (sym same) rest))
  Found-Laid h zero i (r ∷ rs) enough (memory k n f held low two narrow pos small rest) =
      absurd (omega (arith, held.below))
  Found-Laid h (suc m) i (r ∷ rs) enough (memory k n f held low two narrow pos small rest) =
      Found-Round h m i 1 (r ∷ []) rs held.below
        (memory-Round mc phys reg h i k n f held low two narrow pos small)
        (λ h1 same.
          Found-Laid h1 m (i + 1) rs (omega arith)
            (subst (λ v. Laid reg v (i + 1) rs) (sym same) rest))
  Found-Laid h zero i (r ∷ rs) enough (wide k n f k' n' size low high l two double e fits rest) =
      absurd (omega (arith, low.below))
  Found-Laid h (suc m) i (r ∷ rs) enough (wide k n f k' n' size low high l two double e fits rest) =
      Found-Round h m i 2 (r ∷ []) rs low.below
        (wide-Round mc phys reg h i k n f k' n' low high size l two double e fits)
        (λ h1 same.
          Found-Laid h1 m (i + 2) rs (omega arith)
            (subst (λ v. Laid reg v (i + 2) rs) (sym same) rest))

  -- If the base address registers hold the multiples of their grains that a layout says, then
  -- `read_bars` lists exactly the layout's resources, with their addresses and sizes, and each
  -- register reads afterwards as it did before.
  pub read_bars-Laid :
      (h : mc.ports.Hardware) (rs : List Resource)
      → Laid reg (reg.value h) 0 rs
      → ((read_bars mc phys 6 0 h).0 ≡ rs) × (reg.value (read_bars mc phys 6 0 h).1 ≡ reg.value h)
  unfolding Found
  read_bars-Laid h rs laid = Found-Laid h 6 0 rs (omega arith) laid
