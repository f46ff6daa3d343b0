-- ===== src/Devices/Pci/Rounds.antt =====
-- src/devices/pci.rs: one round of the loop of `read_bars`, at each kind of register.
use neutrix.Base.{
  ℕ, ◌+◌, ◌*◌, ◌/◌, ◌%◌, ◌^◌, ◌<◌, ◌≡◌, ◌≢◌, refl, ap, ◌∙◌, true, false, List, [], ◌∷◌, ◌==◌,
  if◌then◌else◌, arith,
}
use mathlib.Core.Path.{fun_ext}
use neutrix.Arch.Machine.{Machine}
use neutrix.DriverFramework.Device.{Resource, memory_mapped, io}
use neutrix.Devices.Pci.{ecam_read, ecam_write, wide_bar, read_bar}
use neutrix.Devices.Pci.Layout.{
  Registers, Holds, floor_grain, floor_ones, same_place, next_place, resource, is_ports, is_even,
  at_least_four, pos_mul, ports_size, memory_size, wide_size,
}

module _ (mc : Machine) (phys : ℕ) (reg : Registers mc phys) where
  ecam_read-value :
      (h : mc.ports.Hardware) (i : ℕ) → i < 6 → ecam_read mc phys (0x10 + i * 4) h ≡ reg.value h i
  ecam_read-value h i l = ap (λ a. mc.read_volatile h (phys + a)) (same_place i l) ∙ reg.reads h i l

  value-ecam_write :
      (h : mc.ports.Hardware) (i j v : ℕ)
      → i < 6
      → reg.value (ecam_write mc phys (0x10 + i * 4) v h) j
        ≡ (if i == j then v / reg.grain i * reg.grain i + reg.flags i else reg.value h j)
  value-ecam_write h i j v l =
      ap (λ a. reg.value (mc.write_volatile h (phys + a) v) j) (same_place i l)
      ∙ reg.writes h i j v l

  module _ (h : mc.ports.Hardware) (i g f n : ℕ) (held : Holds reg (reg.value h) i g f n) where
    -- What a register holds after all ones.
    ones_read :
        (h' : mc.ports.Hardware)
        → reg.value (ecam_write mc phys (0x10 + i * 4) 0xFFFFFFFF h') i + g ≡ 2 ^ 32 + f
    ones_read h' =
        let written = value-ecam_write h' i i 0xFFFFFFFF held.below in
        let ones = floor_ones g held.parts (omega (arith, held.fits)) held.divides in
        rw (written, held.grain_is, held.flags_are) (ground (arith, ones))

    -- Its own value is kept when it is written back.
    restored :
        (h' : mc.ports.Hardware) (j : ℕ)
        → reg.value (ecam_write mc phys (0x10 + i * 4) (reg.value h i) h') j
          ≡ (if i == j then reg.value h i else reg.value h' j)
    restored h' j =
        let written = value-ecam_write h' i j (reg.value h i) held.below in
        let kept = floor_grain n g f held.fits in
        written ∙ rw (held.grain_is, held.flags_are, held.value_is, kept) refl

    -- After all ones and its own value, no register has changed.
    unchanged :
        (h' : mc.ports.Hardware)
        → reg.value (
            ecam_write mc phys
              (0x10 + i * 4)
              (reg.value h i)
              (ecam_write mc phys (0x10 + i * 4) 0xFFFFFFFF h))
          ≡ reg.value h
    unchanged h' = fun_ext λ j.
        let h1 = ecam_write mc phys (0x10 + i * 4) 0xFFFFFFFF h in
        restored h1 j ∙ ground (arith, value-ecam_write h i j 0xFFFFFFFF held.below)

  -- A round of the loop at each kind of register.
  unfoldable pub Round : (h : mc.ports.Hardware) (i : ℕ) → List Resource → ℕ → Type 0
  Round h i found taken =
      (h1 : mc.ports.Hardware) × (read_bar mc phys i h ≡ (found, taken, h1))
      × (reg.value h1 ≡ reg.value h)

  pub unused-Round : (h : mc.ports.Hardware) (i : ℕ) → i < 6 → reg.value h i ≡ 0 → Round h i [] 1
  unfolding Round read_bar
  unused-Round h i l e = (h, rw (ecam_read-value h i l ∙ e) refl, refl)

  pub ports-Round :
      (h : mc.ports.Hardware) (i k n : ℕ)
      → Holds reg (reg.value h) i (4 * k) 1 n
      → 4 * k < 2 ^ 32
      → Round h i (record { kind = io; addr = n * (4 * k); len = 4 * k } ∷ []) 1
  unfolding Round read_bar
  ports-Round h i k n held small =
      let off = 0x10 + i * 4 in
      let o = reg.value h i in
      let h1 = ecam_write mc phys off 0xFFFFFFFF h in
      let (there, port, address) = is_ports (n * k) o (held.value_is ∙ omega arith) in
      let mask : ecam_read mc phys off h1 + 4 * k ≡ 2 ^ 32 + 1 =
        ap (λ m. m + 4 * k) (ecam_read-value h1 i held.below) ∙ ones_read h i (4 * k) 1 n held h in
      (
        ecam_write mc phys off o h1,
        rw (ecam_read-value h i held.below, there, port)
            (ap (λ r. (r ∷ [], 1, ecam_write mc phys off o h1))
              (resource io (address ∙ omega arith) (ports_size k _ mask small))),
        unchanged h i (4 * k) 1 n held h,
      )

  pub memory-Round :
      (h : mc.ports.Hardware) (i k n f : ℕ)
      → Holds reg (reg.value h) i (16 * k) f n
      → f < 16
      → f % 2 ≡ 0
      → f / 2 % 4 ≢ 2
      → 0 < n
      → 16 * k < 2 ^ 32
      → Round h i (record { kind = memory_mapped; addr = n * (16 * k); len = 16 * k } ∷ []) 1
  unfolding Round read_bar
  memory-Round h i k n f held low two narrow pos small =
      let off = 0x10 + i * 4 in
      let o = reg.value h i in
      let h1 = ecam_write mc phys off 0xFFFFFFFF h in
      let k_pos : 0 < k = omega (arith, held.fits) in
      let some_address : 0 < n * k = pos_mul n k pos k_pos in
      let (there, port, address, kind) =
        is_even (n * k) o f (held.value_is ∙ omega arith) low two (omega (arith, held.value_is)) in
      let mask : ecam_read mc phys off h1 + 16 * k ≡ 2 ^ 32 + f =
        ap (λ m. m + 16 * k) (ecam_read-value h1 i held.below)
        ∙ ones_read h i (16 * k) f n held h in
      let not_wide : (o / 2 % 4 == 2) ≡ false = ground arith in
      (
        ecam_write mc phys off o h1,
        rw (ecam_read-value h i held.below, there, port, not_wide)
            (ap (λ r. (r ∷ [], 1, ecam_write mc phys off o h1))
              (resource memory_mapped (address ∙ omega arith)
                (memory_size k f _ mask low k_pos small))),
        unchanged h i (16 * k) f n held h,
      )

  -- Both halves of a register of 64 bits.
  module _ (h : mc.ports.Hardware) (i k n f k' n' : ℕ)
      (low : Holds reg (reg.value h) i (16 * k) f n)
      (high : Holds reg (reg.value h) (i + 1) k' 0 n') where
    low_ones : mc.ports.Hardware
    low_ones = ecam_write mc phys (0x10 + i * 4) 0xFFFFFFFF h

    both_ones : mc.ports.Hardware
    both_ones = ecam_write mc phys (0x10 + (i + 1) * 4) 0xFFFFFFFF low_ones

    both_back : mc.ports.Hardware
    both_back =
        ecam_write mc phys (0x10 + (i + 1) * 4) (reg.value h (i + 1))
          (ecam_write mc phys (0x10 + i * 4) (reg.value h i) both_ones)

    low_mask : ecam_read mc phys (0x10 + i * 4) both_ones + 16 * k ≡ 2 ^ 32 + f
    unfolding both_ones low_ones
    low_mask =
        let first = ones_read h i (16 * k) f n low h in
        let second = value-ecam_write low_ones (i + 1) i 0xFFFFFFFF high.below in
        rw (ecam_read-value both_ones i low.below) (ground (arith, first, second))

    high_mask : ecam_read mc phys (0x10 + (i + 1) * 4) both_ones + k' ≡ 2 ^ 32
    unfolding both_ones
    high_mask =
        ap (λ m. m + k') (ecam_read-value both_ones (i + 1) high.below)
        ∙ ones_read h (i + 1) k' 0 n' high low_ones
        ∙ omega arith

    value-both_back : reg.value both_back ≡ reg.value h
    unfolding both_back both_ones low_ones
    value-both_back = fun_ext λ j.
        let last =
          restored h (i + 1) k' 0 n' high
            (ecam_write mc phys (0x10 + i * 4) (reg.value h i) both_ones) j in
        let before = restored h i (16 * k) f n low both_ones j in
        let second = value-ecam_write low_ones (i + 1) j 0xFFFFFFFF high.below in
        let first = value-ecam_write h i j 0xFFFFFFFF low.below in
        ground (arith, last, before, second, first)

    module _ (size : ℕ) (flags_small : f < 16) (even : f % 2 ≡ 0) (double : f / 2 % 4 ≡ 2)
        (is_size : size + 2 ^ 32 ≡ k' * 2 ^ 32 + 16 * k) (size_fits : size < 2 ^ 64) where
      wide_found : wide_bar mc phys (0x10 + i * 4) (reg.value h i) h ≡ (
        record { kind = memory_mapped; addr = n' * k' * 2 ^ 32 + n * (16 * k); len = size },
        both_back,
      )
      unfolding wide_bar both_back both_ones low_ones
      wide_found =
          let pos : 0 < k = omega (arith, low.fits) in
          let some_size : 0 < size = omega (arith, high.fits) in
          let (there, port, address, kind) =
            is_even (n * k) (reg.value h i) f (low.value_is ∙ omega arith) flags_small even
              (at_least_four (reg.value h i) (n * k) f (low.value_is ∙ omega arith) double) in
          rw (next_place i, ecam_read-value h (i + 1) high.below)
            (ap (λ r. (r, both_back))
              (resource memory_mapped (rw (high.value_is, address) (omega arith)) (
                wide_size k f k' size _ _ low_mask high_mask flags_small pos is_size some_size
                  size_fits)))

      pub wide-Round :
          Round h i
            (record { kind = memory_mapped; addr = n' * k' * 2 ^ 32 + n * (16 * k); len = size }
              ∷ [])
            2
      unfolding Round read_bar
      wide-Round =
          let pos : 0 < k = omega (arith, low.fits) in
          let o = reg.value h i in
          let (there, port, address, kind) =
            is_even (n * k) o f (low.value_is ∙ omega arith) flags_small even
              (at_least_four (reg.value h i) (n * k) f (low.value_is ∙ omega arith) double) in
          let is_wide : (o / 2 % 4 == 2) ≡ true = ground arith in
          (
            both_back,
            rw (ecam_read-value h i low.below, there, port, is_wide)
                (ap (λ (w : Resource × mc.ports.Hardware). (w.0 ∷ [], 2, w.1)) wide_found),
            value-both_back,
          )
