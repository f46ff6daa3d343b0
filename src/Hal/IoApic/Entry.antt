-- ===== src/Hal/IoApic/Entry.antt =====
-- src/hal/ioapic.rs: redirection entries, written, unmasked and read back.
use neutrix.Base.{
  ℕ, ◌+◌, ◌*◌, ◌/◌, ◌%◌, ◌^◌, ◌<◌, ◌≡◌, ◌≢◌, refl, ◌∙◌, true, some, List, arith, u32,
}
use neutrix.Hal.IoApic.{
  IoApic, Mmio, locate, read_reg, write_reg, write_redirection_entry_for_gsi,
  read_redirection_entry, unmask_at, unmask_gsi, clear_mask, set_vector,
}
use neutrix.Hal.IoApic.Chip.{
  IsChip, LowWritten, HighWritten, reg_low-eq, reg_high-eq, read_reg-register, register-read_reg,
  register-write_reg, low-write_reg, high-write_reg,
}

module _ (io : Mmio) (table : List IoApic) (gsi off base i : ℕ) (chip : IsChip io base)
    (small : i < 120) (here : locate table gsi off ≡ some (base, i)) where
  -- An entry as it is read: the two registers of it.
  read_entry :
      (h : io.Hardware)
      → (read_redirection_entry io h table gsi off).0
        ≡ some (chip.register h (16 + i * 2), chip.register h (17 + i * 2))
  unfolding read_redirection_entry
  read_entry h =
      let low = read_reg-register io base chip h (16 + i * 2) (omega arith) in
      let h1 = (read_reg io h base (16 + i * 2)).1 in
      let high =
        read_reg-register io base chip h1 (17 + i * 2) (omega arith)
        ∙ register-read_reg io base chip h (16 + i * 2) (17 + i * 2) in
      rw (here, read_redirection_entry, reg_high-eq i small, reg_low-eq i small, low, high) refl

  -- Both words written, the high one first.
  abbrev written : io.Hardware → ℕ → ℕ → io.Hardware
  written h low high = write_reg io (write_reg io h base (17 + i * 2) high) base (16 + i * 2) low

  written_low :
      (h : io.Hardware) (low high : ℕ)
      → LowWritten low (chip.register (written h low high) (16 + i * 2))
  written_low h low high =
      low-write_reg io base chip (write_reg io h base (17 + i * 2) high) i low small

  written_high :
      (h : io.Hardware) (low high : ℕ)
      → HighWritten high (chip.register (written h low high) (17 + i * 2))
  written_high h low high =
      rw
        (register-write_reg io base chip (write_reg io h base (17 + i * 2) high) (16 + i * 2) low
          (17 + i * 2) (omega arith))
        (high-write_reg io base chip h i high small)

  written_other :
      (h : io.Hardware) (low high k : ℕ)
      → k ≢ 16 + i * 2
      → k ≢ 17 + i * 2
      → chip.register (written h low high) k ≡ chip.register h k
  written_other h low high k p q =
      register-write_reg io base chip (write_reg io h base (17 + i * 2) high) (16 + i * 2) low k p
      ∙ register-write_reg io base chip h (17 + i * 2) high k q

  -- An entry below 120 of a present controller that is written is read back in the fields that can be
  -- written, and no other register of the controller changes.
  pub read-write_redirection_entry :
      (h : io.Hardware) (low high : ℕ)
      → let h' = (write_redirection_entry_for_gsi io h table gsi low high off).1 in
        ((l u : ℕ) × ((read_redirection_entry io h' table gsi off).0 ≡ some (l, u))
          × LowWritten low l
          × HighWritten high u)
        × ((k : ℕ) → k ≢ 16 + i * 2 → k ≢ 17 + i * 2 → chip.register h' k ≡ chip.register h k)
  unfolding write_redirection_entry_for_gsi
  read-write_redirection_entry h low high =
      let now : write_redirection_entry_for_gsi io h table gsi low high off
          ≡ (true, written h low high) =
        rw (here, write_redirection_entry_for_gsi, reg_high-eq i small, reg_low-eq i small) refl in
      rw now (
        (
          chip.register (written h low high) (16 + i * 2),
          chip.register (written h low high) (17 + i * 2),
          read_entry (written h low high),
          written_low h low high,
          written_high h low high,
        ),
        written_other h low high,
      )

  -- The state after the two reads that `unmask_gsi` makes.
  abbrev read_twice : io.Hardware → io.Hardware
  read_twice h = (read_reg io (read_reg io h base (17 + i * 2)).1 base (16 + i * 2)).1

  read_twice_register :
      (h : io.Hardware) (k : ℕ) → chip.register (read_twice h) k ≡ chip.register h k
  read_twice_register h k =
      register-read_reg io base chip (read_reg io h base (17 + i * 2)).1 (16 + i * 2) k
      ∙ register-read_reg io base chip h (17 + i * 2) k

  unmask_at-written :
      (h : io.Hardware) (vector apic : ℕ)
      → unmask_gsi io h table gsi vector apic off ≡ (
        true,
        written
            (read_twice h)
            (clear_mask (set_vector (chip.register h (16 + i * 2)) vector))
            (u32 (apic * 2 ^ 24)),
      )
  unfolding unmask_gsi unmask_at
  unmask_at-written h vector apic =
      let h1 = (read_reg io h base (17 + i * 2)).1 in
      let low : (read_reg io h1 base (16 + i * 2)).0 ≡ chip.register h (16 + i * 2) =
        read_reg-register io base chip h1 (16 + i * 2) (omega arith)
        ∙ register-read_reg io base chip h (17 + i * 2) (16 + i * 2) in
      rw (here, unmask_gsi, unmask_at, reg_high-eq i small, reg_low-eq i small, low) refl

  -- `unmask_gsi` at an entry below 120 of a present controller succeeds, and the entry that is then read back is not
  -- masked, has the vector and the destination that were given, and has the delivery, destination
  -- and trigger modes that it had; no register of other entries changes.
  pub read-unmask_gsi :
      (h : io.Hardware) (vector apic : ℕ)
      → vector < 256
      → apic < 256
      → let (done, h') = unmask_gsi io h table gsi vector apic off in
        let old = chip.register h (16 + i * 2) in
        (done ≡ true)
        × ((l u : ℕ) × ((read_redirection_entry io h' table gsi off).0 ≡ some (l, u))
            × (l / 2 ^ 16 % 2 ≡ 0)
            × (l % 256 ≡ vector)
            × (u / 2 ^ 24 % 256 ≡ apic)
            × (l / 2 ^ 8 % 2 ^ 4 ≡ old / 2 ^ 8 % 2 ^ 4)
            × (l / 2 ^ 15 % 2 ≡ old / 2 ^ 15 % 2))
        × ((k : ℕ) → k ≢ 16 + i * 2 → k ≢ 17 + i * 2 → chip.register h' k ≡ chip.register h k)
  read-unmask_gsi h vector apic v8 a8 =
      let old = chip.register h (16 + i * 2) in
      let low = clear_mask (set_vector old vector) in
      let high = u32 (apic * 2 ^ 24) in
      let h' = written (read_twice h) low high in
      let lows = written_low (read_twice h) low high in
      let highs = written_high (read_twice h) low high in
      rw (unmask_at-written h vector apic) (
        refl,
        (
          chip.register h' (16 + i * 2),
          chip.register h' (17 + i * 2),
          read_entry h',
          omega (arith, lows.1),
          omega (arith, lows.0),
          omega (arith, highs),
          omega (arith, lows.0),
          omega (arith, lows.1),
        ),
        λ k p q. written_other (read_twice h) low high k p q ∙ read_twice_register h k,
      )
