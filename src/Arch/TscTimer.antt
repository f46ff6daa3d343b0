-- ===== src/Arch/TscTimer.antt =====
-- src/arch/tsc_timer.rs: the timer of the time stamp counter and its calibration. The counters, the
-- register of the deadline and the page tables are a parameter. The wait for the counter has no
-- bound: it runs on fuel here, and has no result while it would go on.
pub mod Calibration
mod Tests
use neutrix.Base.{
  ℕ, zero, suc, ◌+◌, ◌-◌, ◌*◌, ◌/◌, ◌%◌, ◌^◌, min, Bool, true, false, not, ◌||◌, Option, none, some,
  ◌==◌, ltb, if◌then◌else◌, u64, add64, page_down,
}
use neutrix.Arch.Processor.{CpuFeatures}

-- What the timer works on: reads of the time stamp counter and of 64 bits in memory, after which
-- time has passed; writes to model-specific registers; and the page tables.
pub record Clock : Type 1 where
  pub Hardware : Type 0
  pub rdtsc : Hardware → ℕ × Hardware
  pub read_volatile : Hardware → (addr : ℕ) → ℕ × Hardware
  pub write_msr : Hardware → (msr val : ℕ) → Hardware
  pub is_mapped : Hardware → (addr : ℕ) → Bool
  pub map_to : Hardware → (page frame : ℕ) → Bool × Hardware

-- What ACPI tells of the HPET: its address, and its period in femtoseconds, 0 if it is not known.
pub record Hpet : Type 0 where
  pub address : Option ℕ
  pub period_fs : ℕ

-- How `init` ends: not enabled, or armed with this period. `out_of_fuel` is a wait that goes on.
pub data Armed (H : Type 0) : Type 0 where
  not_enabled : H → Armed H
  armed : (period_cycles : ℕ) → H → Armed H
  out_of_fuel : Armed H

-- `x.wrapping_sub(y)` of 64 bits, of values below 2^64
abbrev pub wrapping_sub : ℕ → ℕ → ℕ
wrapping_sub x y = u64 (x + 2 ^ 64 - y)

-- `saturating_mul` of 128 bits
abbrev pub saturating_mul : ℕ → ℕ → ℕ
saturating_mul x y = min (x * y) (2 ^ 128 - 1)

-- The period that two samples tell, or the old one. `hdelta` and `tdelta` are the ticks that the
-- HPET and the time stamp counter made.
unfoldable pub period_of : (hdelta tdelta period_fs desired_ms old : ℕ) → ℕ
period_of hdelta tdelta period_fs desired_ms old =
    let num = saturating_mul tdelta 1000000000000000 in
    let den = saturating_mul hdelta period_fs in
    let tsc_hz = num / den in
    let cycles = tsc_hz * desired_ms % 2 ^ 128 / 1000 in
    if hdelta == 0 || den == 0 then old else (if ltb 0 cycles then u64 cycles else old)

module _ (clk : Clock) where
  -- The pages from `page_start` on, `n` of them; none if one is refused.
  unfoldable pub map_counter : (phys_offset page_start n i : ℕ) → clk.Hardware → Bool × clk.Hardware
  map_counter phys_offset page_start zero i h = (true, h)
  map_counter phys_offset page_start (suc n) i h =
      let phys_page = page_start + i * 0x1000 in
      let virt = add64 phys_offset phys_page in
      let (mapped, h1) = clk.map_to h (page_down virt) (page_down phys_page) in
      let skipped = map_counter phys_offset page_start n (i + 1) h in
      let rest = map_counter phys_offset page_start n (i + 1) h1 in
      if clk.is_mapped h virt then skipped else (if mapped then rest else (false, h1))

  -- The wait until the counter is 1000 ticks ahead of `h1`.
  unfoldable pub wait_ticks : (fuel addr start : ℕ) → clk.Hardware → Option clk.Hardware
  wait_ticks zero addr start h = none
  wait_ticks (suc n) addr start h =
      let (now, h1) = clk.read_volatile h addr in
      let rest = wait_ticks n addr start h1 in
      if ltb (wrapping_sub now start) 1000 then rest else some h1

  -- The samples before and after the wait, and the period that they tell.
  unfoldable pub calibrate :
      (fuel addr period_fs desired_ms old : ℕ) → clk.Hardware → Option (ℕ × clk.Hardware)
  unfolding wait_ticks period_of
  calibrate fuel addr period_fs desired_ms old h =
      let (h1, s1) = clk.read_volatile h addr in
      let (t1, s2) = clk.rdtsc s1 in
      elim (wait_ticks fuel addr h1 s2) [
        | none ↦ none
        | some s3 ↦
            let (h2, s4) = clk.read_volatile s3 addr in
            let (t2, s5) = clk.rdtsc s4 in
            some (period_of (wrapping_sub h2 h1) (wrapping_sub t2 t1) period_fs desired_ms old, s5)
      ]

  -- The deadline is set one period from now.
  unfoldable pub arm : (period : ℕ) → clk.Hardware → clk.Hardware
  arm period h = let (now, h1) = clk.rdtsc h in clk.write_msr h1 0x6E0 (add64 now period)

  -- `tsc_timer_handler`, less the end of interrupt.
  abbrev pub tsc_timer_handler : (period_cycles : ℕ) → clk.Hardware → clk.Hardware
  tsc_timer_handler period_cycles h = arm period_cycles h

  abbrev pub armed_with : (period : ℕ) → clk.Hardware → Armed clk.Hardware
  armed_with period h = armed period (arm period h)

  -- With the HPET at `base`, below 4 GiB.
  unfoldable pub init_with_hpet :
      (fuel base phys_offset period_fs desired_ms old : ℕ) → clk.Hardware → Armed clk.Hardware
  unfolding map_counter calibrate arm
  init_with_hpet fuel base phys_offset period_fs desired_ms old h =
      let main_phys = base + 0xF0 in
      let needed = (main_phys % 0x1000 + 8 + 0xFFF) / 0x1000 in
      let (mapped, h1) = map_counter phys_offset (page_down main_phys) needed 0 h in
      let calibrated : Armed clk.Hardware =
        elim (calibrate fuel (add64 main_phys phys_offset) period_fs desired_ms old h1) [
          | none ↦ out_of_fuel
          | some (period, h2) ↦ armed_with period h2
        ] in
      if not mapped
      then not_enabled h1
      else (if period_fs == 0 then armed_with old h1 else calibrated)

  -- `init`, less the registration of the handler.
  unfoldable pub init :
      CpuFeatures → Hpet → (fuel phys_offset desired_ms old : ℕ) → clk.Hardware → Armed clk.Hardware
  unfolding init_with_hpet arm
  init feats hpet fuel phys_offset desired_ms old h =
      let with_hpet : Armed clk.Hardware = elim hpet.address [
        | none ↦ armed_with old h
        | some base ↦
            (if ltb base 0x100000000
              then init_with_hpet fuel base phys_offset hpet.period_fs desired_ms old h
              else armed_with old h)
      ] in
      if not feats.msr || not feats.tsc_deadline || not feats.tsc then not_enabled h else with_hpet
