-- ===== src/Arch/TscTimer/Calibration.antt =====
-- src/arch/tsc_timer.rs: the calibration ends, and what period it tells.
use neutrix.Base.{
  ℕ, zero, suc, ◌+◌, ◌-◌, ◌*◌, ◌/◌, ◌%◌, ◌^◌, ◌<◌, ◌≤◌, ◌≡◌, ap, ◌∙◌, inl, inr, false, Bool-cases,
  Option, none, some, ◌==◌, ltb, ltb→lt, ltb→ge, if◌then◌else◌, arith,
}
use mathlib.Core.Path.{ap₂}
use native.Mathlib.Nat.{mul-div_cancel, min-eq_left}
use neutrix.Arch.TscTimer.{Clock, wrapping_sub, saturating_mul, period_of, wait_ticks, calibrate}

-- A counter at `addr` that reads modulo 2^64 and goes on by a tick at least, and not by a quarter of
-- its range, whenever it is read; between reads it does not go back. Meanwhile the time stamp
-- counter, which reads modulo 2^64 too, does not go back, and goes on by less than 2^50 in a read.
pub record Ticks (clk : Clock) (addr : ℕ) : Type 0 where
  pub count : clk.Hardware → ℕ
  pub reads : (h : clk.Hardware) → (clk.read_volatile h addr).0 ≡ count h % 2 ^ 64
  pub goes_on : (h : clk.Hardware) → count h < count (clk.read_volatile h addr).1
  pub not_far : (h : clk.Hardware) → count (clk.read_volatile h addr).1 < count h + 2 ^ 62
  pub stays : (h : clk.Hardware) → count h ≤ count (clk.rdtsc h).1
  pub near : (h : clk.Hardware) → count (clk.rdtsc h).1 < count h + 2 ^ 62
  pub stamp : clk.Hardware → ℕ
  pub stamps : (h : clk.Hardware) → (clk.rdtsc h).0 ≡ stamp h % 2 ^ 64
  pub stamp_on : (h : clk.Hardware) → stamp h ≤ stamp (clk.read_volatile h addr).1
  pub stamp_near : (h : clk.Hardware) → stamp (clk.read_volatile h addr).1 < stamp h + 2 ^ 50
  pub stamp_stays : (h : clk.Hardware) → stamp h ≤ stamp (clk.rdtsc h).1
  pub stamp_close : (h : clk.Hardware) → stamp (clk.rdtsc h).1 < stamp h + 2 ^ 50

-- The ticks between two readings, also when the counter wrapped around.
wrapping_sub_ticks :
    (c0 c : ℕ) → c0 ≤ c → c < c0 + 2 ^ 64 → wrapping_sub (c % 2 ^ 64) (c0 % 2 ^ 64) ≡ c - c0
wrapping_sub_ticks c0 c l near = omega arith

module _ (clk : Clock) (addr : ℕ) (ticks : Ticks clk addr) where
  -- The wait ends in as many rounds as ticks are missing, with a counter that is far enough.
  wait_ticks-ends :
      (n c0 : ℕ) (h : clk.Hardware)
      → c0 ≤ ticks.count h
      → ticks.count h < c0 + 2 ^ 63
      → 0 < n
      → 1001 ≤ n + (ticks.count h - c0)
      → (h' : clk.Hardware) × (wait_ticks clk n addr (c0 % 2 ^ 64) h ≡ some h')
        × (c0 + 1000 ≤ ticks.count h')
        × (ticks.count h' < c0 + 2 ^ 63 + 2 ^ 62)
        × (ticks.stamp h ≤ ticks.stamp h')
        × (ticks.stamp h' ≤ ticks.stamp h + n * 2 ^ 50)
  unfolding wait_ticks
  wait_ticks-ends zero c0 h ahead near some_rounds enough = absurd (omega arith)
  wait_ticks-ends (suc n) c0 h ahead near some_rounds enough =
      let (now, h1) = clk.read_volatile h addr in
      let passed : wrapping_sub now (c0 % 2 ^ 64) ≡ ticks.count h - c0 =
        ap (λ v. wrapping_sub v (c0 % 2 ^ 64)) (ticks.reads h)
        ∙ wrapping_sub_ticks c0 (ticks.count h) ahead (omega arith) in
      let on = ticks.goes_on h in
      let far = ticks.not_far h in
      let stamp_on = ticks.stamp_on h in
      let stamp_near = ticks.stamp_near h in
      let rest = wait_ticks clk n addr (c0 % 2 ^ 64) h1 in
      elim (Bool-cases (ltb (ticks.count h - c0) 1000)) [
        | inl short ↦
            let lt = ltb→lt (ticks.count h - c0) 1000 short in
            let (h', is, reached, close, later, soon) =
              wait_ticks-ends n c0 h1 (omega arith) (omega arith) (omega arith) (omega arith) in
            (
              h',
              ap (λ d. if ltb d 1000 then rest else some h1) passed
                  ∙ ap (λ b. if b then rest else some h1) short
                  ∙ is,
              reached,
              close,
              omega arith,
              omega arith,
            )
        | inr long ↦
            let ge = ltb→ge (ticks.count h - c0) 1000 long in
            (
              h1,
              ap (λ d. if ltb d 1000 then rest else some h1) passed
                  ∙ ap (λ b. if b then rest else some h1) long,
              omega arith,
              omega arith,
              omega arith,
              omega arith,
            )
      ]

  -- On counters that go on, `calibrate` ends within 1001 rounds of its wait. Its period is that of
  -- the ticks that the HPET made from its first sample to its second, which are 1000 at least, and of
  -- those that the time stamp counter made from its first sample to its second, also when the counters
  -- wrap around meanwhile. `h1` is the hardware behind the first sample of the HPET and `h2` behind
  -- the wait.
  pub calibrate-ends :
      (period_fs desired_ms old : ℕ) (h : clk.Hardware)
      → let h1 = (clk.read_volatile h addr).1 in
        (h2 : clk.Hardware) × (let h3 = (clk.read_volatile h2 addr).1 in
          (ticks.count h + 1000 ≤ ticks.count h2)
          × (ticks.stamp h1 ≤ ticks.stamp h3)
          × (calibrate clk 1001 addr period_fs desired_ms old h
              ≡ some (
                period_of
                    (ticks.count h2 - ticks.count h)
                    (ticks.stamp h3 - ticks.stamp h1)
                    period_fs
                    desired_ms
                    old,
                (clk.rdtsc h3).1,
              )))
  unfolding calibrate
  calibrate-ends period_fs desired_ms old h =
      let c0 = ticks.count h in
      let (h1, s1) = clk.read_volatile h addr in
      let (t1, s2) = clk.rdtsc s1 in
      let on = ticks.goes_on h in
      let far = ticks.not_far h in
      let stays = ticks.stays s1 in
      let near = ticks.near s1 in
      let stamp_stays = ticks.stamp_stays s1 in
      let stamp_close = ticks.stamp_close s1 in
      let (s3, waited, reached, close, later, soon) =
        wait_ticks-ends 1001 c0 s2 (omega arith) (omega arith) (omega arith) (omega arith) in
      let (h2, s4) = clk.read_volatile s3 addr in
      let (t2, s5) = clk.rdtsc s4 in
      let stamp_on = ticks.stamp_on s3 in
      let stamp_near = ticks.stamp_near s3 in
      let result : ℕ → clk.Hardware → Option (ℕ × clk.Hardware) = λ start s3. some (
        period_of (wrapping_sub (clk.read_volatile s3 addr).0 start)
            (wrapping_sub (clk.rdtsc (clk.read_volatile s3 addr).1).0 t1) period_fs desired_ms old,
        (clk.rdtsc (clk.read_volatile s3 addr).1).1,
      ) in
      let told : ℕ → ℕ → Option (ℕ × clk.Hardware) =
        λ hdelta tdelta. some (period_of hdelta tdelta period_fs desired_ms old, s5) in
      (
        s3,
        (
          reached,
          omega arith,
          ap (λ v. elim (wait_ticks clk 1001 addr v s2) [ none ↦ none | some s3 ↦ result v s3 ])
                (ticks.reads h)
              ∙ ap (λ o. elim o [ none ↦ none | some s3 ↦ result (c0 % 2 ^ 64) s3 ]) waited
              ∙ ap (λ v. told (wrapping_sub v (c0 % 2 ^ 64)) (wrapping_sub t2 t1)) (ticks.reads s3)
              ∙ ap (λ v. told v (wrapping_sub t2 t1))
                  (wrapping_sub_ticks c0 (ticks.count s3) (omega arith) (omega arith))
              ∙ ap₂ (λ x y. told (ticks.count s3 - c0) (wrapping_sub x y)) (ticks.stamps s4)
                  (ticks.stamps s1)
              ∙ ap (told (ticks.count s3 - c0)) (
                  wrapping_sub_ticks (ticks.stamp s1) (ticks.stamp s4) (omega arith) (omega arith)),
        ),
      )

saturating_mul-exact : (x y : ℕ) → x * y < 2 ^ 128 → saturating_mul x y ≡ x * y
saturating_mul-exact x y small = min-eq_left (omega arith)

-- If the time stamp counter made exactly the ticks of a counter of `hz` ticks a second in the time
-- that the HPET took, and no product leaves its 128 bits, then the period is the ticks that `hz` makes in
-- `desired_ms` milliseconds.
pub period_of-exact :
    (hz hdelta tdelta period_fs desired_ms old : ℕ)
    → tdelta * 1000000000000000 ≡ hz * (hdelta * period_fs)
    → 0 < hdelta
    → 0 < hdelta * period_fs
    → hdelta * period_fs < 2 ^ 128
    → hz * (hdelta * period_fs) < 2 ^ 128
    → 1000 ≤ hz * desired_ms
    → hz * desired_ms < 2 ^ 64
    → period_of hdelta tdelta period_fs desired_ms old ≡ hz * desired_ms / 1000
unfolding period_of
period_of-exact hz hdelta tdelta period_fs desired_ms old same some_ticks some_time den num least
      most =
    let is_num = saturating_mul-exact tdelta 1000000000000000 (rw same num) ∙ same in
    let is_den = saturating_mul-exact hdelta period_fs den in
    let is_hz : hz * (hdelta * period_fs) / (hdelta * period_fs) ≡ hz =
      mul-div_cancel hz {n = hdelta * period_fs} some_time in
    let ticks : (hdelta == 0) ≡ false = ground arith in
    let time : (hdelta * period_fs == 0) ≡ false = ground arith in
    rw (is_num, is_den, is_hz, ticks, time) (ground arith)
