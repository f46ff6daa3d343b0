-- ===== src/Arch/TscTimer/Tests.antt =====
-- A counter that starts near its end and goes on by 300 ticks whenever it is read.
use neutrix.Base.{ℕ, ◌+◌, ◌*◌, ◌%◌, ◌^◌, ◌-◌, ◌≤◌, ◌≡◌, refl, true, some, arith}
use neutrix.Arch.TscTimer.{Clock, period_of, calibrate}
use neutrix.Arch.TscTimer.Calibration.{Ticks, calibrate-ends}

abbrev fast : Clock
fast = record {
  Hardware = ℕ;
  rdtsc = λ h. (h * 7 % 2 ^ 64, h);
  read_volatile = λ h addr. (h % 2 ^ 64, h + 300);
  write_msr = λ h msr val. h;
  is_mapped = λ h addr. true;
  map_to = λ h page frame. (true, h);
}

abbrev fast-Ticks : Ticks fast 0xF0
fast-Ticks = record {
  count = λ h. h;
  reads = λ h. refl;
  goes_on = λ h. omega arith;
  not_far = λ h. omega arith;
  stays = λ h. omega arith;
  near = λ h. omega arith;
  stamp = λ h. h * 7;
  stamps = λ h. refl;
  stamp_on = λ h. omega arith;
  stamp_near = λ h. omega arith;
  stamp_stays = λ h. omega arith;
  stamp_close = λ h. omega arith;
}

abbrev late : ℕ
late = 0xFFFFFFFFFFFFFF00

calibrate-ends_example :
    (h2 : ℕ) × ((late + 1000 ≤ h2)
      × ((late + 300) * 7 ≤ (h2 + 300) * 7)
      × (calibrate fast 1001 0xF0 69841279 10 10000000 late
          ≡ some (
            period_of (h2 - late) ((h2 + 300) * 7 - (late + 300) * 7) 69841279 10 10000000,
            h2 + 300,
          )))
calibrate-ends_example = calibrate-ends fast 0xF0 fast-Ticks 69841279 10 10000000 late
