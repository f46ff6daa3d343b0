-- ===== src/DriverFramework/Drivers/Ps2Mouse/ControllerTests.antt =====
-- src/driver_framework/drivers/ps2mouse.rs: a mouse that asks twice to send again.
use neutrix.Base.{
  ℕ, zero, suc, ◌-◌, ◌≡◌, refl, Bool, true, false, bit, Option, none, some, ◌==◌, if◌then◌else◌,
  arith,
}
use neutrix.Arch.Ports.{Ports}
use neutrix.DriverFramework.Drivers.Ps2Mouse.Controller.{send_mouse_cmd_with_ack}
use neutrix.DriverFramework.Drivers.Ps2Mouse.Ack.{IsMouse, polled, send_mouse_cmd_with_ack-acked}

-- The resends that it asks for, the answer in its buffer, and whether the next byte is for the
-- mouse. The keyboard does not answer.
abbrev obliging : Ports
obliging = record {
  Hardware = ℕ × Option ℕ × Bool;
  outb = λ h port v.
      if port == 0x64
      then (h.0, h.1, v == 0xD4)
      else (if h.2
          then (h.0 - 1, some (if h.0 == 0 then 0xFA else 0xFE), false)
          else (h.0, none, false));
  outw = λ h _ _. h;
  outdw = λ h _ _. h;
  inb = λ h port.
      if port == 0x60
      then (elim h.1 [ none ↦ 0 | some v ↦ v ], h)
      else (elim h.1 [ none ↦ 0 | some _ ↦ 1 ], h);
  inw = λ h _. (0, h);
  indw = λ h _. (0, h);
}

polled-obliging : (k : ℕ) (h : ℕ × Option ℕ × Bool) → polled obliging k h ≡ h
polled-obliging zero h = refl
polled-obliging (suc k) h = polled-obliging k h

never_busy : (o : Option ℕ) → bit (elim o [ none ↦ 0 | some _ ↦ 1 ]) 1 ≡ false
never_busy none = refl
never_busy (some v) = refl

obliging-IsMouse : IsMouse obliging
obliging-IsMouse = record {
  resends = λ h. h.0;
  forwards = λ h. h.2;
  input_clears = λ h. (0, omega arith, never_busy h.1);
  resends-inb = λ h. refl;
  forwards-inb = λ h. refl;
  resends-outb = λ h. refl;
  forwards-outb = λ h. refl;
  answers = λ h cmd forwarded. (0, omega arith, rw forwarded refl);
  answer = λ h cmd k forwarded e.
      rw (forwarded, polled-obliging k (h.0 - 1, some (if h.0 == 0 then 0xFA else 0xFE), false))
        (refl, refl);
}

send_mouse_cmd_with_ack-acked_example :
    (send_mouse_cmd_with_ack obliging 0xF4 4 (2, none, false)).0 ≡ true
send_mouse_cmd_with_ack-acked_example =
    send_mouse_cmd_with_ack-acked obliging obliging-IsMouse 0xF4 4 (2, none, false)
      (unfold obliging-IsMouse in omega arith)
