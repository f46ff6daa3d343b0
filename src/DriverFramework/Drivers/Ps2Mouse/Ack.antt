-- ===== src/DriverFramework/Drivers/Ps2Mouse/Ack.antt =====
-- src/driver_framework/drivers/ps2mouse.rs: a command reaches a mouse that answers.
use neutrix.Base.{
  ℕ, zero, suc, ◌+◌, ◌-◌, ◌<◌, ◌≡◌, refl, ◌∙◌, ap, inl, inr, Bool, true, false, not, Bool-cases,
  some, ◌==◌, leb, if◌then◌else◌, bit, arith,
}
use neutrix.Arch.Ports.{Ports}
use neutrix.DriverFramework.Drivers.Ps2Mouse.Controller.{
  wait_input_clear, wait_for_data, write_clear, write_mouse_data, judge, send_from,
  send_mouse_cmd_with_ack,
}

fewer : {a b c n : ℕ} → c ≡ b - 1 → b ≡ a → a < suc n → (b == 0) ≡ false → c < n
fewer e f l some_left = ground arith

not_last :
    {a b n retries : ℕ} (attempt : ℕ)
    → attempt + suc n ≡ retries
    → b ≡ a
    → a < suc n
    → (b == 0) ≡ false
    → leb retries (attempt + 1) ≡ false
not_last attempt e f l some_left = ground arith

if_not : {A : Type 0} (b : Bool) (x y : A) → b ≡ false → (if b then x else y) ≡ y
if_not true x y e = absurd (cc e)
if_not false x y e = refl

module _ (io : Ports) where
  -- The hardware after `k` reads of the status port, and what the next read gives.
  abbrev pub polled : ℕ → io.Hardware → io.Hardware
  polled zero h = h
  polled (suc k) h = polled k (io.inb h 0x64).1

  abbrev pub status_at : ℕ → io.Hardware → ℕ
  status_at k h = (io.inb (polled k h) 0x64).0

  -- What a keyboard controller with a mouse does. In each state it still asks for a number of
  -- resends, and it forwards the next data byte to the mouse or to the keyboard: to the mouse behind
  -- the command 0xD4, until a byte is written. However often it is polled, its input buffer gets
  -- clear before the 10000th poll; once a byte is forwarded to the mouse, an answer is there before
  -- the 10000th poll, and whenever the status says so the data port reads the answer: a request to
  -- send again, which counts, or the acknowledgement if no more resends are asked for. Of a byte that
  -- is not forwarded to the mouse nothing is said.
  pub record IsMouse : Type 0 where
    pub resends : io.Hardware → ℕ
    pub forwards : io.Hardware → Bool
    pub input_clears : (h : io.Hardware) → (k : ℕ) × (k < 10000) × (bit (status_at k h) 1 ≡ false)
    pub resends-inb : (h : io.Hardware) → resends (io.inb h 0x64).1 ≡ resends h
    pub forwards-inb : (h : io.Hardware) → forwards (io.inb h 0x64).1 ≡ forwards h
    pub resends-outb : (h : io.Hardware) → resends (io.outb h 0x64 0xD4) ≡ resends h
    pub forwards-outb : (h : io.Hardware) → forwards (io.outb h 0x64 0xD4) ≡ true
    pub answers :
        (h : io.Hardware) (cmd : ℕ)
        → forwards h ≡ true
        → (k : ℕ) × (k < 10000) × (bit (status_at k (io.outb h 0x60 cmd)) 0 ≡ true)
    pub answer :
        (h : io.Hardware) (cmd k : ℕ)
        → forwards h ≡ true
        → bit (status_at k (io.outb h 0x60 cmd)) 0 ≡ true
        → ((io.inb (polled (suc k) (io.outb h 0x60 cmd)) 0x60).0
            ≡ (if resends h == 0 then 0xFA else 0xFE))
          × (resends (io.inb (polled (suc k) (io.outb h 0x60 cmd)) 0x60).1 ≡ resends h - 1)

  -- The waiting loop stops at a poll that says clear.
  wait_input_clear-polled :
      (n k : ℕ) (h : io.Hardware)
      → k < n
      → bit (status_at k h) 1 ≡ false
      → (j : ℕ) × (wait_input_clear io n h ≡ (true, polled j h))
  unfolding wait_input_clear
  wait_input_clear-polled zero k h l e = absurd (omega arith)
  wait_input_clear-polled (suc n) zero h l e = (1, rw e refl)
  wait_input_clear-polled (suc n) (suc k) h l e = elim (Bool-cases (bit (status_at 0 h) 1)) [
    | inr clear ↦ (1, rw clear refl)
    | inl busy ↦
        let (j, is) = wait_input_clear-polled n k (io.inb h 0x64).1 (omega arith) e in
        (suc j, rw busy is)
  ]

  wait_for_data-polled :
      (n k : ℕ) (h : io.Hardware)
      → k < n
      → bit (status_at k h) 0 ≡ true
      → (j : ℕ) × (bit (status_at j h) 0 ≡ true)
        × (wait_for_data io n h
            ≡ (some (io.inb (polled (suc j) h) 0x60).0, (io.inb (polled (suc j) h) 0x60).1))
  unfolding wait_for_data
  wait_for_data-polled zero k h l e = absurd (omega arith)
  wait_for_data-polled (suc n) zero h l e = (0, e, rw e refl)
  wait_for_data-polled (suc n) (suc k) h l e = elim (Bool-cases (bit (status_at 0 h) 0)) [
    | inl there ↦ (0, there, rw there refl)
    | inr empty ↦
        let (j, e', is) = wait_for_data-polled n k (io.inb h 0x64).1 (omega arith) e in
        (suc j, e', rw empty is)
  ]

  module _ (mouse : IsMouse) where
    resends-polled : (k : ℕ) (h : io.Hardware) → mouse.resends (polled k h) ≡ mouse.resends h
    resends-polled zero h = refl
    resends-polled (suc k) h = resends-polled k (io.inb h 0x64).1 ∙ mouse.resends-inb h

    forwards-polled : (k : ℕ) (h : io.Hardware) → mouse.forwards (polled k h) ≡ mouse.forwards h
    forwards-polled zero h = refl
    forwards-polled (suc k) h = forwards-polled k (io.inb h 0x64).1 ∙ mouse.forwards-inb h

    write_clear-sent :
        (port value : ℕ) (h : io.Hardware)
        → (j : ℕ) × (write_clear io port value h ≡ (true, io.outb (polled j h) port value))
    unfolding write_clear
    write_clear-sent port value h =
        let (k, l, e) = mouse.input_clears h in
        let (j, is) = wait_input_clear-polled 10000 k h l e in
        (j, ap (λ w. if not w.0 then (false, w.1) else (true, io.outb w.1 port value)) is)

    write_mouse_data-sent :
        (cmd : ℕ) (h : io.Hardware)
        → (h' : io.Hardware) × (mouse.resends h' ≡ mouse.resends h)
          × (mouse.forwards h' ≡ true)
          × (write_mouse_data io cmd h ≡ (true, io.outb h' 0x60 cmd))
    unfolding write_mouse_data
    write_mouse_data-sent cmd h =
        let (i, first) = write_clear-sent 0x64 0xD4 h in
        let h1 = io.outb (polled i h) 0x64 0xD4 in
        let (j, second) = write_clear-sent 0x60 cmd h1 in
        (
          polled j h1,
          resends-polled j h1 ∙ mouse.resends-outb (polled i h) ∙ resends-polled i h,
          forwards-polled j h1 ∙ mouse.forwards-outb (polled i h),
          ap (λ w. if not w.0 then (false, w.1) else write_clear io 0x60 cmd w.1) first ∙ second,
        )

    -- One round: the answer that is read, and the hardware then.
    answered :
        (cmd : ℕ) (h' : io.Hardware)
        → mouse.forwards h' ≡ true
        → (h2 : io.Hardware) × (mouse.resends h2 ≡ mouse.resends h' - 1)
          × (wait_for_data io 10000 (io.outb h' 0x60 cmd)
              ≡ (some (if mouse.resends h' == 0 then 0xFA else 0xFE), h2))
    answered cmd h' forwarded =
        let h1 = io.outb h' 0x60 cmd in
        let (k, l, e) = mouse.answers h' cmd forwarded in
        let (j, e', is) = wait_for_data-polled 10000 k h1 l e in
        let (value, left) = mouse.answer h' cmd j forwarded e' in
        (
          (io.inb (polled (suc j) h1) 0x60).1,
          left,
          is ∙ ap (λ v. (some v, (io.inb (polled (suc j) h1) 0x60).1)) value,
        )

    -- A round whose command was sent and that was answered.
    send_from-round :
        (retries cmd n attempt : ℕ) (h h1 h2 : io.Hardware) (resp : ℕ)
        → write_mouse_data io cmd h ≡ (true, h1)
        → wait_for_data io 10000 h1 ≡ (some resp, h2)
        → send_from io retries cmd (suc n) attempt h
          ≡ judge io retries attempt (some resp) h2 (send_from io retries cmd n (attempt + 1) h2)
    unfolding send_from
    send_from-round retries cmd n attempt h h1 h2 resp sent got =
        let later : io.Hardware → Bool × io.Hardware =
          λ h. send_from io retries cmd n (attempt + 1) h in
        ap
          (λ w.
            if not w.0
            then later w.1
            else (let a = wait_for_data io 10000 w.1 in
                judge io retries attempt a.0 a.1 (later a.1)))
          sent
        ∙ ap (λ a. judge io retries attempt a.0 a.1 (later a.1)) got

    send_from-acked :
        (retries cmd n attempt : ℕ) (h : io.Hardware)
        → attempt + n ≡ retries
        → mouse.resends h < n
        → (send_from io retries cmd n attempt h).0 ≡ true
    send_from-acked retries cmd zero attempt h e l = absurd (omega arith)
    send_from-acked retries cmd (suc n) attempt h e l =
        let (h', same, forwarded, sent) = write_mouse_data-sent cmd h in
        let (h2, left, got) = answered cmd h' forwarded in
        let rest = send_from io retries cmd n (attempt + 1) h2 in
        let round =
          send_from-round retries cmd n attempt h (io.outb h' 0x60 cmd) h2
            (if mouse.resends h' == 0 then 0xFA else 0xFE) sent got in
        ap (λ r. r.0) round ∙ elim (Bool-cases (mouse.resends h' == 0)) [
          | inl none_left ↦
              ap (λ b. (judge io retries attempt (some (if b then 0xFA else 0xFE)) h2 rest).0)
                none_left
          | inr some_left ↦
              ap (λ b. (judge io retries attempt (some (if b then 0xFA else 0xFE)) h2 rest).0)
                some_left
              ∙ ap (λ r. r.0)
                  (if_not (leb retries (attempt + 1)) (false, h2) rest
                    (not_last attempt e same l some_left))
              ∙ send_from-acked retries cmd n (attempt + 1) h2 (omega arith)
                  (fewer left same l some_left)
        ]

    -- If the controller gets ready within the 10000 polls that are made and forwards a byte to the
    -- mouse behind the command 0xD4, and the mouse, which answers each byte it gets, asks fewer times to send again than there are rounds, then
    -- `send_mouse_cmd_with_ack` ends with the acknowledgement.
    pub send_mouse_cmd_with_ack-acked :
        (cmd retries : ℕ) (h : io.Hardware)
        → mouse.resends h < retries
        → (send_mouse_cmd_with_ack io cmd retries h).0 ≡ true
    unfolding send_mouse_cmd_with_ack
    send_mouse_cmd_with_ack-acked cmd retries h l =
        send_from-acked retries cmd retries 0 h (omega arith) l
