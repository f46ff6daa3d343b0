-- ===== src/DriverFramework/Drivers/Ps2Mouse/Controller.antt =====
-- src/driver_framework/drivers/ps2mouse.rs: the talk with the controller at the ports 0x60 and 0x64,
-- and the driver's start. The loop of `start` that flushes old bytes has no bound: it runs on fuel here, and
-- is missing a result while it would go on.
use neutrix.Base.{
  ℕ, zero, suc, ◌+◌, Bool, true, false, not, ◌||◌, Option, none, some, [], ◌∷◌, ◌==◌, leb,
  if◌then◌else◌, bit, put_bit,
}
use neutrix.Arch.Ports.{Ports}
use neutrix.DriverFramework.Device.{DeviceInfo}
use neutrix.DriverFramework.Manager.{contains}

module _ (io : Ports) where
  abbrev pub read_status : io.Hardware → ℕ × io.Hardware
  read_status h = io.inb h 0x64

  abbrev pub read_data : io.Hardware → ℕ × io.Hardware
  read_data h = io.inb h 0x60

  unfoldable pub wait_input_clear : (max_loops : ℕ) → io.Hardware → Bool × io.Hardware
  wait_input_clear zero h = (false, h)
  wait_input_clear (suc n) h =
      let (status, h1) = read_status h in
      let rest = wait_input_clear n h1 in if not (bit status 1) then (true, h1) else rest

  unfoldable pub wait_for_data : (max_loops : ℕ) → io.Hardware → Option ℕ × io.Hardware
  wait_for_data zero h = (none, h)
  wait_for_data (suc n) h =
      let (status, h1) = read_status h in
      let (value, h2) = read_data h1 in
      let rest = wait_for_data n h1 in if bit status 0 then (some value, h2) else rest

  -- A byte for a port, once the input buffer is clear.
  unfoldable pub write_clear : (port value : ℕ) → io.Hardware → Bool × io.Hardware
  unfolding wait_input_clear
  write_clear port value h =
      let (clear, h1) = wait_input_clear 10000 h in
      if not clear then (false, h1) else (true, io.outb h1 port value)

  abbrev pub write_controller_cmd : ℕ → io.Hardware → Bool × io.Hardware
  write_controller_cmd cmd h = write_clear 0x64 cmd h

  abbrev pub write_controller_data : ℕ → io.Hardware → Bool × io.Hardware
  write_controller_data value h = write_clear 0x60 value h

  unfoldable pub read_controller_config : io.Hardware → Option ℕ × io.Hardware
  unfolding write_clear wait_for_data
  read_controller_config h =
      let (sent, h1) = write_controller_cmd 0x20 h in
      if not sent then (none, h1) else wait_for_data 10000 h1

  unfoldable pub write_mouse_data : ℕ → io.Hardware → Bool × io.Hardware
  unfolding write_clear
  write_mouse_data value h =
      let (sent, h1) = write_controller_cmd 0xD4 h in
      if not sent then (false, h1) else write_clear 0x60 value h1

  -- What a round comes to, by its answer, the hardware then, and the rounds that would follow.
  abbrev pub judge :
      (retries attempt : ℕ) → Option ℕ → io.Hardware → Bool × io.Hardware → Bool × io.Hardware
  judge retries attempt none h rest = rest
  judge retries attempt (some resp) h rest =
      if resp == 0xFA
      then (true, h)
      else (if resp == 0xFE then (if leb retries (attempt + 1) then (false, h) else rest) else rest)

  -- The rounds from `attempt` on, `n` of them.
  unfoldable pub send_from : (retries cmd n attempt : ℕ) → io.Hardware → Bool × io.Hardware
  unfolding write_mouse_data wait_for_data
  send_from retries cmd zero attempt h = (false, h)
  send_from retries cmd (suc n) attempt h =
      let (sent, h1) = write_mouse_data cmd h in
      let (answer, h2) = wait_for_data 10000 h1 in
      let unsent = send_from retries cmd n (attempt + 1) h1 in
      let rest = send_from retries cmd n (attempt + 1) h2 in
      if not sent then unsent else judge retries attempt answer h2 rest

  unfoldable pub send_mouse_cmd_with_ack : (cmd retries : ℕ) → io.Hardware → Bool × io.Hardware
  unfolding send_from
  send_mouse_cmd_with_ack cmd retries h = send_from retries cmd retries 0 h

  -- Old bytes are read until there is none.
  unfoldable pub flush : (fuel : ℕ) → io.Hardware → Option io.Hardware
  flush zero h = none
  flush (suc fuel) h =
      let (status, h1) = read_status h in
      let rest = flush fuel (read_data h1).1 in if bit status 0 then rest else some h1

  -- The interrupts of the mouse are switched on in the controller's command byte.
  unfoldable pub enable_irq : io.Hardware → io.Hardware
  unfolding read_controller_config write_clear
  enable_irq h =
      let (config, h1) = read_controller_config h in
      elim config [
        | none ↦ h1
        | some cfg ↦
            let want = put_bit cfg 1 true in
            let (sent, h2) = write_controller_cmd 0x60 h1 in
            let h3 = (write_controller_data want h2).1 in
            if not (want == cfg) then (if sent then h3 else h2) else h1
      ]

  unfoldable pub init_mouse : (fuel : ℕ) → io.Hardware → Option io.Hardware
  unfolding flush enable_irq send_mouse_cmd_with_ack write_clear
  init_mouse fuel h = elim (flush fuel (write_controller_cmd 0xA8 h).1) [
    | none ↦ none
    | some h1 ↦ some (send_mouse_cmd_with_ack 0xF4 4 (enable_irq h1)).1
  ]

-- `probe`: the class of input devices, or one of two words in the description.
unfoldable pub probe : DeviceInfo → Bool
unfolding contains
probe info =
    info.class == 0x09
    || contains info.description
        (b'P' ∷ b'S' ∷ b'/' ∷ b'2' ∷ b' ' ∷ b'M' ∷ b'o' ∷ b'u' ∷ b's' ∷ b'e' ∷ [])
    || contains info.description (b'M' ∷ b'o' ∷ b'u' ∷ b's' ∷ b'e' ∷ [])
