-- ===== src/DriverFramework/Drivers/Ps2Kbd.antt =====
-- src/driver_framework/drivers/ps2kbd.rs: the keyboard driver and the reading of a line. The queue of
-- scancodes and the decoder of scancodes are parameters. What is printed is a list of characters;
-- the messages on the controller are left out.
pub mod Screen
pub mod Line
mod Tests
use neutrix.Base.{
  ℕ, zero, suc, Bool, true, false, not, ◌||◌, Option, none, some, List, [], ◌∷◌, ◌++◌, ◌==◌,
  if◌then◌else◌, bit,
}
use neutrix.Arch.Ports.{Ports}
use neutrix.Arch.ArrayQueue.{ArrayQueue}
use neutrix.Arch.Idt.{IdtIndex, keyboard_irq_handler}
use neutrix.DriverFramework.Device.{DeviceInfo}
use neutrix.DriverFramework.Manager.{contains}
use neutrix.DriverFramework.Drivers.Vectors
use neutrix.DriverFramework.Drivers.Vectors.{Vectors, register_vectors}

-- Which controller is told that the interrupt is served.
pub data Eoi : Type 0 where
  apic : Eoi
  pic : (vector : ℕ) → Eoi

-- `probe`
unfoldable pub probe : DeviceInfo → Bool
unfolding contains
probe info =
    info.class == 0x09
    || contains info.description (
        b'P' ∷ b'S' ∷ b'/' ∷ b'2' ∷ b' ' ∷ b'K' ∷ b'e' ∷ b'y' ∷ b'b' ∷ b'o' ∷ b'a' ∷ b'r' ∷ b'd'
        ∷ [])

module _ (queue : ArrayQueue 100) where
  -- `SCANCODE_QUEUE`, once it is there.
  abbrev pub init_queue_if_needed : Option queue.Queue → Option queue.Queue
  init_queue_if_needed none = some queue.empty
  init_queue_if_needed (some q) = some q

  -- A scancode that finds no room is lost.
  abbrev pub offered : ℕ → queue.Queue → queue.Queue
  offered scancode q = elim (queue.push q scancode) [ none ↦ q | some q' ↦ q' ]

  -- `irq_handler`: the queue, whether the reader is woken, the hardware, and the end of interrupt.
  unfoldable pub irq_handler :
      (io : Ports)
      → (apic_initialized : Bool) → Option queue.Queue
      → io.Hardware
      → Option queue.Queue × Bool × io.Hardware × Eoi
  irq_handler io apic_initialized none h =
      let (scancode, h1) = io.inb h 0x60 in
      (none, false, h1, if apic_initialized then apic else pic 33)
  irq_handler io apic_initialized (some q) h =
      let (scancode, h1) = io.inb h 0x60 in
      (some (offered scancode q), true, h1, if apic_initialized then apic else pic 33)

  -- `poll_next`, with what interrupts do to the queue once the reader's waker is registered. The
  -- result is a scancode or that the reader has to wait, the queue, and whether the waker is left.
  unfoldable pub poll_next :
      (meanwhile : queue.Queue → queue.Queue) → queue.Queue → Option ℕ × queue.Queue × Bool
  poll_next meanwhile q = elim (queue.pop q) [
    | some popped ↦ (some popped.0, popped.1, false)
    | none ↦ elim (queue.pop (meanwhile q)) [
      | some popped ↦ (some popped.0, popped.1, false)
      | none ↦ (none, meanwhile q, true)
    ]
  ]

module _ (io : Ports) where
  -- The wait in `start`, which goes on after its last round whatever the status.
  unfoldable pub spin_clear : (rounds : ℕ) → io.Hardware → io.Hardware
  spin_clear zero h = h
  spin_clear (suc n) h =
      let (status, h1) = io.inb h 0x64 in
      let rest = spin_clear n h1 in if not (bit status 1) then h1 else rest

  -- `none` is a panic of the interrupt table.
  unfoldable pub start :
      (queue : ArrayQueue 100)
      → IdtIndex
      → DeviceInfo
      → Option queue.Queue × Vectors × io.Hardware
      → Option (Option queue.Queue × Vectors × io.Hardware)
  unfolding spin_clear register_vectors
  start queue idt info (q, vectors, h) =
      elim (register_vectors idt keyboard_irq_handler info.resources vectors) [
        | none ↦ none
        | some registered ↦
            some (init_queue_if_needed queue q, registered, io.outb (spin_clear 10000 h) 0x64 0xAD)
      ]

  unfoldable pub wait_input_clear_local : (max_loops : ℕ) → io.Hardware → Bool × io.Hardware
  wait_input_clear_local zero h = (false, h)
  wait_input_clear_local (suc n) h =
      let (status, h1) = io.inb h 0x64 in
      let rest = wait_input_clear_local n h1 in if not (bit status 1) then (true, h1) else rest

  unfoldable pub write_controller_cmd_local : ℕ → io.Hardware → Bool × io.Hardware
  unfolding wait_input_clear_local
  write_controller_cmd_local cmd h =
      let (clear, h1) = wait_input_clear_local 10000 h in
      if not clear then (false, h1) else (true, io.outb h1 0x64 cmd)

  abbrev pub enable_keyboard_port : io.Hardware → io.Hardware
  enable_keyboard_port h = (write_controller_cmd_local 0xAE h).1

  abbrev pub disable_keyboard_port : io.Hardware → io.Hardware
  disable_keyboard_port h = (write_controller_cmd_local 0xAD h).1

abbrev pub stop : IdtIndex → Vectors → Option Vectors
stop idt v = Vectors.stop idt v

abbrev pub release : IdtIndex → Vectors → Option Vectors
release idt v = Vectors.release idt v

pub data DecodedKey : Type 0 where
  unicode : ℕ → DecodedKey
  raw_key : ℕ → DecodedKey

-- `pc_keyboard::Keyboard`. `add_byte` may fail, or need more bytes.
pub record Decoder : Type 1 where
  pub Keyboard : Type 0
  pub KeyEvent : Type 0
  pub new : Keyboard
  pub add_byte : Keyboard → ℕ → Option (Option KeyEvent) × Keyboard
  pub process_keyevent : Keyboard → KeyEvent → Option DecodedKey × Keyboard

-- The line so far, and all that was printed.
pub record Typed : Type 0 where
  pub buf : List ℕ
  pub printed : List ℕ

-- `Vec::pop`, of which only the rest is used.
abbrev pub drop_last : List ℕ → Option (List ℕ)
drop_last [] = none
drop_last (x ∷ xs) = elim (drop_last xs) [ none ↦ some [] | some ys ↦ some (x ∷ ys) ]

abbrev pub erase : Option (List ℕ) → Typed → Typed
erase none t = t
erase (some buf) t = record { buf = buf; printed = t.printed ++ (8 ∷ b' ' ∷ 8 ∷ []) }

abbrev pub is_enter : ℕ → Bool
is_enter c = c == 10 || c == 13

-- What a key does, and whether it ends the line.
unfoldable pub press : DecodedKey → Typed → Bool × Typed
press (unicode c) t =
    if is_enter c
    then (true, record t { printed = t.printed ++ (10 ∷ []) })
    else (if c == 8
        then (false, erase (drop_last t.buf) t)
        else (false, record { buf = t.buf ++ (c ∷ []); printed = t.printed ++ (c ∷ []) }))
press (raw_key k) t = (false, t)

abbrev pub press_any : Option DecodedKey → Typed → Bool × Typed
press_any none t = (false, t)
press_any (some k) t = press k t

-- What the reading comes to: whether the line was ended, and the scancodes that are left.
pub record Reading : Type 0 where
  pub entered : Bool
  pub typed : Typed
  pub rest : List ℕ

module _ (dec : Decoder) where
  -- The key that a scancode completes.
  abbrev pub decode : dec.Keyboard → ℕ → Option DecodedKey × dec.Keyboard
  decode kb sc =
      let (added, kb1) = dec.add_byte kb sc in
      elim added [
        | none ↦ (none, kb1)
        | some event ↦ elim event [ none ↦ (none, kb1) | some ev ↦ dec.process_keyevent kb1 ev ]
      ]

  -- The loop over the scancodes that arrive.
  unfoldable pub read_keys : List ℕ → dec.Keyboard → Typed → Reading
  unfolding press
  read_keys [] kb t = record { entered = false; typed = t; rest = [] }
  read_keys (sc ∷ scs) kb t =
      let (key, kb1) = decode kb sc in
      let (entered, t1) = press_any key t in
      let rest = read_keys scs kb1 t1 in
      if entered then record { entered = true; typed = t1; rest = scs } else rest

  -- `getline`, on scancodes that arrive, and whether the stream then ends: the line unless more is
  -- waited for, the reading, and the hardware.
  unfoldable pub getline :
      (io : Ports) → List ℕ → (ended : Bool) → io.Hardware → Option (List ℕ) × Reading × io.Hardware
  unfolding read_keys write_controller_cmd_local
  getline io scancodes ended h =
      let h1 = enable_keyboard_port io h in
      let reading = read_keys scancodes dec.new (record { buf = []; printed = [] }) in
      if reading.entered || ended
      then (some reading.typed.buf, reading, disable_keyboard_port io h1)
      else (none, reading, h1)

  -- `print_keypresses`; how a raw key is shown is a parameter.
  unfoldable pub print_keypresses : (debug : ℕ → List ℕ) → List ℕ → dec.Keyboard → List ℕ
  print_keypresses debug [] kb = []
  print_keypresses debug (sc ∷ scs) kb =
      let (key, kb1) = decode kb sc in
      let shown : List ℕ = elim key [
        | none ↦ []
        | some k ↦ elim k [ unicode c ↦ c ∷ [] | raw_key r ↦ debug r ]
      ] in
      shown ++ print_keypresses debug scs kb1
