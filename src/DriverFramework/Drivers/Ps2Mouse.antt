-- ===== src/DriverFramework/Drivers/Ps2Mouse.antt =====
-- src/driver_framework/drivers/ps2mouse.rs: the packets that the interrupt handler collects from
-- the mouse's bytes. Of the driver's state this is `pkt_state` and `pkt_buf`; a packet that is
-- offered to the queue is a result; the queue may be missing or full.
pub mod Packets
pub mod Cursor
pub mod Controller
pub mod Trail
pub mod Ack
mod CursorTests
mod ControllerTests
mod Tests
use neutrix.Base.{
  ℕ, ◌-◌, Bool, true, false, not, Option, none, some, List, [], ◌∷◌, ◌==◌, ltb, if◌then◌else◌, bit,
}
use neutrix.Base.Int.{ℤ, pos, negsuc}

pub record MousePacket : Type 0 where
  pub buttons : ℕ
  pub dx : ℤ
  pub dy : ℤ

pub record PacketState : Type 0 where
  pub pkt_state : ℕ
  pub buf0 : ℕ
  pub buf1 : ℕ
  pub buf2 : ℕ

abbrev pub idle : PacketState
idle = record { pkt_state = 0; buf0 = 0; buf1 = 0; buf2 = 0 }

-- `b as i8`
abbrev pub as_i8 : ℕ → ℤ
as_i8 b = if ltb b 128 then pos b else negsuc (255 - b)

-- What `irq_handler` does with the byte that it read.
unfoldable pub on_byte : PacketState → ℕ → PacketState × Option MousePacket
on_byte s b =
    if s.pkt_state == 0
    then (if not (bit b 3) then (s, none) else (record s { buf0 = b; pkt_state = 1 }, none))
    else (if s.pkt_state == 1
        then (record s { buf1 = b; pkt_state = 2 }, none)
        else (if s.pkt_state == 2
            then (
              record s { buf2 = b; pkt_state = 0 },
              some (record { buttons = s.buf0; dx = as_i8 s.buf1; dy = as_i8 b }),
            )
            else (record s { pkt_state = 0 }, none)))

-- The packets of a run of interrupts.
unfoldable pub on_bytes : PacketState → List ℕ → PacketState × List MousePacket
on_bytes s [] = (s, [])
on_bytes s (b ∷ bs) =
    let (s1, out) = on_byte s b in
    let (s2, more) = on_bytes s1 bs in (s2, elim out [ none ↦ more | some p ↦ p ∷ more ])
