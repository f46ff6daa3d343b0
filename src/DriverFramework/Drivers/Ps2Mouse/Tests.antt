-- ===== src/DriverFramework/Drivers/Ps2Mouse/Tests.antt =====
-- src/driver_framework/drivers/ps2mouse.rs: a stream with a byte out of step.
use neutrix.Base.{ℕ, ◌≡◌, refl, List, [], ◌∷◌}
use neutrix.Base.Int.{pos, negsuc}
use neutrix.DriverFramework.Drivers.Ps2Mouse.{idle, on_byte, on_bytes}
use neutrix.DriverFramework.Drivers.Ps2Mouse.Packets.{packets, on_bytes-eq-packets}

abbrev stream : List ℕ
stream = 1 ∷ 8 ∷ 5 ∷ 255 ∷ 9 ∷ 0 ∷ []

stream_run : (on_bytes idle stream).1 ≡ record { buttons = 8; dx = pos 5; dy = negsuc 0 } ∷ []
unfolding on_bytes on_byte
stream_run = refl

on_bytes-eq-packets_example : (on_bytes idle stream).1 ≡ packets stream
on_bytes-eq-packets_example = on_bytes-eq-packets 0 0 0 stream
