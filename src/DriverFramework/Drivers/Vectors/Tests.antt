-- ===== src/DriverFramework/Drivers/Vectors/Tests.antt =====
-- src/driver_framework/drivers/ps2mouse.rs: the mouse's interrupt 44.
use neutrix.Base.{ℕ, true, none, some, leb, arith, ◌≡◌, refl, ◌==◌, List, [], ◌∷◌, if◌then◌else◌}
use neutrix.Arch.Idt.{IdtIndex, default_irq_handler, keyboard_irq_handler, mouse_irq_handler}
use neutrix.DriverFramework.Device.{Resource, interrupt}
use neutrix.DriverFramework.Drivers.Vectors.{Vectors, register_vectors, release}
use neutrix.DriverFramework.Drivers.Vectors.Release.{names_vector, release-register_vectors}

abbrev line : List Resource
line = record { kind = interrupt 44; addr = 0; len = 0 } ∷ []

-- The keyboard has 33.
abbrev idle : Vectors
idle = record {
  registered = [];
  table = λ v. if v == 33 then keyboard_irq_handler else default_irq_handler;
  last_vector = 0;
}

-- The vectors from 32 on.
abbrev interrupts : IdtIndex
interrupts = record { takes = λ v. leb 32 v }

started_run :
    register_vectors interrupts mouse_irq_handler line idle
    ≡ some (record {
      registered = 44 ∷ [];
      table = λ v. if 44 == v then mouse_irq_handler else idle.table v;
      last_vector = 44;
    })
unfolding register_vectors
started_run = refl

-- The vector of a page fault panics.
fault_run :
    register_vectors interrupts mouse_irq_handler
      (record { kind = interrupt 14; addr = 0; len = 0 } ∷ [])
      idle
    ≡ none
unfolding register_vectors
fault_run = refl

line_taken : (w : ℕ) → names_vector w line ≡ true → leb 32 w ≡ true
line_taken w e = ground arith

release-register_vectors_example :
    (s1 : Vectors) × (s2 : Vectors) × (register_vectors interrupts mouse_irq_handler line idle
      ≡ some s1)
    × (release interrupts s1 ≡ some s2)
    × (s2.registered ≡ [])
    × (s2.table 33 ≡ keyboard_irq_handler)
release-register_vectors_example =
    release-register_vectors interrupts mouse_irq_handler line idle 33 refl line_taken
