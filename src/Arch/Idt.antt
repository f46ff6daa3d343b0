-- ===== src/Arch/Idt.antt =====
-- src/arch/idt.rs: which handler each vector of the interrupt table has. The descriptors and the
-- loading of the table are the library's.
use neutrix.Base.{ℕ, Bool, Option, none, some, ◌==◌, if◌then◌else◌}

-- The placeholder, or the handler of a driver.
pub data Handler : Type 0 where
  default_irq_handler keyboard_irq_handler mouse_irq_handler : Handler

abbrev pub Table : Type 0
Table = ℕ → Handler

-- Which vectors the library's index of the table takes. At the others, the exceptions that push an
-- error code and those that are reserved, it panics.
pub record IdtIndex : Type 0 where
  pub takes : ℕ → Bool

-- `none` is a panic.
abbrev pub register_irq_handler : IdtIndex → ℕ → Handler → Table → Option Table
register_irq_handler idt vector handler t =
    if idt.takes vector then some (λ v. if vector == v then handler else t v) else none

abbrev pub unregister_irq_handler : IdtIndex → ℕ → Table → Option Table
unregister_irq_handler idt vector t =
    if idt.takes vector then some (λ v. if vector == v then default_irq_handler else t v) else none
