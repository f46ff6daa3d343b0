-- ===== src/DriverFramework/Drivers/Vectors.antt =====
-- src/driver_framework/drivers/ps2mouse.rs and ps2kbd.rs: the interrupt vectors that a driver
-- registers for its device, alike in both.
pub mod Release
mod Tests
use neutrix.Base.{
  ℕ, Option, none, some, Bool, true, false, ◌||◌, List, [], ◌∷◌, ◌++◌, ◌==◌, if◌then◌else◌,
}
use neutrix.Arch.Idt.{IdtIndex, Handler, Table, register_irq_handler, unregister_irq_handler}
use neutrix.DriverFramework.Device.{Resource, ResourceKind, interrupt}

-- `registered_vectors`, the interrupt table, and the vector that was registered last.
pub record Vectors : Type 0 where
  pub registered : List ℕ
  pub table : Table
  pub last_vector : ℕ

abbrev pub has_vector : ℕ → List ℕ → Bool
has_vector v [] = false
has_vector v (w ∷ ws) = w == v || has_vector v ws

module _ (idt : IdtIndex) where
  -- `none` is a panic, here and below.
  abbrev pub register_vector : Handler → ℕ → Vectors → Option Vectors
  register_vector handler v s = elim (register_irq_handler idt v handler s.table) [
    | none ↦ none
    | some table ↦ some (record {
      registered = if has_vector v s.registered then s.registered else s.registered ++ (v ∷ []);
      table = table;
      last_vector = v;
    })
  ]

  -- What `start` does for a resource, and the loop over them.
  unfoldable pub register_resource : Handler → ResourceKind → Vectors → Option Vectors
  register_resource handler (interrupt v) s = register_vector handler v s
  register_resource handler _ s = some s

  unfoldable pub register_vectors : Handler → List Resource → Vectors → Option Vectors
  unfolding register_resource
  register_vectors handler [] s = some s
  register_vectors handler (r ∷ rs) s = elim (register_resource handler r.kind s) [
    | none ↦ none
    | some s' ↦ register_vectors handler rs s'
  ]

  unfoldable pub unregister : List ℕ → Table → Option Table
  unregister [] t = some t
  unregister (v ∷ vs) t = elim (unregister_irq_handler idt v t) [
    | none ↦ none
    | some t' ↦ unregister vs t'
  ]

  unfoldable pub stop : Vectors → Option Vectors
  unfolding unregister
  stop s = elim (unregister s.registered s.table) [
    | none ↦ none
    | some table ↦ some (record s { table = table })
  ]

  unfoldable pub release : Vectors → Option Vectors
  unfolding unregister
  release s = elim (unregister s.registered s.table) [
    | none ↦ none
    | some table ↦ some (record s { registered = []; table = table })
  ]
