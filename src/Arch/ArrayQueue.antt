-- ===== src/Arch/ArrayQueue.antt =====
-- The bounded queue of crossbeam_queue, as src/arch/task.rs and the keyboard driver use it: a
-- parameter, with its documented behaviour.
use neutrix.Base.{Bool, ℕ, ◌<◌, ◌≤◌, ◌≡◌, Option, none, some, List, [], ◌∷◌, ◌++◌, length}

pub record ArrayQueue (capacity : ℕ) : Type 1 where
  pub Queue : Type 0
  pub empty : Queue
  pub push : Queue → ℕ → Option Queue
  pub pop : Queue → Option (ℕ × Queue)
  pub is_empty : Queue → Bool

-- It holds its elements in the order of their pushes, and refuses one when it is full.
pub record IsFifo {capacity : ℕ} (a : ArrayQueue capacity) : Type 0 where
  pub items : a.Queue → List ℕ
  pub items-empty : items a.empty ≡ []
  pub push_room :
      (q : a.Queue) (x : ℕ)
      → length (items q) < capacity
      → (q' : a.Queue) × (a.push q x ≡ some q') × (items q' ≡ items q ++ (x ∷ []))
  pub push_full : (q : a.Queue) (x : ℕ) → capacity ≤ length (items q) → a.push q x ≡ none
  pub pop_none : (q : a.Queue) → items q ≡ [] → a.pop q ≡ none
  pub pop_first :
      (q : a.Queue) {x : ℕ} {xs : List ℕ}
      → items q ≡ x ∷ xs
      → (q' : a.Queue) × (a.pop q ≡ some (x, q')) × (items q' ≡ xs)
