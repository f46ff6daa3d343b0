-- ===== src/Arch/Task.antt =====
-- src/arch/task.rs: the task executor. Futures are a parameter, by what a poll of one does: whether
-- it is ready, the future after it, the wakers that were called meanwhile, and the world. The maps
-- are association lists, the queue is a parameter. A panic is told apart from a loop that still
-- goes on when its fuel is used up.
pub mod Kept
pub mod Round
pub mod Fate
pub mod Drain
mod Tests
use neutrix.Base.{
  ℕ, zero, suc, Bool, true, false, Option, none, some, List, [], ◌∷◌, if◌then◌else◌, add64,
}
use neutrix.Base.Assoc.{get, insert, remove}
use neutrix.Arch.ArrayQueue.{ArrayQueue}

-- `TaskId::new`: the counter before, and after.
abbrev pub new_id : (next_id : ℕ) → ℕ × ℕ
new_id next_id = (next_id, add64 next_id 1)

-- The queue that a waker pushes to is the executor's.
pub record TaskWaker : Type 0 where
  pub task_id : ℕ

pub record Futures : Type 1 where
  pub Future : Type 0
  pub World : Type 0
  pub poll : Future → TaskWaker → World → Bool × Future × List TaskWaker × World

pub data Run {ℓ} (A : Type ℓ) : Type ℓ where
  done : A → Run A
  panic : Run A
  out_of_fuel : Run A

-- `sleep_if_idle`: wait for an interrupt, or go on.
pub data Idle : Type 0 where
  enable_and_hlt : Idle
  enable : Idle

module _ (queue : ArrayQueue 100) (fut : Futures) where
  pub record Executor : Type 0 where
    pub tasks : List (ℕ × fut.Future)
    pub task_queue : queue.Queue
    pub waker_cache : List (ℕ × TaskWaker)

  abbrev pub new : Executor
  new = record { tasks = []; task_queue = queue.empty; waker_cache = [] }

  -- It panics if the id is taken, or the queue is full.
  unfoldable pub spawn : ℕ → fut.Future → Executor → Option Executor
  unfolding get insert
  spawn id future e =
      let queued : Option Executor = elim (queue.push e.task_queue id) [
        | none ↦ none
        | some q ↦ some (record e { tasks = insert id future e.tasks; task_queue = q })
      ] in
      elim (get id e.tasks) [ none ↦ queued | some _ ↦ none ]

  unfoldable pub wake_task : TaskWaker → queue.Queue → Option queue.Queue
  wake_task waker q = queue.push q waker.task_id

  -- Wakers that are called one after the other.
  unfoldable pub wake_all : List TaskWaker → queue.Queue → Option queue.Queue
  unfolding wake_task
  wake_all [] q = some q
  wake_all (w ∷ ws) q = elim (wake_task w q) [ none ↦ none | some q' ↦ wake_all ws q' ]

  -- `entry` and `or_insert_with`
  abbrev pub or_insert :
      ℕ → List (ℕ × TaskWaker) → Option TaskWaker → TaskWaker × List (ℕ × TaskWaker)
  or_insert id cache (some waker) = (waker, cache)
  or_insert id cache none =
      let waker : TaskWaker = record { task_id = id } in (waker, insert id waker cache)

  abbrev pub cached_waker : ℕ → List (ℕ × TaskWaker) → TaskWaker × List (ℕ × TaskWaker)
  cached_waker id cache = or_insert id cache (get id cache)

  -- What is left of a task and its waker after a poll.
  unfoldable pub settle :
      ℕ → (ready : Bool) → fut.Future → List (ℕ × TaskWaker) → queue.Queue → Executor → Executor
  unfolding insert remove
  settle id true future cache q e = record {
    tasks = remove id e.tasks;
    task_queue = q;
    waker_cache = remove id cache;
  }
  settle id false future cache q e = record {
    tasks = insert id future e.tasks;
    task_queue = q;
    waker_cache = cache;
  }

  -- A poll of the task `id`, with the queue from which it was popped.
  unfoldable pub poll_task :
      ℕ → fut.Future → queue.Queue → Executor → fut.World → Option (Executor × fut.World)
  unfolding wake_all settle get insert
  poll_task id future q e w =
      let (waker, cache) = cached_waker id e.waker_cache in
      let (ready, future', woken, w') = fut.poll future waker w in
      elim (wake_all woken q) [
        | none ↦ none
        | some q' ↦ some (settle id ready future' cache q' e, w')
      ]

  -- A task that no longer exists is passed over.
  unfoldable pub run_task : ℕ → queue.Queue → Executor → fut.World → Option (Executor × fut.World)
  unfolding poll_task
  run_task id q e w = elim (get id e.tasks) [
    | none ↦ some (record e { task_queue = q }, w)
    | some future ↦ poll_task id future q e w
  ]

  unfoldable pub run_ready_tasks : (fuel : ℕ) → Executor → fut.World → Run (Executor × fut.World)
  unfolding run_task
  run_ready_tasks zero e w = out_of_fuel
  run_ready_tasks (suc n) e w = elim (queue.pop e.task_queue) [
    | none ↦ done (e, w)
    | some popped ↦ elim (run_task popped.0 popped.1 e w) [
      | none ↦ panic
      | some (e', w') ↦ run_ready_tasks n e' w'
    ]
  ]

  unfoldable pub sleep_if_idle : Executor → Idle
  sleep_if_idle e = if queue.is_empty e.task_queue then enable_and_hlt else enable
