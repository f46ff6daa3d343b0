-- ===== src/Arch/Task/Round.antt =====
-- src/arch/task.rs: a round of the executor, and what every round keeps.
use neutrix.Base.{ℕ, zero, suc, ◌≡◌, sym, ap, ◌∙◌, inl, inr, Option, none, some, List, Option-cases}
use mathlib.Core.Path.{subst}
use neutrix.Base.Assoc.{get}
use neutrix.Arch.ArrayQueue.{ArrayQueue}
use neutrix.Arch.Task.{
  TaskWaker, Futures, Run, done, panic, out_of_fuel, Executor, cached_waker, wake_all, settle,
  poll_task, run_task, run_ready_tasks,
}
use neutrix.Arch.Task.Kept.{none-some}

-- The executor of a result, which is `e` where there is none.
abbrev executor_of : {A B : Type 0} → A → Option (A × B) → A
executor_of e none = e
executor_of e (some r) = r.0

abbrev ended_with : {A B : Type 0} → A → Run (A × B) → A
ended_with e (done r) = r.0
ended_with e panic = e
ended_with e out_of_fuel = e

panic-done : {A : Type 0} {r : A} → panic ≡ done r → ⊥
panic-done e = cc

out_of_fuel-done : {A : Type 0} {r : A} → out_of_fuel ≡ done r → ⊥
out_of_fuel-done e = cc

module _ (queue : ArrayQueue 100) (fut : Futures) where
  -- A round: the task is passed over, or polled and settled.
  pub data Round (id : ℕ) (q : queue.Queue) (e : Executor queue fut)
      : Executor queue fut → Type 0 where
    passed : get id e.tasks ≡ none → Round id q e (record e { task_queue = q })
    polled :
        (f : fut.Future) (waker : TaskWaker) (w : fut.World) (cache : List (ℕ × TaskWaker))
        (q' : queue.Queue)
        → get id e.tasks ≡ some f
        → wake_all queue fut (fut.poll f waker w).2 q ≡ some q'
        → Round id q e
            (settle queue fut id (fut.poll f waker w).0 (fut.poll f waker w).1 cache q' e)

  run_task-Round :
      (id : ℕ) (q : queue.Queue) (e e' : Executor queue fut) (w w' : fut.World)
      → run_task queue fut id q e w ≡ some (e', w')
      → Round id q e e'
  unfolding run_task poll_task
  run_task-Round id q e e' w w' ran = elim (Option-cases (get id e.tasks)) [
    | inl gone ↦
        let unpolled : Option (Executor queue fut × fut.World) =
          some (record e { task_queue = q }, w) in
        let is : unpolled ≡ some (e', w') =
          sym (
            ap
              (λ o. elim o [
                | none ↦ some (record e { task_queue = q }, w)
                | some f ↦ poll_task queue fut id f q e w
              ])
              gone)
          ∙ ran in
        subst (Round id q e) (ap (executor_of e) is) (passed gone)
    | inr (f, found) ↦
        let (waker, cache) = cached_waker queue fut id e.waker_cache in
        let (ready, future, woken, w2) = fut.poll f waker w in
        let after : Option queue.Queue → Option (Executor queue fut × fut.World) = λ o. elim o [
          | none ↦ none
          | some q' ↦ some (settle queue fut id ready future cache q' e, w2)
        ] in
        let is : after (wake_all queue fut woken q) ≡ some (e', w') =
          sym (
            ap
              (λ o. elim o [
                | none ↦ some (record e { task_queue = q }, w)
                | some f ↦ poll_task queue fut id f q e w
              ])
              found)
          ∙ ran in
        elim (Option-cases (wake_all queue fut woken q)) [
          | inl full ↦ absurd (none-some (sym (ap after full) ∙ is))
          | inr (q', all) ↦
              subst (Round id q e) (ap (executor_of e) (sym (ap after all) ∙ is))
                (polled f waker w cache q' found all)
        ]
  ]

  -- What every round keeps, the loop keeps.
  module _ (P : Executor queue fut → Type 0)
      (keeps : (id : ℕ) (q : queue.Queue) (e e' : Executor queue fut)
        → queue.pop e.task_queue ≡ some (id, q)
        → Round id q e e'
        → P e
        → P e') where
    pub run_ready_tasks-keeps :
        (n : ℕ) (e e' : Executor queue fut) (w w' : fut.World)
        → run_ready_tasks queue fut n e w ≡ done (e', w')
        → P e
        → P e'
    unfolding run_ready_tasks
    run_ready_tasks-keeps zero e e' w w' ran h = absurd (out_of_fuel-done ran)
    run_ready_tasks-keeps (suc n) e e' w w' ran h =
        let next : Option (Executor queue fut × fut.World) → Run (Executor queue fut × fut.World) =
          λ o. elim o [ none ↦ panic | some (e1, w1) ↦ run_ready_tasks queue fut n e1 w1 ] in
        let first : Option (ℕ × queue.Queue) → Run (Executor queue fut × fut.World) = λ o. elim o [
          | none ↦ done (e, w)
          | some popped ↦ next (run_task queue fut popped.0 popped.1 e w)
        ] in
        elim (Option-cases (queue.pop e.task_queue)) [
          | inl empty ↦ subst P (ap (ended_with e) (sym (ap first empty) ∙ ran)) h
          | inr ((id, q), popped) ↦ elim (Option-cases (run_task queue fut id q e w)) [
            | inl failed ↦ absurd (panic-done (sym (ap next failed) ∙ sym (ap first popped) ∙ ran))
            | inr ((e1, w1), is) ↦
                run_ready_tasks-keeps n e1 e' w1 w' (sym (ap next is) ∙ sym (ap first popped) ∙ ran)
                  (keeps id q e e1 popped (run_task-Round id q e e1 w w1 is) h)
          ]
        ]
