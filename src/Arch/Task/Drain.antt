-- ===== src/Arch/Task/Drain.antt =====
-- src/arch/task.rs: the executor empties its queue.
use neutrix.Base.{
  ℕ, zero, suc, ◌+◌, ◌<◌, ◌≤◌, ◌≡◌, refl, sym, ap, ◌∙◌, inl, inr, true, ◌||◌, Bool-cases, Option,
  none, some, [], ◌∷◌, ◌==◌, ==_iff, Option-cases, length, length-append, arith,
}
use mathlib.Core.Path.{subst}
use neutrix.Base.Assoc.{get}
use neutrix.Arch.ArrayQueue.{ArrayQueue, IsFifo}
use neutrix.Arch.Task.{
  TaskWaker, Futures, Run, done, panic, Executor, cached_waker, settle, poll_task, run_task,
  run_ready_tasks,
}
use neutrix.Arch.Task.Fate.{Pending, Stays, Finishes, run_ready_tasks-Stays, run_ready_tasks-gone}
use neutrix.Arch.Task.Kept.{
  has_id, task_ids, IsKept, wake_all-room, get-or_insert, settle-IsKept, settle_queue, settle_fewer,
  length-task_ids, none-some, items_cases,
}

module _ (queue : ArrayQueue 100) (fifo : IsFifo queue) (fut : Futures) where
  -- Polls together call fewer wakers than the world has credit for.
  pub record IsFrugal : Type 0 where
    pub credit : fut.World → ℕ
    pub spends :
        (f : fut.Future) (waker : TaskWaker) (w : fut.World)
        → length (fut.poll f waker w).2 + credit (fut.poll f waker w).3 ≤ credit w

  passed_over :
      (id : ℕ) (e : Executor queue fut) (q : queue.Queue)
      → IsKept queue fifo fut e (id ∷ fifo.items q)
      → get id e.tasks ≡ none
      → IsKept queue fifo fut (record e { task_queue = q }) (fifo.items q)
  passed_over id e q keep gone = record {
    own = keep.own;
    alive = keep.alive;
    reached = λ j f h. elim (Bool-cases (id == j)) [
      | inl same ↦
          absurd (none-some (sym gone ∙ ap (λ k. get k e.tasks) ((==_iff id j).0 same) ∙ h))
      | inr other ↦ elim (keep.reached j f h) [
        | inl waits ↦ inl (sym (ap (λ b. b || has_id j (fifo.items q)) other) ∙ waits)
        | inr stored ↦ inr stored
      ]
    ];
  }

  module _ (frugal : IsFrugal) where
    -- What a round leads to: the task is polled without a panic, and fewer rounds are left.
    Settled : Executor queue fut → ℕ → Option (Executor queue fut × fut.World) → Type 0
    Settled e bound r =
        (e' : Executor queue fut) × (w' : fut.World) × (r ≡ some (e', w'))
        × IsKept queue fifo fut e' (fifo.items e'.task_queue)
        × (length (fifo.items e'.task_queue) + frugal.credit w' ≤ bound)
        × ((j : ℕ) → get j e.tasks ≡ none → get j e'.tasks ≡ none)

    poll_task-Settled :
        (id : ℕ) (f : fut.Future) (q : queue.Queue) (e : Executor queue fut) (w : fut.World)
        → IsKept queue fifo fut e (id ∷ fifo.items q)
        → get id e.tasks ≡ some f
        → length (fifo.items q) + frugal.credit w ≤ 100
        → Settled e (length (fifo.items q) + frugal.credit w) (poll_task queue fut id f q e w)
    unfolding poll_task Settled
    poll_task-Settled id f q e w keep found room =
        let (own, cached) =
          get-or_insert queue fifo fut id e.waker_cache (get id e.waker_cache) refl (keep.own id) in
        let (waker, cache) = cached_waker queue fut id e.waker_cache in
        let (ready, future, woken, w') = fut.poll f waker w in
        let spends = frugal.spends f waker w in
        let (q', all, holds) = wake_all-room queue fifo fut woken q (omega arith) in
        let longer =
          ap length holds
          ∙ length-append (fifo.items q) (task_ids woken)
          ∙ ap (λ n. length (fifo.items q) + n) (length-task_ids woken) in
        let xs = fifo.items q in
        let ys = task_ids woken in
        let e' = settle queue fut id ready future cache q' e in
        let queued =
          ap fifo.items (settle_queue queue fifo fut id e xs ys keep cache q' cached ready future)
          ∙ holds in
        (
          e',
          w',
          ap
              (λ o. elim o [
                | none ↦ none
                | some q2 ↦ some (settle queue fut id ready future cache q2 e, w')
              ])
              all,
          subst (λ l. IsKept queue fifo fut e' l) (sym queued)
              (settle-IsKept queue fifo fut id e xs ys keep cache q' cached ready future),
          omega (arith, ap length queued, ap length holds, longer),
          settle_fewer queue fifo fut id e xs ys keep cache q' cached ready future f found,
        )

    run_task-Settled :
        (id : ℕ) (q : queue.Queue) (e : Executor queue fut) (w : fut.World)
        → IsKept queue fifo fut e (id ∷ fifo.items q)
        → length (fifo.items q) + frugal.credit w ≤ 100
        → Settled e (length (fifo.items q) + frugal.credit w) (run_task queue fut id q e w)
    unfolding Settled run_task
    run_task-Settled id q e w keep room = elim (Option-cases (get id e.tasks)) [
      | inl gone ↦ (
        record e { task_queue = q },
        w,
        ap
            (λ o. elim o [
              | none ↦ some (record e { task_queue = q }, w)
              | some f ↦ poll_task queue fut id f q e w
            ])
            gone,
        passed_over id e q keep gone,
        omega arith,
        λ j h. h,
      )
      | inr (f, found) ↦
          let (e', w', is, kept, fewer, gone) = poll_task-Settled id f q e w keep found room in
          (
            e',
            w',
            ap
                  (λ o. elim o [
                    | none ↦ some (record e { task_queue = q }, w)
                    | some f ↦ poll_task queue fut id f q e w
                  ])
                  found
                ∙ is,
            kept,
            fewer,
            gone,
          )
    ]

    -- The end of the loop: the queue is empty, each task is kept where it can be woken, and none was
    -- added.
    Drained : Executor queue fut → Run (Executor queue fut × fut.World) → Type 0
    Drained e r =
        (e' : Executor queue fut) × (w' : fut.World) × (r ≡ done (e', w'))
        × (fifo.items e'.task_queue ≡ [])
        × IsKept queue fifo fut e' []
        × ((j : ℕ) → get j e.tasks ≡ none → get j e'.tasks ≡ none)

    run_ready_tasks-Drained :
        (n : ℕ) (e : Executor queue fut) (w : fut.World)
        → IsKept queue fifo fut e (fifo.items e.task_queue)
        → length (fifo.items e.task_queue) + frugal.credit w ≤ 100
        → length (fifo.items e.task_queue) + frugal.credit w < n
        → Drained e (run_ready_tasks queue fut n e w)
    unfolding run_ready_tasks Drained Settled
    run_ready_tasks-Drained zero e w keep room enough = absurd (omega arith)
    run_ready_tasks-Drained (suc n) e w keep room enough =
        elim (items_cases (fifo.items e.task_queue)) [
          | inl none_waits ↦ (
            e,
            w,
            ap
                (λ (o : Option (ℕ × queue.Queue)). elim o [
                  | none ↦ done (e, w)
                  | some popped ↦ elim (run_task queue fut popped.0 popped.1 e w) [
                    | none ↦ panic
                    | some (e', w') ↦ run_ready_tasks queue fut n e' w'
                  ]
                ])
                (fifo.pop_none e.task_queue none_waits),
            none_waits,
            subst (λ l. IsKept queue fifo fut e l) none_waits keep,
            λ j h. h,
          )
          | inr (id, xs, waits) ↦
              let (q, popped, holds) = fifo.pop_first e.task_queue waits in
              let kept =
                subst (λ l. IsKept queue fifo fut e (id ∷ l)) (sym holds)
                  (subst (λ l. IsKept queue fifo fut e l) waits keep) in
              let shorter = ap length waits in
              let left = ap length holds in
              let next : Option (Executor queue fut × fut.World)
                  → Run (Executor queue fut × fut.World) =
                λ o. elim o [ none ↦ panic | some (e', w') ↦ run_ready_tasks queue fut n e' w' ] in
              let (e1, w1, is, kept1, fewer, gone) = run_task-Settled id q e w kept (omega arith) in
              let (e', w', ran, emptied, kept', gone') =
                run_ready_tasks-Drained n e1 w1 kept1 (omega arith) (omega arith) in
              (
                e',
                w',
                ap
                      (λ (o : Option (ℕ × queue.Queue)). elim o [
                        | none ↦ done (e, w)
                        | some popped ↦ next (run_task queue fut popped.0 popped.1 e w)
                      ])
                      popped
                    ∙ ap next is
                    ∙ ran,
                emptied,
                kept',
                λ j h. gone' j (gone j h),
              )
        ]

    -- On an executor whose tasks all wait in the queue or have their own waker cached (`IsKept`), with
    -- a first-in first-out queue of 100: if polls have credit for the wakers they call, and the queue
    -- has room for these, then `run_ready_tasks` ends within 101 rounds without a panic, and the queue
    -- is empty. Each task that is left has its own waker cached, no other waker is, and no task was
    -- added. For any class of futures that polls find pending and leave in the class, a task of the
    -- class is still there, with a future of the class; and a task that waited in the queue and that
    -- any poll finds ready is gone.
    pub run_ready_tasks-drained :
        (Waits : fut.Future → Type 0)
        → Pending queue fut Waits
        → (e : Executor queue fut) (w : fut.World)
        → IsKept queue fifo fut e (fifo.items e.task_queue)
        → length (fifo.items e.task_queue) + frugal.credit w ≤ 100
        → (e' : Executor queue fut) × (w' : fut.World) × (run_ready_tasks queue fut 101 e w
            ≡ done (e', w'))
          × (fifo.items e'.task_queue ≡ [])
          × IsKept queue fifo fut e' []
          × ((j : ℕ) → get j e.tasks ≡ none → get j e'.tasks ≡ none)
          × ((j : ℕ) → Stays queue fut Waits j e → Stays queue fut Waits j e')
          × ((j : ℕ) (f : fut.Future)
              → Finishes queue fut f
              → get j e.tasks ≡ some f
              → has_id j (fifo.items e.task_queue) ≡ true
              → get j e'.tasks ≡ none)
    unfolding Drained
    run_ready_tasks-drained Waits pending e w keep room =
        let (e', w', ran, empty, kept, fewer) =
          run_ready_tasks-Drained 101 e w keep room (omega arith) in
        (
          e',
          w',
          ran,
          empty,
          kept,
          fewer,
          λ j stays. run_ready_tasks-Stays queue fut Waits pending j 101 e e' w w' ran stays,
          λ j f ends at waits.
              run_ready_tasks-gone queue fut fifo j f ends 101 e e' w w' ran empty at waits,
        )
