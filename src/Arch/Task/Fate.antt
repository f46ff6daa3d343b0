-- ===== src/Arch/Task/Fate.antt =====
-- src/arch/task.rs: what becomes of a task: one that stays pending is kept, one that is ready is
-- polled in its turn and removed.
use neutrix.Base.{
  ℕ, ◌≡◌, sym, ap, ◌∙◌, ◌⊎◌, inl, inr, Bool, true, false, ◌||◌, Bool-cases, Option, none, some,
  List, [], ◌∷◌, ◌==◌, ==_iff, length, arith,
}
use native.Mathlib.Decide.{dec_lt}
use mathlib.Core.Path.{subst, ap₂}
use neutrix.Base.Assoc.{get, get-insert, get-remove}
use neutrix.Arch.ArrayQueue.{ArrayQueue, IsFifo}
use neutrix.Arch.Task.{TaskWaker, Futures, done, Executor, wake_all, settle, run_ready_tasks}
use neutrix.Arch.Task.Kept.{has_id, has_id-append, none-some, items_cases}
use neutrix.Arch.Task.Round.{Round, passed, polled, run_ready_tasks-keeps}

module _ (queue : ArrayQueue 100) (fut : Futures) where
  -- A class of futures that a poll finds pending, and leaves in the class.
  pub record Pending (Waits : fut.Future → Type 0) : Type 0 where
    pub pends :
        (f : fut.Future) (waker : TaskWaker) (w : fut.World)
        → Waits f
        → (fut.poll f waker w).0 ≡ false
    pub waits_on :
        (f : fut.Future) (waker : TaskWaker) (w : fut.World)
        → Waits f
        → Waits (fut.poll f waker w).1

  -- A task of the class.
  abbrev pub Stays : (fut.Future → Type 0) → ℕ → Executor queue fut → Type 0
  Stays Waits j e = (f : fut.Future) × (get j e.tasks ≡ some f) × Waits f

  -- A future that any poll finds ready.
  abbrev pub Finishes : fut.Future → Type 0
  Finishes f = (waker : TaskWaker) (w : fut.World) → (fut.poll f waker w).0 ≡ true

  settle-Stays :
      (Waits : fut.Future → Type 0) (id j : ℕ) (f : fut.Future) (ready : Bool) (future : fut.Future)
      (cache : List (ℕ × TaskWaker)) (q : queue.Queue) (e : Executor queue fut)
      → get id e.tasks ≡ some f
      → (Waits f → (ready ≡ false) × Waits future)
      → Stays Waits j e
      → Stays Waits j (settle queue fut id ready future cache q e)
  unfolding settle
  settle-Stays Waits id j f true future cache q e found kept (g, at, waits) =
      elim (Bool-cases (id == j)) [
        | inl same ↦
            let is : f ≡ g =
              ap (λ o. elim o [ none ↦ f | some k ↦ k ])
                (sym found ∙ ap (λ k. get k e.tasks) ((==_iff id j).0 same) ∙ at) in
            absurd (cc ((kept (subst Waits (sym is) waits)).0))
        | inr other ↦ (g, ground (arith, get-remove j id e.tasks), waits)
      ]
  settle-Stays Waits id j f false future cache q e found kept (g, at, waits) =
      elim (Bool-cases (id == j)) [
        | inl same ↦
            let is : f ≡ g =
              ap (λ o. elim o [ none ↦ f | some k ↦ k ])
                (sym found ∙ ap (λ k. get k e.tasks) ((==_iff id j).0 same) ∙ at) in
            (
              future,
              ground (arith, get-insert j id future e.tasks),
              (kept (subst Waits (sym is) waits)).1,
            )
        | inr other ↦ (g, ground (arith, get-insert j id future e.tasks), waits)
      ]

  -- A task that stays pending is still there after the loop.
  pub run_ready_tasks-Stays :
      (Waits : fut.Future → Type 0)
      → Pending Waits
      → (j n : ℕ) (e e' : Executor queue fut) (w w' : fut.World)
      → run_ready_tasks queue fut n e w ≡ done (e', w')
      → Stays Waits j e
      → Stays Waits j e'
  run_ready_tasks-Stays Waits pending j =
      run_ready_tasks-keeps queue fut (Stays Waits j)
        (λ id q e e' popped round stays. kept id q e e' round stays)
    where
      kept :
          (id : ℕ) (q : queue.Queue) (e e' : Executor queue fut)
          → Round queue fut id q e e'
          → Stays Waits j e
          → Stays Waits j e'
      kept id q e e' (passed gone) stays = stays
      kept id q e e' (polled f waker w cache q' found all) stays =
          settle-Stays Waits id j f (fut.poll f waker w).0 (fut.poll f waker w).1 cache q' e found
            (λ waits. (pending.pends f waker w waits, pending.waits_on f waker w waits)) stays

  module _ (fifo : IsFifo queue) where
    -- A task is gone, or waits for its turn.
    abbrev Due : ℕ → fut.Future → Executor queue fut → Type 0
    Due j f e =
        (get j e.tasks ≡ none)
        ⊎ ((get j e.tasks ≡ some f) × (has_id j (fifo.items e.task_queue) ≡ true))

    wake_all-has_id :
        (j : ℕ) (ws : List TaskWaker) (q q' : queue.Queue)
        → wake_all queue fut ws q ≡ some q'
        → has_id j (fifo.items q) ≡ true
        → has_id j (fifo.items q') ≡ true
    unfolding wake_all
    wake_all-has_id j [] q q' all waits =
        subst (λ p. has_id j (fifo.items p) ≡ true) (ap (λ o. elim o [ none ↦ q | some p ↦ p ]) all)
          waits
    wake_all-has_id j (x ∷ ws) q q' all waits =
        let next : Option queue.Queue → Option queue.Queue =
          λ o. elim o [ none ↦ none | some p ↦ wake_all queue fut ws p ] in
        elim (dec_lt (length (fifo.items q)) 100) [
          | yes room ↦
              let (q1, pushed, holds) = fifo.push_room q x.task_id room in
              wake_all-has_id j ws q1 q' (sym (ap next pushed) ∙ all) (
                ap (has_id j) holds
                ∙ has_id-append j (fifo.items q) (x.task_id ∷ [])
                ∙ ap (λ b. b || has_id j (x.task_id ∷ [])) waits)
          | no full ↦
              absurd (none-some (sym (ap next (fifo.push_full q x.task_id (omega arith))) ∙ all))
        ]

    settle-Due :
        (id j : ℕ) (g f : fut.Future) (ready : Bool) (future : fut.Future)
        (cache : List (ℕ × TaskWaker)) (q : queue.Queue) (e : Executor queue fut)
        → get id e.tasks ≡ some g
        → (g ≡ f → ready ≡ true)
        → (get j e.tasks ≡ none)
          ⊎ ((get j e.tasks ≡ some f) × ((id == j) ≡ false → has_id j (fifo.items q) ≡ true))
        → Due j f (settle queue fut id ready future cache q e)
    unfolding settle
    settle-Due id j g f true future cache q e found ends due = elim (Bool-cases (id == j)) [
      | inl same ↦ inl (ground (arith, get-remove j id e.tasks))
      | inr other ↦ elim due [
        | inl gone ↦ inl (ground (arith, get-remove j id e.tasks))
        | inr (at, waits) ↦ inr (ground (arith, get-remove j id e.tasks), waits other)
      ]
    ]
    settle-Due id j g f false future cache q e found ends due = elim (Bool-cases (id == j)) [
      | inl same ↦
          let at_j = sym found ∙ ap (λ k. get k e.tasks) ((==_iff id j).0 same) in
          elim due [
            | inl gone ↦ absurd (none-some (sym gone ∙ sym at_j))
            | inr (at, waits) ↦
                absurd (cc (ends (ap (λ o. elim o [ none ↦ g | some k ↦ k ]) (at_j ∙ at))))
          ]
      | inr other ↦ elim due [
        | inl gone ↦ inl (ground (arith, get-insert j id future e.tasks))
        | inr (at, waits) ↦ inr (ground (arith, get-insert j id future e.tasks), waits other)
      ]
    ]

    -- The queue that a task was popped from held it in front of the rest.
    popped-items :
        (q0 q : queue.Queue) (id : ℕ)
        → queue.pop q0 ≡ some (id, q)
        → fifo.items q0 ≡ id ∷ fifo.items q
    popped-items q0 q id popped = elim (items_cases (fifo.items q0)) [
      | inl empty ↦ absurd (none-some (sym (fifo.pop_none q0 empty) ∙ popped))
      | inr (x, xs, holds) ↦
          let (q1, is, rest) = fifo.pop_first q0 holds in
          let first : Option (ℕ × queue.Queue) → ℕ = λ o. elim o [ none ↦ x | some p ↦ p.0 ] in
          let left : Option (ℕ × queue.Queue) → List ℕ =
            λ o. elim o [ none ↦ xs | some p ↦ fifo.items p.1 ] in
          let same = sym is ∙ popped in
          holds ∙ ap₂ (λ x xs. x ∷ xs) (ap first same) (sym rest ∙ ap left same)
    ]

    Round-Due :
        (j : ℕ) (f : fut.Future)
        → Finishes f
        → (id : ℕ) (q : queue.Queue) (e e' : Executor queue fut)
        → queue.pop e.task_queue ≡ some (id, q)
        → Round queue fut id q e e'
        → Due j f e
        → Due j f e'
    Round-Due j f ends id q e e' popped (passed gone) (inl away) = inl away
    Round-Due j f ends id q e e' popped (passed gone) (inr (at, waits)) =
        elim (Bool-cases (id == j)) [
          | inl same ↦
              absurd (none-some (sym gone ∙ ap (λ k. get k e.tasks) ((==_iff id j).0 same) ∙ at))
          | inr other ↦ inr (
            at,
            sym (ap (λ b. b || has_id j (fifo.items q)) other)
                ∙ sym (ap (has_id j) (popped-items e.task_queue q id popped))
                ∙ waits,
          )
        ]
    Round-Due j f ends id q e e' popped (polled g waker w cache q' found all) due =
        let behind : has_id j (fifo.items e.task_queue) ≡ true
            → (id == j) ≡ false
            → has_id j (fifo.items q') ≡ true =
          λ waits other. wake_all-has_id j (fut.poll g waker w).2 q q' all (
            sym (ap (λ b. b || has_id j (fifo.items q)) other)
            ∙ sym (ap (has_id j) (popped-items e.task_queue q id popped))
            ∙ waits) in
        settle-Due id j g f (fut.poll g waker w).0 (fut.poll g waker w).1 cache q' e found
          (λ is. ap (λ k. (fut.poll k waker w).0) is ∙ ends waker w)
          (elim due [ inl away ↦ inl away | inr (at, waits) ↦ inr (at, behind waits) ])

    -- A task that waits for its turn, and that any poll finds ready, is gone when the queue is empty.
    pub run_ready_tasks-gone :
        (j : ℕ) (f : fut.Future)
        → Finishes f
        → (n : ℕ) (e e' : Executor queue fut) (w w' : fut.World)
        → run_ready_tasks queue fut n e w ≡ done (e', w')
        → fifo.items e'.task_queue ≡ []
        → get j e.tasks ≡ some f
        → has_id j (fifo.items e.task_queue) ≡ true
        → get j e'.tasks ≡ none
    run_ready_tasks-gone j f ends n e e' w w' ran empty at waits =
        elim (run_ready_tasks-keeps queue fut (Due j f) (Round-Due j f ends) n e e' w w' ran
          (inr (at, waits))) [
            | inl away ↦ away
            | inr (still, waits') ↦ absurd (cc (sym (ap (has_id j) empty) ∙ waits'))
          ]
