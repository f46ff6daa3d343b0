-- ===== src/Arch/Task/Kept.antt =====
-- src/arch/task.rs: a task is kept where it can be woken, through a poll of it.
use mathlib.Core.Path.{subst}
use neutrix.Base.{
  ◌<◌, ℕ, suc, ◌+◌, ◌≤◌, ◌≡◌, refl, sym, ap, ◌∙◌, ◌⊎◌, inl, inr, Bool, true, false, ◌||◌,
  Bool-cases, Option, none, some, List, [], ◌∷◌, ◌++◌, ◌==◌, ==_iff, length, length-append,
  if◌then◌else◌, arith,
}
use mathlib.Core.List.{append_assoc, append-nil}
use neutrix.Base.Assoc.{insert, get, get-insert, get-remove}
use neutrix.Arch.ArrayQueue.{ArrayQueue, IsFifo}
use neutrix.Arch.Task.{spawn, TaskWaker, Futures, Executor, wake_all, or_insert, settle}

abbrev pub has_id : ℕ → List ℕ → Bool
has_id j [] = false
has_id j (x ∷ xs) = x == j || has_id j xs

pub has_id-append : (j : ℕ) (xs ys : List ℕ) → has_id j (xs ++ ys) ≡ (has_id j xs || has_id j ys)
has_id-append j [] ys = refl
has_id-append j (x ∷ xs) ys = ground (arith, has_id-append j xs ys)

abbrev pub own_waker : ℕ → TaskWaker
own_waker j = record { task_id = j }

abbrev pub task_ids : List TaskWaker → List ℕ
task_ids [] = []
task_ids (w ∷ ws) = w.task_id ∷ task_ids ws

pub length-task_ids : (ws : List TaskWaker) → length (task_ids ws) ≡ length ws
length-task_ids [] = refl
length-task_ids (w ∷ ws) = ap suc (length-task_ids ws)

pub items_cases : (l : List ℕ) → (l ≡ []) ⊎ ((x : ℕ) × (xs : List ℕ) × (l ≡ x ∷ xs))
items_cases [] = inl refl
items_cases (x ∷ xs) = inr (x, xs, refl)

pub none-some : {A : Type 0} {a : A} → none ≡ some a → ⊥
none-some e = cc

module _ (queue : ArrayQueue 100) (fifo : IsFifo queue) (fut : Futures) where
  -- Each cached waker wakes its task, and no waker is cached for a task that is gone. Each task is
  -- among the ids that wait, or else its waker is cached, so that it can be woken.
  pub record IsKept (e : Executor queue fut) (waiting : List ℕ) : Type 0 where
    pub own : (j : ℕ) (w : TaskWaker) → get j e.waker_cache ≡ some w → w ≡ own_waker j
    pub alive : (j : ℕ) → get j e.tasks ≡ none → get j e.waker_cache ≡ none
    pub reached :
        (j : ℕ) (f : fut.Future)
        → get j e.tasks ≡ some f
        → (has_id j waiting ≡ true) ⊎ (get j e.waker_cache ≡ some (own_waker j))

  pub wake_all-room :
      (ws : List TaskWaker) (q : queue.Queue)
      → length (fifo.items q) + length ws ≤ 100
      → (q' : queue.Queue) × (wake_all queue fut ws q ≡ some q')
        × (fifo.items q' ≡ fifo.items q ++ task_ids ws)
  unfolding wake_all
  wake_all-room [] q l = (q, refl, sym (append-nil (fifo.items q)))
  wake_all-room (w ∷ ws) q l =
      let (q1, pushed, holds) = fifo.push_room q w.task_id (omega arith) in
      let longer = ap length holds ∙ length-append (fifo.items q) (w.task_id ∷ []) in
      let (q', all, holds') = wake_all-room ws q1 (omega arith) in
      (
        q',
        ap (λ o. elim o [ none ↦ none | some q2 ↦ wake_all queue fut ws q2 ]) pushed ∙ all,
        holds'
            ∙ ap (λ t. t ++ task_ids ws) holds
            ∙ append_assoc (fifo.items q) (w.task_id ∷ []) (task_ids ws),
      )

  -- The waker that a poll gets is the task's own, and is cached then.
  pub get-or_insert :
      (id : ℕ) (cache : List (ℕ × TaskWaker)) (found : Option TaskWaker)
      → get id cache ≡ found
      → ((w : TaskWaker) → found ≡ some w → w ≡ own_waker id)
      → ((or_insert queue fut id cache found).0 ≡ own_waker id)
        × ((j : ℕ)
            → get j (or_insert queue fut id cache found).1
              ≡ (if id == j then some (own_waker id) else get j cache))
  get-or_insert id cache none e own = (refl, λ j. get-insert j id (own_waker id) cache)
  get-or_insert id cache (some w) e own = (
    own w refl,
    λ j. elim (Bool-cases (id == j)) [
      | inl same ↦
          rw same (ap (λ k. get k cache) (sym ((==_iff id j).0 same)) ∙ e ∙ ap some (own w refl))
      | inr other ↦ rw other refl
    ],
  )

  -- A poll of the first task that waits, at an executor that is kept.
  module _ (id : ℕ) (e : Executor queue fut) (xs ys : List ℕ) (keep : IsKept e (id ∷ xs))
      (cache : List (ℕ × TaskWaker)) (q : queue.Queue)
      (cached : (j : ℕ)
        → get j cache ≡ (if id == j then some (own_waker id) else get j e.waker_cache)) where
    settle_ready :
        (future : fut.Future) → IsKept (settle queue fut id true future cache q e) (xs ++ ys)
    unfolding settle
    settle_ready future = record {
      own = λ j w h. ground (arith, get-remove j id cache, cached j, keep.own j w);
      alive = λ j h.
          ground (arith, get-remove j id cache, get-remove j id e.tasks, cached j, keep.alive j);
      reached = λ j f h. ground (
        arith,
        get-remove j id cache,
        get-remove j id e.tasks,
        cached j,
        keep.reached j f,
        has_id-append j xs ys,
      );
    }

    settle_pending :
        (future : fut.Future) → IsKept (settle queue fut id false future cache q e) (xs ++ ys)
    unfolding settle
    settle_pending future = record {
      own = λ j w h. ground (arith, cached j, keep.own j w);
      alive = λ j h. ground (arith, get-insert j id future e.tasks, cached j, keep.alive j);
      reached = λ j f h. ground (
        arith,
        get-insert j id future e.tasks,
        cached j,
        keep.reached j f,
        has_id-append j xs ys,
      );
    }

    pub settle-IsKept :
        (ready : Bool) (future : fut.Future)
        → IsKept (settle queue fut id ready future cache q e) (xs ++ ys)
    settle-IsKept true = settle_ready
    settle-IsKept false = settle_pending

    pub settle_queue :
        (ready : Bool) (future : fut.Future)
        → (settle queue fut id ready future cache q e).task_queue ≡ q
    unfolding settle
    settle_queue true future = refl
    settle_queue false future = refl

    pub settle_fewer :
        (ready : Bool) (future f : fut.Future)
        → get id e.tasks ≡ some f
        → (j : ℕ) → get j e.tasks ≡ none
        → get j (settle queue fut id ready future cache q e).tasks ≡ none
    unfolding settle
    settle_fewer true future f found j gone = ground (arith, get-remove j id e.tasks)
    settle_fewer false future f found j gone = elim (Bool-cases (id == j)) [
      | inl same ↦
          absurd
            (none-some (sym gone ∙ ap (λ k. get k e.tasks) (sym ((==_iff id j).0 same)) ∙ found))
      | inr other ↦ ground (arith, get-insert j id future e.tasks)
    ]

  -- While the queue has room, `spawn` of a task whose id is not taken puts it behind all that wait
  -- and keeps each task where it can be woken.
  pub spawn-IsKept :
      (id : ℕ) (f : fut.Future) (e : Executor queue fut)
      → IsKept e (fifo.items e.task_queue)
      → get id e.tasks ≡ none
      → length (fifo.items e.task_queue) < 100
      → (e' : Executor queue fut) × (spawn queue fut id f e ≡ some e')
        × (fifo.items e'.task_queue ≡ fifo.items e.task_queue ++ (id ∷ []))
        × (get id e'.tasks ≡ some f)
        × IsKept e' (fifo.items e'.task_queue)
  unfolding spawn
  spawn-IsKept id f e keep free room =
      let (q, pushed, holds) = fifo.push_room e.task_queue id room in
      let e' : Executor queue fut = record e { tasks = insert id f e.tasks; task_queue = q } in
      let kept : IsKept e' (fifo.items e.task_queue ++ (id ∷ [])) = record {
        own = keep.own;
        alive = λ j h. ground (arith, get-insert j id f e.tasks, keep.alive j);
        reached = λ j g h. ground (
          arith,
          get-insert j id f e.tasks,
          keep.reached j g,
          has_id-append j (fifo.items e.task_queue) (id ∷ []),
        );
      } in
      (
        e',
        ap
              (λ o. elim o [
                | none ↦ (elim (queue.push e.task_queue id) [
                  | none ↦ none
                  | some q ↦ some (record e { tasks = insert id f e.tasks; task_queue = q })
                ])
                | some _ ↦ none
              ])
              free
            ∙ ap
                (λ o. elim o [
                  | none ↦ none
                  | some q ↦ some (record e { tasks = insert id f e.tasks; task_queue = q })
                ])
                pushed,
        holds,
        get-insert id id f e.tasks ∙ ground arith,
        subst (λ l. IsKept e' l) (sym holds) kept,
      )
