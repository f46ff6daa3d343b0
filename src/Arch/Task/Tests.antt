-- ===== src/Arch/Task/Tests.antt =====
-- Tasks that count down, and wake themselves while the world has credit, or that sleep.
use neutrix.Base.{
  ℕ, ◌+◌, ◌-◌, ◌<◌, ◌≤◌, ◌≡◌, refl, ap, ◌⊎◌, Bool, true, false, Option, none, some, List, [], ◌∷◌,
  ◌++◌, ◌==◌, ltb, length, if◌then◌else◌, arith,
}
use neutrix.Base.Assoc.{get}
use neutrix.Arch.ArrayQueue.{ArrayQueue, IsFifo}
use neutrix.Arch.Task.{TaskWaker, Futures, done, Executor, spawn, run_ready_tasks}
use neutrix.Arch.Task.Kept.{has_id, own_waker, IsKept, spawn-IsKept}
use neutrix.Arch.Task.Fate.{Pending, Stays, Finishes}
use neutrix.Arch.Task.Drain.{IsFrugal, run_ready_tasks-drained}

abbrev pop_first : List ℕ → Option (ℕ × List ℕ)
pop_first [] = none
pop_first (x ∷ xs) = some (x, xs)

abbrev is_nil : List ℕ → Bool
is_nil [] = true
is_nil (x ∷ xs) = false

abbrev hundred : ArrayQueue 100
hundred = record {
  Queue = List ℕ;
  empty = [];
  push = λ q x. if ltb (length q) 100 then some (q ++ (x ∷ [])) else none;
  pop = pop_first;
  is_empty = is_nil;
}

push_room : (q : List ℕ) (x : ℕ) → length q < 100 → hundred.push q x ≡ some (q ++ (x ∷ []))
push_room q x l = ground arith

push_full : (q : List ℕ) (x : ℕ) → 100 ≤ length q → hundred.push q x ≡ none
push_full q x l = ground arith

abbrev hundred-IsFifo : IsFifo hundred
hundred-IsFifo = record {
  items = λ q. q;
  items-empty = refl;
  push_room = λ q x l. (q ++ (x ∷ []), push_room q x l, refl);
  push_full = push_full;
  pop_none = λ q e. ap pop_first e;
  pop_first = λ q {x} {xs} e. (xs, ap pop_first e, refl);
}

abbrev countdown : Futures
countdown = record {
  Future = ℕ;
  World = ℕ;
  poll = λ f waker w.
      if f == 0
      then (true, 0, [], w)
      else (if f == 1000
          then (false, 1000, [], w)
          else (if w == 0 then (false, f, [], w) else (false, f - 1, waker ∷ [], w - 1)));
}

spends :
    (f : ℕ) (waker : TaskWaker) (w : ℕ)
    → length (countdown.poll f waker w).2 + (countdown.poll f waker w).3 ≤ w
spends f waker w = ground arith

abbrev countdown-IsFrugal : IsFrugal hundred hundred-IsFifo countdown
countdown-IsFrugal = record { credit = λ w. w; spends = spends }

abbrev Exec : Type 0
Exec = Executor hundred countdown

-- Three tasks that wait; the last one sleeps.
abbrev three_tasks : Exec
three_tasks = record {
  tasks = (1, 2) ∷ (2, 0) ∷ (7, 1000) ∷ [];
  task_queue = 1 ∷ 2 ∷ 7 ∷ [];
  waker_cache = [];
}

no_waker : {A : Type 0} {a : A} (j : ℕ) → get j [] ≡ some a → ⊥
unfolding get
no_waker j e = cc

three_reached :
    (j f : ℕ)
    → get j three_tasks.tasks ≡ some f
    → (has_id j (1 ∷ 2 ∷ 7 ∷ []) ≡ true) ⊎ (get j three_tasks.waker_cache ≡ some (own_waker j))
unfolding get
three_reached j f h = ground arith

nothing_cached : (j : ℕ) → get j three_tasks.waker_cache ≡ none
unfolding get
nothing_cached j = refl

three-IsKept : IsKept hundred hundred-IsFifo countdown three_tasks (1 ∷ 2 ∷ 7 ∷ [])
three-IsKept = record {
  own = λ j w h. absurd (no_waker j h);
  alive = λ j h. nothing_cached j;
  reached = three_reached;
}

-- The class of the future that sleeps.
abbrev IsAsleep : ℕ → Type 0
IsAsleep f = f ≡ 1000

asleep-pends :
    (f : ℕ) (waker : TaskWaker) (w : ℕ) → IsAsleep f → (countdown.poll f waker w).0 ≡ false
asleep-pends f waker w is = ground arith

asleep_on : (f : ℕ) (waker : TaskWaker) (w : ℕ) → IsAsleep f → (countdown.poll f waker w).1 ≡ 1000
asleep_on f waker w is = ground arith

IsAsleep-Pending : Pending hundred countdown IsAsleep
IsAsleep-Pending = record { pends = asleep-pends; waits_on = asleep_on }

run_ready_tasks-drained_example :
    (e' : Exec) × (w' : ℕ) × (run_ready_tasks hundred countdown 101 three_tasks 5 ≡ done (e', w'))
    × (e'.task_queue ≡ [])
    × IsKept hundred hundred-IsFifo countdown e' []
    × ((j : ℕ) → get j three_tasks.tasks ≡ none → get j e'.tasks ≡ none)
    × ((j : ℕ)
        → Stays hundred countdown IsAsleep j three_tasks
        → Stays hundred countdown IsAsleep j e')
    × ((j f : ℕ)
        → Finishes hundred countdown f
        → get j three_tasks.tasks ≡ some f
        → has_id j (1 ∷ 2 ∷ 7 ∷ []) ≡ true
        → get j e'.tasks ≡ none)
run_ready_tasks-drained_example =
    run_ready_tasks-drained hundred hundred-IsFifo countdown countdown-IsFrugal IsAsleep
      IsAsleep-Pending three_tasks 5 three-IsKept (omega arith)

spawn-IsKept_example :
    (e' : Exec) × (spawn hundred countdown 3 4 three_tasks ≡ some e')
    × (e'.task_queue ≡ 1 ∷ 2 ∷ 7 ∷ 3 ∷ [])
    × (get 3 e'.tasks ≡ some 4)
    × IsKept hundred hundred-IsFifo countdown e' e'.task_queue
unfolding get
spawn-IsKept_example =
    spawn-IsKept hundred hundred-IsFifo countdown 3 4 three_tasks three-IsKept refl (omega arith)

-- Two tasks come to their end: the first is polled three times. The last one is kept.
run_three :
    run_ready_tasks hundred countdown 101 three_tasks 5
    ≡ done (
      record {
        tasks = (7, 1000) ∷ [];
        task_queue = [];
        waker_cache = (7, record { task_id = 7 }) ∷ [];
      },
      3,
    )
unfolding run_ready_tasks
run_three = refl

-- Without credit the first task waits, its waker cached.
run_waiting :
    run_ready_tasks hundred countdown 101 three_tasks 1
    ≡ done (
      record {
        tasks = (1, 1) ∷ (7, 1000) ∷ [];
        task_queue = [];
        waker_cache = (7, record { task_id = 7 }) ∷ (1, record { task_id = 1 }) ∷ [];
      },
      0,
    )
unfolding run_ready_tasks
run_waiting = refl
