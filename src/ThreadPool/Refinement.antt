-- ===== src/ThreadPool/Refinement.antt =====
-- The steps of a pool of src/threadpool.cpp are those of a queue with servers.
use ehttp.Base.{
  ℕ, ◌<◌, ◌≡◌, refl, sym, ap, ◌∙◌, Bool, true, false, inl, inr, Bool-cases, List, [], ◌∷◌, Option,
  none, some, pos, arith, if◌then◌else◌, ltb, ◌==◌, length,
}
use mathlib.Core.Path.{subst}
use ehttp.ThreadPool.Restart.{
  start_threadpool_empty, start_threadpool_again, start_threadpool-restarted, restarted,
}
use ehttp.ThreadPool.Sections.{add_task_refused, pos_ne_negsuc}
use ehttp.ThreadPool.Queueing.{
  Queue, Moves, SameServing, QueueStep, push, pop, finish, close, reopen, skip,
}
use ehttp.ThreadPool.Steps.{
  is_waiting, Step, adds, refuses, locks, wakes_up, finishes, stops, starts_again, restarts, Signal,
  wakes, wakes_none,
}
use ehttp.ThreadPool.{
  is_stopped, stopped, Worker, locking, waiting, exited, running, Pool, set_worker, reaches_limit,
  add_task, pick_task, picked, woken, stop_pool, start_threadpool,
}

abbrev pub task_of : {T : Type 0} → Worker T → Option T
task_of locking = none
task_of waiting = none
task_of exited = none
task_of (running task) = some task

-- What is seen of a pool: not where a thread without a task is.
abbrev pub queue_of : {T : Type 0} → Pool T → Queue T
queue_of pool = record {
  items = pool.tasks;
  limit = pool.task_size_limit;
  is_closed = is_stopped pool.pool_state;
  serving = λ i. task_of (pool.workers i);
}

module _ {T : Type 0} where
  served :
      (i j : ℕ) (w : Worker T) (pool : Pool T)
      → task_of ((set_worker i w pool).workers j)
        ≡ (if i == j then task_of w else task_of (pool.workers j))
  served i j w pool = elim (Bool-cases (i == j)) [ inl e ↦ rw e | inr e ↦ rw e ]

  -- A thread without a task that gets none.
  idle :
      (i j : ℕ) (w : Worker T) (pool : Pool T)
      → task_of (pool.workers i) ≡ none
      → task_of w ≡ none
      → task_of ((set_worker i w pool).workers j) ≡ task_of (pool.workers j)
  idle i j w pool before after = elim (Bool-cases (i == j)) [
    | inl e ↦
        let at : i ≡ j = ground arith in
        rw e (after ∙ sym before ∙ ap (λ k. task_of (pool.workers k)) at)
    | inr e ↦ rw e
  ]

  waits-task_of : (w : Worker T) → is_waiting w ≡ true → task_of w ≡ none
  waits-task_of locking h = refl
  waits-task_of waiting h = refl
  waits-task_of exited h = refl
  waits-task_of (running task) h = absurd (false_ne_true h)
    where
      false_ne_true : false ≡ true → ⊥
      false_ne_true h = cc

  woken-task_of : (w : Worker T) → task_of (woken w) ≡ task_of w
  woken-task_of locking = refl
  woken-task_of waiting = refl
  woken-task_of exited = refl
  woken-task_of (running task) = refl

  Signal-serving :
      (pool next : Pool T)
      → Signal pool next
      → Moves pool.tasks (is_stopped pool.pool_state) (queue_of pool) (queue_of next)
        × SameServing (queue_of pool) (queue_of next)
  Signal-serving pool next (wakes i h w) = (
    record { waiting_items = refl; same_limit = refl; gate = refl },
    λ j. idle i j locking pool (waits-task_of (pool.workers i) w) refl,
  )
  Signal-serving pool next (wakes_none quiet) =
      (record { waiting_items = refl; same_limit = refl; gate = refl }, λ j. refl)

  added-QueueStep :
      (task : T) (pool next : Pool T)
      → (add_task task pool).0 ≡ pos 0
      → Signal (add_task task pool).1 next
      → QueueStep (queue_of pool) (queue_of next)
  unfolding add_task
  added-QueueStep task pool next ok sig =
      elim (Bool-cases (reaches_limit pool.task_size_limit (length pool.tasks))) [
        | inl e ↦ absurd (pos_ne_negsuc (sym (rw e at ok)))
        | inr e ↦
            let (moves, same) = Signal-serving _ next (rw e at sig) in
            push task e
              (record {
                waiting_items = moves.waiting_items;
                same_limit = moves.same_limit;
                gate = moves.gate;
              })
              same
      ]

  picked-QueueStep :
      (i : ℕ) (pool : Pool T) (stopped : Bool) (tasks : List T)
      → pool.workers i ≡ locking
      → is_stopped pool.pool_state ≡ stopped
      → pool.tasks ≡ tasks
      → QueueStep (queue_of pool) (queue_of (picked i pool stopped tasks))
  unfolding picked
  picked-QueueStep i pool true tasks w e h =
      skip (record { waiting_items = refl; same_limit = refl; gate = refl })
        (λ j. idle i j exited pool (ap task_of w) refl)
  picked-QueueStep i pool false [] w e h =
      skip (record { waiting_items = refl; same_limit = refl; gate = refl })
        (λ j. idle i j waiting pool (ap task_of w) refl)
  picked-QueueStep i pool false (task ∷ tasks) w e h =
      pop i task tasks e h (ap task_of w)
        (record { waiting_items = refl; same_limit = refl; gate = refl })
        (λ j. served i j (running task) pool)

  restarted-serving :
      (pool : Pool T)
      → ((i : ℕ) → i < pool.pool_size → pool.workers i ≡ exited)
      → SameServing (queue_of pool) (queue_of (restarted pool))
  restarted-serving pool over j = elim (Bool-cases (ltb j pool.pool_size)) [
    | inl e ↦ rw e (sym (ap task_of (over j (ground arith))))
    | inr e ↦ rw e
  ]

  unchanged : (pool next : Pool T) → next ≡ pool → QueueStep (queue_of pool) (queue_of next)
  unchanged pool next e =
      subst (λ p. QueueStep (queue_of pool) (queue_of p)) (sym e)
        (skip (record { waiting_items = refl; same_limit = refl; gate = refl }) (λ j. refl))

  restarts-QueueStep :
      (pool : Pool T)
      → pool.pool_state ≡ stopped
      → ((i : ℕ) → i < pool.pool_size → pool.workers i ≡ exited)
      → QueueStep (queue_of pool) (queue_of (start_threadpool pool).1)
  restarts-QueueStep pool e over = elim (Bool-cases (pool.pool_size == 0)) [
    | inl z ↦ unchanged pool (start_threadpool pool).1 (start_threadpool_empty pool z)
    | inr m ↦
        subst (λ p. QueueStep (queue_of pool) (queue_of p))
          (sym (start_threadpool-restarted pool e (ground arith)))
          (reopen (ap is_stopped e)
            (record { waiting_items = refl; same_limit = refl; gate = refl })
            (restarted-serving pool over))
  ]

  -- Each step of a pool is a step of the queue: a task that is accepted goes behind the others, while
  -- they are not above the limit; a thread that had no task and gets one gets the first that waits,
  -- from a queue that is not closed, and runs it; a thread that ends a task has none; a stop closes
  -- the queue, and another start of a stopped pool opens it; all else changes neither the queue nor
  -- the task of any thread.
  pub Step-QueueStep :
      (pool next : Pool T) → Step pool next → QueueStep (queue_of pool) (queue_of next)
  unfolding pick_task stop_pool
  Step-QueueStep pool next (adds task ok sig) = added-QueueStep task pool next ok sig
  Step-QueueStep pool next (refuses task full) = unchanged pool _ (add_task_refused task pool full)
  Step-QueueStep pool next (locks i h w) = picked-QueueStep i pool _ _ w refl refl
  Step-QueueStep pool next (wakes_up i h w) =
      skip (record { waiting_items = refl; same_limit = refl; gate = refl })
        (λ j. idle i j locking pool (ap task_of w) refl)
  Step-QueueStep pool next (finishes i task h w) =
      finish i task (ap task_of w) (record { waiting_items = refl; same_limit = refl; gate = refl })
        (λ j. served i j locking pool)
  Step-QueueStep pool next stops =
      close (record { waiting_items = refl; same_limit = refl; gate = refl })
        (λ j. woken-task_of (pool.workers j))
  Step-QueueStep pool next (starts_again e) = unchanged pool _ (start_threadpool_again pool e)
  Step-QueueStep pool next (restarts e over) = restarts-QueueStep pool e over
