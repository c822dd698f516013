-- ===== src/ThreadPool/Safety.antt =====
-- What holds in every state of a pool that was started, however its threads interleave.
use ehttp.Base.{
  ℕ, ◌+◌, ◌≤◌, ◌<◌, ◌≡◌, refl, sym, ap, ◌∙◌, true, false, ◌⊎◌, inl, inr, Bool-cases, ◌++◌, ℤ, pos,
  arith, lt→ltb, ◌==◌, length, is_empty,
}
use mathlib.Core.Path.{subst}
use ehttp.ThreadPool.Restart.{start_threadpool_again, start_threadpool-restarted, restarted-IsSound}
use ehttp.ThreadPool.Sections.{
  fits, fits-zero, IsSound, IsServed, pos_ne_negsuc, true_ne_false, set_locking-IsSound,
  set_locking-IsServed, Signal-IsSound, Signal-IsServed, add_task-IsSound, add_task_refused,
  pick_task-IsSound, stop_pool-IsSound,
}
use ehttp.ThreadPool.Steps.{
  is_waiting, is_active, Step, adds, refuses, locks, wakes_up, finishes, stops, starts_again,
  restarts, Signal, wakes, wakes_none, Reachable, starts, steps,
}
use ehttp.ThreadPool.{
  is_stopped, exited, Pool, new_pool, start_threadpool, add_task, pick_task, picked, stop_pool,
}

module _ {T : Type 0} where
  -- Every step keeps a pool sound and served.
  Step-IsSound :
      (pool next : Pool T)
      → Step pool next
      → IsSound pool × IsServed pool
      → IsSound next × IsServed next
  Step-IsSound pool next (adds task ok sig) v =
      let added = add_task-IsSound task pool v.0 in
      (Signal-IsSound _ next sig added, Signal-IsServed _ next sig added)
  Step-IsSound pool next (refuses task full) v =
      subst (λ p. IsSound p × IsServed p) (sym (add_task_refused task pool full)) v
  Step-IsSound pool next (locks i h w) v = pick_task-IsSound i pool h v.0
  Step-IsSound pool next (wakes_up i h w) v =
      (set_locking-IsSound i pool v.0, set_locking-IsServed i pool v.1)
  Step-IsSound pool next (finishes i task h w) v =
      (set_locking-IsSound i pool v.0, set_locking-IsServed i pool v.1)
  Step-IsSound pool next stops v = stop_pool-IsSound pool v.0
  Step-IsSound pool next (starts_again e) v =
      subst (λ p. IsSound p × IsServed p) (sym (start_threadpool_again pool e)) v
  Step-IsSound pool next (restarts e over) v =
      subst (λ p. IsSound p × IsServed p) (sym (start_threadpool-restarted pool e v.0.manned))
        (restarted-IsSound pool v.0)

  start-IsSound :
      (size : ℕ) (limit : ℤ)
      → (start_threadpool {T = T} (new_pool size limit)).0 ≡ pos 0
      → let pool = (start_threadpool {T = T} (new_pool size limit)).1 in
        IsSound pool × IsServed pool
  unfolding start_threadpool
  start-IsSound size limit ok = elim (Bool-cases (size == 0)) [
    | inl e ↦ absurd (pos_ne_negsuc (sym (rw e at ok)))
    | inr e ↦ rw e (
      record {
        in_order = refl;
        bounded = fits-zero limit;
        manned = ground arith;
        awake = λ s. absurd (true_ne_false (sym s));
        alive = λ s j h. let made = lt→ltb j size h in rw made;
      },
      λ s n. absurd (true_ne_false n),
    )
  ]

  Reachable-IsSound : (pool : Pool T) → Reachable pool → IsSound pool × IsServed pool
  Reachable-IsSound pool (starts size limit ok) = start-IsSound size limit ok
  Reachable-IsSound pool (steps before step) = Step-IsSound _ pool step (Reachable-IsSound _ before)

  -- In every reachable state the tasks taken so far and behind them those in the queue are the
  -- tasks that `add_task` accepted, in the order in which it did.
  pub taken_in_order : (pool : Pool T) → Reachable pool → pool.accepted ≡ pool.taken ++ pool.tasks
  taken_in_order pool r = (Reachable-IsSound pool r).0.in_order

  -- No wakeup is lost: in every reachable state of a pool that is not stopped and has tasks in its
  -- queue, some thread is on its way to the mutex or in a task.
  pub tasks_served :
      (pool : Pool T)
      → Reachable pool
      → is_stopped pool.pool_state ≡ false
      → is_empty pool.tasks ≡ false
      → (i : ℕ) × (i < pool.pool_size) × (is_active (pool.workers i) ≡ true)
  tasks_served pool r = (Reachable-IsSound pool r).1

  -- In every reachable state of a pool with a positive limit the queue holds at most one task more
  -- than the limit.
  pub tasks_bounded :
      (pool : Pool T) (limit : ℕ)
      → Reachable pool
      → pool.task_size_limit ≡ pos limit
      → 0 < limit
      → length pool.tasks ≤ limit + 1
  tasks_bounded pool limit r e h =
      let b = sym (ap (λ l. fits l (length pool.tasks)) e) ∙ (Reachable-IsSound pool r).0.bounded in
      ground arith

  -- In every reachable state of a stopped pool no thread waits for a task.
  pub stopped_awake :
      (pool : Pool T)
      → Reachable pool
      → is_stopped pool.pool_state ≡ true
      → (i : ℕ) → is_waiting (pool.workers i) ≡ false
  stopped_awake pool r = (Reachable-IsSound pool r).0.awake

  add_task-kept :
      (task : T) (pool : Pool T)
      → ((add_task task pool).1.pool_state ≡ pool.pool_state)
        × ((add_task task pool).1.taken ≡ pool.taken)
  unfolding add_task
  add_task-kept task pool = ground arith

  Signal-kept :
      (pool next : Pool T)
      → Signal pool next
      → (next.pool_state ≡ pool.pool_state) × (next.taken ≡ pool.taken)
  Signal-kept pool next (wakes i h w) = (refl, refl)
  Signal-kept pool next (wakes_none none) = (refl, refl)

  start_threadpool-taken : (pool : Pool T) → (start_threadpool pool).1.taken ≡ pool.taken
  unfolding start_threadpool
  start_threadpool-taken pool = ground arith

  -- No step of a stopped pool takes a task from it, and the pool stays stopped, unless the step is
  -- another start when all its threads have ended.
  pub stopped_takes_nothing :
      (pool next : Pool T)
      → Step pool next
      → is_stopped pool.pool_state ≡ true
      → (next.taken ≡ pool.taken)
        × ((is_stopped next.pool_state ≡ true)
            ⊎ ((next ≡ (start_threadpool pool).1)
                × ((i : ℕ) → i < pool.pool_size → pool.workers i ≡ exited)))
  unfolding pick_task stop_pool
  stopped_takes_nothing pool next (adds task ok sig) h =
      let (state, taken) = add_task-kept task pool in
      let (state', taken') = Signal-kept _ next sig in
      (taken' ∙ taken, inl (ap is_stopped (state' ∙ state) ∙ h))
  stopped_takes_nothing pool next (refuses task full) h =
      let (state, taken) = add_task-kept task pool in (taken, inl (ap is_stopped state ∙ h))
  stopped_takes_nothing pool next (locks i lt w) h = (
    ap (λ b. (picked i pool b pool.tasks).taken) h,
    inl (ap (λ b. is_stopped (picked i pool b pool.tasks).pool_state) h ∙ h),
  )
  stopped_takes_nothing pool next (wakes_up i lt w) h = (refl, inl h)
  stopped_takes_nothing pool next (finishes i task lt w) h = (refl, inl h)
  stopped_takes_nothing pool next stops h = (refl, inl refl)
  stopped_takes_nothing pool next (starts_again e) h =
      absurd (true_ne_false (sym h ∙ ap is_stopped e))
  stopped_takes_nothing pool next (restarts e over) h =
      (start_threadpool-taken pool, inr (refl, over))
