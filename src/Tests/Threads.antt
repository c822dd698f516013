-- ===== src/Tests/Threads.antt =====
-- A pool with one thread and a limit of one task.
use ehttp.Base.{
  ℕ, ◌+◌, ◌≤◌, ◌<◌, ◌≡◌, refl, true, false, inl, inr, Bool-cases, ◌++◌, pos, arith, ltb, length,
  Option, none, some, [], if◌then◌else◌, ◌==◌, negsuc, ◌⊎◌,
}
use ehttp.ThreadPool.Threads.{
  ThreadedPool, Creates, Fails, start_threads, join_pool, join_pool-start_threads,
}
use ehttp.ThreadPool.Queueing.{QueueStep}
use ehttp.ThreadPool.Refinement.{queue_of, Step-QueueStep}
use ehttp.ThreadPool.Safety.{taken_in_order, tasks_served, tasks_bounded, stopped_takes_nothing}
use ehttp.ThreadPool.Steps.{
  is_waiting, is_active, wakes_none, Step, adds, stops, Reachable, starts, steps,
}
use ehttp.ThreadPool.{Pool, exited, is_stopped, new_pool, start_threadpool, add_task, stop_pool}

abbrev begun : Pool ℕ
begun = (start_threadpool (new_pool 1 (pos 1))).1

abbrev one_task : Pool ℕ
one_task = (add_task 7 begun).1

abbrev ended : Pool ℕ
ended = stop_pool one_task

nobody_waits : (i : ℕ) → i < 1 → is_waiting (one_task.workers i) ≡ false
unfolding start_threadpool add_task
nobody_waits i h = elim (Bool-cases (ltb i 1)) [ inl e ↦ rw e | inr e ↦ rw e ]

one_task-Step : Step begun one_task
unfolding start_threadpool add_task
one_task-Step = adds 7 refl (wakes_none nobody_waits)

one_task-Reachable : Reachable one_task
unfolding start_threadpool
one_task-Reachable = steps (starts 1 (pos 1) refl) one_task-Step

ended-Reachable : Reachable ended
ended-Reachable = steps one_task-Reachable stops

taken_in_order_example : one_task.accepted ≡ one_task.taken ++ one_task.tasks
taken_in_order_example = taken_in_order one_task one_task-Reachable

tasks_served_example : (i : ℕ) × (i < one_task.pool_size) × (is_active (one_task.workers i) ≡ true)
unfolding start_threadpool add_task
tasks_served_example = tasks_served one_task one_task-Reachable refl refl

tasks_bounded_example : length one_task.tasks ≤ 1 + 1
unfolding start_threadpool add_task
tasks_bounded_example = tasks_bounded one_task 1 one_task-Reachable refl (omega arith)

stopped_takes_nothing_example :
    ((stop_pool ended).taken ≡ ended.taken)
    × ((is_stopped (stop_pool ended).pool_state ≡ true)
        ⊎ ((stop_pool ended ≡ (start_threadpool ended).1)
            × ((i : ℕ) → i < ended.pool_size → ended.workers i ≡ exited)))
unfolding stop_pool
stopped_takes_nothing_example = stopped_takes_nothing ended (stop_pool ended) stops refl

Step-QueueStep_example : QueueStep (queue_of begun) (queue_of one_task)
Step-QueueStep_example = Step-QueueStep begun one_task one_task-Step

-- A system that creates one thread, for a pool of two.
abbrev one_only : ℕ → Option ℕ
one_only i = if i == 0 then some 7 else none

abbrev two : ThreadedPool ℕ ℕ
two = record { pool = new_pool 2 (pos 1); threads = [] }

join_pool-start_threads_example :
    let first = start_threads one_only two in
    (Creates one_only 0 2
      × (first.0 ≡ pos 0)
      × (first.1.pool ≡ (start_threadpool two.pool).1)
      × (join_pool first.1 ≡ some (pos (length first.1.pool.tasks), first.1.threads)))
    ⊎ (Fails one_only 0 2
        × (first.0 ≡ negsuc 0)
        × ((again : ℕ → Option ℕ) → start_threads again first.1 ≡ (pos 0, first.1))
        × (join_pool first.1 ≡ none))
unfolding start_threads
join_pool-start_threads_example =
    join_pool-start_threads one_only two (start_threads one_only two).1 refl refl (omega arith) refl
      refl
