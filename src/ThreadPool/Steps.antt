-- ===== src/ThreadPool/Steps.antt =====
-- The interleavings of the threads of a pool and of the threads that use it.
use ehttp.Base.{ℕ, ◌<◌, ◌≡◌, Bool, true, false, ℤ, pos, negsuc}
use ehttp.ThreadPool.{
  started, stopped, Worker, locking, waiting, exited, running, Pool, set_worker, new_pool,
  start_threadpool, add_task, pick_task, stop_pool,
}

abbrev pub is_waiting : {T : Type 0} → Worker T → Bool
is_waiting waiting = true
is_waiting locking = false
is_waiting exited = false
is_waiting (running task) = false

-- On its way to the mutex or in a task.
abbrev pub is_active : {T : Type 0} → Worker T → Bool
is_active waiting = false
is_active locking = true
is_active exited = false
is_active (running task) = true

abbrev pub is_exited : {T : Type 0} → Worker T → Bool
is_exited waiting = false
is_exited locking = false
is_exited exited = true
is_exited (running task) = false

-- `signal` wakes a thread that waits, if there is one.
pub data Signal {T : Type 0} : Pool T → Pool T → Type 0 where
  wakes :
      {pool : Pool T} (i : ℕ)
      → i < pool.pool_size
      → is_waiting (pool.workers i) ≡ true
      → Signal pool (set_worker i locking pool)
  wakes_none :
      {pool : Pool T}
      → ((i : ℕ) → i < pool.pool_size → is_waiting (pool.workers i) ≡ false)
      → Signal pool pool

pub data Step {T : Type 0} : Pool T → Pool T → Type 0 where
  adds :
      {pool next : Pool T} (task : T)
      → (add_task task pool).0 ≡ pos 0
      → Signal (add_task task pool).1 next
      → Step pool next
  refuses :
      {pool : Pool T} (task : T)
      → (add_task task pool).0 ≡ negsuc 0
      → Step pool (add_task task pool).1
  -- a thread gets the mutex, at the top of its loop or back from `wait`
  locks :
      {pool : Pool T} (i : ℕ)
      → i < pool.pool_size
      → pool.workers i ≡ locking
      → Step pool (pick_task i pool)
  -- `wait` may return without a signal
  wakes_up :
      {pool : Pool T} (i : ℕ)
      → i < pool.pool_size
      → pool.workers i ≡ waiting
      → Step pool (set_worker i locking pool)
  finishes :
      {pool : Pool T} (i : ℕ) (task : T)
      → i < pool.pool_size
      → pool.workers i ≡ running task
      → Step pool (set_worker i locking pool)
  stops : {pool : Pool T} → Step pool (stop_pool pool)
  -- another start: of a pool that was started, or of one that was stopped and whose threads have all
  -- ended, as they have when `destroy_threadpool` has joined them
  starts_again : {pool : Pool T} → pool.pool_state ≡ started → Step pool (start_threadpool pool).1
  restarts :
      {pool : Pool T}
      → pool.pool_state ≡ stopped
      → ((i : ℕ) → i < pool.pool_size → pool.workers i ≡ exited)
      → Step pool (start_threadpool pool).1

-- The states of a pool that was started.
pub data Reachable {T : Type 0} : Pool T → Type 0 where
  starts :
      (size : ℕ) (limit : ℤ)
      → (start_threadpool {T = T} (new_pool size limit)).0 ≡ pos 0
      → Reachable (start_threadpool (new_pool size limit)).1
  steps : {pool next : Pool T} → Reachable pool → Step pool next → Reachable next
