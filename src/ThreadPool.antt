-- ===== src/ThreadPool.antt =====
-- `ThreadPool` of src/threadpool.h and src/threadpool.cpp. What runs under `_task_mutex` is one
-- step; `_task_cond_var` wakes workers that wait. `T` is the type of tasks.
pub mod Steps
pub mod Sections
pub mod Restart
pub mod Queueing
pub mod Safety
pub mod Refinement
pub mod Threads
use ehttp.Base.{
  ℕ, Bool, true, false, ◌&&◌, List, [], ◌∷◌, ◌++◌, ℤ, pos, negsuc, if◌then◌else◌, ltb, ◌==◌, length,
}

pub data PoolState : Type 0 where
  created started stopped : PoolState

abbrev pub is_stopped : PoolState → Bool
is_stopped created = false
is_stopped started = false
is_stopped stopped = true

-- Where a thread is in `execute_thread`: before it locks the mutex, in `wait`, in a task, or gone.
pub data Worker (T : Type 0) : Type 0 where
  locking waiting exited : Worker T
  running : T → Worker T

-- The fields of the pool, and in `accepted` and `taken` what `add_task` pushed and the workers
-- popped so far.
pub record Pool (T : Type 0) : Type 0 where
  pub pool_size : ℕ
  pub pool_state : PoolState
  pub tasks : List T
  pub task_size_limit : ℤ
  pub workers : ℕ → Worker T
  pub accepted : List T
  pub taken : List T

-- `_task_size_limit > 0 && (int) _tasks.size() > _task_size_limit`
abbrev pub reaches_limit : ℤ → ℕ → Bool
reaches_limit (pos limit) size = ltb 0 limit && ltb limit size
reaches_limit (negsuc _) size = false

module _ {T : Type 0} where
  abbrev pub set_worker : ℕ → Worker T → Pool T → Pool T
  set_worker i w pool = record pool { workers = λ j. if i == j then w else pool.workers j }

  -- The constructor, with the two setters.
  abbrev pub new_pool : ℕ → ℤ → Pool T
  new_pool size limit = record {
    pool_size = size;
    pool_state = created;
    tasks = [];
    task_size_limit = limit;
    workers = λ i. exited;
    accepted = [];
    taken = [];
  }

  -- `start_threadpool` where every `pthread_create` succeeds.
  unfoldable pub start_threadpool : Pool T → ℤ × Pool T
  start_threadpool pool = elim pool.pool_state [
    | started ↦ ((if pool.pool_size == 0 then negsuc 0 else pos 0), pool)
    | _ ↦ if pool.pool_size == 0 then (negsuc 0, pool) else (
      pos 0,
      record pool {
        pool_state = started;
        workers = λ i. if ltb i pool.pool_size then locking else pool.workers i;
      },
    )
  ]

  -- `add_task`, less the signal.
  unfoldable pub add_task : T → Pool T → ℤ × Pool T
  add_task task pool =
      if reaches_limit pool.task_size_limit (length pool.tasks) then (negsuc 0, pool) else (
        pos 0,
        record pool { tasks = pool.tasks ++ task ∷ []; accepted = pool.accepted ++ task ∷ [] },
      )

  -- What a thread does with the mutex: it ends, waits or takes the first task.
  picked : ℕ → Pool T → Bool → List T → Pool T
  picked i pool true tasks = set_worker i exited pool
  picked i pool false [] = set_worker i waiting pool
  picked i pool false (task ∷ tasks) =
      set_worker i (running task) (record pool { tasks = tasks; taken = pool.taken ++ task ∷ [] })

  -- The section of `execute_thread` under the mutex, up to a `wait`, an exit or a task.
  unfoldable pub pick_task : ℕ → Pool T → Pool T
  unfolding picked
  pick_task i pool = picked i pool (is_stopped pool.pool_state) pool.tasks

  abbrev pub woken : Worker T → Worker T
  woken waiting = locking
  woken locking = locking
  woken exited = exited
  woken (running task) = running task

  -- The section of `destroy_threadpool` under the mutex, with its broadcast.
  unfoldable pub stop_pool : Pool T → Pool T
  stop_pool pool = record pool { pool_state = stopped; workers = λ i. woken (pool.workers i) }
