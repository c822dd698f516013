-- ===== src/ThreadPool/Restart.antt =====
-- Another start of a pool of src/threadpool.cpp.
use ehttp.Base.{◌<◌, ◌≡◌, sym, true, false, arith, if◌then◌else◌, ltb, lt→ltb, ◌==◌}
use ehttp.ThreadPool.Sections.{IsSound, IsServed, true_ne_false}
use ehttp.ThreadPool.{started, stopped, locking, Pool, start_threadpool}

module _ {T : Type 0} where
  -- Another start of a pool that was started changes nothing.
  pub start_threadpool_again :
      (pool : Pool T) → pool.pool_state ≡ started → (start_threadpool pool).1 ≡ pool
  unfolding start_threadpool
  start_threadpool_again pool e = rw e

  -- Nor does a start of a pool without a size.
  pub start_threadpool_empty :
      (pool : Pool T) → (pool.pool_size == 0) ≡ true → (start_threadpool pool).1 ≡ pool
  unfolding start_threadpool
  start_threadpool_empty pool z = ground arith

  -- A start of a pool that was stopped sends its threads to the mutex.
  abbrev pub restarted : Pool T → Pool T
  restarted pool = record pool {
    pool_state = started;
    workers = λ i. if ltb i pool.pool_size then locking else pool.workers i;
  }

  pub start_threadpool-restarted :
      (pool : Pool T)
      → pool.pool_state ≡ stopped
      → 0 < pool.pool_size
      → (start_threadpool pool).1 ≡ restarted pool
  unfolding start_threadpool
  start_threadpool-restarted pool e manned =
      let full : (pool.pool_size == 0) ≡ false = ground arith in rw (e, full)

  pub restarted-IsSound :
      (pool : Pool T) → IsSound pool → IsSound (restarted pool) × IsServed (restarted pool)
  restarted-IsSound pool v = (
    record {
      in_order = v.in_order;
      bounded = v.bounded;
      manned = v.manned;
      awake = λ s. absurd (true_ne_false (sym s));
      alive = λ s j h. let made = lt→ltb j pool.pool_size h in rw made;
    },
    λ s n. (0, v.manned, let made = lt→ltb 0 pool.pool_size v.manned in rw made),
  )
