-- ===== src/ThreadPool/Sections.antt =====
-- What the sections of `ThreadPool` of src/threadpool.cpp under the mutex keep.
use ehttp.Base.{
  ℕ, suc, ◌+◌, ◌<◌, ◌≡◌, refl, sym, ap, ◌∙◌, Bool, true, false, inl, inr, Bool-cases, List, [], ◌∷◌,
  ◌++◌, append_assoc, ℤ, pos, negsuc, arith, if◌then◌else◌, ltb, leb, ◌==◌, length, length-append,
  is_empty,
}
use ehttp.ThreadPool.Steps.{is_waiting, is_active, is_exited, Signal, wakes, wakes_none}
use ehttp.ThreadPool.{
  is_stopped, Worker, locking, waiting, exited, running, Pool, reaches_limit, set_worker, picked,
  add_task, pick_task, woken, stop_pool,
}

-- At most one task more than a positive limit says.
abbrev pub fits : ℤ → ℕ → Bool
fits (pos limit) size = if ltb 0 limit then leb size (limit + 1) else true
fits (negsuc _) size = true

-- What each critical section keeps by itself: tasks are taken in the order in which they were
-- accepted, none lost and none twice; the queue fits the limit; no thread of a stopped pool waits,
-- and no thread of another pool has ended.
pub record IsSound {T : Type 0} (pool : Pool T) : Type 0 where
  pub in_order : pool.accepted ≡ pool.taken ++ pool.tasks
  pub bounded : fits pool.task_size_limit (length pool.tasks) ≡ true
  pub manned : 0 < pool.pool_size
  pub awake : is_stopped pool.pool_state ≡ true → (i : ℕ) → is_waiting (pool.workers i) ≡ false
  pub alive :
      is_stopped pool.pool_state ≡ false
      → (i : ℕ) → i < pool.pool_size
      → is_exited (pool.workers i) ≡ false

-- While a pool that is not stopped has tasks, some thread is on its way to them.
abbrev pub IsServed : {T : Type 0} → Pool T → Type 0
IsServed pool =
    is_stopped pool.pool_state ≡ false
    → is_empty pool.tasks ≡ false
    → (i : ℕ) × (i < pool.pool_size) × (is_active (pool.workers i) ≡ true)

fits-add : (limit : ℤ) (size : ℕ) → reaches_limit limit size ≡ false → fits limit (size + 1) ≡ true
fits-add (pos limit) size h = ground arith
fits-add (negsuc limit) size h = refl

fits-suc : (limit : ℤ) (size : ℕ) → fits limit (suc size) ≡ true → fits limit size ≡ true
fits-suc (pos limit) size h = ground arith
fits-suc (negsuc limit) size h = refl

pub fits-zero : (limit : ℤ) → fits limit 0 ≡ true
fits-zero (pos limit) = ground arith
fits-zero (negsuc limit) = refl

pub pos_ne_negsuc : pos 0 ≡ negsuc 0 → ⊥
pos_ne_negsuc h = cc

pub true_ne_false : true ≡ false → ⊥
true_ne_false h = cc

module _ {T : Type 0} where
  active : (w : Worker T) → is_waiting w ≡ false → is_exited w ≡ false → is_active w ≡ true
  active locking h k = refl
  active waiting h k = sym h
  active exited h k = sym k
  active (running task) h k = refl

  waiting_not_exited : (w : Worker T) → is_waiting w ≡ true → is_exited w ≡ false
  waiting_not_exited locking h = refl
  waiting_not_exited waiting h = refl
  waiting_not_exited exited h = sym h
  waiting_not_exited (running task) h = refl

  woken_awake : (w : Worker T) → is_waiting (woken w) ≡ false
  woken_awake locking = refl
  woken_awake waiting = refl
  woken_awake exited = refl
  woken_awake (running task) = refl

  -- A test that the new worker and the old ones meet is met after the change.
  set_worker-test :
      (test : Worker T → Bool) (b : Bool) (i j : ℕ) (w : Worker T) (pool : Pool T)
      → test w ≡ b
      → test (pool.workers j) ≡ b
      → test ((set_worker i w pool).workers j) ≡ b
  set_worker-test test b i j w pool new old = elim (Bool-cases (i == j)) [
    | inl e ↦ rw e new
    | inr e ↦ rw e old
  ]

  set_worker_self : (i : ℕ) (w : Worker T) (pool : Pool T) → (set_worker i w pool).workers i ≡ w
  set_worker_self i w pool = let same : (i == i) ≡ true = ground arith in rw same

  pub set_locking-IsSound :
      (i : ℕ) (pool : Pool T) → IsSound pool → IsSound (set_worker i locking pool)
  set_locking-IsSound i pool v = record {
    in_order = v.in_order;
    bounded = v.bounded;
    manned = v.manned;
    awake = λ s j. set_worker-test is_waiting false i j locking pool refl (v.awake s j);
    alive = λ s j h. set_worker-test is_exited false i j locking pool refl (v.alive s j h);
  }

  pub set_locking-IsServed :
      (i : ℕ) (pool : Pool T) → IsServed pool → IsServed (set_worker i locking pool)
  set_locking-IsServed i pool v s e =
      let (k, h, act) = v s e in (k, h, set_worker-test is_active true i k locking pool refl act)

  pub Signal-IsSound : (pool next : Pool T) → Signal pool next → IsSound pool → IsSound next
  Signal-IsSound pool next (wakes i h w) v = set_locking-IsSound i pool v
  Signal-IsSound pool next (wakes_none none) v = v

  -- Behind a signal some thread is active, whatever was so before.
  pub Signal-IsServed : (pool next : Pool T) → Signal pool next → IsSound pool → IsServed next
  Signal-IsServed pool next (wakes i h w) v s e =
      (i, h, ap is_active (set_worker_self i locking pool))
  Signal-IsServed pool next (wakes_none none) v s e =
      (0, v.manned, active (pool.workers 0) (none 0 v.manned) (v.alive s 0 v.manned))

  pub add_task-IsSound : (task : T) (pool : Pool T) → IsSound pool → IsSound (add_task task pool).1
  unfolding add_task
  add_task-IsSound task pool v =
      elim (Bool-cases (reaches_limit pool.task_size_limit (length pool.tasks))) [
        | inl e ↦ rw e v
        | inr e ↦ rw e (record {
          in_order = ap (λ ts. ts ++ task ∷ []) v.in_order ∙ append_assoc pool.taken pool.tasks _;
          bounded =
              ap (fits pool.task_size_limit) (length-append pool.tasks (task ∷ []))
              ∙ fits-add pool.task_size_limit (length pool.tasks) e;
          manned = v.manned;
          awake = v.awake;
          alive = v.alive;
        })
      ]

  pub add_task_refused :
      (task : T) (pool : Pool T) → (add_task task pool).0 ≡ negsuc 0 → (add_task task pool).1 ≡ pool
  unfolding add_task
  add_task_refused task pool h =
      elim (Bool-cases (reaches_limit pool.task_size_limit (length pool.tasks))) [
        | inl e ↦ rw e
        | inr e ↦ absurd (pos_ne_negsuc (rw e at h))
      ]

  exits-IsSound :
      (i : ℕ) (pool : Pool T)
      → is_stopped pool.pool_state ≡ true
      → IsSound pool
      → IsSound (set_worker i exited pool)
  exits-IsSound i pool e v = record {
    in_order = v.in_order;
    bounded = v.bounded;
    manned = v.manned;
    awake = λ s j. set_worker-test is_waiting false i j exited pool refl (v.awake s j);
    alive = λ s. absurd (true_ne_false (sym e ∙ s));
  }

  waits-IsSound :
      (i : ℕ) (pool : Pool T)
      → is_stopped pool.pool_state ≡ false
      → IsSound pool
      → IsSound (set_worker i waiting pool)
  waits-IsSound i pool e v = record {
    in_order = v.in_order;
    bounded = v.bounded;
    manned = v.manned;
    awake = λ s. absurd (true_ne_false (sym s ∙ e));
    alive = λ s j h. set_worker-test is_exited false i j waiting pool refl (v.alive s j h);
  }

  abbrev took : ℕ → T → List T → Pool T → Pool T
  took i task tasks pool =
      set_worker i (running task) (record pool { tasks = tasks; taken = pool.taken ++ task ∷ [] })

  takes-IsSound :
      (i : ℕ) (pool : Pool T) (task : T) (tasks : List T)
      → pool.tasks ≡ task ∷ tasks
      → IsSound pool
      → IsSound (took i task tasks pool)
  takes-IsSound i pool task tasks e v = record {
    in_order =
        v.in_order ∙ ap (◌++◌ pool.taken) e ∙ sym (append_assoc pool.taken (task ∷ []) tasks);
    bounded =
        fits-suc pool.task_size_limit (length tasks)
          (sym (ap (λ ts. fits pool.task_size_limit (length ts)) e) ∙ v.bounded);
    manned = v.manned;
    awake = λ s j. set_worker-test is_waiting false i j (running task) pool refl (v.awake s j);
    alive = λ s j h. set_worker-test is_exited false i j (running task) pool refl (v.alive s j h);
  }

  -- A thread that gets the mutex leaves the pool sound, and served: it waits only if the queue is
  -- empty, and it runs what it takes.
  pub pick_task-IsSound :
      (i : ℕ) (pool : Pool T)
      → i < pool.pool_size
      → IsSound pool
      → IsSound (pick_task i pool) × IsServed (pick_task i pool)
  unfolding pick_task
  pick_task-IsSound i pool h v = go (is_stopped pool.pool_state) pool.tasks refl refl
    where
      go :
          (b : Bool) (ts : List T)
          → is_stopped pool.pool_state ≡ b
          → pool.tasks ≡ ts
          → IsSound (picked i pool b ts) × IsServed (picked i pool b ts)
      go true ts e f = (exits-IsSound i pool e v, λ s. absurd (true_ne_false (sym e ∙ s)))
      go false [] e f =
          (waits-IsSound i pool e v, λ s n. absurd (true_ne_false (sym (ap is_empty f) ∙ n)))
      go false (task ∷ ts) e f = (
        takes-IsSound i pool task ts f v,
        λ s n. (i, h, ap is_active (set_worker_self i (running task) pool)),
      )

  pub stop_pool-IsSound :
      (pool : Pool T) → IsSound pool → IsSound (stop_pool pool) × IsServed (stop_pool pool)
  unfolding stop_pool
  stop_pool-IsSound pool v = (
    record {
      in_order = v.in_order;
      bounded = v.bounded;
      manned = v.manned;
      awake = λ s i. woken_awake (pool.workers i);
      alive = λ s. absurd (true_ne_false s);
    },
    λ s. absurd (true_ne_false s),
  )
