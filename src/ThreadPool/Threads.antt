-- ===== src/ThreadPool/Threads.antt =====
-- The threads of a pool in src/threadpool.cpp: creating them in `start_threadpool`, where
-- `pthread_create` may fail, and joining them in `destroy_threadpool`.
use ehttp.Base.{
  ◌>>=◌, ℕ, zero, suc, ◌+◌, ◌≤◌, ◌<◌, ◌≡◌, refl, sym, ap, ◌∙◌, false, ◌⊎◌, inl, inr, Bool-cases,
  Option-cases, List, [], ◌∷◌, ◌++◌, Option, none, some, ℤ, pos, negsuc, arith, if◌then◌else◌, ltb,
  ◌==◌, length,
}
use ehttp.ThreadPool.{Pool, created, started, locking, start_threadpool}

-- A pool with `_threads`; `A` is the type of thread ids.
pub record ThreadedPool (A T : Type 0) : Type 0 where
  pub pool : Pool T
  pub threads : List A

module _ {A : Type 0} where
  -- The loop over `pthread_create` from the thread `i` on: `none` is a call that fails.
  unfoldable pub create_threads : (ℕ → Option A) → ℕ → ℕ → ℤ × List A
  create_threads create i zero = (pos 0, [])
  create_threads create i (suc n) =
      let rest = create_threads create (suc i) n in
      elim (create i) [ none ↦ (negsuc 0, []) | some tid ↦ (rest.0, tid ∷ rest.1) ]

  -- The loop over `pthread_join`, which reads `_threads[i]` in turn: `none` is a read behind the
  -- end of the vector.
  unfoldable pub join_threads : ℕ → List A → Option (List A)
  join_threads zero ts = some []
  join_threads (suc n) [] = none
  join_threads (suc n) (t ∷ ts) = join_threads n ts >>= λ joined. some (t ∷ joined)

  -- From `i` on, `n` calls of `pthread_create` succeed; one of them fails.
  abbrev pub Creates : (ℕ → Option A) → ℕ → ℕ → Type 0
  Creates create i n = (k : ℕ) → i ≤ k → k < i + n → (tid : A) × (create k ≡ some tid)

  abbrev pub Fails : (ℕ → Option A) → ℕ → ℕ → Type 0
  Fails create i n = (k : ℕ) × (i ≤ k) × (k < i + n) × (create k ≡ none)

  Creates-suc :
      (create : ℕ → Option A) (i n : ℕ) (tid : A)
      → create i ≡ some tid
      → Creates create (suc i) n
      → Creates create i (suc n)
  Creates-suc create i n tid e later k low high = elim (Bool-cases (k == i)) [
    | inl same ↦ let at : k ≡ i = ground arith in (tid, ap create at ∙ e)
    | inr other ↦ later k (ground arith) (omega (arith, high))
  ]

  abbrev Joined : (ℕ → Option A) → ℕ → ℕ → Type 0
  Joined create i n =
      let (ret, ts) = create_threads create i n in
      Creates create i n × (ret ≡ pos 0) × (join_threads n ts ≡ some ts) × (length ts ≡ n)

  abbrev Faulted : (ℕ → Option A) → ℕ → ℕ → Type 0
  Faulted create i n =
      let (ret, ts) = create_threads create i n in
      Fails create i n × (ret ≡ negsuc 0) × (join_threads n ts ≡ none)

  create_threads-cases : (create : ℕ → Option A) (i n : ℕ) → Joined create i n ⊎ Faulted create i n
  unfolding create_threads join_threads
  create_threads-cases create i zero =
      inl ((λ k low high. absurd (omega (arith, low, high))), refl, refl, refl)
  create_threads-cases create i (suc n) = elim (Option-cases (create i)) [
    | inl e ↦ inr (
      (i, omega arith, omega arith, e),
      rw (e, create_threads) refl,
      rw (e, create_threads, join_threads) refl,
    )
    | inr (tid, e) ↦ elim (create_threads-cases create (suc i) n) [
      | inl (all, ret, joined, len) ↦ inl (
        Creates-suc create i n tid e all,
        rw (e, create_threads) ret,
        rw (e, create_threads, joined) refl,
        rw (e, create_threads) (ap suc len),
      )
      | inr ((k, low, high, f), ret, faulted) ↦ inr (
        (k, omega (arith, low), omega (arith, high), f),
        rw (e, create_threads) ret,
        rw (e, create_threads, faulted) refl,
      )
    ]
  ]

module _ {A T : Type 0} where
  unfoldable pub start_threads : (ℕ → Option A) → ThreadedPool A T → ℤ × ThreadedPool A T
  start_threads create s = elim s.pool.pool_state [
    | started ↦ ((if s.pool.pool_size == 0 then negsuc 0 else pos 0), s)
    | _ ↦
        let (ret, ts) = create_threads create 0 s.pool.pool_size in
        if s.pool.pool_size == 0 then (negsuc 0, s) else (
          ret,
          record {
            pool = record (s.pool) {
              pool_state = started;
              workers = λ i. if ltb i (length ts) then locking else s.pool.workers i;
            };
            threads = s.threads ++ ts;
          },
        )
  ]

  -- The rest of `destroy_threadpool` behind the section under the mutex: it joins as many threads
  -- as the pool should have.
  unfoldable pub join_pool : ThreadedPool A T → Option (ℤ × List A)
  join_pool s =
      join_threads s.pool.pool_size s.threads >>= λ joined. some (pos (length s.pool.tasks), joined)

  -- The pool as its first start leaves it.
  abbrev begun : (ℕ → Option A) → ThreadedPool A T → ThreadedPool A T
  begun create s =
      let (ret, ts) = create_threads create 0 s.pool.pool_size in
      record {
        pool = record (s.pool) {
          pool_state = started;
          workers = λ i. if ltb i (length ts) then locking else s.pool.workers i;
        };
        threads = s.threads ++ ts;
      }

  start_threads-begun :
      (create : ℕ → Option A) (s : ThreadedPool A T)
      → s.pool.pool_state ≡ created
      → (s.pool.pool_size == 0) ≡ false
      → start_threads create s ≡ ((create_threads create 0 s.pool.pool_size).0, begun create s)
  unfolding start_threads
  start_threads-begun create s e n = rw (e, n)

  start_threads_again :
      (create again : ℕ → Option A) (s : ThreadedPool A T)
      → (s.pool.pool_size == 0) ≡ false
      → start_threads again (begun create s) ≡ (pos 0, begun create s)
  unfolding start_threads
  start_threads_again create again s n = rw n

  start_threadpool-begun :
      (create : ℕ → Option A) (s : ThreadedPool A T)
      → s.pool.pool_state ≡ created
      → (s.pool.pool_size == 0) ≡ false
      → length (create_threads create 0 s.pool.pool_size).1 ≡ s.pool.pool_size
      → (begun create s).pool ≡ (start_threadpool s.pool).1
  unfolding start_threadpool
  start_threadpool-begun create s e n len =
      rw (e, n)
        (ap
          (λ size. record (s.pool) {
            pool_state = started;
            workers = λ i. if ltb i size then locking else s.pool.workers i;
          })
          len)

  -- A pool that is started for the first time, with a size that is not 0, and joined at any later
  -- time, with the size and the threads unchanged. If every `pthread_create` succeeds, the start
  -- returns 0 and leaves the pool that `start_threadpool` does, and the join takes all its threads
  -- in their order and returns the number of tasks left. If one fails, the start returns -1, but
  -- the pool counts as started, so that another start returns 0 and creates no thread, and the
  -- join reads behind the end of the threads.
  pub join_pool-start_threads :
      (create : ℕ → Option A) (s later : ThreadedPool A T)
      → s.pool.pool_state ≡ created
      → s.threads ≡ []
      → 0 < s.pool.pool_size
      → later.pool.pool_size ≡ s.pool.pool_size
      → later.threads ≡ (start_threads create s).1.threads
      → let first = start_threads create s in
        (Creates create 0 s.pool.pool_size
          × (first.0 ≡ pos 0)
          × (first.1.pool ≡ (start_threadpool s.pool).1)
          × (join_pool later ≡ some (pos (length later.pool.tasks), later.threads)))
        ⊎ (Fails create 0 s.pool.pool_size
            × (first.0 ≡ negsuc 0)
            × ((again : ℕ → Option A) → start_threads again first.1 ≡ (pos 0, first.1))
            × (join_pool later ≡ none))
  unfolding join_pool
  join_pool-start_threads create s later e empty positive size threads =
      let n : (s.pool.pool_size == 0) ≡ false = ground arith in
      let opened = start_threads-begun create s e n in
      let made = (create_threads create 0 s.pool.pool_size).1 in
      let own : later.threads ≡ made =
        threads
        ∙ ap (λ (r : ℤ × ThreadedPool A T). r.1.threads) opened
        ∙ ap (λ ts. ts ++ made) empty in
      let reads : join_threads later.pool.pool_size later.threads
          ≡ join_threads s.pool.pool_size made =
        ap (λ k. join_threads k later.threads) size ∙ ap (join_threads s.pool.pool_size) own in
      elim (create_threads-cases create 0 s.pool.pool_size) [
        | inl (all, ret, joined, len) ↦ inl (
          all,
          ap (λ (r : ℤ × ThreadedPool A T). r.0) opened ∙ ret,
          ap (λ (r : ℤ × ThreadedPool A T). r.1.pool) opened
              ∙ start_threadpool-begun create s e n len,
          rw (reads ∙ joined ∙ ap some (sym own)),
        )
        | inr (fails, ret, faulted) ↦ inr (
          fails,
          ap (λ (r : ℤ × ThreadedPool A T). r.0) opened ∙ ret,
          λ again. rw opened (start_threads_again create again s n),
          rw (reads ∙ faulted),
        )
      ]
