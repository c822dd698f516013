-- ===== src/EpollSocket/Stopping.antt =====
-- The loop of events of src/epoll_socket.cpp on a socket that was stopped.
use ehttp.Base.{
  ◌>>=◌, ℕ, ◌≡◌, refl, sym, ap, ◌∙◌, Bool, true, false, inl, inr, Bool-cases, List, [], ◌∷◌, Option,
  none, some, ℤ, pos, is_zero, if◌then◌else◌, arith,
}
use mathlib.Core.Path.{subst}
use ehttp.EpollSocket.Balance.{some_inj}
use ehttp.EpollSocket.Draining.{
  IsTidy, IsDrained, IsDrained-refl, IsDrained-trans, stop_if_empty-IsDrained,
  close_and_release-IsDrained, clear_idle_clients-IsDrained, update_context-IsDrained,
}
use ehttp.EpollSocket.Events.{
  Dispatch, to_accept, to_read, to_write, returns, runs, handle_event, update_interact_time,
  multi_thread_handle_read_event, stop_epoll,
}
use ehttp.EpollSocket.Loop.{
  Event, Round, interrupted, failed, stop_called, ready, LoopState, looping, returned, is_stop,
  run_handler, run_event, run_events, run_round, event_loop,
}
use ehttp.EpollSocket.Tasks.{multi_thread_handle_write_event}
use ehttp.EpollSocket.{EpollContext, EpollSocket}
use ehttp.Std.OrdMap
use ehttp.Std.Order.{nat_ord}

abbrev accepts_one : Dispatch → Bool
accepts_one to_accept = true
accepts_one to_read = false
accepts_one to_write = false
accepts_one (returns ret) = false

some_bind :
    {A B : Type 0} (o : Option A) (f : A → Option B) (b : B)
    → (o >>= f) ≡ some b
    → (a : A) × ((o ≡ some a) × (f a ≡ some b))
some_bind none f b h = absurd (ground (arith, h))
some_bind (some a) f b h = (a, (refl, h))

module _ {C : Type 0} where
  -- The socket of a state of the loop.
  abbrev pub socket_of : LoopState C → EpollSocket C
  socket_of (looping s) = s
  socket_of (returned ret s) = s

  handle_event_closed :
      (listens readable writeable : Bool) (s : EpollSocket C)
      → runs s.status ≡ false
      → accepts_one (handle_event listens readable writeable true s) ≡ false
  unfolding handle_event
  handle_event_closed true readable writeable s h = rw h refl
  handle_event_closed false true writeable s h = refl
  handle_event_closed false false true s h = refl
  handle_event_closed false false false s h = refl

  multi_thread_handle_read_event-IsDrained :
      (id : ℕ) (added shut : ℤ) (now : ℕ) (ctx : EpollContext C) (s : EpollSocket C)
      → OrdMap.find id s.eclients ≡ some ctx
      → IsTidy s
      → runs s.status ≡ false
      → IsDrained s (multi_thread_handle_read_event added shut now ctx s).socket
  unfolding multi_thread_handle_read_event update_interact_time
  multi_thread_handle_read_event-IsDrained id added shut now ctx s e v c =
      let r = update_context-IsDrained id ctx _ s refl e v c in
      elim (Bool-cases (is_zero added)) [
        | inl f ↦ rw f r
        | inr f ↦ rw f (IsDrained-trans s _ _ r (close_and_release-IsDrained _ _ r.tidy r.closed))
      ]

  multi_thread_handle_write_event-IsDrained :
      (id : ℕ) (added shut : ℤ) (now : ℕ) (ctx : EpollContext C) (s : EpollSocket C)
      → OrdMap.find id s.eclients ≡ some ctx
      → IsTidy s
      → runs s.status ≡ false
      → IsDrained s (multi_thread_handle_write_event added shut now ctx s).socket
  unfolding multi_thread_handle_write_event update_interact_time
  multi_thread_handle_write_event-IsDrained id added shut now ctx s e v c =
      let r = update_context-IsDrained id ctx _ s refl e v c in
      elim (Bool-cases (is_zero added)) [
        | inl f ↦ rw f r
        | inr f ↦ rw f (IsDrained-trans s _ _ r (close_and_release-IsDrained _ _ r.tidy r.closed))
      ]

  run_handler-IsDrained :
      (ev : Event C) (d : Dispatch) (s r : EpollSocket C)
      → accepts_one d ≡ false
      → IsTidy s
      → runs s.status ≡ false
      → run_handler ev s d ≡ some r
      → IsDrained s r
  unfolding run_handler
  run_handler-IsDrained ev to_accept s r a v c h = absurd (ground (arith, a))
  run_handler-IsDrained ev to_read s r a v c h =
      let (ctx, (e, f)) = some_bind _ _ r h in
      subst (IsDrained s) (some_inj f) (
        multi_thread_handle_read_event-IsDrained ev.client ev.task_added ev.shut ev.now ctx s e v c)
  run_handler-IsDrained ev to_write s r a v c h =
      let (ctx, (e, f)) = some_bind _ _ r h in
      subst (IsDrained s) (some_inj f) (
        multi_thread_handle_write_event-IsDrained ev.client ev.task_added ev.shut ev.now ctx s e v
          c)
  run_handler-IsDrained ev (returns ret) s r a v c h =
      subst (IsDrained s) (some_inj h) (IsDrained-refl s v c)

  run_events-IsDrained :
      (events : List (Event C)) (s r : EpollSocket C)
      → IsTidy s
      → runs s.status ≡ false
      → run_events events s ≡ some r
      → IsDrained s r
  unfolding run_events
  run_events-IsDrained [] s r v c h = subst (IsDrained s) (some_inj h) (IsDrained-refl s v c)
  run_events-IsDrained (ev ∷ events) s r v c h =
      let (s1, (e, f)) = some_bind (run_event ev s) (run_events events) r h in
      let first =
        run_handler-IsDrained ev _ s s1
          (handle_event_closed ev.listens ev.readable ev.writeable s c) v c e in
      IsDrained-trans s s1 r first (run_events-IsDrained events s1 r first.tidy first.closed f)

  run_round-IsDrained :
      (events : List (Event C)) (now : ℕ) (s r : EpollSocket C)
      → IsTidy s
      → runs s.status ≡ false
      → run_round events now s ≡ some r
      → IsDrained s r
  unfolding run_round
  run_round-IsDrained events now s r v c h =
      let (s1, (e, f)) = some_bind (run_events events s) _ r h in
      let ran = run_events-IsDrained events s s1 v c e in
      let cleared = clear_idle_clients-IsDrained now s1 ran.tidy ran.closed in
      let ended = stop_if_empty-IsDrained _ cleared.tidy cleared.closed in
      subst (IsDrained s) (some_inj f)
        (IsDrained-trans s s1 _ ran (IsDrained-trans s1 _ _ cleared ended))

  -- The test at the top of a round.
  stop_or :
      (s : EpollSocket C) (l : LoopState C) (next : Option (LoopState C))
      → IsTidy s
      → runs s.status ≡ false
      → (if is_stop s.status then some (returned (pos 0) s) else next) ≡ some l
      → (next ≡ some l → IsDrained s (socket_of l))
      → IsDrained s (socket_of l)
  stop_or s l next v c h k = elim (Bool-cases (is_stop s.status)) [
    | inl e ↦
        subst (λ l. IsDrained s (socket_of l))
          (some_inj (sym (ap (λ b. if b then some (returned (pos 0) s) else next) e) ∙ h))
          (IsDrained-refl s v c)
    | inr e ↦ k (sym (ap (λ b. if b then some (returned (pos 0) s) else next) e) ∙ h)
  ]

  event_loop-IsDrained :
      (rounds : List (Round C)) (s : EpollSocket C) (l : LoopState C)
      → IsTidy s
      → runs s.status ≡ false
      → event_loop rounds s ≡ some l
      → IsDrained s (socket_of l)
  unfolding event_loop
  event_loop-IsDrained [] s l v c h =
      subst (λ l. IsDrained s (socket_of l)) (some_inj h) (IsDrained-refl s v c)
  event_loop-IsDrained (interrupted ∷ rounds) s l v c h =
      stop_or s l _ v c h (event_loop-IsDrained rounds s l v c)
  event_loop-IsDrained (failed ∷ rounds) s l v c h =
      stop_or s l _ v c h
        (λ e. subst (λ l. IsDrained s (socket_of l)) (some_inj e) (IsDrained-refl s v c))
  event_loop-IsDrained (stop_called ∷ rounds) s l v c h =
      let stopped : IsDrained s (stop_epoll s) = record {
        tidy = record { sorted = v.sorted; known = v.known };
        closed = refl;
        no_new = λ id e. e;
      } in
      stop_or s l _ v c h (λ e.
        IsDrained-trans s _ _ stopped
          (event_loop-IsDrained rounds (stop_epoll s) l stopped.tidy stopped.closed e))
  event_loop-IsDrained (ready events now ∷ rounds) s l v c h = stop_or s l _ v c h (λ e.
      let (r, (f, g)) = some_bind (run_round events now s) _ l e in
      let ran = run_round-IsDrained events now s r v c f in
      IsDrained-trans s r _ ran (event_loop-IsDrained rounds r l ran.tidy ran.closed g))

  -- From its stop on a socket takes no new client, whatever events come, in any number of rounds: a
  -- client that is there behind a round that ended without a use after free was there before. The map
  -- is sorted and has its clients under their numbers, and the socket does not run.
  pub event_loop-no_new :
      (rounds : List (Round C)) (s : EpollSocket C) (l : LoopState C) (id : ℕ)
      → IsTidy s
      → runs s.status ≡ false
      → event_loop rounds s ≡ some l
      → OrdMap.has id (socket_of l).eclients ≡ true
      → OrdMap.has id s.eclients ≡ true
  event_loop-no_new rounds s l id v c h = (event_loop-IsDrained rounds s l v c h).no_new id
