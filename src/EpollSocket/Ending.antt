-- ===== src/EpollSocket/Ending.antt =====
-- The end of the loop of events of src/epoll_socket.cpp.
use ehttp.Base.{
  ◌>>=◌, ℕ, ◌≡◌, refl, ap, ◌∙◌, true, inl, inr, Bool-cases, List, [], ◌∷◌, some, ℤ, pos, negsuc,
  All, ◌==◌,
}
use ehttp.EpollSocket.Events.{handle_event}
use ehttp.EpollSocket.Loop.{
  Event, Round, ready, returned, run_handler, run_events, run_round, event_loop,
}
use ehttp.EpollSocket.{
  EpollSocket, s_reject_conn, s_stop, clear_idle, clear_idle_clients, stop_if_empty,
}

module _ {C : Type 0} where
  -- A stopped socket whose last client is gone.
  abbrev pub emptied : ℤ → ℕ → EpollSocket C
  emptied max last = record {
    status = s_reject_conn;
    clients = pos 0;
    eclients = [];
    max_idle_sec = max;
    g_client_id = last;
  }

  abbrev pub IsConnect : Event C → Type 0
  IsConnect ev = ev.listens ≡ true

  run_events-IsConnect :
      (max : ℤ) (last : ℕ) (events : List (Event C))
      → All IsConnect events
      → run_events events (emptied max last) ≡ some (emptied max last)
  unfolding run_events run_handler handle_event
  run_events-IsConnect max last [] h = refl
  run_events-IsConnect max last (ev ∷ events) (h, hs) =
      ap
        (λ b.
          run_handler ev (emptied max last)
            (handle_event b ev.readable ev.writeable true (emptied max last))
          >>= run_events events)
        h
      ∙ run_events-IsConnect max last events hs

  clear_idle_clients-emptied :
      (now : ℕ) (max : ℤ) (last : ℕ)
      → (clear_idle_clients now (emptied max last)).1 ≡ emptied max last
  unfolding clear_idle_clients clear_idle
  clear_idle_clients-emptied now (negsuc n) last = refl
  clear_idle_clients-emptied now (pos n) last = elim (Bool-cases (n == 0)) [
    | inl e ↦ rw e refl
    | inr e ↦ rw e refl
  ]

  -- A socket that was stopped and has no client left: the loop ends at the end of the round, whatever
  -- connections come in it, and returns 0; none of them is accepted.
  pub event_loop-emptied :
      (max : ℤ) (last now : ℕ) (events : List (Event C)) (round : Round C) (rounds : List (Round C))
      → All IsConnect events
      → event_loop (ready events now ∷ round ∷ rounds) (emptied max last)
        ≡ some (returned (pos 0) (record (emptied max last) { status = s_stop }))
  unfolding event_loop run_round stop_if_empty
  event_loop-emptied max last now events round rounds h =
      ap
        (λ o.
          (o >>= λ s1. some (stop_if_empty (clear_idle_clients now s1).1))
          >>= event_loop (round ∷ rounds))
        (run_events-IsConnect max last events h)
      ∙ ap (λ s. event_loop (round ∷ rounds) (stop_if_empty s))
          (clear_idle_clients-emptied now max last)
