-- ===== src/EpollSocket/Loop.antt =====
-- `handle_event` and `start_event_loop` of src/epoll_socket.cpp over what `epoll_wait` returns. A client
-- stands in an event by its number; an event of a client that is gone is a use after free, and faults.
-- What the threads do between two events is in Tasks.
use ehttp.Base.{
  ◌>>=◌, ℕ, Bool, true, false, List, [], ◌∷◌, Option, some, ℤ, pos, negsuc, if◌then◌else◌, Bytes,
}
use ehttp.EpollSocket.Events.{
  Dispatch, to_accept, to_read, to_write, returns, handle_event, multi_thread_handle_read_event,
  stop_epoll,
}
use ehttp.EpollSocket.Tasks.{multi_thread_handle_write_event}
use ehttp.EpollSocket.{
  EpollSocketStatus, s_init, s_run, s_reject_conn, s_stop, EpollSocket, handle_accept_event,
  clear_idle_clients, stop_if_empty,
}
use ehttp.Std.OrdMap
use ehttp.Std.Order.{nat_ord}

-- An event, with what the calls behind it return.
pub record Event (C : Type 0) : Type 0 where
  pub listens : Bool
  pub readable : Bool
  pub writeable : Bool
  pub client : ℕ
  pub accepted : Option (ℕ × Bytes)
  pub kept : C
  pub added : Bool
  pub task_added : ℤ
  pub shut : ℤ
  pub now : ℕ

-- A round of the loop: `epoll_wait` is interrupted, fails or returns events; or the call of another
-- thread, `stop_epoll`, comes in between.
pub data Round (C : Type 0) : Type 0 where
  interrupted failed stop_called : Round C
  ready : List (Event C) → ℕ → Round C

-- The loop still runs, or returned.
pub data LoopState (C : Type 0) : Type 0 where
  looping : EpollSocket C → LoopState C
  returned : ℤ → EpollSocket C → LoopState C

-- `_status == S_STOP`
abbrev pub is_stop : EpollSocketStatus → Bool
is_stop s_init = false
is_stop s_run = false
is_stop s_reject_conn = false
is_stop s_stop = true

module _ {C : Type 0} where
  -- The handler that was chosen for an event. The results are not looked at.
  unfoldable pub run_handler : Event C → EpollSocket C → Dispatch → Option (EpollSocket C)
  run_handler ev s to_accept = some (handle_accept_event ev.accepted ev.kept ev.added ev.now s).1
  run_handler ev s to_read = OrdMap.find ev.client s.eclients >>= λ ctx.
      some (multi_thread_handle_read_event ev.task_added ev.shut ev.now ctx s).socket
  run_handler ev s to_write = OrdMap.find ev.client s.eclients >>= λ ctx.
      some (multi_thread_handle_write_event ev.task_added ev.shut ev.now ctx s).socket
  run_handler ev s (returns ret) = some s

  abbrev pub run_event : Event C → EpollSocket C → Option (EpollSocket C)
  run_event ev s = run_handler ev s (handle_event ev.listens ev.readable ev.writeable true s)

  unfoldable pub run_events : List (Event C) → EpollSocket C → Option (EpollSocket C)
  run_events [] s = some s
  run_events (ev ∷ events) s = run_event ev s >>= run_events events

  -- One round that does not end the loop.
  unfoldable pub run_round : List (Event C) → ℕ → EpollSocket C → Option (EpollSocket C)
  run_round events now s =
      run_events events s >>= λ s1. some (stop_if_empty (clear_idle_clients now s1).1)

  unfoldable pub event_loop : List (Round C) → EpollSocket C → Option (LoopState C)
  event_loop [] s = some (looping s)
  event_loop (round ∷ rounds) s =
      let next : EpollSocket C → Option (LoopState C) = event_loop rounds in
      if is_stop s.status then some (returned (pos 0) s) else elim round [
        | interrupted ↦ next s
        | failed ↦ some (returned (negsuc 0) s)
        | stop_called ↦ next (stop_epoll s)
        | ready events now ↦ run_round events now s >>= next
      ]

  unfoldable pub start_event_loop : List (Round C) → EpollSocket C → Option (LoopState C)
  start_event_loop rounds s = event_loop rounds (record s { status = s_run })
