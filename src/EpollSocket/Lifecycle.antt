-- ===== src/EpollSocket/Lifecycle.antt =====
-- Every step keeps the connections of src/epoll_socket.cpp: none is lost and none has two tasks.
use ehttp.Base.{ℕ, ◌+◌, ◌≡◌, refl, sym, ap, ◌∙◌, false, List, [], ◌∷◌, ◌++◌, some, arith}
use ehttp.EpollSocket.Accepting.{has-dropped, accepted-IsEffect}
use ehttp.EpollSocket.Balance.{count, one_if, IsBalanced, has-update_context}
use ehttp.EpollSocket.Clients.{IsValid, unknown, handle_accept_event-IsValid, stop_if_empty-IsValid}
use ehttp.EpollSocket.Effects.{
  multi_thread_handle_read_event-IsEffect, multi_thread_handle_read_event-refused,
  multi_thread_handle_write_event-IsEffect, multi_thread_handle_write_event-refused,
  handle_readable_event-IsEffect, handle_writeable_event-IsEffect,
}
use ehttp.EpollSocket.Events.{Interest, input, output, Handled, stop_epoll}
use ehttp.EpollSocket.Held.{
  IsHeld, IsEffect, find-IsClient, update_context-IsClient, handled-IsHeld, count-waits, count-rest,
  count-others, count-last, count-last_self,
}
use ehttp.EpollSocket.Idle.{stop_if_empty-eclients}
use ehttp.EpollSocket.Tasks.{
  Connections, handled, ConnectionStep, accepts, drops, reads, refuses_read, writes, refuses_write,
  has_read, has_written, ends_write, stops, stops_if_empty, IsReached, runs, goes,
}
use ehttp.EpollSocket.{EpollSocket}
use ehttp.Std.OrdMap
use ehttp.Std.Order.{nat_ord}

module _ {C : Type 0} where
  -- A socket with the same clients.
  socket-IsHeld :
      (s : EpollSocket C) (ending : List ℕ) (cs : Connections C)
      → IsHeld cs
      → IsValid s
      → ((j : ℕ) → OrdMap.has j s.eclients ≡ OrdMap.has j cs.socket.eclients)
      → IsHeld (record cs { socket = s; ending = ending })
  socket-IsHeld s ending cs v w same = record {
    valid = w;
    balanced = λ j. v.balanced j ∙ ap one_if (sym (same j));
  }

  stop_epoll-IsValid : (s : EpollSocket C) → IsValid s → IsValid (stop_epoll s)
  stop_epoll-IsValid s v = record { counted = v.counted; sorted = v.sorted; known = v.known }

  -- An event of a client that is waited for: its task is added, or it is closed.
  added-IsHeld :
      (id : ℕ) (i : Interest) (h : Handled C) (cs : Connections C)
      → IsHeld cs
      → cs.interests id ≡ some i
      → IsEffect id 1 cs.socket h
      → IsHeld (handled id h (cs.tasks ++ (id, i) ∷ []) cs)
  added-IsHeld id i h cs v e eff =
      handled-IsHeld id 1 h (cs.tasks ++ (id, i) ∷ []) cs v eff
        (λ j d. count-last id j i cs.tasks d)
        (count-last_self id i cs.tasks ∙ ap (λ n. n + 1) (count-waits id i cs (v.balanced id) e))

  refused-IsHeld :
      (id : ℕ) (i : Interest) (h : Handled C) (cs : Connections C)
      → IsHeld cs
      → cs.interests id ≡ some i
      → IsEffect id 0 cs.socket h
      → IsHeld (handled id h cs.tasks cs)
  refused-IsHeld id i h cs v e eff =
      handled-IsHeld id 0 h cs.tasks cs v eff (λ j d. refl) (count-waits id i cs (v.balanced id) e)

  -- A task that ran.
  ran-IsHeld :
      (id : ℕ) (i : Interest) (h : Handled C) (before after : List (ℕ × Interest))
      (cs : Connections C)
      → IsHeld cs
      → cs.tasks ≡ before ++ (id, i) ∷ after
      → IsEffect id 0 cs.socket h
      → IsHeld (handled id h (before ++ after) cs)
  ran-IsHeld id i h before after cs v e eff =
      handled-IsHeld id 0 h (before ++ after) cs v eff
        (λ j d. sym (ap (count j) e ∙ count-others id j i before after d))
        (count-rest id i before after cs (v.balanced id) e)

  ConnectionStep-IsHeld :
      (cs next : Connections C) → ConnectionStep cs next → IsHeld cs → IsHeld next
  ConnectionStep-IsHeld cs next (accepts conn kept now run) v =
      handled-IsHeld (cs.socket.g_client_id + 1) 0 _ cs.tasks cs v
        (accepted-IsEffect conn kept now cs.socket v.valid) (λ j d. refl)
        (omega (
          arith,
          v.balanced (cs.socket.g_client_id + 1),
          ap one_if (unknown cs.socket.g_client_id cs.socket.eclients v.valid.known),
        ))
  ConnectionStep-IsHeld cs next (drops conn kept now run) v =
      socket-IsHeld _ cs.ending cs v
        (handle_accept_event-IsValid (some conn) kept false now cs.socket v.valid)
        (λ j. has-dropped conn kept now j cs.socket v.valid)
  ConnectionStep-IsHeld cs next (reads id ctx now e f) v = added-IsHeld id input _ cs v e (
      multi_thread_handle_read_event-IsEffect id now ctx cs.socket
        (find-IsClient id ctx cs.socket v.valid f))
  ConnectionStep-IsHeld cs next (refuses_read id ctx shut now e f) v =
      refused-IsHeld id input _ cs v e (
        multi_thread_handle_read_event-refused id now shut ctx cs.socket
          (find-IsClient id ctx cs.socket v.valid f))
  ConnectionStep-IsHeld cs next (writes id ctx now e f) v = added-IsHeld id output _ cs v e (
      multi_thread_handle_write_event-IsEffect id now ctx cs.socket
        (find-IsClient id ctx cs.socket v.valid f))
  ConnectionStep-IsHeld cs next (refuses_write id ctx shut now e f) v =
      refused-IsHeld id output _ cs v e (
        multi_thread_handle_write_event-refused id now shut ctx cs.socket
          (find-IsClient id ctx cs.socket v.valid f))
  ConnectionStep-IsHeld cs next (has_read id ctx before after ret shut e f r) v =
      ran-IsHeld id input _ before after cs v e (
        handle_readable_event-IsEffect id ret shut ctx cs.socket r
          (find-IsClient id ctx cs.socket v.valid f))
  ConnectionStep-IsHeld cs next (has_written id ctx before after ret shut e f) v =
      let held = ran-IsHeld id output _ before after cs v e (
        handle_writeable_event-IsEffect id ret shut ctx cs.socket
          (find-IsClient id ctx cs.socket v.valid f)) in
      record { valid = held.valid; balanced = held.balanced }
  ConnectionStep-IsHeld cs next (ends_write id ctx before after e f) v =
      let client = find-IsClient id ctx cs.socket v.valid f in
      socket-IsHeld _ (before ++ after) cs v
        (update_context-IsClient id ctx _ cs.socket refl client).valid
        (λ j. has-update_context _ cs.socket j client.here)
  ConnectionStep-IsHeld cs next stops v =
      socket-IsHeld _ cs.ending cs v (stop_epoll-IsValid cs.socket v.valid) (λ j. refl)
  ConnectionStep-IsHeld cs next stops_if_empty v =
      socket-IsHeld _ cs.ending cs v (stop_if_empty-IsValid cs.socket v.valid)
        (λ j. ap (OrdMap.has j) (stop_if_empty-eclients cs.socket))

  pub IsReached-IsHeld : (cs : Connections C) → IsReached cs → IsHeld cs
  unfolding OrdMap.find
  IsReached-IsHeld cs runs = record {
    valid = record { counted = refl; sorted = tt; known = tt };
    balanced = λ j. refl;
  }
  IsReached-IsHeld cs (goes before step) =
      ConnectionStep-IsHeld _ cs step (IsReached-IsHeld _ before)

  -- No connection is lost and none is served twice at once: in every state that the event loop and the
  -- threads reach, with no idle time, each client of the map is waited for with one event or has one
  -- task, not both, a number that is no client's has neither, and the counter is the number of clients.
  pub IsReached-IsBalanced :
      (cs : Connections C) (id : ℕ) → IsReached cs → IsBalanced cs id × IsValid cs.socket
  IsReached-IsBalanced cs id r = let v = IsReached-IsHeld cs r in (v.balanced id, v.valid)
