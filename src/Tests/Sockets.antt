-- ===== src/Tests/Sockets.antt =====
-- A socket with one client.
use ehttp.Base.{
  Bytes, same_bytes, true, ℕ, ◌+◌, ◌++◌, suc, ◌≡◌, refl, false, not, [], ◌∷◌, some, pos, arith,
  length, keep, codes,
}
use ehttp.EpollSocket.Clients.{IsValid, handle_accept_event-IsValid}
use ehttp.EpollSocket.Starting.{Starter, Binding, add_bind_ip, new_starter, listen_on}
use ehttp.EpollSocket.Listening.{bindings, listen_all, listen_on-listen_all}
use ehttp.EpollSocket.Loop.{
  Event, interrupted, ready, looping, returned, event_loop, run_round, run_events, run_handler,
}
use ehttp.EpollSocket.Stopping.{event_loop-no_new}
use ehttp.EpollSocket.Ending.{emptied, event_loop-emptied}
use ehttp.EpollSocket.Balance.{IsBalanced}
use ehttp.EpollSocket.Loop
use ehttp.EpollSocket.Lifecycle.{IsReached-IsBalanced}
use ehttp.EpollSocket.Tasks.{
  Connections, no_connections, new_socket, set_interest, handled, accepts, reads, IsReached, runs,
  goes,
}
use ehttp.EpollSocket.Events.{
  input, handle_event, update_interact_time, multi_thread_handle_read_event,
}
use ehttp.Std.Order.{nat_ord}
use ehttp.EpollSocket.Idle.{clear_idle_clients-keep}
use ehttp.EpollSocket.{
  s_reject_conn, s_stop, close_all, clear_idle, create_client, add_client, stop_if_empty,
  EpollContext, EpollSocket, s_run, handle_accept_event, is_idle, clear_idle_clients,
}
use ehttp.Std.OrdMap

abbrev empty_socket : EpollSocket (Unit {0})
empty_socket = record {
  status = s_run;
  clients = pos 0;
  eclients = [];
  max_idle_sec = pos 60;
  g_client_id = 0;
}

empty_socket-IsValid : IsValid empty_socket
empty_socket-IsValid = record { counted = refl; sorted = tt; known = tt }

abbrev client : EpollContext (Unit {0})
client = record {
  id = 1;
  ptr = some tt;
  fd = 5;
  last_interact_time = 100;
  client_ip = codes "::1";
  ctx_status = 0;
}

abbrev one_client : EpollSocket (Unit {0})
one_client = record empty_socket { clients = pos 1; eclients = (1, client) ∷ []; g_client_id = 1 }

one_client-IsValid : IsValid one_client
one_client-IsValid = record { counted = refl; sorted = (tt, tt); known = ((refl, omega arith), tt) }

handle_accept_event-IsValid_example :
    IsValid (handle_accept_event (some (5, codes "::1")) tt false 100 empty_socket).1
handle_accept_event-IsValid_example =
    handle_accept_event-IsValid (some (5, codes "::1")) tt false 100 empty_socket
      empty_socket-IsValid

clear_idle_clients-keep_example :
    let idle = λ (entry : ℕ × EpollContext (Unit {0})). is_idle 200 (suc 59) entry.1 in
    let r = clear_idle_clients 200 one_client in
    (r.0 ≡ pos (length (keep idle one_client.eclients)))
    × ((r.1).eclients ≡ keep (λ entry. not (idle entry)) one_client.eclients)
clear_idle_clients-keep_example = clear_idle_clients-keep 200 59 one_client one_client-IsValid refl

-- One client was accepted, and a thread is to read from it.
abbrev started : Connections (Unit {0})
started = no_connections (record new_socket { status = s_run })

abbrev accepted : Connections (Unit {0})
accepted = record started {
  socket = (handle_accept_event (some (5, codes "::1")) tt true 100 started.socket).1;
  interests = set_interest (started.socket.g_client_id + 1) (some input) started.interests;
}

accepted-IsReached : IsReached accepted
accepted-IsReached = goes runs (accepts (5, codes "::1") tt 100 refl)

abbrev first_client : EpollContext (Unit {0})
first_client = record client { id = 1; ctx_status = 0 }

abbrev reading : Connections (Unit {0})
reading =
    handled 1 (multi_thread_handle_read_event (pos 0) (pos 0) 101 first_client accepted.socket)
      (accepted.tasks ++ (1, input) ∷ []) accepted

reading-IsReached : IsReached reading
unfolding handle_accept_event create_client add_client OrdMap.insert OrdMap.find
reading-IsReached = goes accepted-IsReached (reads 1 first_client 101 refl refl)

IsReached-IsBalanced_example : IsBalanced reading 1 × IsValid reading.socket
IsReached-IsBalanced_example = IsReached-IsBalanced reading 1 reading-IsReached

-- The second of two addresses cannot be bound.
abbrev two_ips : Starter
two_ips =
    add_bind_ip (codes "10.0.0.2")
      (add_bind_ip (codes "10.0.0.1") (new_starter (pos 10) (pos 1000) (pos 3456)))

abbrev all_addresses : Binding
all_addresses = record { sockfd = some 3; bound = true; listens = true }

abbrev bind_first : Bytes → Binding
bind_first ip = record { sockfd = some 4; bound = same_bytes ip (codes "10.0.0.1"); listens = true }

listen_on-listen_all_example :
    let r =
      listen_all (bindings all_addresses bind_first two_ips.bind_ips) two_ips.listen_sockets in
    listen_on all_addresses bind_first two_ips ≡ (r.0, record two_ips { listen_sockets = r.1 })
listen_on-listen_all_example = listen_on-listen_all all_addresses bind_first two_ips

-- A client connects, and its event comes, on a socket that was stopped with one client.
abbrev stopped : EpollSocket (Unit {0})
stopped = record one_client { status = s_reject_conn }

abbrev connects : Event (Unit {0})
connects = record {
  listens = true;
  readable = true;
  writeable = false;
  client = 0;
  accepted = some (6, codes "::1");
  kept = tt;
  added = true;
  task_added = pos 0;
  shut = pos 0;
  now = 110;
}

abbrev speaks : Event (Unit {0})
speaks = record connects { listens = false; client = 1 }

abbrev behind_events : EpollSocket (Unit {0})
behind_events = (multi_thread_handle_read_event (pos 0) (pos 0) 110 client stopped).socket

event_loop-no_new_example : OrdMap.has 1 stopped.eclients ≡ true
unfolding event_loop run_round run_events run_handler handle_event multi_thread_handle_read_event
    update_interact_time stop_if_empty clear_idle_clients clear_idle close_all OrdMap.find
    OrdMap.insert
event_loop-no_new_example =
    event_loop-no_new (ready (connects ∷ speaks ∷ []) 110 ∷ []) stopped (looping behind_events) 1
      (record { sorted = (tt, tt); known = ((refl, omega arith), tt) }) refl refl refl

event_loop-emptied_example :
    event_loop (ready (connects ∷ []) 110 ∷ interrupted ∷ []) (emptied (pos 60) 1)
    ≡ some (returned (pos 0) (record (emptied (pos 60) 1) { status = s_stop }))
event_loop-emptied_example =
    event_loop-emptied (pos 60) 1 110 (connects ∷ []) interrupted [] (refl, tt)
