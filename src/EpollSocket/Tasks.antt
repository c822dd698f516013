-- ===== src/EpollSocket/Tasks.antt =====
-- The tasks that `EpollSocket` of src/epoll_socket.cpp gives to its thread pool for a connection that
-- can be written, and the connections between the event loop, the kernel and the pool.
use ehttp.Base.{
  ℕ, ◌+◌, ◌≡◌, ◌⊎◌, true, false, List, [], ◌∷◌, ◌++◌, Option, none, some, ℤ, pos, negsuc, is_zero,
  if◌then◌else◌, ◌==◌, Bytes,
}
use ehttp.EpollSocket.Events.{
  Interest, input, output, Handled, is_run, update_context, update_interact_time,
  handle_readable_event, handle_writeable_event, multi_thread_handle_read_event, stop_epoll,
}
use ehttp.EpollSocket.{
  EpollContext, EpollSocket, s_init, s_run, context_writing, handle_accept_event, close_and_release,
  stop_if_empty,
}
use ehttp.HttpServer.Watcher.{read_over, read_continue, read_close}
use ehttp.Std.OrdMap
use ehttp.Std.Order.{nat_ord}

abbrev pub context_write_over : ℕ
context_write_over = 2

module _ {C : Type 0} where
  -- `multi_thread_handle_write_event`, where `added` is what `add_task` returned.
  unfoldable pub multi_thread_handle_write_event :
      ℤ → ℤ → ℕ → EpollContext C → EpollSocket C → Handled C
  unfolding update_interact_time
  multi_thread_handle_write_event added shut now ctx s =
      let ctx' = record ctx { ctx_status = context_writing } in
      let s' = update_interact_time ctx' now s in
      if is_zero added
      then record { ret = pos 0; interest = none; socket = s' }
      else record { ret = pos 0; interest = none; socket = close_and_release ctx' s' }

  -- The end of `write_func`, for a context that `handle_writeable_event` did not release. The event
  -- that is asked for next may come before it.
  abbrev pub end_write_func : EpollContext C → EpollSocket C → EpollSocket C
  end_write_func ctx s = update_context (record ctx { ctx_status = context_write_over }) s

-- The socket, the event that the kernel watches for each client, the tasks that wait for a thread or
-- run in one, and the clients whose `write_func` has only its last statement left.
pub record Connections (C : Type 0) : Type 0 where
  pub socket : EpollSocket C
  pub interests : ℕ → Option Interest
  pub tasks : List (ℕ × Interest)
  pub ending : List ℕ

abbrev pub set_interest : ℕ → Option Interest → (ℕ → Option Interest) → ℕ → Option Interest
set_interest id i interests j = if id == j then i else interests j

-- The constructor of `EpollSocket`, before any client came.
abbrev pub no_connections : {C : Type 0} → EpollSocket C → Connections C
no_connections s = record { socket = s; interests = λ id. none; tasks = []; ending = [] }

abbrev pub new_socket : {C : Type 0} → EpollSocket C
new_socket = record {
  status = s_init;
  clients = pos 0;
  eclients = [];
  max_idle_sec = pos 0;
  g_client_id = 0;
}

-- The three results that `on_readable` has.
abbrev pub IsReadResult : ℤ → Type 0
IsReadResult ret = (ret ≡ read_over) ⊎ ((ret ≡ read_continue) ⊎ (ret ≡ read_close))

module _ {C : Type 0} where
  abbrev pub handled : ℕ → Handled C → List (ℕ × Interest) → Connections C → Connections C
  handled id h tasks cs = record cs {
    socket = h.socket;
    interests = set_interest id h.interest cs.interests;
    tasks = tasks;
  }

  -- A client that was not released is still touched at the end of `write_func`.
  abbrev pub written : ℕ → Handled C → List (ℕ × Interest) → Connections C → Connections C
  written id h tasks cs = record (handled id h tasks cs) {
    ending = if OrdMap.is_some h.interest then id ∷ cs.ending else cs.ending;
  }

  -- The steps of the event loop and of the threads. `epoll_ctl` takes each change of a descriptor that
  -- it knows, a one-shot event comes once, and no idle time is set: `clear_idle_clients` does nothing.
  pub data ConnectionStep : Connections C → Connections C → Type 0 where
    accepts :
        {cs : Connections C} (conn : ℕ × Bytes) (kept : C) (now : ℕ)
        → is_run cs.socket ≡ true
        → ConnectionStep cs (record cs {
          socket = (handle_accept_event (some conn) kept true now cs.socket).1;
          interests = set_interest (cs.socket.g_client_id + 1) (some input) cs.interests;
        })
    drops :
        {cs : Connections C} (conn : ℕ × Bytes) (kept : C) (now : ℕ)
        → is_run cs.socket ≡ true
        → ConnectionStep cs
            (record cs { socket = (handle_accept_event (some conn) kept false now cs.socket).1 })
    reads :
        {cs : Connections C} (id : ℕ) (ctx : EpollContext C) (now : ℕ)
        → cs.interests id ≡ some input
        → OrdMap.find id cs.socket.eclients ≡ some ctx
        → ConnectionStep cs (
            handled id
              (multi_thread_handle_read_event (pos 0) (pos 0) now ctx cs.socket)
              (cs.tasks ++ (id, input) ∷ [])
              cs)
    refuses_read :
        {cs : Connections C} (id : ℕ) (ctx : EpollContext C) (shut : ℤ) (now : ℕ)
        → cs.interests id ≡ some input
        → OrdMap.find id cs.socket.eclients ≡ some ctx
        → ConnectionStep cs (
            handled id
              (multi_thread_handle_read_event (negsuc 0) shut now ctx cs.socket)
              cs.tasks
              cs)
    writes :
        {cs : Connections C} (id : ℕ) (ctx : EpollContext C) (now : ℕ)
        → cs.interests id ≡ some output
        → OrdMap.find id cs.socket.eclients ≡ some ctx
        → ConnectionStep cs (
            handled id
              (multi_thread_handle_write_event (pos 0) (pos 0) now ctx cs.socket)
              (cs.tasks ++ (id, output) ∷ [])
              cs)
    refuses_write :
        {cs : Connections C} (id : ℕ) (ctx : EpollContext C) (shut : ℤ) (now : ℕ)
        → cs.interests id ≡ some output
        → OrdMap.find id cs.socket.eclients ≡ some ctx
        → ConnectionStep cs (
            handled id
              (multi_thread_handle_write_event (negsuc 0) shut now ctx cs.socket)
              cs.tasks
              cs)
    has_read :
        {cs : Connections C} (id : ℕ) (ctx : EpollContext C) (before after : List (ℕ × Interest))
        (ret shut : ℤ)
        → cs.tasks ≡ before ++ (id, input) ∷ after
        → OrdMap.find id cs.socket.eclients ≡ some ctx
        → IsReadResult ret
        → ConnectionStep cs
            (handled id (handle_readable_event ret shut (pos 0) ctx cs.socket) (before ++ after) cs)
    has_written :
        {cs : Connections C} (id : ℕ) (ctx : EpollContext C) (before after : List (ℕ × Interest))
        (ret shut : ℤ)
        → cs.tasks ≡ before ++ (id, output) ∷ after
        → OrdMap.find id cs.socket.eclients ≡ some ctx
        → ConnectionStep cs
            (written id (handle_writeable_event ret shut ctx cs.socket) (before ++ after) cs)
    ends_write :
        {cs : Connections C} (id : ℕ) (ctx : EpollContext C) (before after : List ℕ)
        → cs.ending ≡ before ++ id ∷ after
        → OrdMap.find id cs.socket.eclients ≡ some ctx
        → ConnectionStep cs
            (record cs { socket = end_write_func ctx cs.socket; ending = before ++ after })
    stops : {cs : Connections C} → ConnectionStep cs (record cs { socket = stop_epoll cs.socket })
    stops_if_empty :
        {cs : Connections C} → ConnectionStep cs (record cs { socket = stop_if_empty cs.socket })

  pub data IsReached : Connections C → Type 0 where
    runs : IsReached (no_connections (record new_socket { status = s_run }))
    goes : {cs next : Connections C} → IsReached cs → ConnectionStep cs next → IsReached next
