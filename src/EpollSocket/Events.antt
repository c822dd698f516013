-- ===== src/EpollSocket/Events.antt =====
-- The events of a connection in `EpollSocket` of src/epoll_socket.cpp: what follows on the result of
-- the watcher. `shut` is what `close` returns, `modified` what `epoll_ctl` returns.
use ehttp.Base.{
  Bool, negsuc, ℕ, true, false, Option, none, some, ℤ, pos, is_zero, same_int, if◌then◌else◌,
}
use ehttp.EpollSocket.{
  EpollSocketStatus, s_init, s_run, s_stop, EpollContext, EpollSocket, s_reject_conn,
  is_reject_conn, context_reading, close_and_release,
}
use ehttp.HttpServer.Watcher.{
  write_conn_alive, write_conn_close, write_conn_continue, read_over, read_continue, read_close,
}
use ehttp.Std.OrdMap
use ehttp.Std.Order.{nat_ord}

abbrev pub context_read_over : ℕ
context_read_over = 2

-- `EPOLLIN | EPOLLONESHOT` and `EPOLLOUT | EPOLLONESHOT`: the one event that is asked for next.
pub data Interest : Type 0 where
  input output : Interest

-- What an event leads to: the result, the event that is asked for next, if it is, and the socket.
pub record Handled (C : Type 0) : Type 0 where
  pub ret : ℤ
  pub interest : Option Interest
  pub socket : EpollSocket C

-- `status == S_RUN`
abbrev pub runs : EpollSocketStatus → Bool
runs s_init = false
runs s_run = true
runs s_reject_conn = false
runs s_stop = false

-- The handler that `handle_event` calls, or what it returns without one.
pub data Dispatch : Type 0 where
  to_accept to_read to_write : Dispatch
  returns : ℤ → Dispatch

module _ {C : Type 0} where
  abbrev pub is_run : EpollSocket C → Bool
  is_run s = runs s.status

  abbrev pub set_client_max_idle_time : ℤ → EpollSocket C → ℤ × EpollSocket C
  set_client_max_idle_time sec s = (pos 0, record s { max_idle_sec = sec })

  -- `listens` says whether the descriptor is one of the listening sockets, `readable` and
  -- `writeable` which events it has, `watched` whether there is a watcher.
  unfoldable pub handle_event : Bool → Bool → Bool → Bool → EpollSocket C → Dispatch
  handle_event listens readable writeable watched s =
      if listens
      then (if is_run s then to_accept else returns (negsuc 0))
      else if readable
      then to_read
      else if writeable
      then (if watched then to_write else returns (pos 0))
      else returns (negsuc 0)

  -- A change of a client's context, which stands in the map.
  abbrev pub update_context : EpollContext C → EpollSocket C → EpollSocket C
  update_context ctx s = record s { eclients = OrdMap.insert ctx.id ctx s.eclients }

  unfoldable pub update_interact_time : EpollContext C → ℕ → EpollSocket C → EpollSocket C
  update_interact_time ctx now s = update_context (record ctx { last_interact_time = now }) s

  abbrev released : ℤ → EpollContext C → EpollSocket C → Handled C
  released shut ctx s = record { ret = shut; interest = none; socket = close_and_release ctx s }

  -- `handle_readable_event`, where `ret` is what `on_readable` returned.
  unfoldable pub handle_readable_event : ℤ → ℤ → ℤ → EpollContext C → EpollSocket C → Handled C
  handle_readable_event ret shut modified ctx s =
      let s' = update_context (record ctx { ctx_status = context_read_over }) s in
      if same_int ret read_close
      then released shut ctx s
      else if same_int ret read_continue
      then record { ret = modified; interest = some input; socket = s' }
      else if same_int ret read_over
      then record { ret = modified; interest = some output; socket = s' }
      else record { ret = ret; interest = none; socket = s' }

  -- `handle_writeable_event`, where `ret` is what `on_writeable` returned. A result that is none of
  -- the three leaves the event as it came: output.
  unfoldable pub handle_writeable_event : ℤ → ℤ → EpollContext C → EpollSocket C → Handled C
  handle_writeable_event ret shut ctx s =
      if same_int ret write_conn_close
      then released shut ctx s
      else if same_int ret write_conn_continue
      then record { ret = pos 0; interest = some output; socket = s }
      else if same_int ret write_conn_alive
      then (if is_reject_conn s.status
          then released shut ctx s
          else record { ret = pos 0; interest = some input; socket = s })
      else record { ret = pos 0; interest = some output; socket = s }

  -- `multi_thread_handle_read_event`, where `added` is what `add_task` returned for the task that
  -- reads: a task that is refused closes the connection.
  unfoldable pub multi_thread_handle_read_event :
      ℤ → ℤ → ℕ → EpollContext C → EpollSocket C → Handled C
  unfolding update_interact_time
  multi_thread_handle_read_event added shut now ctx s =
      let ctx' = record ctx { ctx_status = context_reading } in
      let s' = update_interact_time ctx' now s in
      if is_zero added
      then record { ret = pos 0; interest = none; socket = s' }
      else record { ret = pos 0; interest = none; socket = close_and_release ctx' s' }

  abbrev pub stop_epoll : EpollSocket C → EpollSocket C
  stop_epoll s = record s { status = s_reject_conn }
