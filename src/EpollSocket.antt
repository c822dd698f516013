-- ===== src/EpollSocket.antt =====
-- The clients of `EpollSocket` of src/epoll_socket.h and src/epoll_socket.cpp: accepting, closing and
-- clearing idle ones. Each operation is one step of the event loop; `C` is the type of what the
-- watcher keeps for a client. A context stands in the map itself, not behind a pointer, so what
-- `on_accept` sets is set before the context is added. The descriptors that `close` and `epoll_ctl` act on are left out.
pub mod Clients
pub mod Idle
pub mod Events
pub mod Starting
pub mod Listening
pub mod Tasks
pub mod Loop
pub mod Balance
pub mod Held
pub mod Effects
pub mod Accepting
pub mod Lifecycle
pub mod Busy
pub mod Draining
pub mod Stopping
pub mod Ending
use ehttp.Base.{
  ℕ, ◌+◌, ◌-◌, Bool, true, false, not, ◌&&◌, List, [], ◌∷◌, Option, none, some, ℤ, pos, negsuc,
  is_zero, if◌then◌else◌, ltb, leb, ◌==◌, Bytes, length, is_empty, keep,
}
use ehttp.Std.OrdMap
use ehttp.Std.Order.{nat_ord}

pub data EpollSocketStatus : Type 0 where
  s_init s_run s_reject_conn s_stop : EpollSocketStatus

abbrev pub is_reject_conn : EpollSocketStatus → Bool
is_reject_conn s_init = false
is_reject_conn s_run = false
is_reject_conn s_reject_conn = true
is_reject_conn s_stop = false

-- `CONTEXT_READING` and `CONTEXT_WRITING` are both 1.
abbrev pub context_reading : ℕ
context_reading = 1

abbrev pub context_writing : ℕ
context_writing = 1

pub record EpollContext (C : Type 0) : Type 0 where
  pub id : ℕ
  pub ptr : Option C
  pub fd : ℕ
  pub last_interact_time : ℕ
  pub client_ip : Bytes
  pub ctx_status : ℕ

-- `g_client_id` is a variable of the file.
pub record EpollSocket (C : Type 0) : Type 0 where
  pub status : EpollSocketStatus
  pub clients : ℤ
  pub eclients : List (ℕ × EpollContext C)
  pub max_idle_sec : ℤ
  pub g_client_id : ℕ

-- `n + 1` and `n - 1` on an `int` far from its bounds.
abbrev pub incremented : ℤ → ℤ
incremented (pos n) = pos (n + 1)
incremented (negsuc n) = if n == 0 then pos 0 else negsuc (n - 1)

abbrev pub decremented : ℤ → ℤ
decremented (pos n) = if n == 0 then negsuc 0 else pos (n - 1)
decremented (negsuc n) = negsuc (n + 1)

module _ {C : Type 0} where
  unfoldable pub create_client : ℕ → Bytes → ℕ → EpollSocket C → EpollContext C × EpollSocket C
  create_client conn_sock client_ip now s = (
    record {
      id = s.g_client_id + 1;
      ptr = none;
      fd = conn_sock;
      last_interact_time = now;
      client_ip = client_ip;
      ctx_status = 0;
    },
    record s { g_client_id = s.g_client_id + 1 },
  )

  unfoldable pub add_client : EpollContext C → EpollSocket C → EpollSocket C
  add_client ctx s = record s {
    clients = incremented s.clients;
    eclients = OrdMap.insert ctx.id ctx s.eclients;
  }

  unfoldable pub remove_client : EpollContext C → EpollSocket C → EpollSocket C
  remove_client ctx s = record s {
    clients = decremented s.clients;
    eclients = OrdMap.erase ctx.id s.eclients;
  }

  -- The test that `close_and_release` and the event loop make: a socket that rejects connections
  -- stops when it has no client.
  unfoldable pub stop_if_empty : EpollSocket C → EpollSocket C
  stop_if_empty s =
      if is_zero s.clients && is_reject_conn s.status then record s { status = s_stop } else s

  unfoldable pub close_and_release : EpollContext C → EpollSocket C → EpollSocket C
  unfolding remove_client stop_if_empty
  close_and_release ctx s = stop_if_empty (remove_client ctx s)

  -- `handle_accept_event` on what `accept_socket` gives, what the watcher keeps for the client and
  -- whether `epoll_ctl` takes the descriptor.
  unfoldable pub handle_accept_event :
      Option (ℕ × Bytes) → C → Bool → ℕ → EpollSocket C → ℤ × EpollSocket C
  handle_accept_event none kept added now s = (negsuc 0, s)
  handle_accept_event (some (conn_sock, client_ip)) kept added now s =
      let (ctx, s1) = create_client conn_sock client_ip now s in
      let accepted = record ctx { ptr = some kept } in
      let s2 = add_client accepted s1 in
      if added then (pos 0, s2) else (negsuc 0, close_and_release accepted s2)

  -- `ctx->_last_interact_time <= time(NULL) - _max_idle_sec`, and neither reading nor writing.
  abbrev pub is_idle : ℕ → ℕ → EpollContext C → Bool
  is_idle now sec ctx =
      leb (ctx.last_interact_time + sec) now
      && (not (ctx.ctx_status == context_reading) && not (ctx.ctx_status == context_writing))

  abbrev pub idle_clients : ℕ → ℕ → EpollSocket C → List (ℕ × EpollContext C)
  idle_clients now sec s = keep (λ entry. is_idle now sec entry.1) s.eclients

  unfoldable pub close_all : List (ℕ × EpollContext C) → EpollSocket C → EpollSocket C
  close_all [] s = s
  close_all ((_, ctx) ∷ entries) s = close_all entries (close_and_release ctx s)

  -- `clear_idle_clients` for the value of `_max_idle_sec`.
  unfoldable pub clear_idle : ℕ → ℤ → EpollSocket C → ℤ × EpollSocket C
  clear_idle now (negsuc _) s = (pos 0, s)
  clear_idle now (pos sec) s =
      if sec == 0
      then (pos 0, s)
      else if is_empty s.eclients
      then (pos 0, s)
      else (pos (length (idle_clients now sec s)), close_all (idle_clients now sec s) s)

  unfoldable pub clear_idle_clients : ℕ → EpollSocket C → ℤ × EpollSocket C
  unfolding clear_idle
  clear_idle_clients now s = clear_idle now s.max_idle_sec s
