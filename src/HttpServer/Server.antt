-- ===== src/HttpServer/Server.antt =====
-- `HttpServer` of src/http_server.h and src/http_server.cpp: its settings, start and stop; and what
-- the watcher does when a connection is accepted and closed. The thread that `start_async` makes runs
-- `start_sync`.
use ehttp.Base.{
  ℕ, Bool, true, false, List, [], ◌∷◌, ◌++◌, none, some, ℤ, pos, negsuc, is_zero, if◌then◌else◌,
  ◌==◌, Bytes, codes,
}
use ehttp.EpollSocket.Starting.{
  Starter, System, new_starter, set_port, set_backlog, set_max_events, set_watcher, set_thread_pool,
  add_bind_ip, start_epoll,
}
use ehttp.EpollSocket.{EpollContext}
use ehttp.HttpServer.Method.{get_method}
use ehttp.HttpServer.Routes.{ResourceMap, add_handler_mapping}
use ehttp.HttpServer.Watcher.{HttpContext, new_context}
use ehttp.Request.{Request}

-- `_pid` is 0 until a thread was made. `J` is the type of JSON values.
pub record HttpServer (P J : Type 0) : Type 0 where
  pub resource_map : ResourceMap P J
  pub buildin_jhs : List (Request P → J → Request P × J)
  pub epoll_socket : Starter
  pub backlog : ℤ
  pub max_events : ℤ
  pub port : ℤ
  pub pid : ℕ

-- The settings that a start hands to the socket.
abbrev configured : ℤ → ℤ → ℤ → Starter → Starter
configured port backlog max_events s =
    set_watcher (set_max_events max_events (set_backlog backlog (set_port port s)))

module _ {P J : Type 0} where
  -- `HttpServer()`, with what the settings of the socket were not set to.
  abbrev pub new_server : ℤ → ℤ → ℤ → HttpServer P J
  new_server backlog max_events port = record {
    resource_map = [];
    buildin_jhs = [];
    epoll_socket = new_starter backlog max_events port;
    backlog = pos 10;
    max_events = pos 1000;
    port = pos 3456;
    pid = 0;
  }

  abbrev pub set_server_backlog : ℤ → HttpServer P J → HttpServer P J
  set_server_backlog backlog hs = record hs { backlog = backlog }

  abbrev pub set_server_max_events : ℤ → HttpServer P J → HttpServer P J
  set_server_max_events me hs = record hs { max_events = me }

  abbrev pub set_server_port : ℤ → HttpServer P J → HttpServer P J
  set_server_port port hs = record hs { port = port }

  abbrev pub add_server_bind_ip : Bytes → HttpServer P J → HttpServer P J
  add_server_bind_ip ip hs = record hs { epoll_socket = add_bind_ip ip hs.epoll_socket }

  abbrev pub set_server_thread_pool : ℕ → HttpServer P J → HttpServer P J
  set_server_thread_pool threads hs = record hs {
    epoll_socket = set_thread_pool threads hs.epoll_socket;
  }

  unfoldable pub start : System → ℤ → ℤ → ℤ → HttpServer P J → ℤ × HttpServer P J
  start sys port backlog max_events hs =
      let (ret, s) = start_epoll sys (configured port backlog max_events hs.epoll_socket) in
      (ret, record hs { epoll_socket = s })

  unfoldable pub start_sync : System → HttpServer P J → ℤ × HttpServer P J
  start_sync sys hs =
      let (ret, s) =
        start_epoll sys (configured hs.port hs.backlog hs.max_events hs.epoll_socket) in
      (ret, record hs { epoll_socket = s })

  -- `created` is what `pthread_create` returns, with the thread that it makes.
  unfoldable pub start_async : ℤ → ℕ → HttpServer P J → ℤ × HttpServer P J
  start_async created tid hs =
      if is_zero created then (pos 0, record hs { pid = tid }) else (created, hs)

  -- `joined` is what `pthread_join` returns.
  unfoldable pub join : ℤ → HttpServer P J → ℤ
  join joined hs = if hs.pid == 0 then negsuc 0 else joined

  -- The handler that lists the clients; the result of `add_mapping` is not looked at.
  unfoldable pub add_buildin_mappings :
      (Request P → J → Request P × J) → HttpServer P J → ℤ × HttpServer P J
  add_buildin_mappings get_clients_handler hs =
      let (ret, resources) =
        add_handler_mapping hs.resource_map (codes "/_clients") get_clients_handler get_method in
      (
        pos 0,
        record hs {
          resource_map = resources;
          buildin_jhs = hs.buildin_jhs ++ get_clients_handler ∷ [];
        },
      )

-- `on_accept`: the context that the connection keeps.
abbrev pub on_accept :
    {P : Type 0} → P → EpollContext (HttpContext P) → ℤ × EpollContext (HttpContext P)
on_accept init ctx = (pos 0, record ctx { ptr = some (new_context init) })

-- `on_close`: whether it releases what the connection keeps; the pointer stays.
abbrev pub on_close : {P : Type 0} → EpollContext (HttpContext P) → ℤ × Bool
on_close ctx = elim ctx.ptr [ none ↦ (pos 0, false) | some _ ↦ (pos 0, true) ]
