-- ===== src/EpollSocket/Starting.antt =====
-- Starting and stopping an `EpollSocket` of src/epoll_socket.cpp: listening, the thread pool, the
-- descriptors that `epoll` watches and the loop of events. What the calls of the system return is in
-- records, and a log line is left out.
use ehttp.Base.{
  ℕ, Bool, true, false, not, List, [], ◌∷◌, ◌++◌, Option, none, some, ℤ, pos, negsuc, is_zero,
  same_int, if◌then◌else◌, Bytes,
}
use ehttp.Std.OrdMap
use ehttp.Std.Order.{nat_ord}

-- What `socket`, `bind` and `listen` return for an address.
pub record Binding : Type 0 where
  pub sockfd : Option ℕ
  pub bound : Bool
  pub listens : Bool

-- The fields of `EpollSocket` that starting is about. A pool that was set stands for its threads:
-- `none` is no pool, and a pool is its number of threads.
pub record Starter : Type 0 where
  pub bind_ips : List Bytes
  pub backlog : ℤ
  pub max_events : ℤ
  pub port : ℤ
  pub epollfd : ℤ
  pub listen_sockets : List (ℕ × Unit {0})
  pub thread_pool : Option ℕ
  pub use_default_tp : Bool
  pub has_watcher : Bool

-- `EpollSocket()`: the constructor does not set the backlog, the events and the port, which are arguments.
abbrev pub new_starter : ℤ → ℤ → ℤ → Starter
new_starter backlog max_events port = record {
  bind_ips = [];
  backlog = backlog;
  max_events = max_events;
  port = port;
  epollfd = negsuc 0;
  listen_sockets = [];
  thread_pool = none;
  use_default_tp = true;
  has_watcher = false;
}

abbrev pub set_thread_pool : ℕ → Starter → Starter
set_thread_pool threads s = record s { thread_pool = some threads; use_default_tp = false }

abbrev pub set_port : ℤ → Starter → Starter
set_port port s = record s { port = port }

abbrev pub set_watcher : Starter → Starter
set_watcher s = record s { has_watcher = true }

abbrev pub set_backlog : ℤ → Starter → Starter
set_backlog backlog s = record s { backlog = backlog }

abbrev pub set_max_events : ℤ → Starter → Starter
set_max_events me s = record s { max_events = me }

abbrev pub add_bind_ip : Bytes → Starter → Starter
add_bind_ip ip s = record s { bind_ips = s.bind_ips ++ ip ∷ [] }

-- A descriptor is kept only behind the three calls.
unfoldable pub bind_on : Binding → Starter → ℤ × Starter
bind_on b s = elim b.sockfd [
  | none ↦ (negsuc 0, s)
  | some fd ↦
      if not b.bound
      then (negsuc 0, s)
      else if not b.listens
      then (negsuc 0, s)
      else (pos 0, record s { listen_sockets = OrdMap.insert fd tt s.listen_sockets })
]

-- The loop over the addresses, which ends at the first that fails.
unfoldable pub bind_all : (Bytes → Binding) → List Bytes → Starter → ℤ × Starter
bind_all bind [] s = (pos 0, s)
bind_all bind (ip ∷ ips) s =
    let first = bind_on (bind ip) s in
    let rest = bind_all bind ips first.1 in if is_zero first.0 then rest else first

-- `any` is the binding for all addresses, where none was added.
unfoldable pub listen_on : Binding → (Bytes → Binding) → Starter → ℤ × Starter
unfolding bind_all
listen_on any bind s = elim s.bind_ips [ [] ↦ bind_on any s | _ ∷ _ ↦ bind_all bind s.bind_ips s ]

unfoldable pub create_epoll : ℤ → Starter → ℤ × Starter
create_epoll created s =
    if same_int created (negsuc 0)
    then (negsuc 0, record s { epollfd = created })
    else (pos 0, record s { epollfd = created })

-- The sockets that `epoll_ctl` was asked to watch, up to the first that it refused.
unfoldable pub add_all : (ℕ → Bool) → List (ℕ × Unit {0}) → ℤ × List ℕ
add_all adds [] = (pos 0, [])
add_all adds ((fd, _) ∷ fds) =
    let rest = add_all adds fds in if adds fd then (rest.0, fd ∷ rest.1) else (negsuc 0, [])

unfoldable pub add_listen_sock_to_epoll : (ℕ → Bool) → Starter → ℤ × List ℕ
unfolding add_all
add_listen_sock_to_epoll adds s = add_all adds s.listen_sockets

-- `init_default_tp`, where `get_nprocs` is `cores`.
unfoldable pub init_default_tp : ℕ → Starter → ℤ × Starter
init_default_tp cores s = (pos 0, record s { thread_pool = some cores })

-- `started` is what `start_threadpool` returns for a number of threads.
unfoldable pub init_tp : ℕ → (ℕ → ℤ) → Starter → ℤ × Starter
unfolding init_default_tp
init_tp cores started s = elim s.thread_pool [
  | none ↦ (started cores, (init_default_tp cores s).1)
  | some threads ↦ (started threads, s)
]

-- What the system answers to a start.
pub record System : Type 0 where
  pub cores : ℕ
  pub started : ℕ → ℤ
  pub any : Binding
  pub bind : Bytes → Binding
  pub created : ℤ
  pub adds : ℕ → Bool

-- `CHECK_RET`: a result other than 0 is returned at once.
abbrev pub check_ret : ℤ × Starter → (Starter → ℤ × Starter) → ℤ × Starter
check_ret (ret, s) next = if is_zero ret then next s else (ret, s)

-- `start_epoll` up to the loop of events: 0 where the loop is entered.
unfoldable pub start_epoll : System → Starter → ℤ × Starter
start_epoll sys s = check_ret (init_tp sys.cores sys.started s) (λ s1.
    check_ret (listen_on sys.any sys.bind s1) (λ s2.
      check_ret (create_epoll sys.created s2)
        (λ s3. check_ret ((add_listen_sock_to_epoll sys.adds s3).0, s3) (λ s4. (pos 0, s4)))))
