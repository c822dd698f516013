-- ===== src/EpollSocket/Listening.antt =====
-- The sockets that `listen_on` of src/epoll_socket.cpp leaves listening.
use ehttp.Base.{
  ℕ, ◌≡◌, refl, ◌&&◌, Bool, true, false, List, [], ◌∷◌, Option, none, some, ℤ, pos, negsuc, is_zero,
  if◌then◌else◌, Bytes, map,
}
use ehttp.EpollSocket.Starting.{Binding, Starter, bind_on, bind_all, listen_on}
use ehttp.Std.OrdMap
use ehttp.Std.Order.{nat_ord}

-- The descriptor of a binding of which all three calls succeed.
abbrev pub descriptor : Binding → Option ℕ
descriptor b = elim b.sockfd [
  | none ↦ none
  | some fd ↦ if b.bound && b.listens then some fd else none
]

-- The bindings that a start goes through: one for all addresses, or one for each that was added.
abbrev pub bindings : Binding → (Bytes → Binding) → List Bytes → List Binding
bindings any bind [] = any ∷ []
bindings any bind (ip ∷ ips) = bind ip ∷ map bind ips

-- The result for some bindings, and the sockets in front of the first that fails.
abbrev pub listen_all : List Binding → List (ℕ × Unit {0}) → ℤ × List (ℕ × Unit {0})
listen_all [] sockets = (pos 0, sockets)
listen_all (b ∷ bs) sockets = elim (descriptor b) [
  | none ↦ (negsuc 0, sockets)
  | some fd ↦ listen_all bs (OrdMap.insert fd tt sockets)
]

with_sockets : Starter → ℤ × List (ℕ × Unit {0}) → ℤ × Starter
with_sockets s (ret, sockets) = (ret, record s { listen_sockets = sockets })

abbrev binding : Option ℕ → Bool → Bool → Binding
binding fd bound listens = record { sockfd = fd; bound = bound; listens = listens }

bind_on-descriptor :
    (fd : Option ℕ) (bound listens : Bool) (s : Starter)
    → bind_on (binding fd bound listens) s
      ≡ with_sockets s (listen_all (binding fd bound listens ∷ []) s.listen_sockets)
unfolding bind_on with_sockets
bind_on-descriptor none bound listens s = refl
bind_on-descriptor (some fd) false listens s = refl
bind_on-descriptor (some fd) true false s = refl
bind_on-descriptor (some fd) true true s = refl

-- The first address, where the others are known.
bind_first :
    (bind : Bytes → Binding) (ips : List Bytes) (fd : Option ℕ) (bound listens : Bool) (s : Starter)
    → ((s : Starter)
        → bind_all bind ips s ≡ with_sockets s (listen_all (map bind ips) s.listen_sockets))
    → let b = binding fd bound listens in
      (if is_zero (bind_on b s).0 then bind_all bind ips (bind_on b s).1 else bind_on b s)
      ≡ with_sockets s (listen_all (b ∷ map bind ips) s.listen_sockets)
unfolding bind_on with_sockets
bind_first bind ips none bound listens s h = refl
bind_first bind ips (some fd) false listens s h = refl
bind_first bind ips (some fd) true false s h = refl
bind_first bind ips (some fd) true true s h =
    h (record s { listen_sockets = OrdMap.insert fd tt s.listen_sockets })

bind_all-listen_all :
    (bind : Bytes → Binding) (ips : List Bytes) (s : Starter)
    → bind_all bind ips s ≡ with_sockets s (listen_all (map bind ips) s.listen_sockets)
unfolding bind_all with_sockets
bind_all-listen_all bind [] s = refl
bind_all-listen_all bind (ip ∷ ips) s =
    let b = bind ip in
    bind_first bind ips b.sockfd b.bound b.listens s (bind_all-listen_all bind ips)

listen_on_ips :
    (any : Binding) (bind : Bytes → Binding) (ips : List Bytes) (s : Starter)
    → listen_on any bind (record s { bind_ips = ips })
      ≡ with_sockets
          (record s { bind_ips = ips })
          (listen_all (bindings any bind ips) s.listen_sockets)
unfolding listen_on
listen_on_ips any bind [] s =
    bind_on-descriptor any.sockfd any.bound any.listens (record s { bind_ips = [] })
listen_on_ips any bind (ip ∷ ips) s =
    bind_all-listen_all bind (ip ∷ ips) (record s { bind_ips = ip ∷ ips })

-- Listening goes through the addresses in their order, or binds once for all addresses if none was
-- added: it returns 0 if each can be bound and listened on, and -1 at the first that cannot, and the
-- sockets that listen are then those in front of it, which stay open.
pub listen_on-listen_all :
    (any : Binding) (bind : Bytes → Binding) (s : Starter)
    → let r = listen_all (bindings any bind s.bind_ips) s.listen_sockets in
      listen_on any bind s ≡ (r.0, record s { listen_sockets = r.1 })
unfolding with_sockets
listen_on-listen_all any bind s = listen_on_ips any bind s.bind_ips s
