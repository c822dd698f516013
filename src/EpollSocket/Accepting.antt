-- ===== src/EpollSocket/Accepting.antt =====
-- What accepting a connection does to the clients of src/epoll_socket.cpp.
use ehttp.Base.{
  ℕ, ◌+◌, ◌≡◌, sym, ap, ◌∙◌, ◌||◌, true, false, inl, inr, Bool-cases, some, pos, if◌then◌else◌,
  ◌==◌, Bytes,
}
use ehttp.EpollSocket.Balance.{eq_of, one_if, has-close_and_release, same_key_nat, ==_refl}
use ehttp.EpollSocket.Clients.{IsValid, unknown, handle_accept_event-IsValid}
use ehttp.EpollSocket.Events.{input}
use ehttp.EpollSocket.Held.{IsEffect}
use ehttp.EpollSocket.{EpollSocket, create_client, add_client, handle_accept_event}
use ehttp.Std.OrdMap
use ehttp.Std.Order.{nat_ord}

module _ {C : Type 0} where
  has-accepted :
      (conn : ℕ × Bytes) (kept : C) (now j : ℕ) (s : EpollSocket C)
      → OrdMap.has j ((handle_accept_event (some conn) kept true now s).1).eclients
        ≡ ((s.g_client_id + 1 == j) || OrdMap.has j s.eclients)
  unfolding handle_accept_event create_client add_client
  has-accepted conn kept now j s =
      OrdMap.has-insert (s.g_client_id + 1) j _ s.eclients
      ∙ ap (λ b. b || OrdMap.has j s.eclients) (same_key_nat (s.g_client_id + 1) j)

  pub has-dropped :
      (conn : ℕ × Bytes) (kept : C) (now j : ℕ) (s : EpollSocket C)
      → IsValid s
      → OrdMap.has j ((handle_accept_event (some conn) kept false now s).1).eclients
        ≡ OrdMap.has j s.eclients
  unfolding handle_accept_event create_client
  has-dropped conn kept now j s v =
      has-close_and_release _ _ j (handle_accept_event-IsValid (some conn) kept true now s v).sorted
      ∙ ap (λ b. if s.g_client_id + 1 == j then false else b) (has-accepted conn kept now j s)
      ∙ elim (Bool-cases (s.g_client_id + 1 == j)) [
        | inl e ↦ rw e (
            sym (unknown s.g_client_id s.eclients v.known)
            ∙ ap (λ k. OrdMap.has k s.eclients) (eq_of (s.g_client_id + 1) j e))
        | inr e ↦ rw e
      ]

  pub accepted-IsEffect :
      (conn : ℕ × Bytes) (kept : C) (now : ℕ) (s : EpollSocket C)
      → IsValid s
      → IsEffect (s.g_client_id + 1) 0 s (record {
        ret = pos 0;
        interest = some input;
        socket = (handle_accept_event (some conn) kept true now s).1;
      })
  accepted-IsEffect conn kept now s v = record {
    valid = handle_accept_event-IsValid (some conn) kept true now s v;
    others = λ j d. has-accepted conn kept now j s ∙ ap (λ b. b || OrdMap.has j s.eclients) d;
    self = sym (
        ap one_if (
          has-accepted conn kept now (s.g_client_id + 1) s
          ∙ ap (λ b. b || OrdMap.has (s.g_client_id + 1) s.eclients)
              (==_refl (s.g_client_id + 1))));
  }
