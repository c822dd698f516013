-- ===== src/EpollSocket/Held.antt =====
-- No connection is lost: what each step of the event loop and of the threads of src/epoll_socket.cpp
-- does to the clients, their tasks and the events that are watched.
use ehttp.Base.{
  ℕ, ◌+◌, ◌≤◌, ◌≡◌, refl, sym, ap, ◌∙◌, Bool, true, false, List, [], ◌∷◌, ◌++◌, Option, none, some,
  ℤ, arith, if◌then◌else◌, ◌==◌,
}
use ehttp.EpollSocket.Balance.{
  count, one_if, waits, count-append, ==_refl, IsBalanced, find-IsKnown, update_context-IsValid,
  has-update_context, has-close_and_release, rebalance,
}
use ehttp.EpollSocket.Clients.{IsValid, close_and_release-IsValid}
use ehttp.EpollSocket.Events.{Interest, Handled, update_context}
use ehttp.EpollSocket.Tasks.{Connections, handled}
use ehttp.EpollSocket.{EpollContext, EpollSocket, close_and_release}
use ehttp.Std.OrdMap
use ehttp.Std.Order.{nat_ord}

one_if_le : (b : Bool) → one_if b ≤ 1
one_if_le true = omega arith
one_if_le false = omega arith

self_counts : (id : ℕ) → one_if (id == id) ≡ 1
self_counts id = rw (==_refl id)

pub count-others :
    (id j : ℕ) (k : Interest) (before after : List (ℕ × Interest))
    → (id == j) ≡ false
    → count j (before ++ (id, k) ∷ after) ≡ count j (before ++ after)
count-others id j k before after d =
    let none : one_if (id == j) ≡ 0 = rw d in
    omega (arith, none, count-append j before ((id, k) ∷ after), count-append j before after)

pub count-last :
    (id j : ℕ) (k : Interest) (tasks : List (ℕ × Interest))
    → (id == j) ≡ false
    → count j (tasks ++ (id, k) ∷ []) ≡ count j tasks
count-last id j k tasks d =
    let none : one_if (id == j) ≡ 0 = rw d in
    omega (arith, none, count-append j tasks ((id, k) ∷ []))

pub count-last_self :
    (id : ℕ) (k : Interest) (tasks : List (ℕ × Interest))
    → count id (tasks ++ (id, k) ∷ []) ≡ count id tasks + 1
count-last_self id k tasks = omega (arith, self_counts id, count-append id tasks ((id, k) ∷ []))

module _ {C : Type 0} where
  -- The map of the clients is as it should be, and each client is waited for or has a task.
  pub record IsHeld (cs : Connections C) : Type 0 where
    pub valid : IsValid cs.socket
    pub balanced : (id : ℕ) → IsBalanced cs id

  -- What a handler does to the client `id`, which has `tasks` tasks behind it.
  pub record IsEffect (id tasks : ℕ) (s : EpollSocket C) (h : Handled C) : Type 0 where
    pub valid : IsValid h.socket
    pub others :
        (j : ℕ) → (id == j) ≡ false → OrdMap.has j h.socket.eclients ≡ OrdMap.has j s.eclients
    pub self : tasks + waits h.interest ≡ one_if (OrdMap.has id h.socket.eclients)

  -- A client of the map.
  pub record IsClient (id : ℕ) (ctx : EpollContext C) (s : EpollSocket C) : Type 0 where
    pub valid : IsValid s
    pub same_id : ctx.id ≡ id
    pub given : ctx.id ≤ s.g_client_id
    pub here : OrdMap.has ctx.id s.eclients ≡ true

  pub find-IsClient :
      (id : ℕ) (ctx : EpollContext C) (s : EpollSocket C)
      → IsValid s
      → OrdMap.find id s.eclients ≡ some ctx
      → IsClient id ctx s
  find-IsClient id ctx s v e =
      let (same, old) = find-IsKnown s.g_client_id id ctx s.eclients v.known e in
      record {
        valid = v;
        same_id = same;
        given = omega (arith, same, old);
        here = ap (λ k. OrdMap.has k s.eclients) same ∙ ap OrdMap.is_some e;
      }

  pub update_context-IsClient :
      (id : ℕ) (ctx ctx' : EpollContext C) (s : EpollSocket C)
      → ctx'.id ≡ ctx.id
      → IsClient id ctx s
      → IsClient id ctx' (update_context ctx' s)
  update_context-IsClient id ctx ctx' s e v =
      let here = ap (λ k. OrdMap.has k s.eclients) e ∙ v.here in
      let old : ctx'.id ≤ s.g_client_id = omega (arith, e, v.given) in
      record {
        valid = update_context-IsValid ctx' s v.valid here old;
        same_id = e ∙ v.same_id;
        given = old;
        here = has-update_context ctx' s ctx'.id here ∙ here;
      }

  -- A context that changed, for a client that then waits for an event or has a task.
  pub kept-IsEffect :
      (id tasks : ℕ) (ctx ctx' : EpollContext C) (s : EpollSocket C) (ret : ℤ) (i : Option Interest)
      → ctx'.id ≡ ctx.id
      → IsClient id ctx s
      → tasks + waits i ≡ 1
      → IsEffect id tasks s (record { ret = ret; interest = i; socket = update_context ctx' s })
  kept-IsEffect id tasks ctx ctx' s ret i e v one =
      let here = ap (λ k. OrdMap.has k s.eclients) e ∙ v.here in
      let w = update_context-IsClient id ctx ctx' s e v in
      record {
        valid = w.valid;
        others = λ j d. has-update_context ctx' s j here;
        self =
            one
            ∙ sym (
                ap one_if (
                  ap (λ k. OrdMap.has k (update_context ctx' s).eclients) (sym w.same_id)
                  ∙ w.here));
      }

  -- A client that was closed, behind a change of its context.
  pub closed-IsEffect :
      (id : ℕ) (ctx : EpollContext C) (s s' : EpollSocket C) (ret : ℤ)
      → IsClient id ctx s'
      → ((j : ℕ) → OrdMap.has j s'.eclients ≡ OrdMap.has j s.eclients)
      → IsEffect id 0 s (record { ret = ret; interest = none; socket = close_and_release ctx s' })
  closed-IsEffect id ctx s s' ret v same =
      let gone = λ (j : ℕ).
        has-close_and_release ctx s' j v.valid.sorted
        ∙ ap (λ k. if k == j then false else OrdMap.has j s'.eclients) v.same_id in
      record {
        valid = close_and_release-IsValid ctx s' v.valid v.here;
        others = λ j d. gone j ∙ ap (λ b. if b then false else OrdMap.has j s'.eclients) d ∙ same j;
        self = sym (
            ap one_if
              (gone id ∙ ap (λ b. if b then false else OrdMap.has id s'.eclients) (==_refl id)));
      }

  -- Behind a handler the tasks of the others are the same.
  pub handled-IsHeld :
      (id n : ℕ) (h : Handled C) (tasks : List (ℕ × Interest)) (cs : Connections C)
      → IsHeld cs
      → IsEffect id n cs.socket h
      → ((j : ℕ) → (id == j) ≡ false → count j tasks ≡ count j cs.tasks)
      → count id tasks ≡ n
      → IsHeld (handled id h tasks cs)
  handled-IsHeld id n h tasks cs v eff others self = record {
    valid = eff.valid;
    balanced =
        rebalance id h.interest cs (handled id h tasks cs) v.balanced refl
          (λ j d. (others j d, eff.others j d)) (ap (λ m. m + waits h.interest) self ∙ eff.self);
  }

  -- A client that is waited for has no task.
  pub count-waits :
      (id : ℕ) (i : Interest) (cs : Connections C)
      → IsBalanced cs id
      → cs.interests id ≡ some i
      → count id cs.tasks ≡ 0
  count-waits id i cs bal e =
      omega (arith, bal, ap waits e, one_if_le (OrdMap.has id cs.socket.eclients))

  -- A client with a task has no other.
  pub count-rest :
      (id : ℕ) (k : Interest) (before after : List (ℕ × Interest)) (cs : Connections C)
      → IsBalanced cs id
      → cs.tasks ≡ before ++ (id, k) ∷ after
      → count id (before ++ after) ≡ 0
  count-rest id k before after cs bal e = omega (
    arith,
    bal,
    ap (count id) e,
    count-append id before ((id, k) ∷ after),
    count-append id before after,
    self_counts id,
    one_if_le (OrdMap.has id cs.socket.eclients),
  )
