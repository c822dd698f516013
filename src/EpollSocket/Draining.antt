-- ===== src/EpollSocket/Draining.antt =====
-- A socket of src/epoll_socket.cpp that was stopped takes no new client, and its loop ends with its
-- last client.
use ehttp.Base.{
  All, is_empty, ℕ, ◌≡◌, refl, sym, ap, ◌∙◌, ◌&&◌, Bool, true, false, inl, inr, Bool-cases, List,
  [], ◌∷◌, Option, none, some, ℤ, pos, negsuc, is_zero, if◌then◌else◌, ◌==◌, arith,
}
use ehttp.EpollSocket.Balance.{has-update_context, find-IsKnown}
use ehttp.EpollSocket.Clients.{IsKnown, IsKnown-insert, IsKnown-erase}
use ehttp.EpollSocket.Events.{runs, update_context}
use ehttp.EpollSocket.{
  EpollContext, EpollSocket, is_reject_conn, close_and_release, remove_client, clear_idle_clients,
  clear_idle, close_all, stop_if_empty, idle_clients,
}
use ehttp.Std.OrdMap
use ehttp.Std.Order.{nat_ord, same_key}

module _ {C : Type 0} where
  -- The map is sorted and has its clients under their numbers.
  pub record IsTidy (s : EpollSocket C) : Type 0 where
    pub sorted : OrdMap.IsSorted s.eclients
    pub known : All (IsKnown s.g_client_id) s.eclients

  -- Behind a step that takes no connection no client is there that was not.
  pub record IsDrained (s r : EpollSocket C) : Type 0 where
    pub tidy : IsTidy r
    pub closed : runs r.status ≡ false
    pub no_new : (id : ℕ) → OrdMap.has id r.eclients ≡ true → OrdMap.has id s.eclients ≡ true

  pub IsDrained-refl : (s : EpollSocket C) → IsTidy s → runs s.status ≡ false → IsDrained s s
  IsDrained-refl s v c = record { tidy = v; closed = c; no_new = λ id e. e }

  pub IsDrained-trans : (s r t : EpollSocket C) → IsDrained s r → IsDrained r t → IsDrained s t
  IsDrained-trans s r t h k = record {
    tidy = k.tidy;
    closed = k.closed;
    no_new = λ id e. h.no_new id (k.no_new id e);
  }

  pub stop_if_empty-IsDrained :
      (s : EpollSocket C) → IsTidy s → runs s.status ≡ false → IsDrained s (stop_if_empty s)
  unfolding stop_if_empty
  stop_if_empty-IsDrained s v c = elim (Bool-cases (is_zero s.clients && is_reject_conn s.status)) [
    | inl e ↦ rw e (record {
      tidy = record { sorted = v.sorted; known = v.known };
      closed = refl;
      no_new = λ id e. e;
    })
    | inr e ↦ rw e (IsDrained-refl s v c)
  ]

  remove_client-IsDrained :
      (ctx : EpollContext C) (s : EpollSocket C)
      → IsTidy s
      → runs s.status ≡ false
      → IsDrained s (remove_client ctx s)
  unfolding remove_client
  remove_client-IsDrained ctx s v c = record {
    tidy = record {
      sorted = OrdMap.erase-IsSorted ctx.id s.eclients v.sorted;
      known = IsKnown-erase s.g_client_id ctx.id s.eclients v.known;
    };
    closed = c;
    no_new = λ id e.
        kept_if (same_key ctx.id id) (OrdMap.find id s.eclients)
          (sym (ap OrdMap.is_some (OrdMap.find-erase ctx.id id s.eclients v.sorted)) ∙ e);
  }
    where
      kept_if :
          (b : Bool) (o : Option (EpollContext C))
          → OrdMap.is_some (if b then none else o) ≡ true
          → OrdMap.is_some o ≡ true
      kept_if true o h = absurd (ground (arith, h))
      kept_if false o h = h

  pub close_and_release-IsDrained :
      (ctx : EpollContext C) (s : EpollSocket C)
      → IsTidy s
      → runs s.status ≡ false
      → IsDrained s (close_and_release ctx s)
  unfolding close_and_release
  close_and_release-IsDrained ctx s v c =
      let r = remove_client-IsDrained ctx s v c in
      IsDrained-trans s (remove_client ctx s) _ r (stop_if_empty-IsDrained _ r.tidy r.closed)

  close_all-IsDrained :
      (entries : List (ℕ × EpollContext C)) (s : EpollSocket C)
      → IsTidy s
      → runs s.status ≡ false
      → IsDrained s (close_all entries s)
  unfolding close_all
  close_all-IsDrained [] s v c = IsDrained-refl s v c
  close_all-IsDrained ((k, ctx) ∷ entries) s v c =
      let r = close_and_release-IsDrained ctx s v c in
      IsDrained-trans s _ _ r
        (close_all-IsDrained entries (close_and_release ctx s) r.tidy r.closed)

  pub clear_idle_clients-IsDrained :
      (now : ℕ) (s : EpollSocket C)
      → IsTidy s
      → runs s.status ≡ false
      → IsDrained s (clear_idle_clients now s).1
  unfolding clear_idle_clients
  clear_idle_clients-IsDrained now s v c = cleared s.max_idle_sec
    where
      cleared : (max : ℤ) → IsDrained s (clear_idle now max s).1
      cleared (negsuc n) = IsDrained-refl s v c
      cleared (pos n) = elim (Bool-cases (n == 0)) [
        | inl e ↦ rw e (IsDrained-refl s v c)
        | inr e ↦ elim (Bool-cases (is_empty s.eclients)) [
          | inl f ↦ rw (e, f) (IsDrained-refl s v c)
          | inr f ↦ rw (e, f) (close_all-IsDrained (idle_clients now n s) s v c)
        ]
      ]

  -- A context of the map that changes.
  pub update_context-IsDrained :
      (id : ℕ) (ctx ctx' : EpollContext C) (s : EpollSocket C)
      → ctx'.id ≡ ctx.id
      → OrdMap.find id s.eclients ≡ some ctx
      → IsTidy s
      → runs s.status ≡ false
      → IsDrained s (update_context ctx' s)
  update_context-IsDrained id ctx ctx' s e f v c =
      let (same, old) = find-IsKnown s.g_client_id id ctx s.eclients v.known f in
      let here : OrdMap.has ctx'.id s.eclients ≡ true =
        ap (λ k. OrdMap.has k s.eclients) (e ∙ same) ∙ ap OrdMap.is_some f in
      record {
        tidy = record {
          sorted = OrdMap.insert-IsSorted ctx'.id ctx' s.eclients v.sorted;
          known =
              IsKnown-insert s.g_client_id ctx' s.eclients (omega (arith, e, same, old)) v.known;
        };
        closed = c;
        no_new = λ j h. sym (has-update_context ctx' s j here) ∙ h;
      }
