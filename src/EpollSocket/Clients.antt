-- ===== src/EpollSocket/Clients.antt =====
-- The counter, the map and the identifiers of the clients of `EpollSocket` agree.
use ehttp.Base.{
  ℕ, ◌+◌, ◌-◌, ◌≤◌, ◌<◌, ◌≡◌, refl, sym, ap, ◌∙◌, Bool, true, false, inl, inr, Bool-cases, List, [],
  ◌∷◌, Option, none, some, pos, is_zero, ◌&&◌, arith, All, if◌then◌else◌, ltb, ◌==◌, Bytes, length,
}
use ehttp.EpollSocket.{
  EpollContext, EpollSocket, is_reject_conn, create_client, add_client, remove_client,
  stop_if_empty, close_and_release, handle_accept_event, incremented, decremented,
}
use ehttp.Std.OrdMap
use ehttp.Std.Order.{nat_ord, nat_antisym, same_key_refl}

decremented_suc : (n : ℕ) → 0 < n → decremented (pos n) ≡ pos (n - 1)
decremented_suc n h = let some_left : (n == 0) ≡ false = ground arith in rw some_left

module _ {C : Type 0} where
  -- A client stands under its identifier, which was given out before.
  abbrev pub IsKnown : ℕ → ℕ × EpollContext C → Type 0
  IsKnown last (key, ctx) = (key ≡ ctx.id) × (key ≤ last)

  pub record IsValid (s : EpollSocket C) : Type 0 where
    pub counted : s.clients ≡ pos (length s.eclients)
    pub sorted : OrdMap.IsSorted s.eclients
    pub known : All (IsKnown s.g_client_id) s.eclients

  IsKnown-later :
      (last : ℕ) (m : List (ℕ × EpollContext C)) → All (IsKnown last) m → All (IsKnown (last + 1)) m
  IsKnown-later last [] h = tt
  IsKnown-later last ((k, c) ∷ m) h = ((h.0.0, omega (arith, h.0.1)), IsKnown-later last m h.1)

  pub IsKnown-insert :
      (last : ℕ) (ctx : EpollContext C) (m : List (ℕ × EpollContext C))
      → ctx.id ≤ last
      → All (IsKnown last) m
      → All (IsKnown last) (OrdMap.insert ctx.id ctx m)
  unfolding OrdMap.insert
  IsKnown-insert last ctx [] e h = ((refl, e), tt)
  IsKnown-insert last ctx ((k, c) ∷ m) e h = elim (Bool-cases (ltb ctx.id k)) [
    | inl less ↦ rw less ((refl, e), h)
    | inr more ↦ elim (Bool-cases (ltb k ctx.id)) [
      | inl above ↦ rw (more, above) (h.0, IsKnown-insert last ctx m e h.1)
      | inr same ↦ rw (more, same) ((nat_antisym k ctx.id same more, h.0.1), h.1)
    ]
  ]

  pub unknown :
      (last : ℕ) (m : List (ℕ × EpollContext C))
      → All (IsKnown last) m
      → OrdMap.has (last + 1) m ≡ false
  unfolding OrdMap.find
  unknown last [] h = refl
  unknown last ((k, c) ∷ m) h =
      let below : ltb k (last + 1) ≡ true = ground (arith, h.0.1) in rw below (unknown last m h.1)

  pub IsKnown-erase :
      (last id : ℕ) (m : List (ℕ × EpollContext C))
      → All (IsKnown last) m
      → All (IsKnown last) (OrdMap.erase id m)
  unfolding OrdMap.erase
  IsKnown-erase last id [] h = tt
  IsKnown-erase last id ((k, c) ∷ m) h = ground (arith, IsKnown-erase last id m h.1)

  pub stop_if_empty-IsValid : (s : EpollSocket C) → IsValid s → IsValid (stop_if_empty s)
  unfolding stop_if_empty
  stop_if_empty-IsValid s v = elim (Bool-cases (is_zero s.clients && is_reject_conn s.status)) [
    | inl e ↦ rw e (record { counted = v.counted; sorted = v.sorted; known = v.known })
    | inr e ↦ rw e v
  ]

  -- A new client: its identifier is new.
  add_new :
      (ctx : EpollContext C) (s : EpollSocket C)
      → ctx.id ≡ s.g_client_id + 1
      → IsValid s
      → IsValid (add_client ctx (record s { g_client_id = s.g_client_id + 1 }))
  unfolding add_client
  add_new ctx s e v =
      let new : OrdMap.has ctx.id s.eclients ≡ false =
        ap (λ k. OrdMap.has k s.eclients) e ∙ unknown s.g_client_id s.eclients v.known in
      let grown : length (OrdMap.insert ctx.id ctx s.eclients) ≡ length s.eclients + 1 =
        OrdMap.length-insert ctx.id ctx s.eclients v.sorted
        ∙ ap (λ b. if b then length s.eclients else length s.eclients + 1) new in
      record {
        counted = ap incremented v.counted ∙ sym (ap pos grown);
        sorted = OrdMap.insert-IsSorted ctx.id ctx s.eclients v.sorted;
        known =
            IsKnown-insert (s.g_client_id + 1) ctx s.eclients (omega (arith, e))
              (IsKnown-later s.g_client_id s.eclients v.known);
      }

  positive : (id : ℕ) (m : List (ℕ × EpollContext C)) → OrdMap.has id m ≡ true → 0 < length m
  unfolding OrdMap.find
  positive id [] h = ground arith
  positive id (x ∷ m) h = omega arith

  -- Closing a client that is in the map leaves the counter equal to the number of clients, the map
  -- sorted and its clients under their identifiers, where they were so before.
  pub close_and_release-IsValid :
      (ctx : EpollContext C) (s : EpollSocket C)
      → IsValid s
      → OrdMap.has ctx.id s.eclients ≡ true
      → IsValid (close_and_release ctx s)
  unfolding close_and_release remove_client
  close_and_release-IsValid ctx s v h =
      let shrunk : length (OrdMap.erase ctx.id s.eclients) ≡ length s.eclients - 1 =
        OrdMap.length-erase ctx.id s.eclients
        ∙ ap (λ b. if b then length s.eclients - 1 else length s.eclients) h in
      stop_if_empty-IsValid _ (record {
        counted =
            ap decremented v.counted
            ∙ decremented_suc (length s.eclients) (positive ctx.id s.eclients h)
            ∙ sym (ap pos shrunk);
        sorted = OrdMap.erase-IsSorted ctx.id s.eclients v.sorted;
        known = IsKnown-erase s.g_client_id ctx.id s.eclients v.known;
      })

  -- Accepting leaves the counter equal to the number of clients, the map sorted and its clients
  -- under identifiers given out before, where they were so, whether `accept` fails, `epoll_ctl`
  -- fails or neither does.
  pub handle_accept_event-IsValid :
      (accepted : Option (ℕ × Bytes)) (kept : C) (added : Bool) (now : ℕ) (s : EpollSocket C)
      → IsValid s
      → IsValid (handle_accept_event accepted kept added now s).1
  unfolding handle_accept_event create_client
  handle_accept_event-IsValid none kept added now s v = v
  handle_accept_event-IsValid (some (conn_sock, ip)) kept true now s v = add_new _ s refl v
  handle_accept_event-IsValid (some (conn_sock, ip)) kept false now s v =
      close_and_release-IsValid _ _ (add_new _ s refl v) (
        unfold add_client in
        OrdMap.has-insert (s.g_client_id + 1) (s.g_client_id + 1) _ s.eclients
        ∙ rw (same_key_refl (s.g_client_id + 1)))
