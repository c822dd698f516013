-- ===== src/EpollSocket/Idle.antt =====
-- `clear_idle_clients` of src/epoll_socket.cpp closes the idle clients and no other.
use ehttp.EpollSocket.Clients.{IsKnown, IsValid}
use ehttp.Base.{
  ℕ, suc, ◌≡◌, refl, sym, ap, ◌∙◌, Bool, true, false, not, inl, inr, Bool-cases, List, [], ◌∷◌, pos,
  is_zero, ◌&&◌, arith, All, ◌==◌, length, keep, is_empty,
}
use mathlib.Core.Path.{subst}
use ehttp.EpollSocket.{
  EpollContext, EpollSocket, is_reject_conn, remove_client, stop_if_empty, close_and_release,
  is_idle, close_all, clear_idle, clear_idle_clients,
}
use ehttp.Std.OrdMap
use ehttp.Std.Order.{nat_ord, same_key_refl}

module _ {C : Type 0} where
  -- The identifiers of some entries, erased one after the other.
  erase_all : List (ℕ × EpollContext C) → List (ℕ × EpollContext C) → List (ℕ × EpollContext C)
  erase_all [] m = m
  erase_all ((k, ctx) ∷ entries) m = erase_all entries (OrdMap.erase k m)

  erase_all-Above :
      (j : ℕ) (w : EpollContext C) (entries m : List (ℕ × EpollContext C))
      → OrdMap.Above j entries
      → erase_all entries ((j, w) ∷ m) ≡ (j, w) ∷ erase_all entries m
  unfolding erase_all OrdMap.erase
  erase_all-Above j w [] m h = refl
  erase_all-Above j w ((k, ctx) ∷ entries) m h =
      rw h.0 (erase_all-Above j w entries (OrdMap.erase k m) h.1)

  keep-Above :
      (test : ℕ × EpollContext C → Bool) (j : ℕ) (m : List (ℕ × EpollContext C))
      → OrdMap.Above j m
      → OrdMap.Above j (keep test m)
  keep-Above test j [] h = tt
  keep-Above test j ((k, ctx) ∷ m) h = elim (Bool-cases (test (k, ctx))) [
    | inl e ↦ rw e (h.0, keep-Above test j m h.1)
    | inr e ↦ rw e (keep-Above test j m h.1)
  ]

  erase_head :
      (k : ℕ) (ctx : EpollContext C) (m : List (ℕ × EpollContext C))
      → OrdMap.erase k ((k, ctx) ∷ m) ≡ m
  unfolding OrdMap.erase
  erase_head k ctx m = rw (same_key_refl k)

  erase_all-keep :
      (test : ℕ × EpollContext C → Bool) (m : List (ℕ × EpollContext C))
      → OrdMap.IsSorted m
      → erase_all (keep test m) m ≡ keep (λ entry. not (test entry)) m
  unfolding erase_all OrdMap.erase
  erase_all-keep test [] h = refl
  erase_all-keep test ((k, ctx) ∷ m) h = elim (Bool-cases (test (k, ctx))) [
    | inl e ↦ rw e (ap (erase_all (keep test m)) (erase_head k ctx m) ∙ erase_all-keep test m h.1)
    | inr e ↦ rw e (
        erase_all-Above k ctx (keep test m) m (keep-Above test k m h.0)
        ∙ ap (◌∷◌ (k, ctx)) (erase_all-keep test m h.1))
  ]

  pub stop_if_empty-eclients : (s : EpollSocket C) → (stop_if_empty s).eclients ≡ s.eclients
  unfolding stop_if_empty
  stop_if_empty-eclients s = elim (Bool-cases (is_zero s.clients && is_reject_conn s.status)) [
    | inl e ↦ rw e
    | inr e ↦ rw e
  ]

  close_all-erase_all :
      (entries : List (ℕ × EpollContext C)) (last : ℕ) (s : EpollSocket C)
      → All (IsKnown last) entries
      → (close_all entries s).eclients ≡ erase_all entries s.eclients
  unfolding close_all erase_all close_and_release remove_client
  close_all-erase_all [] last s h = refl
  close_all-erase_all ((k, ctx) ∷ entries) last s h =
      close_all-erase_all entries last _ h.1
      ∙ ap (erase_all entries) (
          stop_if_empty-eclients (remove_client ctx s)
          ∙ ap (λ i. OrdMap.erase i s.eclients) (sym h.0.0))

  keep-All :
      (test : ℕ × EpollContext C → Bool) (last : ℕ) (m : List (ℕ × EpollContext C))
      → All (IsKnown last) m
      → All (IsKnown last) (keep test m)
  keep-All test last [] h = tt
  keep-All test last ((k, ctx) ∷ m) h = elim (Bool-cases (test (k, ctx))) [
    | inl e ↦ rw e (h.0, keep-All test last m h.1)
    | inr e ↦ rw e (keep-All test last m h.1)
  ]

  no_entries : (m : List (ℕ × EpollContext C)) → is_empty m ≡ true → m ≡ []
  no_entries [] h = refl
  no_entries (x ∷ m) h = absurd (ground arith)

  cleared :
      (now sec : ℕ) (s : EpollSocket C)
      → IsValid s
      → let idle = λ (entry : ℕ × EpollContext C). is_idle now (suc sec) entry.1 in
        let r = clear_idle now (pos (suc sec)) s in
        (r.0 ≡ pos (length (keep idle s.eclients)))
        × ((r.1).eclients ≡ keep (λ entry. not (idle entry)) s.eclients)
  unfolding clear_idle
  cleared now sec s v =
      let idle = λ (entry : ℕ × EpollContext C). is_idle now (suc sec) entry.1 in
      let some_time : (suc sec == 0) ≡ false = ground arith in
      elim (Bool-cases (is_empty s.eclients)) [
        | inl e ↦
            let none = no_entries s.eclients e in
            rw (some_time, e)
              (
                sym (ap (λ m. pos (length (keep idle m))) none),
                none ∙ sym (ap (keep (λ entry. not (idle entry))) none),
              )
        | inr e ↦
            rw (some_time, e)
              (
                refl,
                close_all-erase_all (keep idle s.eclients) s.g_client_id s
                      (keep-All idle s.g_client_id s.eclients v.known)
                    ∙ erase_all-keep idle s.eclients v.sorted,
              )
      ]

  -- With a positive idle time, and a map that is sorted and has its clients under their
  -- identifiers, clearing returns the number of clients that were idle, and the clients that stay
  -- are those that were not, in their order.
  pub clear_idle_clients-keep :
      (now sec : ℕ) (s : EpollSocket C)
      → IsValid s
      → s.max_idle_sec ≡ pos (suc sec)
      → let idle = λ (entry : ℕ × EpollContext C). is_idle now (suc sec) entry.1 in
        let r = clear_idle_clients now s in
        (r.0 ≡ pos (length (keep idle s.eclients)))
        × ((r.1).eclients ≡ keep (λ entry. not (idle entry)) s.eclients)
  unfolding clear_idle_clients
  clear_idle_clients-keep now sec s v e =
      subst
        (λ max.
          let idle = λ (entry : ℕ × EpollContext C). is_idle now (suc sec) entry.1 in
          let r = clear_idle now max s in
          (r.0 ≡ pos (length (keep idle s.eclients)))
          × ((r.1).eclients ≡ keep (λ entry. not (idle entry)) s.eclients))
        (sym e) (cleared now sec s v)
