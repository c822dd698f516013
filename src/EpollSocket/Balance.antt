-- ===== src/EpollSocket/Balance.antt =====
-- Changing a context and releasing a client, as the map of the clients of src/epoll_socket.cpp sees it.
use ehttp.Base.{
  ℕ, ◌+◌, ◌≤◌, ◌≡◌, refl, sym, ap, ◌∙◌, Bool, true, false, inl, inr, Bool-cases, List, [], ◌∷◌,
  ◌++◌, Option, none, some, pos, arith, if◌then◌else◌, ◌==◌, length, All,
}
use mathlib.Core.Path.{subst}
use ehttp.EpollSocket.Clients.{IsKnown, IsValid, IsKnown-insert}
use ehttp.EpollSocket.Events.{Interest, update_context}
use ehttp.EpollSocket.Idle.{stop_if_empty-eclients}
use ehttp.EpollSocket.Tasks.{Connections, set_interest}
use ehttp.EpollSocket.{EpollContext, EpollSocket, close_and_release, remove_client}
use ehttp.Std.OrdMap
use ehttp.Std.Order.{nat_ord, same_key, same_key→eq}

abbrev pub one_if : Bool → ℕ
one_if true = 1
one_if false = 0

-- How many tasks a client has.
abbrev pub count : ℕ → List (ℕ × Interest) → ℕ
count id [] = 0
count id ((j, k) ∷ tasks) = one_if (j == id) + count id tasks

abbrev pub waits : Option Interest → ℕ
waits none = 0
waits (some i) = 1

pub count-append :
    (id : ℕ) (xs ys : List (ℕ × Interest)) → count id (xs ++ ys) ≡ count id xs + count id ys
count-append id [] ys = omega arith
count-append id ((j, k) ∷ xs) ys = omega (arith, count-append id xs ys)

pub same_key_nat : (i j : ℕ) → same_key i j ≡ (i == j)
same_key_nat i j = ground arith

pub ==_refl : (i : ℕ) → (i == i) ≡ true
==_refl i = ground arith

pub eq_of : (i j : ℕ) → (i == j) ≡ true → i ≡ j
eq_of i j h = ground arith

pub some_inj : {A : Type 0} {a b : A} → some a ≡ some b → a ≡ b
some_inj {a = a} h = ap (λ o. elim o [ none ↦ a | some x ↦ x ]) h

module _ {C : Type 0} where
  -- Each client waits for one event or has one task, and who is no client does neither.
  abbrev pub IsBalanced : Connections C → ℕ → Type 0
  IsBalanced cs id =
      count id cs.tasks + waits (cs.interests id) ≡ one_if (OrdMap.has id cs.socket.eclients)

  pub find-IsKnown :
      (last id : ℕ) (ctx : EpollContext C) (m : List (ℕ × EpollContext C))
      → All (IsKnown last) m
      → OrdMap.find id m ≡ some ctx
      → (ctx.id ≡ id) × (id ≤ last)
  unfolding OrdMap.find
  find-IsKnown last id ctx [] v e = ground arith
  find-IsKnown last id ctx ((k, c) ∷ m) v e = elim (Bool-cases (same_key k id)) [
    | inl same ↦
        let found : c ≡ ctx = some_inj (rw same at e) in
        let key = same_key→eq k id same in
        (sym (ap (λ c. c.id) found) ∙ sym v.0.0 ∙ key, subst (λ n. n ≤ last) key v.0.1)
    | inr other ↦ find-IsKnown last id ctx m v.1 (rw other at e)
  ]

  pub update_context-IsValid :
      (ctx : EpollContext C) (s : EpollSocket C)
      → IsValid s
      → OrdMap.has ctx.id s.eclients ≡ true
      → ctx.id ≤ s.g_client_id
      → IsValid (update_context ctx s)
  update_context-IsValid ctx s v here old = record {
    counted =
        v.counted
        ∙ ap pos (
            sym (
              OrdMap.length-insert ctx.id ctx s.eclients v.sorted
              ∙ ap (λ b. if b then length s.eclients else length s.eclients + 1) here));
    sorted = OrdMap.insert-IsSorted ctx.id ctx s.eclients v.sorted;
    known = IsKnown-insert s.g_client_id ctx s.eclients old v.known;
  }

  pub has-update_context :
      (ctx : EpollContext C) (s : EpollSocket C) (j : ℕ)
      → OrdMap.has ctx.id s.eclients ≡ true
      → OrdMap.has j (update_context ctx s).eclients ≡ OrdMap.has j s.eclients
  has-update_context ctx s j here =
      OrdMap.has-insert ctx.id j ctx s.eclients ∙ elim (Bool-cases (same_key ctx.id j)) [
        | inl e ↦
            rw e (sym (ap (λ k. OrdMap.has k s.eclients) (sym (same_key→eq ctx.id j e)) ∙ here))
        | inr e ↦ rw e
      ]

  pub has-close_and_release :
      (ctx : EpollContext C) (s : EpollSocket C) (j : ℕ)
      → OrdMap.IsSorted s.eclients
      → OrdMap.has j (close_and_release ctx s).eclients
        ≡ (if ctx.id == j then false else OrdMap.has j s.eclients)
  unfolding close_and_release remove_client
  has-close_and_release ctx s j v =
      ap (OrdMap.has j) (stop_if_empty-eclients (remove_client ctx s))
      ∙ ap OrdMap.is_some (OrdMap.find-erase ctx.id j s.eclients v)
      ∙ ap (λ b. OrdMap.is_some (if b then none else OrdMap.find j s.eclients))
          (same_key_nat ctx.id j)
      ∙ some_if (ctx.id == j) (OrdMap.find j s.eclients)
    where
      some_if :
          {A : Type 0} (b : Bool) (o : Option A)
          → OrdMap.is_some (if b then none else o) ≡ (if b then false else OrdMap.is_some o)
      some_if true o = refl
      some_if false o = refl

  -- A step that changes the tasks, the event and the place in the map of one client.
  pub rebalance :
      (id : ℕ) (i : Option Interest) (cs next : Connections C)
      → ((j : ℕ) → IsBalanced cs j)
      → next.interests ≡ set_interest id i cs.interests
      → ((j : ℕ)
          → (id == j) ≡ false
          → (count j next.tasks ≡ count j cs.tasks)
            × (OrdMap.has j next.socket.eclients ≡ OrdMap.has j cs.socket.eclients))
      → count id next.tasks + waits i ≡ one_if (OrdMap.has id next.socket.eclients)
      → (j : ℕ) → IsBalanced next j
  rebalance id i cs next bal e others self j = elim (Bool-cases (id == j)) [
    | inl same ↦ subst (IsBalanced next) (eq_of id j same) (
        ap (λ f. count id next.tasks + waits (f id)) e
        ∙ ap (λ b. count id next.tasks + waits (if b then i else cs.interests id)) (==_refl id)
        ∙ self)
    | inr other ↦
        let (tasks, clients) = others j other in
        ap (λ f. count j next.tasks + waits (f j)) e
        ∙ ap (λ b. count j next.tasks + waits (if b then i else cs.interests j)) other
        ∙ ap (λ n. n + waits (cs.interests j)) tasks
        ∙ bal j
        ∙ ap one_if (sym clients)
  ]
