-- ===== src/EpollSocket/Effects.antt =====
-- What the handlers of src/epoll_socket.cpp do to the client of an event.
use ehttp.Base.{
  ℕ, ◌≡◌, refl, sym, ap, ◌∙◌, inl, inr, Bool-cases, none, some, ℤ, pos, negsuc, same_int, arith,
}
use mathlib.Core.Path.{subst}
use ehttp.EpollSocket.Balance.{one_if, has-update_context}
use ehttp.EpollSocket.Events.{
  Interest, input, output, update_context, update_interact_time, handle_readable_event,
  handle_writeable_event, multi_thread_handle_read_event,
}
use ehttp.EpollSocket.Held.{
  IsEffect, IsClient, update_context-IsClient, kept-IsEffect, closed-IsEffect,
}
use ehttp.EpollSocket.Tasks.{IsReadResult, multi_thread_handle_write_event}
use ehttp.EpollSocket.{EpollContext, EpollSocket, is_reject_conn, close_and_release}
use ehttp.HttpServer.Watcher.{write_conn_alive, write_conn_close, write_conn_continue}
use ehttp.Std.OrdMap
use ehttp.Std.Order.{nat_ord}

module _ {C : Type 0} where
  same-IsClient :
      (id : ℕ) (ctx ctx' : EpollContext C) (s : EpollSocket C)
      → ctx'.id ≡ ctx.id
      → IsClient id ctx s
      → IsClient id ctx' s
  same-IsClient id ctx ctx' s e v = record {
    valid = v.valid;
    same_id = e ∙ v.same_id;
    given = omega (arith, e, v.given);
    here = ap (λ k. OrdMap.has k s.eclients) e ∙ v.here;
  }

  -- A client that is closed behind a change of its context.
  changed-IsEffect :
      (id : ℕ) (ctx ctx1 ctx2 : EpollContext C) (s : EpollSocket C) (ret : ℤ)
      → ctx1.id ≡ ctx.id
      → ctx2.id ≡ ctx1.id
      → IsClient id ctx s
      → IsEffect id 0 s (record {
        ret = ret;
        interest = none;
        socket = close_and_release ctx2 (update_context ctx1 s);
      })
  changed-IsEffect id ctx ctx1 ctx2 s ret e f v =
      closed-IsEffect id ctx2 s (update_context ctx1 s) ret
        (same-IsClient id ctx1 ctx2 _ f (update_context-IsClient id ctx ctx1 s e v))
        (λ j. has-update_context ctx1 s j (ap (λ k. OrdMap.has k s.eclients) e ∙ v.here))

  untouched-IsEffect :
      (id : ℕ) (ctx : EpollContext C) (s : EpollSocket C) (ret : ℤ) (i : Interest)
      → IsClient id ctx s
      → IsEffect id 0 s (record { ret = ret; interest = some i; socket = s })
  untouched-IsEffect id ctx s ret i v = record {
    valid = v.valid;
    others = λ j d. refl;
    self = sym (ap one_if (ap (λ k. OrdMap.has k s.eclients) (sym v.same_id) ∙ v.here));
  }

  pub multi_thread_handle_read_event-IsEffect :
      (id now : ℕ) (ctx : EpollContext C) (s : EpollSocket C)
      → IsClient id ctx s
      → IsEffect id 1 s (multi_thread_handle_read_event (pos 0) (pos 0) now ctx s)
  unfolding multi_thread_handle_read_event update_interact_time
  multi_thread_handle_read_event-IsEffect id now ctx s v =
      kept-IsEffect id 1 ctx _ s (pos 0) none refl v refl

  pub multi_thread_handle_read_event-refused :
      (id now : ℕ) (shut : ℤ) (ctx : EpollContext C) (s : EpollSocket C)
      → IsClient id ctx s
      → IsEffect id 0 s (multi_thread_handle_read_event (negsuc 0) shut now ctx s)
  unfolding multi_thread_handle_read_event update_interact_time
  multi_thread_handle_read_event-refused id now shut ctx s v =
      changed-IsEffect id ctx _ _ s (pos 0) refl refl v

  pub multi_thread_handle_write_event-IsEffect :
      (id now : ℕ) (ctx : EpollContext C) (s : EpollSocket C)
      → IsClient id ctx s
      → IsEffect id 1 s (multi_thread_handle_write_event (pos 0) (pos 0) now ctx s)
  unfolding multi_thread_handle_write_event update_interact_time
  multi_thread_handle_write_event-IsEffect id now ctx s v =
      kept-IsEffect id 1 ctx _ s (pos 0) none refl v refl

  pub multi_thread_handle_write_event-refused :
      (id now : ℕ) (shut : ℤ) (ctx : EpollContext C) (s : EpollSocket C)
      → IsClient id ctx s
      → IsEffect id 0 s (multi_thread_handle_write_event (negsuc 0) shut now ctx s)
  unfolding multi_thread_handle_write_event update_interact_time
  multi_thread_handle_write_event-refused id now shut ctx s v =
      changed-IsEffect id ctx _ _ s (pos 0) refl refl v

  pub handle_readable_event-IsEffect :
      (id : ℕ) (ret shut : ℤ) (ctx : EpollContext C) (s : EpollSocket C)
      → IsReadResult ret
      → IsClient id ctx s
      → IsEffect id 0 s (handle_readable_event ret shut (pos 0) ctx s)
  unfolding handle_readable_event
  handle_readable_event-IsEffect id ret shut ctx s (inl e) v =
      subst (λ r. IsEffect id 0 s (handle_readable_event r shut (pos 0) ctx s)) (sym e)
        (kept-IsEffect id 0 ctx _ s (pos 0) (some output) refl v refl)
  handle_readable_event-IsEffect id ret shut ctx s (inr (inl e)) v =
      subst (λ r. IsEffect id 0 s (handle_readable_event r shut (pos 0) ctx s)) (sym e)
        (kept-IsEffect id 0 ctx _ s (pos 0) (some input) refl v refl)
  handle_readable_event-IsEffect id ret shut ctx s (inr (inr e)) v =
      subst (λ r. IsEffect id 0 s (handle_readable_event r shut (pos 0) ctx s)) (sym e)
        (closed-IsEffect id ctx s s shut v (λ j. refl))

  pub handle_writeable_event-IsEffect :
      (id : ℕ) (ret shut : ℤ) (ctx : EpollContext C) (s : EpollSocket C)
      → IsClient id ctx s
      → IsEffect id 0 s (handle_writeable_event ret shut ctx s)
  unfolding handle_writeable_event
  handle_writeable_event-IsEffect id ret shut ctx s v =
      let closed = closed-IsEffect id ctx s s shut v (λ j. refl) in
      let asks = λ (i : Interest). untouched-IsEffect id ctx s (pos 0) i v in
      elim (Bool-cases (same_int ret write_conn_close)) [
        | inl e ↦ rw e closed
        | inr e ↦ elim (Bool-cases (same_int ret write_conn_continue)) [
          | inl f ↦ rw (e, f) (asks output)
          | inr f ↦ elim (Bool-cases (same_int ret write_conn_alive)) [
            | inl g ↦ elim (Bool-cases (is_reject_conn s.status)) [
              | inl k ↦ rw (e, f, g, k) closed
              | inr k ↦ rw (e, f, g, k) (asks input)
            ]
            | inr g ↦ rw (e, f, g) (asks output)
          ]
        ]
      ]
