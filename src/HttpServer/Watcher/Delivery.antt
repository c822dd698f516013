-- ===== src/HttpServer/Watcher/Delivery.antt =====
-- `on_writeable` of src/http_server.cpp, and its repetition by the event loop until a response is
-- over: which bytes of a response reach the socket.
use ehttp.Base.{
  ℕ, ◌≤◌, ◌<◌, ◌≡◌, refl, ap, ◌∙◌, Bool, true, false, not, inl, inr, [], ◌++◌, Bool-cases, ◌&&◌, ℤ,
  pos, arith, if◌then◌else◌, ltb, Bytes, length, take, take-append-drop,
}
use ehttp.HttpServer.Watcher.Sending.{send_more, send_last, send_nothing}
use ehttp.HttpServer.Watcher.{
  HttpContext, keepalive, ensure_written, on_writeable, send_chunk, write_conn_alive,
  write_conn_close, write_conn_continue, ss_write_buffer_size,
}
use ehttp.Response.Layout.{render_lines, head_lines, gen_response_bytes, written}
use ehttp.Response.Output.{empty_stream}
use ehttp.Response.Reading.{pending, IsReadable, pending-advanced}
use ehttp.Response.{Response, crlf, gen_response, readsome}

filled : (r : Response) (b : Bytes) → r.res_bytes ≡ written b → IsReadable r × (pending r ≡ b)
filled r b e = (
  record {
    not_eof = ap (λ s. s.eof) e;
    not_failed = ap (λ s. s.failed) e;
    within = rw e (omega arith);
  },
  rw e refl,
)

ensure_written_fresh :
    (version : Bytes) (is_keepalive : Bool) (r : Response)
    → r.is_writed ≡ false
    → ensure_written version is_keepalive r
      ≡ record ((gen_response r version is_keepalive).1) { is_writed = true }
unfolding ensure_written
ensure_written_fresh version is_keepalive r fresh =
    ap
      (λ b.
        if not b then record ((gen_response r version is_keepalive).1) { is_writed = true } else r)
      fresh

module _ {P : Type 0} where
  -- The response that a call of `on_writeable` reads from.
  abbrev pub ready : HttpContext P → Response
  ready ctx =
      let (is_keepalive, req) = keepalive ctx.request in
      ensure_written req.line.http_version is_keepalive ctx.response

  pub on_writeable_chunk :
      (init : P) (send : Bytes → ℤ) (ctx : HttpContext P)
      → on_writeable init send ctx
        ≡ send_chunk init send
            (keepalive ctx.request).0
            (keepalive ctx.request).1
            (readsome (ready ctx) ss_write_buffer_size)
  unfolding on_writeable
  on_writeable_chunk init send ctx = refl

  -- With at least a buffer full of bytes to be sent from a stream that is good, of which the
  -- socket takes `k`: the call asks to be called again, and the bytes sent and those still to be
  -- sent are the bytes that were to be sent.
  pub on_writeable_continues :
      (init : P) (send : Bytes → ℤ) (ctx : HttpContext P) (k : ℕ)
      → IsReadable (ready ctx)
      → ss_write_buffer_size ≤ length (pending (ready ctx))
      → send (take ss_write_buffer_size (pending (ready ctx))) ≡ pos k
      → k ≤ ss_write_buffer_size
      → let w = on_writeable init send ctx in
        (w.code ≡ write_conn_continue)
        × (w.sent ++ pending w.context.response ≡ pending (ready ctx))
  on_writeable_continues init send ctx k v h s le =
      let res = ready ctx in
      let run =
        on_writeable_chunk init send ctx
        ∙ send_more init send (keepalive ctx.request).0 (keepalive ctx.request).1 res
            ss_write_buffer_size k v (omega arith) h s le in
      (
        ap (λ w. w.code) run,
        ap (λ w. w.sent ++ pending w.context.response) run
            ∙ ap (λ b. take k (pending res) ++ b) (pending-advanced res k ss_write_buffer_size)
            ∙ take-append-drop k (pending res),
      )

  -- With fewer bytes to be sent than fill the buffer, and some, from a stream that is good, of
  -- which the socket takes `k`: the call sends the first `k` of them, and its code keeps or closes
  -- the connection and never asks for another call, also where `k` is fewer than were left.
  pub on_writeable_ends :
      (init : P) (send : Bytes → ℤ) (ctx : HttpContext P) (k : ℕ)
      → IsReadable (ready ctx)
      → length (pending (ready ctx)) < ss_write_buffer_size
      → 0 < length (pending (ready ctx))
      → send (pending (ready ctx)) ≡ pos k
      → let w = on_writeable init send ctx in
        (w.code
          ≡ (if (keepalive ctx.request).0 && ltb 0 k then write_conn_alive else write_conn_close))
        × (w.sent ≡ take k (pending (ready ctx)))
  on_writeable_ends init send ctx k v h some_left s =
      let run = on_writeable_chunk init send ctx in
      let end =
        send_last init send (keepalive ctx.request).0 (keepalive ctx.request).1 (ready ctx)
          ss_write_buffer_size k v h some_left s in
      (ap (λ w. w.code) run ∙ end.0, ap (λ w. w.sent) run ∙ end.1)

  pub on_writeable_closes :
      (init : P) (send : Bytes → ℤ) (ctx : HttpContext P)
      → IsReadable (ready ctx)
      → length (pending (ready ctx)) ≡ 0
      → let w = on_writeable init send ctx in (w.code ≡ write_conn_close) × (w.sent ≡ [])
  on_writeable_closes init send ctx v none_left =
      let run = on_writeable_chunk init send ctx in
      let end =
        send_nothing init send (keepalive ctx.request).0 (keepalive ctx.request).1 (ready ctx)
          ss_write_buffer_size v (omega arith) none_left in
      (ap (λ w. w.code) run ∙ end.0, ap (λ w. w.sent) run ∙ end.1)

  -- The bytes generated for a response that has not been written to yet.
  pub ready_fresh :
      (ctx : HttpContext P)
      → ctx.response.is_writed ≡ false
      → ctx.response.res_bytes ≡ empty_stream
      → let (is_keepalive, req) = keepalive ctx.request in
        IsReadable (ready ctx)
        × (pending (ready ctx)
            ≡ render_lines (head_lines ctx.response req.line.http_version is_keepalive)
              ++ (crlf ++ ctx.response.body))
  ready_fresh ctx fresh empty =
      let (is_keepalive, req) = keepalive ctx.request in
      let version = req.line.http_version in
      filled (ready ctx) _ (
        ap (λ r. r.res_bytes) (ensure_written_fresh version is_keepalive ctx.response fresh)
        ∙ gen_response_bytes ctx.response version is_keepalive empty)

  pub ready_written :
      (ctx : HttpContext P) → ctx.response.is_writed ≡ true → ready ctx ≡ ctx.response
  unfolding ensure_written
  ready_written ctx h = rw h

  pub ready-is_writed : (ctx : HttpContext P) → (ready ctx).is_writed ≡ true
  unfolding ensure_written
  ready-is_writed ctx = elim (Bool-cases ctx.response.is_writed) [
    | inl e ↦ ap (λ r. r.is_writed) (ready_written ctx e) ∙ e
    | inr e ↦ rw e
  ]
