-- ===== src/HttpServer/Watcher/Serving.antt =====
-- The event loop of src/epoll_socket.cpp around `on_writeable` of src/http_server.cpp: calls are
-- repeated until a response is over.
use ehttp.Base.{
  ◌>>=◌, ℕ, zero, suc, ◌≤◌, ◌<◌, ◌≡◌, refl, sym, ap, ◌∙◌, Bool, true, false, inl, inr, [], ◌∷◌,
  ◌++◌, Option, none, some, Bool-cases, ℤ, pos, same_int, arith, if◌then◌else◌, ltb, Bytes, length,
  take, drop, take-append-drop, take_all, length-drop, length-take,
}
use mathlib.Core.Path.{subst}
use ehttp.HttpServer.Watcher.Delivery.{
  ready, ready_fresh, ready_written, ready-is_writed, on_writeable_chunk, on_writeable_ends,
  on_writeable_closes,
}
use ehttp.HttpServer.Watcher.Sending.{send_more}
use ehttp.HttpServer.Watcher.{
  HttpContext, keepalive, on_writeable, write_conn_alive, write_conn_close, write_conn_continue,
  ss_write_buffer_size,
}
use ehttp.Response.Reading.{pending, IsReadable, advanced, pending-advanced, advanced-IsReadable}
use ehttp.Response.Layout.{render_lines, head_lines}
use ehttp.Response.Output.{empty_stream}
use ehttp.Response.{crlf}

-- A socket that takes some byte of each chunk, and the whole of a chunk that does not fill the
-- buffer.
pub record IsSteady (send : ℕ → Bytes → ℤ) : Type 0 where
  pub takes :
      (i : ℕ) (chunk : Bytes)
      → length chunk ≡ ss_write_buffer_size
      → (k : ℕ) × (send i chunk ≡ pos k) × (0 < k) × (k ≤ ss_write_buffer_size)
  pub takes_last :
      (i : ℕ) (chunk : Bytes)
      → length chunk < ss_write_buffer_size
      → send i chunk ≡ pos (length chunk)

length_zero : (b : Bytes) → length b ≡ 0 → b ≡ []
length_zero [] h = refl
length_zero (c ∷ b) h = absurd (omega (arith, h))

not_continued :
    (b : Bool)
    → same_int (if b then write_conn_alive else write_conn_close) write_conn_continue ≡ false
not_continued true = refl
not_continued false = refl

module _ {P : Type 0} where
  -- The event loop on a connection that stays writable: `on_writeable` is called while it asks for
  -- it, at most `fuel` times. The result is what was sent and the last code.
  unfoldable pub serve : P → (ℕ → Bytes → ℤ) → ℕ → HttpContext P → Option (Bytes × ℤ)
  serve init send zero ctx = none
  serve init send (suc fuel) ctx =
      let w = on_writeable init (send fuel) ctx in
      let rest = serve init send fuel w.context in
      if same_int w.code write_conn_continue
      then (rest >>= λ r. some (w.sent ++ r.0, r.1))
      else some (w.sent, w.code)

  serve_over :
      (init : P) (send : ℕ → Bytes → ℤ) (fuel : ℕ) (ctx : HttpContext P)
      → same_int (on_writeable init (send fuel) ctx).code write_conn_continue ≡ false
      → serve init send (suc fuel) ctx
        ≡ some ((on_writeable init (send fuel) ctx).sent, (on_writeable init (send fuel) ctx).code)
  unfolding serve
  serve_over init send fuel ctx h = rw h

  serve_goes_on :
      (init : P) (send : ℕ → Bytes → ℤ) (fuel : ℕ) (ctx : HttpContext P) (sent : Bytes)
      (next : HttpContext P) (rest : Bytes) (code : ℤ)
      → on_writeable init (send fuel) ctx
        ≡ record { code = write_conn_continue; context = next; sent = sent }
      → serve init send fuel next ≡ some (rest, code)
      → serve init send (suc fuel) ctx ≡ some (sent ++ rest, code)
  unfolding serve
  serve_goes_on init send fuel ctx sent next rest code h r = rw (h, r)

  -- A full chunk, of which the socket takes `k` bytes.
  continued :
      (init : P) (send : Bytes → ℤ) (ctx : HttpContext P) (k : ℕ)
      → IsReadable (ready ctx)
      → ss_write_buffer_size ≤ length (pending (ready ctx))
      → send (take ss_write_buffer_size (pending (ready ctx))) ≡ pos k
      → k ≤ ss_write_buffer_size
      → on_writeable init send ctx ≡ record {
        code = write_conn_continue;
        context = record {
          request = (keepalive ctx.request).1;
          response = advanced (ready ctx) k ss_write_buffer_size;
        };
        sent = take k (pending (ready ctx));
      }
  continued init send ctx k v h s le =
      on_writeable_chunk init send ctx
      ∙ send_more init send (keepalive ctx.request).0 (keepalive ctx.request).1 (ready ctx)
          ss_write_buffer_size k v (omega arith) h s le

  -- The last chunk, of which the socket takes everything.
  ended :
      (init : P) (send : Bytes → ℤ) (ctx : HttpContext P)
      → IsReadable (ready ctx)
      → length (pending (ready ctx)) < ss_write_buffer_size
      → send (pending (ready ctx)) ≡ pos (length (pending (ready ctx)))
      → let w = on_writeable init send ctx in
        (same_int w.code write_conn_continue ≡ false) × (w.sent ≡ pending (ready ctx))
  ended init send ctx v h s =
      let left = pending (ready ctx) in
      elim (Bool-cases (ltb 0 (length left))) [
        | inl some_left ↦
            let end = on_writeable_ends init send ctx (length left) v h (ground arith) s in
            (
              ap (λ c. same_int c write_conn_continue) (end.0) ∙ not_continued _,
              end.1 ∙ take_all (length left) left (omega arith),
            )
        | inr none_left ↦
            let none : length left ≡ 0 = ground arith in
            let end = on_writeable_closes init send ctx v none in
            (ap (λ c. same_int c write_conn_continue) (end.0), end.1 ∙ sym (length_zero left none))
      ]

  serve_all :
      (init : P) (send : ℕ → Bytes → ℤ) (fuel : ℕ) (ctx : HttpContext P)
      → IsSteady send
      → IsReadable (ready ctx)
      → length (pending (ready ctx)) < fuel
      → (code : ℤ) × (serve init send fuel ctx ≡ some (pending (ready ctx), code))
  serve_all init send zero ctx steady v h = absurd (omega arith)
  serve_all init send (suc fuel) ctx steady v h =
      let left = pending (ready ctx) in
      elim (Bool-cases (ltb (length left) ss_write_buffer_size)) [
        | inl short ↦
            let s = steady.takes_last fuel left (ground arith) in
            let (over, all) = ended init (send fuel) ctx v (ground arith) s in
            let w = on_writeable init (send fuel) ctx in
            (w.code, serve_over init send fuel ctx over ∙ ap (λ b. some (b, w.code)) all)
        | inr long ↦
            let full : ss_write_buffer_size ≤ length left = ground arith in
            let chunk = take ss_write_buffer_size left in
            let (k, s, some_taken, le) =
              steady.takes fuel chunk (length-take ss_write_buffer_size left ∙ omega arith) in
            let next = (keepalive ctx.request).1 in
            let res = advanced (ready ctx) k ss_write_buffer_size in
            let again : HttpContext P = record { request = next; response = res } in
            let same = ready_written again (ready-is_writed ctx) in
            let moved : pending (ready again) ≡ drop k left =
              ap pending same ∙ pending-advanced (ready ctx) k ss_write_buffer_size in
            let readable : IsReadable (ready again) =
              subst IsReadable (sym same)
                (advanced-IsReadable (ready ctx) k ss_write_buffer_size v (omega arith)) in
            let less : length (pending (ready again)) < fuel =
              omega (arith, ap length moved, length-drop k left) in
            let (code, rest) = serve_all init send fuel again steady readable less in
            (
              code,
              serve_goes_on init send fuel ctx (take k left) again (pending (ready again)) code
                    (continued init (send fuel) ctx k v full s le) rest
                  ∙ ap (λ b. some (b, code))
                      (ap (λ b. take k left ++ b) moved ∙ take-append-drop k left),
            )
      ]

  -- A response that nothing was written for yet, on a socket that takes some byte of each full
  -- chunk and the whole of the last: within one call more than the message has bytes the loop ends,
  -- and has sent the lines of the head, the empty line and the body, each byte once and in order.
  pub serve-fresh :
      (init : P) (send : ℕ → Bytes → ℤ) (fuel : ℕ) (ctx : HttpContext P)
      → IsSteady send
      → ctx.response.is_writed ≡ false
      → ctx.response.res_bytes ≡ empty_stream
      → let (is_keepalive, req) = keepalive ctx.request in
        let message =
          render_lines (head_lines ctx.response req.line.http_version is_keepalive)
          ++ (crlf ++ ctx.response.body) in
        length message < fuel → (code : ℤ) × (serve init send fuel ctx ≡ some (message, code))
  serve-fresh init send fuel ctx steady fresh empty h =
      let (readable, message) = ready_fresh ctx fresh empty in
      let (code, run) =
        serve_all init send fuel ctx steady readable
          (subst (λ b. length b < fuel) (sym message) h) in
      (code, run ∙ ap (λ b. some (b, code)) message)
