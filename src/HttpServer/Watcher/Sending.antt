-- ===== src/HttpServer/Watcher/Sending.antt =====
-- One call of `on_writeable` on a response whose bytes are generated.
use ehttp.Base.{
  ℕ, ◌≤◌, ◌<◌, ◌≡◌, ap, ◌∙◌, Bool, false, inl, inr, Bool-cases, [], ◌&&◌, ℤ, pos, arith,
  if◌then◌else◌, ltb, ◌==◌, Bytes, length, take, take-take,
}
use ehttp.HttpServer.Watcher.{
  after_send, send_chunk, write_conn_alive, write_conn_close, write_conn_continue,
}
use ehttp.Request.{Request, need_more_status}
use ehttp.Response.Reading.{
  pending, IsReadable, advanced, exhausted, readsome_more, readsome_last, rollback-advanced,
}
use ehttp.Response.{Response, readsome}

module _ {P : Type 0} (init : P) (send : Bytes → ℤ) (is_keepalive : Bool) (req : Request P) where
  after_send_more :
      (res : Response) (n k : ℕ)
      → IsReadable res
      → n ≤ length (pending res)
      → k ≤ n
      → after_send init is_keepalive req
          (take n (pending res))
          n
          need_more_status
          k
          (advanced res n n)
        ≡ record {
          code = write_conn_continue;
          context = record { request = req; response = advanced res k n };
          sent = take k (pending res);
        }
  unfolding after_send
  after_send_more res n k v h le = elim (Bool-cases (ltb k n)) [
    | inl e ↦ rw (e, take-take k n (pending res) le, rollback-advanced res n k v h le)
    | inr e ↦ let all : k ≡ n = ground arith in rw (e, take-take k n (pending res) le, all)
  ]

  chunk_more :
      (res : Response) (n k : ℕ)
      → IsReadable res
      → 0 < n
      → n ≤ length (pending res)
      → send (take n (pending res)) ≡ pos k
      → k ≤ n
      → send_chunk init send is_keepalive req
          (take n (pending res), n, need_more_status, advanced res n n)
        ≡ record {
          code = write_conn_continue;
          context = record { request = req; response = advanced res k n };
          sent = take k (pending res);
        }
  unfolding send_chunk
  chunk_more res n k v some_n h s le =
      let nonzero : (n == 0) ≡ false = ground arith in
      rw (nonzero, s) (after_send_more res n k v h le)

  -- A chunk of `n` bytes with as many left, of which the socket takes `k`.
  pub send_more :
      (res : Response) (n k : ℕ)
      → IsReadable res
      → 0 < n
      → n ≤ length (pending res)
      → send (take n (pending res)) ≡ pos k
      → k ≤ n
      → send_chunk init send is_keepalive req (readsome res n) ≡ record {
        code = write_conn_continue;
        context = record { request = req; response = advanced res k n };
        sent = take k (pending res);
      }
  send_more res n k v some_n h s le =
      ap (send_chunk init send is_keepalive req) (readsome_more res n v h)
      ∙ chunk_more res n k v some_n h s le

  -- The code that ends a response: the connection stays open if the client asked for it and some
  -- byte went out.
  abbrev pub last_code : ℕ → ℤ
  last_code k = if is_keepalive && ltb 0 k then write_conn_alive else write_conn_close

  chunk_last :
      (chunk : Bytes) (res : Response) (k : ℕ)
      → 0 < length chunk
      → send chunk ≡ pos k
      → let w = send_chunk init send is_keepalive req (chunk, length chunk, pos 0, res) in
        (w.code ≡ last_code k) × (w.sent ≡ take k chunk)
  unfolding send_chunk after_send
  chunk_last chunk res k some_left s =
      let nonzero : (length chunk == 0) ≡ false = ground arith in
      elim (Bool-cases (is_keepalive && ltb 0 k)) [
        | inl e ↦ (rw (nonzero, s, e), rw (nonzero, s, e))
        | inr e ↦ (rw (nonzero, s, e), rw (nonzero, s, e))
      ]

  -- The last chunk, of which the socket takes `k` bytes.
  pub send_last :
      (res : Response) (n k : ℕ)
      → IsReadable res
      → length (pending res) < n
      → 0 < length (pending res)
      → send (pending res) ≡ pos k
      → let w = send_chunk init send is_keepalive req (readsome res n) in
        (w.code ≡ last_code k) × (w.sent ≡ take k (pending res))
  send_last res n k v h some_left s =
      let end = chunk_last (pending res) (exhausted res) k some_left s in
      let run = ap (send_chunk init send is_keepalive req) (readsome_last res n v h) in
      (ap (λ w. w.code) run ∙ end.0, ap (λ w. w.sent) run ∙ end.1)

  chunk_nothing :
      (chunk : Bytes) (res : Response)
      → length chunk ≡ 0
      → let w = send_chunk init send is_keepalive req (chunk, length chunk, pos 0, res) in
        (w.code ≡ write_conn_close) × (w.sent ≡ [])
  unfolding send_chunk
  chunk_nothing chunk res none_left = (rw none_left, rw none_left)

  -- Nothing left: the connection is closed.
  pub send_nothing :
      (res : Response) (n : ℕ)
      → IsReadable res
      → 0 < n
      → length (pending res) ≡ 0
      → let w = send_chunk init send is_keepalive req (readsome res n) in
        (w.code ≡ write_conn_close) × (w.sent ≡ [])
  send_nothing res n v some_n none_left =
      let short : length (pending res) < n = omega arith in
      let run = ap (send_chunk init send is_keepalive req) (readsome_last res n v short) in
      let end = chunk_nothing (pending res) (exhausted res) none_left in
      (ap (λ w. w.code) run ∙ end.0, ap (λ w. w.sent) run ∙ end.1)
