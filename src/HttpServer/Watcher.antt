-- ===== src/HttpServer/Watcher.antt =====
-- `HttpContext` of src/sim_parser.cpp and `HttpEpollWatcher` of src/http_server.cpp: what happens on
-- a connection that can be read or written. The results of `recv` and `send` are arguments. The
-- start time and the access log are left out.
pub mod Sending
pub mod Delivery
pub mod Serving
pub mod Answering
pub mod Reads
use ehttp.Base.{
  ◌>>=◌, ℕ, zero, suc, ◌+◌, ◌-◌, Bool, true, false, not, ◌&&◌, List, [], ◌∷◌, Option, none, some, ℤ,
  pos, negsuc, is_neg, same_int, if◌then◌else◌, ltb, ◌==◌, Bytes, codes, length, take, map,
  same_bytes,
}
use ehttp.HttpServer.Routes.{ResourceMap, handle_request}
use ehttp.Request.Multipart.{MultipartParser}
use ehttp.Request.Parse.{HttpParser, parse_request}
use ehttp.Request.{
  Request, new_request, need_more_status, parse_len_required, get_header, set_client_ip,
}
use ehttp.Response.{
  Response, new_response, status_ok, status_length_required, gen_response, readsome, rollback,
}
use ehttp.Std.Stream.{before}
use ehttp.StringUtils.{same_ignoring_case}

abbrev pub ss_read_buffer_size : ℕ
ss_read_buffer_size = 4096

abbrev pub ss_write_buffer_size : ℕ
ss_write_buffer_size = 4096

abbrev pub write_conn_alive : ℤ
write_conn_alive = pos 0

abbrev pub write_conn_close : ℤ
write_conn_close = pos 1

abbrev pub write_conn_continue : ℤ
write_conn_continue = pos 2

abbrev pub read_over : ℤ
read_over = pos 0

abbrev pub read_continue : ℤ
read_continue = pos 1

abbrev pub read_close : ℤ
read_close = negsuc 0

pub record HttpContext (P : Type 0) : Type 0 where
  pub request : Request P
  pub response : Response

-- `HttpContext(fd)` and `clear()`, on a state that `http_parser_init` made.
abbrev pub new_context : {P : Type 0} → P → HttpContext P
new_context init = record { request = new_request init; response = new_response status_ok }

-- What `recv` gives: at least one byte, an interrupt, an error, or 0 for a closed connection.
pub data Received : Type 0 where
  got : ℕ → Bytes → Received
  interrupted io_error closed : Received

-- What one call of `on_writeable` does: its result, the context behind it, and the chunk that it
-- handed to `send` with the answer, if it came to that.
pub record Written (P : Type 0) : Type 0 where
  pub code : ℤ
  pub context : HttpContext P
  pub sent : Bytes

module _ {P J : Type 0} where
  -- A request that was parsed is handled; the codes of `parse_request` choose the branch.
  unfoldable pub after_parse :
      J → (J → Bytes) → ResourceMap P J → Bytes → Response → ℤ × Request P → ℤ × HttpContext P
  after_parse null write m ip res (ret, req) =
      let handled = handle_request null write m (set_client_ip req ip) res in
      if is_neg ret
      then (read_close, record { request = req; response = res })
      else if same_int ret need_more_status
      then (read_continue, record { request = req; response = res })
      else if same_int ret parse_len_required
      then (
        read_over,
        record {
          request = req;
          response = record res {
            code_msg = status_length_required;
            body = status_length_required.msg;
          };
        },
      )
      else (read_over, record { request = handled.0; response = handled.1 })

  unfoldable pub on_readable :
      MultipartParser
      → HttpParser P
      → J
      → (J → Bytes)
      → ResourceMap P J
      → Bytes
      → Received
      → HttpContext P
      → Option (ℤ × HttpContext P)
  unfolding after_parse
  on_readable mp hp null write m ip interrupted ctx = some (read_continue, ctx)
  on_readable mp hp null write m ip io_error ctx = some (read_close, ctx)
  on_readable mp hp null write m ip closed ctx = some (read_close, ctx)
  on_readable mp hp null write m ip (got c bytes) ctx =
      parse_request mp hp (c ∷ bytes) ctx.request >>= λ r.
      some (after_parse null write m ip ctx.response r)

-- The bytes are generated at the first call for a response.
unfoldable pub ensure_written : Bytes → Bool → Response → Response
ensure_written version is_keepalive res =
    if not res.is_writed
    then record ((gen_response res version is_keepalive).1) { is_writed = true }
    else res

module _ {P : Type 0} where
  -- `is_keepalive`, and the request behind the lookup.
  abbrev pub keepalive : Request P → Bool × Request P
  keepalive req =
      let (connection, req') = get_header req (codes "Connection") in
      (same_ignoring_case connection (codes "keep-alive"), req')

  -- Behind a `send` that took `nwrite` of the `read_size` bytes of the chunk; `ret` is what
  -- `readsome` returned.
  unfoldable pub after_send : P → Bool → Request P → Bytes → ℕ → ℤ → ℕ → Response → Written P
  after_send init is_keepalive req chunk read_size ret nwrite res =
      let res' = if ltb nwrite read_size then (rollback res (read_size - nwrite)).1 else res in
      let sent = take nwrite chunk in
      let ctx : HttpContext P = record { request = req; response = res' } in
      if same_int ret need_more_status
      then record { code = write_conn_continue; context = ctx; sent = sent }
      else if is_keepalive && ltb 0 nwrite
      then record { code = write_conn_alive; context = new_context init; sent = sent }
      else record { code = write_conn_close; context = ctx; sent = sent }

  unfoldable pub send_chunk :
      P → (Bytes → ℤ) → Bool → Request P → Bytes × ℕ × ℤ × Response → Written P
  send_chunk init send is_keepalive req (chunk, read_size, ret, res) =
      let stopped : Written P = record {
        code = write_conn_close;
        context = record { request = req; response = res };
        sent = [];
      } in
      if read_size == 0 then stopped else elim (send chunk) [
        | pos nwrite ↦ after_send init is_keepalive req chunk read_size ret nwrite res
        | negsuc _ ↦ stopped
      ]

  unfoldable pub on_writeable : P → (Bytes → ℤ) → HttpContext P → Written P
  on_writeable init send ctx =
      let (is_keepalive, req) = keepalive ctx.request in
      let res = ensure_written req.line.http_version is_keepalive ctx.response in
      send_chunk init send is_keepalive req (readsome res ss_write_buffer_size)
