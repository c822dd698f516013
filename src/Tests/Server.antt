-- ===== src/Tests/Server.antt =====
-- Routing, answering and sending at concrete inputs.
use ehttp.Base.{
  ℕ, zero, suc, ◌≡◌, refl, true, [], ◌∷◌, ◌++◌, some, ℤ, pos, arith, ltb→lt, Bytes, codes, length,
  take, if◌then◌else◌, ltb, ◌&&◌, ◌||◌,
}
use ehttp.HttpServer.Method
use ehttp.HttpServer.Method.{
  HttpMethod, post_method, options_method, or_method, allows, get_names_str, comma_separated,
  get_names_str-comma_separated, allows-or_method,
}
use ehttp.HttpServer.Routes.Laws.{Mapping, method_handler, add_mapping}
use ehttp.HttpServer.Routes.Refinement.{Table, add_mappings, route, handle_request-route}
use ehttp.HttpServer.Routes.{ResourceMap, handle_request}
use ehttp.StringUtils.{same_ignoring_case}
use ehttp.HttpServer.Watcher.Delivery.{ready, on_writeable_continues, on_writeable_ends}
use ehttp.HttpServer.Watcher.Reads.{
  IsArriving, last_read, one_more, tail_bytes, read_all, read_all-on_readable,
}
use ehttp.Request.Calls.{run_calls}
use ehttp.Request.Parse.{on_http}
use ehttp.RequestLine.{append_request_url}
use ehttp.HttpServer.Watcher.Serving.{IsSteady, serve, serve-fresh}
use ehttp.HttpServer.Watcher.{
  HttpContext, new_context, got, keepalive, ensure_written, on_readable, on_writeable,
  write_conn_alive, write_conn_close, write_conn_continue, ss_write_buffer_size,
}
use ehttp.Request.Callbacks.{ss_on_url}
use ehttp.Request.{Request, new_request, get_header}
use ehttp.Response.Layout.{render_lines, head_lines}
use ehttp.Std.Decimal.{show_int, show_nat, show_fuel}
use ehttp.Response.Layout.{written}
use ehttp.Response.Reading.{pending, IsReadable}
use ehttp.Response.{new_response, status_ok, crlf}
use ehttp.Std.OrdMap
use ehttp.Std.Order.{bytes_ord}
use ehttp.Std.Stream.{before}
use ehttp.StringUtils.{ss_str_tolower, tolower}
use ehttp.Tests.Requests.{no_parts, cut_parser, cut_parser-Continues}

abbrev Nothing : Type 0
Nothing = Unit {0}

abbrev write : Nothing → Bytes
write v = codes "null"

allows-or_method_example :
    allows (or_method Method.get_method post_method) (codes "POST")
    ≡ (allows post_method (codes "POST") || allows Method.get_method (codes "POST"))
allows-or_method_example = allows-or_method Method.get_method post_method (codes "POST")

abbrev hello : Mapping Nothing Nothing
hello = method_handler (λ req res. (req, record res { body = codes "hello" }))

abbrev no_routes : ResourceMap Nothing Nothing
no_routes = []

abbrev routes : ResourceMap Nothing Nothing
routes = (add_mapping no_routes (codes "/x") hello Method.get_method).1

abbrev fresh : Request Nothing
fresh = new_request tt

-- A response on its way, with `n` bytes to be sent.
abbrev repeat : ℕ → Bytes
repeat zero = []
repeat (suc n) = b'x' ∷ repeat n

abbrev sending : ℕ → HttpContext Nothing
sending n = record {
  request = fresh;
  response = record (new_response status_ok) { is_writed = true; res_bytes = written (repeat n) };
}

abbrev readable : (n : ℕ) → IsReadable (sending n).response
readable n = record { not_eof = refl; not_failed = refl; within = omega arith }

on_writeable_ends_example :
    let w = on_writeable tt (λ chunk. pos 2) (sending 3) in
    (w.code ≡ (if (keepalive fresh).0 && ltb 0 2 then write_conn_alive else write_conn_close))
    × (w.sent ≡ take 2 (repeat 3))
unfolding ensure_written
on_writeable_ends_example =
    on_writeable_ends tt (λ chunk. pos 2) (sending 3) 2 (readable 3) (omega arith) (omega arith)
      refl

length-repeat : (n : ℕ) → length (repeat n) ≡ n
length-repeat zero = refl
length-repeat (suc n) = omega (arith, length-repeat n)

on_writeable_continues_example :
    let w = on_writeable tt (λ chunk. pos 5) (sending ss_write_buffer_size) in
    (w.code ≡ write_conn_continue)
    × (w.sent ++ pending w.context.response ≡ pending (ready (sending ss_write_buffer_size)))
unfolding ensure_written
on_writeable_continues_example =
    on_writeable_continues tt (λ chunk. pos 5) (sending ss_write_buffer_size) 5
      (readable ss_write_buffer_size) (omega (arith, length-repeat ss_write_buffer_size)) refl
      (omega arith)

-- A socket that takes everything.
abbrev socket : ℕ → Bytes → ℤ
socket i chunk = pos (length chunk)

socket-IsSteady : IsSteady socket
socket-IsSteady = record {
  takes = λ i chunk h. (length chunk, refl, omega (arith, h), omega (arith, h));
  takes_last = λ i chunk h. refl;
}

abbrev answered : HttpContext Nothing
answered = record {
  request = fresh;
  response = record (new_response status_ok) { body = codes "hi" };
}

serve-fresh_example :
    (code : ℤ) × (serve tt socket 1000 answered
      ≡ some (
        render_lines (
              head_lines answered.response
                (keepalive fresh).1.line.http_version
                (keepalive fresh).0)
            ++ (crlf ++ codes "hi"),
        code,
      ))
unfolding head_lines show_int show_nat show_fuel get_header same_ignoring_case OrdMap.find before
    ss_str_tolower tolower
serve-fresh_example =
    serve-fresh tt socket 1000 answered socket-IsSteady refl refl (ltb→lt _ 1000 refl)

abbrev table : Table Nothing Nothing
table =
    (codes "/x", (hello, Method.get_method))
    ∷ (codes "/y", (hello, post_method))
    ∷ (codes "/x", (hello, post_method))
    ∷ []

handle_request-route_example :
    handle_request tt write (add_mappings [] table) fresh (new_response status_ok)
    ≡ route tt write table fresh (new_response status_ok)
handle_request-route_example = handle_request-route tt write table fresh (new_response status_ok)

abbrev behind_first : Request Nothing
behind_first = record fresh { line = append_request_url fresh.line (codes "/x") }

cut_request-IsArriving :
    IsArriving no_parts cut_parser (b'G', codes "ET /x") ((b'?', codes "a=1 HTTP/1.1") ∷ []) fresh
unfolding run_calls on_http ss_on_url
cut_request-IsArriving =
    one_more (b'G', codes "ET /x") (b'?', codes "a=1 HTTP/1.1") [] fresh behind_first
      cut_parser-Continues refl refl refl (omega arith) (last_read _ _)

read_all-on_readable_example :
    read_all no_parts cut_parser tt write no_routes
      (codes "::1")
      (b'G', codes "ET /x")
      ((b'?', codes "a=1 HTTP/1.1") ∷ [])
      (new_context tt)
    ≡ on_readable no_parts cut_parser tt write no_routes
        (codes "::1")
        (got b'G' (tail_bytes (b'G', codes "ET /x") ((b'?', codes "a=1 HTTP/1.1") ∷ [])))
        (new_context tt)
read_all-on_readable_example =
    read_all-on_readable no_parts cut_parser tt write no_routes (codes "::1") (b'G', codes "ET /x")
      ((b'?', codes "a=1 HTTP/1.1") ∷ []) (new_context tt) cut_request-IsArriving
