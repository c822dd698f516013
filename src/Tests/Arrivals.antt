-- ===== src/Tests/Arrivals.antt =====
-- Requests without a body that arrive whole, at concrete bytes.
use ehttp.Base.{ℕ, ◌+◌, ◌≡◌, refl, [], ◌∷◌, ◌++◌, some, pos, arith, Bytes, codes, length}
use ehttp.HttpServer.Method
use ehttp.HttpServer.Method.{allows}
use ehttp.HttpServer.Routes.Laws.{Mapping, method_handler, add_mapping, run_mapping}
use ehttp.HttpServer.Routes.{ResourceMap}
use ehttp.HttpServer.Watcher.Answering.{on_readable-no_length, on_readable-get}
use ehttp.HttpServer.Watcher.{new_context, got, read_close, read_over, on_readable}
use ehttp.Request.Callbacks.{contains}
use ehttp.Request.Get.{query_value, parse_request-get}
use ehttp.Request.Headers.{header_of}
use ehttp.Request.Parse.{headers_complete, message_complete, parse_request}
use ehttp.Request.{
  Request, new_request, get_header, get_method, get_param, get_request_uri, set_client_ip,
}
use ehttp.Response.{new_response, status_ok, crlf}
use ehttp.Std.OrdMap
use ehttp.Std.Order.{bytes_ord}
use ehttp.Std.Stream.{before, after}
use ehttp.StringUtils.{ss_str_tolower, tolower}
use ehttp.Tests.Parsers.{call_at, head_at, get_parser, post_parser}
use ehttp.Tests.Requests.{no_parts, get_info, post_info, host}

abbrev get_tail : Bytes
get_tail = codes "ET /x?a=1 HTTP/1.1" ++ (crlf ++ (codes "Host: h" ++ (crlf ++ crlf)))

abbrev post_tail : Bytes
post_tail = codes "OST /x HTTP/1.1" ++ (crlf ++ (codes "Host: h" ++ (crlf ++ crlf)))

abbrev write : Unit {0} → Bytes
write v = codes "null"

abbrev hello : Mapping ℕ (Unit {0})
hello = method_handler (λ req res. (req, record res { body = codes "hello" }))

abbrev no_routes : ResourceMap ℕ (Unit {0})
no_routes = []

parse_request-get_example :
    (r : Request ℕ) × (parse_request no_parts get_parser (b'G' ∷ get_tail) (new_request 0)
      ≡ some (pos 0, r))
    × (get_method r ≡ codes "GET")
    × (get_request_uri r ≡ before b'?' (codes "/x?a=1"))
    × ((name : Bytes) → get_param r name ≡ query_value (codes "/x?a=1") name)
    × ((name : Bytes) → (get_header r name).0 ≡ header_of name (host ∷ []))
unfolding before after contains ss_str_tolower tolower
parse_request-get_example =
    parse_request-get no_parts get_parser (b'G' ∷ get_tail) get_info 0 (codes "/x?a=1") host []
      (refl, (tt, (refl, (refl, (refl, (tt, (refl, (tt, (refl, (tt, tt)))))))))) refl (omega arith)
      refl refl

on_readable-get_example :
    (r : Request ℕ) × (let handled =
        run_mapping tt write hello (set_client_ip r (codes "::1")) (new_response status_ok) in
      on_readable no_parts get_parser tt write
        (add_mapping no_routes (before b'?' (codes "/x?a=1")) hello Method.get_method).1
        (codes "::1")
        (got b'G' get_tail)
        (new_context 0)
      ≡ some (read_over, record { request = handled.0; response = handled.1 }))
    × ((name : Bytes) → get_param r name ≡ query_value (codes "/x?a=1") name)
    × ((name : Bytes) → (get_header r name).0 ≡ header_of name (host ∷ []))
unfolding before after contains ss_str_tolower tolower OrdMap.find allows
on_readable-get_example =
    on_readable-get tt write no_parts get_parser no_routes hello Method.get_method (codes "::1")
      b'G' get_tail get_info 0 (codes "/x?a=1") host []
      (refl, (tt, (refl, (refl, (refl, (tt, (refl, (tt, (refl, (tt, tt)))))))))) refl (omega arith)
      refl refl refl refl

on_readable-no_length_example :
    (r : Request ℕ) × (on_readable no_parts post_parser tt write no_routes
        (codes "::1")
        (got b'P' post_tail)
        (new_context 0)
      ≡ some (read_close, record { request = r; response = new_response status_ok }))
unfolding before after ss_str_tolower tolower
on_readable-no_length_example =
    on_readable-no_length tt write no_parts post_parser no_routes (codes "::1") b'P' post_tail
      post_info 0 (codes "/x") host [] (head_at post_info (b'P' ∷ post_tail) (host ∷ []))
      (call_at post_info headers_complete (length post_tail))
      (call_at post_info message_complete (length post_tail + 1) ∷ []) refl
      (refl, (tt, (refl, (refl, (refl, (tt, tt)))))) refl (omega arith) (omega arith) refl refl
