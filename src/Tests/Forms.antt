-- ===== src/Tests/Forms.antt =====
-- The parsing of a posted form at concrete bytes.
use ehttp.Base.{ℕ, ◌≡◌, refl, List, [], ◌∷◌, ◌++◌, some, pos, arith, Bytes, codes}
use ehttp.HttpServer.Method.{post_method, allows}
use ehttp.HttpServer.Routes.Laws.{Mapping, method_handler, add_mapping, run_mapping}
use ehttp.HttpServer.Routes.{ResourceMap}
use ehttp.HttpServer.Watcher.Answering.{on_readable-form}
use ehttp.HttpServer.Watcher.{new_context, got, read_over, on_readable}
use ehttp.Request.Form.{form_type}
use ehttp.Request.Headers.{header_of}
use ehttp.Request.Parse.{parse_request}
use ehttp.Request.Post.{parse_request-form}
use ehttp.Request.{
  Request, new_request, get_header, get_method, get_param, get_params, get_request_uri,
  set_client_ip,
}
use ehttp.RequestParam.Lookup.{values, first_or_empty}
use ehttp.RequestParam.Query.{query_pairs}
use ehttp.Response.{new_response, status_ok, crlf}
use ehttp.Std.OrdMap
use ehttp.Std.Order.{bytes_ord}
use ehttp.Std.Stream.{before, after}
use ehttp.StringUtils.{ss_str_tolower, tolower}
use ehttp.Tests.Parsers.{form_parser}
use ehttp.Tests.Requests.{no_parts, post_info}

abbrev type_header : Bytes × Bytes
type_header = (codes "Content-Type", form_type)

abbrev length_header : Bytes × Bytes
length_header = (codes "Content-Length", codes "11")

abbrev form_text : Bytes
form_text = codes "a=1&b=2&a=3"

abbrev form_tail : Bytes
form_tail =
    codes "OST /x?y=1 HTTP/1.1"
    ++ (crlf
        ++ (codes "Content-Type: application/x-www-form-urlencoded"
            ++ (crlf ++ (codes "Content-Length: 11" ++ (crlf ++ (crlf ++ form_text))))))

abbrev form_bytes : Bytes
form_bytes = b'P' ∷ form_tail

-- A handler that answers with a parameter.
abbrev echo : Mapping ℕ (Unit {0})
echo = method_handler (λ req res. (req, record res { body = get_param req (codes "a") }))

abbrev write : Unit {0} → Bytes
write v = codes "null"

abbrev no_routes : ResourceMap ℕ (Unit {0})
no_routes = []

parse_request-form_example :
    (r : Request ℕ) × (parse_request no_parts form_parser form_bytes (new_request 0)
      ≡ some (pos 0, r))
    × (get_method r ≡ codes "POST")
    × (get_request_uri r ≡ before b'?' (codes "/x?y=1"))
    × ((name : Bytes) → get_param r name ≡ first_or_empty (values name (query_pairs form_text)))
    × ((name : Bytes) (out : List Bytes)
        → get_params r name out ≡ out ++ values name (query_pairs form_text))
    × ((name : Bytes) → (get_header r name).0 ≡ header_of name (type_header ∷ length_header ∷ []))
unfolding before after ss_str_tolower tolower
parse_request-form_example =
    parse_request-form no_parts form_parser form_bytes post_info 0 (codes "/x?y=1") type_header
      (length_header ∷ []) form_text
      (
        refl,
        (
          tt,
          (
            refl,
            (
              refl,
              (
                refl,
                (tt, (refl, (refl, (refl, (tt, (refl, (tt, (refl, (tt, (refl, (tt, tt))))))))))),
              ),
            ),
          ),
        ),
      )
      refl (omega arith) refl refl refl refl

on_readable-form_example :
    (r : Request ℕ) × (let handled =
        run_mapping tt write echo (set_client_ip r (codes "::1")) (new_response status_ok) in
      on_readable no_parts form_parser tt write
        (add_mapping no_routes (before b'?' (codes "/x?y=1")) echo post_method).1
        (codes "::1")
        (got b'P' form_tail)
        (new_context 0)
      ≡ some (read_over, record { request = handled.0; response = handled.1 }))
    × ((name : Bytes) → get_param r name ≡ first_or_empty (values name (query_pairs form_text)))
    × ((name : Bytes) (out : List Bytes)
        → get_params r name out ≡ out ++ values name (query_pairs form_text))
    × ((name : Bytes) → (get_header r name).0 ≡ header_of name (type_header ∷ length_header ∷ []))
unfolding before after ss_str_tolower tolower OrdMap.find allows
on_readable-form_example =
    on_readable-form tt write no_parts form_parser no_routes echo post_method (codes "::1") b'P'
      form_tail post_info 0 (codes "/x?y=1") type_header (length_header ∷ []) form_text
      (
        refl,
        (
          tt,
          (
            refl,
            (
              refl,
              (
                refl,
                (tt, (refl, (refl, (refl, (tt, (refl, (tt, (refl, (tt, (refl, (tt, tt))))))))))),
              ),
            ),
          ),
        ),
      )
      refl (omega arith) refl refl refl refl refl refl
