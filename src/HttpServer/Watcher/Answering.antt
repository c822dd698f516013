-- ===== src/HttpServer/Watcher/Answering.antt =====
-- `HttpEpollWatcher::on_readable` of src/http_server.cpp: from the bytes of a request to the
-- handler that answers it.
use ehttp.Base.{
  ℕ, ◌<◌, ◌≤◌, ◌≡◌, ap, ◌∙◌, true, false, List, [], ◌∷◌, some, pos, negsuc, Bytes, codes,
  same_bytes, same_bytes_refl, length, is_empty, ◌++◌,
}
use ehttp.HttpServer.Method.{HttpMethod, allows}
use ehttp.HttpServer.Routes.Laws.{Mapping, add_mapping, run_mapping, handle_request-add_mapping}
use ehttp.HttpServer.Routes.{ResourceMap, handle_request}
use ehttp.HttpServer.Watcher.{
  HttpContext, new_context, got, read_over, read_close, after_parse, on_readable,
}
use ehttp.Request.Accepted.{request_events}
use ehttp.Request.Callbacks.{ParserInfo, contains}
use ehttp.Request.Form.{form_type}
use ehttp.Request.Get.{query_value, parse_request-get}
use ehttp.Request.Headers.{header_of}
use ehttp.Request.Multipart.{MultipartParser}
use ehttp.Request.Parse.{url, headers_complete, HttpCall, HttpParser, parse_request}
use ehttp.Request.Passing.{header_events, Leads}
use ehttp.Request.Post.{post_events, parse_request-form}
use ehttp.Request.Rejected.{parse_request-no_length}
use ehttp.Request.{
  Request, max_req_size, get_header, get_method, get_param, get_params, get_request_uri,
  set_client_ip, new_request,
}
use ehttp.RequestParam.Lookup.{values, first_or_empty}
use ehttp.RequestParam.Query.{query_pairs}
use ehttp.Response.{Response, new_response, status_ok}
use ehttp.Std.OrdMap
use ehttp.Std.Order.{bytes_ord}
use ehttp.Std.Stream.{before}

module _ {P J : Type 0} (null : J) (write : J → Bytes) where
  parsed_over :
      (mp : MultipartParser) (hp : HttpParser P) (m : ResourceMap P J) (ip : Bytes) (c : ℕ)
      (bytes : Bytes) (ctx : HttpContext P) (r : Request P)
      → parse_request mp hp (c ∷ bytes) ctx.request ≡ some (pos 0, r)
      → let handled = handle_request null write m (set_client_ip r ip) ctx.response in
        on_readable mp hp null write m ip (got c bytes) ctx
        ≡ some (read_over, record { request = handled.0; response = handled.1 })
  unfolding on_readable after_parse
  parsed_over mp hp m ip c bytes ctx r e = rw e

  parsed_badly :
      (mp : MultipartParser) (hp : HttpParser P) (m : ResourceMap P J) (ip : Bytes) (c : ℕ)
      (bytes : Bytes) (ctx : HttpContext P) (r : Request P)
      → parse_request mp hp (c ∷ bytes) ctx.request ≡ some (negsuc 0, r)
      → on_readable mp hp null write m ip (got c bytes) ctx
        ≡ some (read_close, record { request = r; response = ctx.response })
  unfolding on_readable after_parse
  parsed_badly mp hp m ip c bytes ctx r e = rw e

  -- A POST request with at least one header and a missing or empty `Content-Length` that arrives
  -- on a new connection within the size limit, where the HTTP parser calls for the URL, for the
  -- name and the value of each header and for the end of the headers, at any places of the bytes,
  -- and stops before the last byte when this last callback fails, whatever calls would follow: the
  -- connection is closed and the response is still the one of a new connection, so no status 411
  -- is sent.
  pub on_readable-no_length :
      (mp : MultipartParser) (hp : HttpParser P) (m : ResourceMap P J) (ip : Bytes) (c : ℕ)
      (bytes : Bytes) (p : ParserInfo) (init : P) (u : Bytes) (h : Bytes × Bytes)
      (hs : List (Bytes × Bytes)) (heads : List (HttpCall P)) (call : HttpCall P)
      (later : List (HttpCall P))
      → hp.calls init (c ∷ bytes) ≡ heads ++ call ∷ later
      → Leads p (url u ∷ header_events (h ∷ hs)) heads
      → call.event ≡ headers_complete
      → call.stops_at < length (c ∷ bytes)
      → length (c ∷ bytes) ≤ max_req_size
      → p.method_str ≡ codes "POST"
      → header_of (codes "Content-Length") (h ∷ hs) ≡ []
      → (r : Request P) × (on_readable mp hp null write m ip (got c bytes) (new_context init)
          ≡ some (read_close, record { request = r; response = new_response status_ok }))
  on_readable-no_length mp hp m ip c bytes p init u h hs heads call later calls leads ends stop
        small post none =
      let (r, failed, err) =
        parse_request-no_length mp hp (c ∷ bytes) p init u h hs heads call later calls leads ends
          stop small post none in
      (r, parsed_badly mp hp m ip c bytes (new_context init) r failed)

  routed :
      (m : ResourceMap P J) (path : Bytes) (k : Mapping P J) (method : HttpMethod) (req : Request P)
      (res : Response)
      → OrdMap.has path m ≡ false
      → get_request_uri req ≡ path
      → allows method (get_method req) ≡ true
      → handle_request null write (add_mapping m path k method).1 req res
        ≡ run_mapping null write k req res
  routed m path k method req res free uri allowed =
      let here : same_bytes path (get_request_uri req) ≡ true =
        ap (same_bytes path) uri ∙ same_bytes_refl path in
      handle_request-add_mapping null write m path k method req res free ∙ rw (here, allowed)

  -- A parsed request for a path that was free when it was mapped to a handler for its method.
  answered :
      (mp : MultipartParser) (hp : HttpParser P) (m : ResourceMap P J) (k : Mapping P J)
      (method : HttpMethod) (path verb ip : Bytes) (c : ℕ) (bytes : Bytes) (init : P)
      (r : Request P)
      → parse_request mp hp (c ∷ bytes) (new_request init) ≡ some (pos 0, r)
      → get_method r ≡ verb
      → get_request_uri r ≡ path
      → OrdMap.has path m ≡ false
      → allows method verb ≡ true
      → let handled = run_mapping null write k (set_client_ip r ip) (new_response status_ok) in
        on_readable mp hp null write
          (add_mapping m path k method).1
          ip
          (got c bytes)
          (new_context init)
        ≡ some (read_over, record { request = handled.0; response = handled.1 })
  unfolding get_request_uri
  answered mp hp m k method path verb ip c bytes init r done verb' uri free allowed =
      parsed_over mp hp (add_mapping m path k method).1 ip c bytes (new_context init) r done
      ∙ ap
          (λ (handled : Request P × Response).
            some (read_over, record { request = handled.0; response = handled.1 }))
          (routed m path k method (set_client_ip r ip) (new_response status_ok) free uri
            (ap (allows method) verb' ∙ allowed))

  -- A GET request with at least one header and no body that arrives whole on a new connection,
  -- within the size limit and with no header that announces a form of several parts, whose bytes
  -- the HTTP parser takes whole, with a call for its URL, for the name and the value of each header,
  -- for their end and for its own, at any places of the bytes, for a path that was free when it was mapped to a handler with a method that allows GET: the
  -- handler runs, on a request that answers with the first value of the query for each parameter
  -- and with the last value for each header in any case of its letters, and what it returns is to
  -- be sent.
  pub on_readable-get :
      (mp : MultipartParser) (hp : HttpParser P) (m : ResourceMap P J) (k : Mapping P J)
      (method : HttpMethod) (ip : Bytes) (c : ℕ) (bytes : Bytes) (p : ParserInfo) (init : P)
      (u : Bytes) (h : Bytes × Bytes) (hs : List (Bytes × Bytes))
      → Leads p (request_events u (h ∷ hs)) (hp.calls init (c ∷ bytes))
      → hp.parsed init (c ∷ bytes) ≡ length (c ∷ bytes)
      → length (c ∷ bytes) ≤ max_req_size
      → p.method_str ≡ codes "GET"
      → contains (header_of (codes "Content-Type") (h ∷ hs)) (codes "multipart/form-data") ≡ false
      → OrdMap.has (before b'?' u) m ≡ false
      → allows method (codes "GET") ≡ true
      → (r : Request P) × (let handled =
            run_mapping null write k (set_client_ip r ip) (new_response status_ok) in
          on_readable mp hp null write
            (add_mapping m (before b'?' u) k method).1
            ip
            (got c bytes)
            (new_context init)
          ≡ some (read_over, record { request = handled.0; response = handled.1 }))
        × ((name : Bytes) → get_param r name ≡ query_value u name)
        × ((name : Bytes) → (get_header r name).0 ≡ header_of name (h ∷ hs))
  on_readable-get mp hp m k method ip c bytes p init u h hs calls parsed small get parts free
        allowed =
      let (r, done, get', uri, params, headers) =
        parse_request-get mp hp (c ∷ bytes) p init u h hs calls parsed small get parts in
      (
        r,
        answered mp hp m k method (before b'?' u) (codes "GET") ip c bytes init r done get' uri free
            allowed,
        params,
        headers,
      )

  -- A POST request with at least one header and a form as its body that arrives whole on a new
  -- connection, within the size limit, whose bytes the HTTP parser takes whole, with a call for its
  -- URL, for the name and the value of each header, for their end, for the body and for its own, at
  -- any places of the bytes, where the body has a byte and the
  -- headers give the content type of a form and a content length, for a path that was free when it
  -- was mapped to a handler with a method that allows POST: the handler runs, on a request that
  -- answers with the first value of the body for each parameter, with all of them in their order
  -- behind those that the caller had, and with the last value for each header in any case of its
  -- letters, and what the handler returns is to be sent.
  pub on_readable-form :
      (mp : MultipartParser) (hp : HttpParser P) (m : ResourceMap P J) (k : Mapping P J)
      (method : HttpMethod) (ip : Bytes) (c : ℕ) (bytes : Bytes) (p : ParserInfo) (init : P)
      (u : Bytes) (h : Bytes × Bytes) (hs : List (Bytes × Bytes)) (b : Bytes)
      → Leads p (post_events u (h ∷ hs) b) (hp.calls init (c ∷ bytes))
      → hp.parsed init (c ∷ bytes) ≡ length (c ∷ bytes)
      → length (c ∷ bytes) ≤ max_req_size
      → p.method_str ≡ codes "POST"
      → is_empty (header_of (codes "Content-Length") (h ∷ hs)) ≡ false
      → header_of (codes "Content-Type") (h ∷ hs) ≡ form_type
      → is_empty b ≡ false
      → OrdMap.has (before b'?' u) m ≡ false
      → allows method (codes "POST") ≡ true
      → (r : Request P) × (let handled =
            run_mapping null write k (set_client_ip r ip) (new_response status_ok) in
          on_readable mp hp null write
            (add_mapping m (before b'?' u) k method).1
            ip
            (got c bytes)
            (new_context init)
          ≡ some (read_over, record { request = handled.0; response = handled.1 }))
        × ((name : Bytes) → get_param r name ≡ first_or_empty (values name (query_pairs b)))
        × ((name : Bytes) (out : List Bytes)
            → get_params r name out ≡ out ++ values name (query_pairs b))
        × ((name : Bytes) → (get_header r name).0 ≡ header_of name (h ∷ hs))
  on_readable-form mp hp m k method ip c bytes p init u h hs b calls parsed small post sized form
        full free allowed =
      let (r, done, post', uri, first, all, headers) =
        parse_request-form mp hp (c ∷ bytes) p init u h hs b calls parsed small post sized form
          full in
      (
        r,
        answered mp hp m k method (before b'?' u) (codes "POST") ip c bytes init r done post' uri
            free allowed,
        first,
        all,
        headers,
      )
