-- ===== src/Request/Get.antt =====
-- A whole GET request in the accessors of `Request`, src/sim_parser.cpp.
use ehttp.Base.{
  ◌≤◌, ◌≡◌, refl, sym, ap, ◌∙◌, false, inl, inr, Bool-cases, List, [], ◌∷◌, some, pos,
  if◌then◌else◌, Bytes, codes, same_bytes, length,
}
use ehttp.Request.Accepted.{request_events, parse_request-bodyless}
use ehttp.Request.Callbacks.{ParserInfo, contains}
use ehttp.Request.Ending.{url_params, finished_line-method, finished_line-url, finished_line-param}
use ehttp.Request.Headers.{header_of}
use ehttp.Request.Multipart.{MultipartParser}
use ehttp.Request.Parse.{HttpParser, parse_request}
use ehttp.Request.Passing.{Leads}
use ehttp.Request.{
  Request, max_req_size, new_request, get_header, get_method, get_param, get_request_uri,
}
use ehttp.RequestLine.Url.{query_part, get_request_uri-before}
use ehttp.RequestLine.{RequestLine, empty_line, append_request_url}
use ehttp.RequestParam
use ehttp.RequestParam.Lookup.{values, first_or_empty, get_param-parse_query_url}
use ehttp.RequestParam.Query.{query_pairs, parse_query_url-query_pairs}
use ehttp.RequestParam.{RequestParam, no_params}
use ehttp.Std.MultiMap
use ehttp.Std.Stream.{before, has_byte}

-- What a GET request with the URL `u` has for a name.
abbrev pub query_value : Bytes → Bytes → Bytes
query_value u name =
    if has_byte b'?' u then first_or_empty (values name (query_pairs (query_part u))) else []

url_value :
    (u name : Bytes)
    → RequestParam.get_param (url_params (append_request_url empty_line u)) name
      ≡ query_value u name
unfolding MultiMap.find
url_value u name = elim (Bool-cases (has_byte b'?' u)) [
  | inl e ↦ rw e (
      ap (λ r. RequestParam.get_param r.1 name)
        (sym (parse_query_url-query_pairs no_params (query_part u)))
      ∙ get_param-parse_query_url (query_part u) name)
  | inr e ↦ rw e (unfold RequestParam.get_param in refl)
]

module _ {P : Type 0} where
  get_param-line :
      (r : Request P) (name : Bytes)
      → get_method r ≡ codes "GET"
      → get_param r name ≡ RequestParam.get_param r.line.param name
  unfolding get_param
  get_param-line r name h = rw h

  -- A GET request with at least one header and no body, on a new request object, whose bytes the
  -- HTTP parser takes whole, with a call for its URL, for the name and the value of each header, for
  -- their end and for its own, at any places of the bytes, where no header announces a form of several parts and the size is within the limit: `parse_request`
  -- returns 0, and the request answers with the method, with the URL up to the question mark, with
  -- the first value of the query for each parameter and with the last value for each header, in
  -- any case of its letters.
  pub parse_request-get :
      (mp : MultipartParser) (hp : HttpParser P) (buf : Bytes) (p : ParserInfo) (init : P)
      (u : Bytes) (h : Bytes × Bytes) (hs : List (Bytes × Bytes))
      → Leads p (request_events u (h ∷ hs)) (hp.calls init buf)
      → hp.parsed init buf ≡ length buf
      → length buf ≤ max_req_size
      → p.method_str ≡ codes "GET"
      → contains (header_of (codes "Content-Type") (h ∷ hs)) (codes "multipart/form-data") ≡ false
      → (r : Request P) × (parse_request mp hp buf (new_request init) ≡ some (pos 0, r))
        × (get_method r ≡ codes "GET")
        × (get_request_uri r ≡ before b'?' u)
        × ((name : Bytes) → get_param r name ≡ query_value u name)
        × ((name : Bytes) → (get_header r name).0 ≡ header_of name (h ∷ hs))
  unfolding get_request_uri
  parse_request-get mp hp buf p init u h hs calls parsed small get parts =
      let other = ap (λ m. same_bytes m (codes "POST")) get in
      let (r, done, line, headers) =
        parse_request-bodyless mp hp buf p init u h hs calls parsed small other parts in
      let req : Request P = record (new_request init) { line = append_request_url empty_line u } in
      let method = ap (λ (l : RequestLine). l.method) line ∙ finished_line-method p req ∙ get in
      let url = ap (λ (l : RequestLine). l.request_url) line ∙ finished_line-url p req in
      (
        r,
        done,
        method,
        get_request_uri-before r.line ∙ ap (before b'?') url,
        λ name.
            get_param-line r name method
            ∙ ap (λ (l : RequestLine). RequestParam.get_param l.param name) line
            ∙ ap (λ q. RequestParam.get_param q name) (finished_line-param p req)
            ∙ url_value u name,
        headers,
      )
