-- ===== src/Request/Post.antt =====
-- A whole POST request with a form in its body: what `parse_request` of src/sim_parser.cpp makes of
-- it, in the accessors of `Request`.
use ehttp.Base.{
  ◌≤◌, ◌≡◌, refl, sym, ap, ◌∙◌, false, List, [], ◌∷◌, ◌++◌, append-nil, some, pos, arith, Bytes,
  codes, length, is_empty,
}
use ehttp.Request.Accepted.{
  get_header-IsClean, get_header-line, headers_over-IsClean, with_headers-IsClean, accepted,
}
use ehttp.Request.Callbacks.{ParserInfo}
use ehttp.Request.Collect.{with_headers}
use ehttp.Request.Ending.{
  complete_length, with_headers-method, with_headers-finished, with_headers-IsCollected,
  headers_over-line, finished_line-method, finished_line-url,
}
use ehttp.Request.Headers.{
  header_of, headers_over, get_header-find, get_header-headers_over, get_header-get_header,
}
use ehttp.Request.Multipart.{MultipartParser}
use ehttp.Request.Parse.{
  url, headers_complete, body, message_complete, HttpEvent, HttpParser, parse_request,
}
use ehttp.Request.Passing.{header_events, Leads, Passes-append, run_http-all, head-Passes}
use ehttp.Request.Rejected.{grown, parse_request_ran}
use ehttp.Request.{
  Request, max_req_size, new_request, get_header, get_method, get_param, get_params,
  get_request_uri,
}
use ehttp.RequestBody
use ehttp.RequestBody.{RequestBody, empty_body}
use ehttp.RequestLine.Url.{get_request_uri-before}
use ehttp.RequestLine.{RequestLine, append_request_url}
use ehttp.RequestParam.Lookup.{
  values, first_or_empty, get_param-parse_query_url, get_params-parse_query_url,
}
use ehttp.RequestParam.Query.{query_pairs}
use ehttp.RequestParam
use ehttp.RequestParam.{no_params, parse_query_url}
use ehttp.Std.MultiMap
use ehttp.Std.Order.{bytes_ord}
use ehttp.Std.Stream.{before}
use ehttp.Request.Form.{
  form_type, form_body, with_body, get_header-body, formed, completed_form, finish_form,
}

form_params :
    (b name : Bytes) (out : List Bytes)
    → RequestBody.get_params (form_body b) name out ≡ out ++ values name (query_pairs b)
unfolding RequestParam.get_params MultiMap.equal_range
form_params b name out =
    get_params-parse_query_url no_params b name out tt
    ∙ ap (λ l. l ++ values name (query_pairs b)) (append-nil out)

-- The events of a request line, its headers and a body in one piece.
abbrev pub post_events : Bytes → List (Bytes × Bytes) → Bytes → List HttpEvent
post_events u hs b = (url u ∷ header_events hs) ++ headers_complete ∷ body b ∷ message_complete ∷ []

module _ {P : Type 0} where
  get_param-body :
      (r : Request P) (name : Bytes)
      → get_method r ≡ codes "POST"
      → get_param r name ≡ RequestBody.get_param r.body name
  unfolding get_param
  get_param-body r name h = rw h

  get_params-body :
      (r : Request P) (name : Bytes) (out : List Bytes)
      → get_method r ≡ codes "POST"
      → get_params r name out ≡ RequestBody.get_params r.body name out
  unfolding get_params
  get_params-body r name out h = rw h

  -- A POST request with at least one header and a form as its body, on a new request object, whose
  -- bytes the HTTP parser takes whole, with a call for its URL, for the name and the value of each
  -- header, for their end, for the body and for its own, at any places of the bytes, where the body has a byte, the headers give the content type of a form and a
  -- content length, and the size is within the limit: `parse_request` returns 0, and the request
  -- answers with the method, with the URL up to the question mark, with the first value of the body
  -- for each parameter, with all of them in their order behind those that the caller had, and with
  -- the last value for each header, in any case of its letters.
  pub parse_request-form :
      (mp : MultipartParser) (hp : HttpParser P) (buf : Bytes) (p : ParserInfo) (init : P)
      (u : Bytes) (h : Bytes × Bytes) (hs : List (Bytes × Bytes)) (b : Bytes)
      → Leads p (post_events u (h ∷ hs) b) (hp.calls init buf)
      → hp.parsed init buf ≡ length buf
      → length buf ≤ max_req_size
      → p.method_str ≡ codes "POST"
      → is_empty (header_of (codes "Content-Length") (h ∷ hs)) ≡ false
      → header_of (codes "Content-Type") (h ∷ hs) ≡ form_type
      → is_empty b ≡ false
      → (r : Request P) × (parse_request mp hp buf (new_request init) ≡ some (pos 0, r))
        × (get_method r ≡ codes "POST")
        × (get_request_uri r ≡ before b'?' u)
        × ((name : Bytes) → get_param r name ≡ first_or_empty (values name (query_pairs b)))
        × ((name : Bytes) (out : List Bytes)
            → get_params r name out ≡ out ++ values name (query_pairs b))
        × ((name : Bytes) → (get_header r name).0 ≡ header_of name (h ∷ hs))
  unfolding get_request_uri
  parse_request-form mp hp buf p init u h hs b calls parsed small post sized form full =
      let first = grown buf (new_request init) in
      let req = record first { line = append_request_url first.line u } in
      let collected = with_headers p (h ∷ hs) req in
      let whole = with_headers-IsCollected p (h ∷ hs) req refl refl refl in
      let over = (get_header (headers_over collected) (codes "Content-Length")).1 in
      let clean = get_header-IsClean (headers_over collected) (codes "Content-Length") (
        headers_over-IsClean collected
          (with_headers-IsClean p (h ∷ hs) req (record { bodyless = refl; errorless = refl }))) in
      let filled = with_body b over in
      let answers : (name : Bytes) → (get_header filled name).0 ≡ header_of name (h ∷ hs) = λ name.
        get_header-find filled name
        ∙ sym (get_header-find over name)
        ∙ get_header-get_header (headers_over collected) (codes "Content-Length") name
        ∙ get_header-headers_over (h ∷ hs) collected name whole.fields whole.values
            whole.unmapped in
      let raw =
        ap (λ (c : RequestBody). record c { raw_string = c.raw_string ++ b }) clean.bodyless in
      let asked = (get_header filled (codes "Content-Type")).1 in
      let r = record (formed b asked) { parser = hp.next init buf } in
      let run =
        run_http-all mp p (post_events u (h ∷ hs) b) (hp.calls init buf) (hp.parsed init buf)
          (hp.next init buf) first (formed b asked) calls
          (Passes-append mp p (url u ∷ header_events (h ∷ hs)) _ first collected _
            (head-Passes mp p u (h ∷ hs) first refl)
            (finish_form mp p b collected over (formed b asked)
              (complete_length (h ∷ hs) collected whole (with_headers-method p h hs req refl ∙ post)
                sized)
              (completed_form mp filled b raw full (answers (codes "Content-Type") ∙ form))))
        ∙ ap (λ k. some (k, r)) parsed in
      let line =
        get_header-line filled (codes "Content-Type")
        ∙ get_header-line (headers_over collected) (codes "Content-Length")
        ∙ headers_over-line collected
        ∙ with_headers-finished p h hs req refl in
      let method = ap (λ (l : RequestLine). l.method) line ∙ finished_line-method p req ∙ post in
      (
        r,
        parse_request_ran mp hp buf (new_request init) (length buf) r (omega (arith, small)) run
            ∙ ap some (
                accepted (length buf) r
                  ((get_header-body filled (codes "Content-Type")).1 ∙ clean.errorless) refl),
        method,
        get_request_uri-before r.line
            ∙ ap (before b'?')
                (ap (λ (l : RequestLine). l.request_url) line ∙ finished_line-url p req),
        λ name. get_param-body r name method ∙ get_param-parse_query_url b name,
        λ name out. get_params-body r name out method ∙ form_params b name out,
        λ name.
            get_header-find r name
            ∙ sym (get_header-find asked name)
            ∙ get_header-get_header filled (codes "Content-Type") name
            ∙ answers name,
      )
