-- ===== src/Request/Accepted.antt =====
-- A whole request without a body: what `parse_request` of src/sim_parser.cpp makes of it.
use ehttp.Base.{
  ℕ, ◌≤◌, ◌≡◌, refl, sym, ap, ◌∙◌, Bool, true, false, inl, inr, Option-cases, List, [], ◌∷◌, ◌++◌,
  some, pos, arith, is_zero, if◌then◌else◌, ◌==◌, Bytes, codes, same_bytes, length, is_empty,
}
use ehttp.Request.Callbacks.{
  ParserInfo, ss_on_headers_complete, ss_on_message_complete, parse_form, parse_multipart, contains,
  add_headers,
}
use ehttp.Request.Collect.{line_done, with_headers}
use ehttp.Request.Ending.{
  complete_other, with_headers-method, with_headers-finished, with_headers-IsCollected,
  headers_over-line,
}
use ehttp.Request.Fragments.{finished_line}
use ehttp.Request.Headers.{
  header_of, headers_over, get_header-find, get_header-headers_over, get_header-get_header,
}
use ehttp.Request.Multipart.{MultipartParser}
use ehttp.Request.Parse.{
  url, headers_complete, message_complete, HttpEvent, HttpParser, on_http, parse_request,
}
use ehttp.Request.Passing.{header_events, Leads, Passes, Passes-append, run_http-all, head-Passes}
use ehttp.Request.Rejected.{grown, verdict, parse_request_ran}
use ehttp.Request.{
  Request, max_req_size, parse_req_line, parse_req_over, new_request, get_header, add_header,
}
use ehttp.RequestBody.{RequestBody, empty_body}
use ehttp.RequestLine.{empty_line, append_request_url}
use ehttp.Std.OrdMap
use ehttp.Std.Order.{bytes_ord}
use ehttp.StringUtils.{ss_str_tolower}

-- The events of a request line, its headers and no body.
abbrev pub request_events : Bytes → List (Bytes × Bytes) → List HttpEvent
request_events u hs = (url u ∷ header_events hs) ++ headers_complete ∷ message_complete ∷ []

module _ {P : Type 0} where
  -- The parts of a request that headers do not touch.
  pub record IsClean (req : Request P) : Type 0 where
    pub bodyless : req.body ≡ empty_body
    pub errorless : req.parse_err ≡ pos 0

  pub get_header-IsClean :
      (req : Request P) (name : Bytes) → IsClean req → IsClean (get_header req name).1
  unfolding get_header
  get_header-IsClean req name c =
      elim (Option-cases (OrdMap.find (ss_str_tolower name) req.headers)) [
        | inl e ↦ rw (e, get_header) (record { bodyless = c.bodyless; errorless = c.errorless })
        | inr (v, e) ↦ rw (e, get_header) c
      ]

  pub get_header-line : (req : Request P) (name : Bytes) → (get_header req name).1.line ≡ req.line
  unfolding get_header
  get_header-line req name = elim (Option-cases (OrdMap.find (ss_str_tolower name) req.headers)) [
    | inl e ↦ rw (e, get_header)
    | inr (v, e) ↦ rw (e, get_header)
  ]

  add_headers-IsClean :
      (fs vs : List Bytes) (req : Request P) → IsClean req → IsClean (add_headers fs vs req).1
  unfolding add_headers add_header
  add_headers-IsClean [] vs req c = c
  add_headers-IsClean (f ∷ fs) [] req c = c
  add_headers-IsClean (f ∷ fs) (v ∷ vs) req c =
      add_headers-IsClean fs vs _ (record { bodyless = c.bodyless; errorless = c.errorless })

  pub headers_over-IsClean : (req : Request P) → IsClean req → IsClean (headers_over req)
  headers_over-IsClean req c =
      let added = add_headers-IsClean req.header_fields req.header_values req c in
      record { bodyless = added.bodyless; errorless = added.errorless }

  line_done-IsClean : (p : ParserInfo) (req : Request P) → IsClean req → IsClean (line_done p req)
  line_done-IsClean p req c = either (req.parse_part == parse_req_line)
    where
      either : (b : Bool) → IsClean (if b then finished_line p req else req)
      either true = record { bodyless = c.bodyless; errorless = c.errorless }
      either false = c

  pub with_headers-IsClean :
      (p : ParserInfo) (hs : List (Bytes × Bytes)) (req : Request P)
      → IsClean req
      → IsClean (with_headers p hs req)
  unfolding with_headers
  with_headers-IsClean p [] req c = c
  with_headers-IsClean p (h ∷ hs) req c =
      let done = line_done-IsClean p req c in
      with_headers-IsClean p hs _ (record { bodyless = done.bodyless; errorless = done.errorless })

  parse_form_bodyless : (ct : Bytes) (req : Request P) → IsClean req → parse_form ct req ≡ req
  unfolding parse_form
  parse_form_bodyless ct req c =
      let raw : is_empty req.body.raw_string ≡ true =
        ap (λ (b : RequestBody). is_empty b.raw_string) c.bodyless in
      ground (arith, raw)

  -- The end of a message without a body, unless a form with parts was announced.
  completed :
      (mp : MultipartParser) (req : Request P)
      → IsClean req
      → contains (get_header req (codes "Content-Type")).0 (codes "multipart/form-data") ≡ false
      → ss_on_message_complete mp req
        ≡ some (
          pos 0,
          record ((get_header req (codes "Content-Type")).1) { parse_part = parse_req_over },
        )
  unfolding ss_on_message_complete parse_multipart
  completed mp req c h =
      rw (parse_form_bodyless _ _ (get_header-IsClean req (codes "Content-Type") c), h)

  finish :
      (mp : MultipartParser) (p : ParserInfo) (req over r : Request P)
      → ss_on_headers_complete req ≡ some (pos 0, over)
      → ss_on_message_complete mp over ≡ some (pos 0, r)
      → Passes mp p (headers_complete ∷ message_complete ∷ []) req r
  unfolding on_http
  finish mp p req over r e f = (over, (e, (r, (f, refl))))

  pub accepted :
      (n : ℕ) (r : Request P)
      → r.parse_err ≡ pos 0
      → r.parse_part ≡ parse_req_over
      → verdict n n r ≡ (pos 0, r)
  accepted n r err part =
      let same : (n == n) ≡ true = ground arith in
      let zero : is_zero r.parse_err ≡ true = ap is_zero err in
      let over : (r.parse_part == parse_req_over) ≡ true = ap (λ k. k == parse_req_over) part in
      rw (same, zero, over)

  pub parse_request-bodyless :
      (mp : MultipartParser) (hp : HttpParser P) (buf : Bytes) (p : ParserInfo) (init : P)
      (u : Bytes) (h : Bytes × Bytes) (hs : List (Bytes × Bytes))
      → Leads p (request_events u (h ∷ hs)) (hp.calls init buf)
      → hp.parsed init buf ≡ length buf
      → length buf ≤ max_req_size
      → same_bytes p.method_str (codes "POST") ≡ false
      → contains (header_of (codes "Content-Type") (h ∷ hs)) (codes "multipart/form-data") ≡ false
      → (r : Request P) × (parse_request mp hp buf (new_request init) ≡ some (pos 0, r))
        × (r.line
            ≡ (finished_line p
                (record (new_request init) { line = append_request_url empty_line u })).line)
        × ((name : Bytes) → (get_header r name).0 ≡ header_of name (h ∷ hs))
  parse_request-bodyless mp hp buf p init u h hs calls parsed small other parts =
      let first = grown buf (new_request init) in
      let req = record first { line = append_request_url first.line u } in
      let collected = with_headers p (h ∷ hs) req in
      let whole = with_headers-IsCollected p (h ∷ hs) req refl refl refl in
      let clean =
        headers_over-IsClean collected
          (with_headers-IsClean p (h ∷ hs) req (record { bodyless = refl; errorless = refl })) in
      let answers : (name : Bytes)
          → (get_header (headers_over collected) name).0 ≡ header_of name (h ∷ hs) =
        λ name.
          get_header-headers_over (h ∷ hs) collected name whole.fields whole.values
            whole.unmapped in
      let over =
        complete_other (h ∷ hs) collected whole
          (ap (λ m. same_bytes m (codes "POST")) (with_headers-method p h hs req refl) ∙ other) in
      let done = completed mp (headers_over collected) clean (
        ap (λ t. contains t (codes "multipart/form-data")) (answers (codes "Content-Type"))
        ∙ parts) in
      let asked = (get_header (headers_over collected) (codes "Content-Type")).1 in
      let r = record asked { parse_part = parse_req_over; parser = hp.next init buf } in
      let run =
        run_http-all mp p (request_events u (h ∷ hs)) (hp.calls init buf) (hp.parsed init buf)
          (hp.next init buf) first (record asked { parse_part = parse_req_over }) calls
          (Passes-append mp p (url u ∷ header_events (h ∷ hs)) _ first collected _
            (head-Passes mp p u (h ∷ hs) first refl)
            (finish mp p collected (headers_over collected) _ over done))
        ∙ ap (λ k. some (k, r)) parsed in
      (
        r,
        parse_request_ran mp hp buf (new_request init) (length buf) r (omega (arith, small)) run
            ∙ ap some (
                accepted (length buf) r
                  (get_header-IsClean (headers_over collected) (codes "Content-Type")
                    clean).errorless
                  refl),
        get_header-line (headers_over collected) (codes "Content-Type")
            ∙ headers_over-line collected
            ∙ with_headers-finished p h hs req refl,
        λ name.
            get_header-find r name
            ∙ sym (get_header-find asked name)
            ∙ get_header-get_header (headers_over collected) (codes "Content-Type") name
            ∙ answers name,
      )
