-- ===== src/Request/Sized.antt =====
-- The callbacks of the HTTP parser of src/sim_parser.cpp do not look at the size that `parse_request`
-- counts, nor at the state of the parser.
use ehttp.Base.{
  ℕ, ◌≡◌, refl, ap, ◌∙◌, true, false, Bool-cases, inl, inr, List, [], ◌∷◌, Option, none, some, ℤ,
  arith, is_zero, Bytes, codes,
}
use ehttp.Request.Callbacks.{
  ParserInfo, ss_on_url, ss_on_header_field, ss_on_header_value, ss_on_headers_complete, ss_on_body,
  ss_on_message_complete, push_header_field, finish_request_line, add_headers, parse_form,
  parse_multipart,
}
use ehttp.Request.Multipart.{MultipartParser}
use ehttp.Request.Parse.{
  HttpEvent, url, header_field, header_value, body, headers_complete, message_complete, HttpCall,
  on_http, run_http,
}
use ehttp.Request.{Request, get_header, add_header, parse_req_head_over}
use ehttp.Request.Resized.{sized, resize, get_header-sized, ss_parse_multipart_data-sized}

module _ {P : Type 0} where
  -- A run with another counted size.
  abbrev pub recount : ℕ → Option (ℕ × Request P) → Option (ℕ × Request P)
  recount n none = none
  recount n (some (parsed, req)) = some (parsed, record req { total_req_size = n })

  add_header-sized :
      (n : ℕ) (q : P) (name value : Bytes) (req : Request P)
      → add_header (sized n q req) name value
        ≡ ((add_header req name value).0, sized n q (add_header req name value).1)
  unfolding add_header
  add_header-sized n q name value req = refl

  ss_on_header_value-sized :
      (n : ℕ) (q : P) (s : Bytes) (req : Request P)
      → ss_on_header_value s (sized n q req) ≡ resize n q (ss_on_header_value s req)
  unfolding ss_on_header_value
  ss_on_header_value-sized n q s req = ground arith

  push_header_field-sized :
      (n : ℕ) (q : P) (s : Bytes) (req : Request P)
      → push_header_field s (sized n q req) ≡ resize n q (push_header_field s req)
  unfolding push_header_field
  push_header_field-sized n q s req = ground arith

  finish_request_line-sized :
      (n : ℕ) (q : P) (p : ParserInfo) (req : Request P)
      → finish_request_line p (sized n q req)
        ≡ ((finish_request_line p req).0, sized n q (finish_request_line p req).1)
  unfolding finish_request_line
  finish_request_line-sized n q p req = ground arith

  parse_form-sized :
      (n : ℕ) (q : P) (ct : Bytes) (req : Request P)
      → parse_form ct (sized n q req) ≡ sized n q (parse_form ct req)
  unfolding parse_form
  parse_form-sized n q ct req = ground arith

  add_headers-sized :
      (n : ℕ) (q : P) (fields values : List Bytes) (req : Request P)
      → add_headers fields values (sized n q req)
        ≡ ((add_headers fields values req).0, sized n q (add_headers fields values req).1)
  unfolding add_headers add_header
  add_headers-sized n q [] values req = refl
  add_headers-sized n q (f ∷ fields) [] req = refl
  add_headers-sized n q (f ∷ fields) (v ∷ values) req =
      ap (λ r. ((add_header req f v).0 ∷ r.0, r.1))
        (add_headers-sized n q fields values (add_header req f v).1)

  parse_multipart-sized :
      (n : ℕ) (q : P) (mp : MultipartParser) (ct : Bytes) (req : Request P)
      → parse_multipart mp ct (sized n q req) ≡ resize n q (parse_multipart mp ct req)
  unfolding parse_multipart
  parse_multipart-sized n q mp ct req = ground (arith, ss_parse_multipart_data-sized n q mp req)

  ss_on_message_complete-sized :
      (n : ℕ) (q : P) (mp : MultipartParser) (req : Request P)
      → ss_on_message_complete mp (sized n q req) ≡ resize n q (ss_on_message_complete mp req)
  unfolding ss_on_message_complete
  ss_on_message_complete-sized n q mp req =
      let ct = (get_header req (codes "Content-Type")).0 in
      let asked = (get_header req (codes "Content-Type")).1 in
      rw (get_header-sized n q (codes "Content-Type") req, parse_form-sized n q ct asked)
        (ground (arith, parse_multipart-sized n q mp ct (parse_form ct asked)))

  ss_on_header_field-sized :
      (n : ℕ) (q : P) (p : ParserInfo) (s : Bytes) (req : Request P)
      → ss_on_header_field p s (sized n q req) ≡ resize n q (ss_on_header_field p s req)
  unfolding ss_on_header_field
  ss_on_header_field-sized n q p s req = ground (
    arith,
    finish_request_line-sized n q p req,
    push_header_field-sized n q s req,
    push_header_field-sized n q s (finish_request_line p req).1,
  )

  ss_on_headers_complete-sized :
      (n : ℕ) (q : P) (req : Request P)
      → ss_on_headers_complete (sized n q req) ≡ resize n q (ss_on_headers_complete req)
  unfolding ss_on_headers_complete
  ss_on_headers_complete-sized n q req =
      let (fields, added) = add_headers req.header_fields req.header_values req in
      let over = record added { header_fields = fields; parse_part = parse_req_head_over } in
      rw
        (
          add_headers-sized n q req.header_fields req.header_values req,
          get_header-sized n q (codes "Content-Length") over,
        )
        (ground arith)

  on_http-sized :
      (n : ℕ) (q : P) (mp : MultipartParser) (p : ParserInfo) (e : HttpEvent) (req : Request P)
      → on_http mp p e (sized n q req) ≡ resize n q (on_http mp p e req)
  unfolding on_http ss_on_url ss_on_body
  on_http-sized n q mp p (url s) req = refl
  on_http-sized n q mp p (header_field s) req = ss_on_header_field-sized n q p s req
  on_http-sized n q mp p (header_value s) req = ss_on_header_value-sized n q s req
  on_http-sized n q mp p headers_complete req = ss_on_headers_complete-sized n q req
  on_http-sized n q mp p (body s) req = refl
  on_http-sized n q mp p message_complete req = ss_on_message_complete-sized n q mp req

  abbrev then_http :
      MultipartParser
      → HttpCall P
      → List (HttpCall P)
      → ℕ
      → P
      → Option (ℤ × Request P)
      → Option (ℕ × Request P)
  then_http mp c calls parsed next none = none
  then_http mp c calls parsed next (some (ret, req)) = elim (is_zero ret) [
    | true ↦ run_http mp calls parsed next req
    | false ↦ some (c.stops_at, record req { parser = c.stopped })
  ]

  then_http-sized :
      (n : ℕ) (q : P) (mp : MultipartParser) (c : HttpCall P) (calls : List (HttpCall P))
      (parsed : ℕ) (next : P) (o : Option (ℤ × Request P))
      → ((req : Request P)
          → run_http mp calls parsed next (sized n q req)
            ≡ recount n (run_http mp calls parsed next req))
      → then_http mp c calls parsed next (resize n q o)
        ≡ recount n (then_http mp c calls parsed next o)
  then_http-sized n q mp c calls parsed next none h = refl
  then_http-sized n q mp c calls parsed next (some (ret, req)) h = elim (Bool-cases (is_zero ret)) [
    | inl e ↦ rw (e, then_http) (h req)
    | inr e ↦ rw (e, then_http)
  ]

  -- The run of the callbacks is the same for a request of any counted size and state of the parser,
  -- which the run sets at its end.
  pub run_http-sized :
      (n : ℕ) (q : P) (mp : MultipartParser) (calls : List (HttpCall P)) (parsed : ℕ) (next : P)
      (req : Request P)
      → run_http mp calls parsed next (sized n q req)
        ≡ recount n (run_http mp calls parsed next req)
  unfolding run_http
  run_http-sized n q mp [] parsed next req = refl
  run_http-sized n q mp (c ∷ calls) parsed next req =
      ap (then_http mp c calls parsed next) (on_http-sized n q mp c.info c.event req)
      ∙ then_http-sized n q mp c calls parsed next (on_http mp c.info c.event req)
          (run_http-sized n q mp calls parsed next)
