-- ===== src/Request/Callbacks.antt =====
-- The callbacks of the HTTP parser in src/sim_parser.cpp. `none` is a fault: an uncaught exception,
-- or the last element of an empty vector.
use ehttp.Base.{
  ◌>>=◌, ℕ, Bool, true, false, not, ◌&&◌, ◌||◌, List, [], ◌∷◌, ◌++◌, Option, none, some, ℤ, pos,
  negsuc, is_zero, if◌then◌else◌, ◌==◌, Bytes, codes, same_bytes, length, is_empty,
}
use ehttp.Request.Multipart.{MultipartParser, ss_parse_multipart_data}
use ehttp.Request.{
  Request, parse_req_line, parse_req_head, parse_req_body, parse_req_over, parse_req_head_over,
  parse_len_required, parse_multipart_err, add_header, get_header, get_method,
}
use ehttp.RequestLine.{
  RequestLine, set_method, append_request_url, set_http_version, parse_request_url_params,
}
use ehttp.RequestParam.{parse_query_url}

-- What the callbacks read of an `http_parser`: `http_method_str` of its method, and the version.
pub record ParserInfo : Type 0 where
  pub method_str : Bytes
  pub http_major : ℕ
  pub http_minor : ℕ

-- `v[v.size() - 1] += s`
unfoldable pub append_last : List Bytes → Bytes → Option (List Bytes)
append_last [] s = none
append_last (x ∷ []) s = some ((x ++ s) ∷ [])
append_last (x ∷ y ∷ r) s = append_last (y ∷ r) s >>= λ r'. some (x ∷ r')

unfoldable pub starts_with : Bytes → Bytes → Bool
starts_with s [] = true
starts_with [] (y ∷ t) = false
starts_with (x ∷ s) (y ∷ t) = x == y && starts_with s t

-- `s.find(t) != std::string::npos`
unfoldable pub contains : Bytes → Bytes → Bool
unfolding starts_with
contains [] t = starts_with [] t
contains (x ∷ s) t = starts_with (x ∷ s) t || contains s t

-- The version is set for 1.0 and 1.1 only.
abbrev pub version_line : ParserInfo → RequestLine → RequestLine
version_line p line =
    let first =
      if p.http_major == 1 && p.http_minor == 0
      then set_http_version line (codes "HTTP/1.0")
      else line in
    if p.http_major == 1 && p.http_minor == 1
    then set_http_version first (codes "HTTP/1.1")
    else first

module _ {P : Type 0} where
  unfoldable pub ss_on_url : Bytes → Request P → Option (ℤ × Request P)
  ss_on_url s req = some (pos 0, record req { line = append_request_url req.line s })

  -- The block of `ss_on_header_field` that runs once, at the first field.
  unfoldable pub finish_request_line : ParserInfo → Request P → ℤ × Request P
  finish_request_line p req =
      let (ret, line) = parse_request_url_params (set_method req.line p.method_str) in
      if not (is_zero ret)
      then (ret, record req { line = line })
      else (pos 0, record req { line = version_line p line; parse_part = parse_req_head })

  unfoldable pub push_header_field : Bytes → Request P → Option (ℤ × Request P)
  push_header_field field req =
      if req.last_was_value
      then some (
        pos 0,
        record req { header_fields = req.header_fields ++ field ∷ []; last_was_value = false },
      )
      else (append_last req.header_fields field >>= λ fields.
          some (pos 0, record req { header_fields = fields }))

  unfoldable pub ss_on_header_field : ParserInfo → Bytes → Request P → Option (ℤ × Request P)
  ss_on_header_field p field req =
      let (ret, req') =
        if req.parse_part == parse_req_line then finish_request_line p req else (pos 0, req) in
      if not (is_zero ret) then some (ret, req') else push_header_field field req'

  unfoldable pub ss_on_header_value : Bytes → Request P → Option (ℤ × Request P)
  ss_on_header_value value req =
      if not req.last_was_value
      then some (
        pos 0,
        record req { header_values = req.header_values ++ value ∷ []; last_was_value = true },
      )
      else (append_last req.header_values value >>= λ values.
          some (pos 0, record req { header_values = values; last_was_value = true }))

  -- The loop over the fields and values: `add_header` lowers each field in the vector.
  unfoldable pub add_headers : List Bytes → List Bytes → Request P → List Bytes × Request P
  add_headers [] values req = ([], req)
  add_headers (f ∷ fields) [] req = (f ∷ fields, req)
  add_headers (f ∷ fields) (v ∷ values) req =
      let (f', req') = add_header req f v in
      let (fields', req'') = add_headers fields values req' in (f' ∷ fields', req'')

  unfoldable pub ss_on_headers_complete : Request P → Option (ℤ × Request P)
  ss_on_headers_complete req =
      let (fields, added) = add_headers req.header_fields req.header_values req in
      let over = record added { header_fields = fields; parse_part = parse_req_head_over } in
      let (content_length, asked) = get_header over (codes "Content-Length") in
      if not (length req.header_fields == length req.header_values)
      then some (negsuc 0, req)
      else if same_bytes (get_method over) (codes "POST")
      then (if is_empty content_length
          then some (negsuc 0, record asked { parse_err = parse_len_required })
          else some (pos 0, asked))
      else some (pos 0, over)

  unfoldable pub ss_on_body : Bytes → Request P → Option (ℤ × Request P)
  ss_on_body s req = some (
    pos 0,
    record req {
      body = record (req.body) { raw_string = req.body.raw_string ++ s };
      parse_part = parse_req_body;
    },
  )

  -- The first part of `ss_on_message_complete`: a form in the body becomes parameters.
  unfoldable pub parse_form : Bytes → Request P → Request P
  parse_form ct_header req =
      if same_bytes ct_header (codes "application/x-www-form-urlencoded")
        && not (is_empty req.body.raw_string)
      then record req {
        body = record (req.body) {
          req_params = (parse_query_url req.body.req_params req.body.raw_string).1;
        };
      }
      else req

  unfoldable pub parse_multipart : MultipartParser → Bytes → Request P → Option (ℤ × Request P)
  parse_multipart mp ct_header req =
      if contains ct_header (codes "multipart/form-data")
      then (ss_parse_multipart_data mp req >>= λ r.
          some (if is_zero r.0 then r else (r.0, record (r.1) { parse_err = parse_multipart_err })))
      else some (pos 0, req)

  unfoldable pub ss_on_message_complete : MultipartParser → Request P → Option (ℤ × Request P)
  ss_on_message_complete mp req =
      let (ct_header, asked) = get_header req (codes "Content-Type") in
      parse_multipart mp ct_header (parse_form ct_header asked) >>= λ r.
      some (r.0, record (r.1) { parse_part = parse_req_over })
