-- ===== src/Request/Parse.antt =====
-- `Request::parse_request` of src/sim_parser.cpp. The HTTP parser is not part of the repository's
-- own code: `HttpParser` says what `parse_request` and the callbacks see of it.
use ehttp.Base.{
  ◌>>=◌, ℕ, ◌+◌, true, false, not, List, [], ◌∷◌, Option, none, some, ℤ, pos, negsuc, is_zero,
  if◌then◌else◌, ltb, ◌==◌, Bytes, length,
}
use ehttp.Request.Callbacks.{
  ParserInfo, ss_on_url, ss_on_header_field, ss_on_header_value, ss_on_headers_complete, ss_on_body,
  ss_on_message_complete,
}
use ehttp.Request.Multipart.{MultipartParser}
use ehttp.Request.{Request, max_req_size, parse_req_over, need_more_status}

-- The settings that `Request::Request` fills in.
pub data HttpEvent : Type 0 where
  url header_field header_value body : Bytes → HttpEvent
  headers_complete message_complete : HttpEvent

pub record HttpCall (P : Type 0) : Type 0 where
  pub event : HttpEvent
  pub info : ParserInfo
  -- what `http_parser_execute` returns, and its state, if this callback does not return 0
  pub stops_at : ℕ
  pub stopped : P

-- `http_parser_execute` of the http-parser library: from a state and the bytes read, the callbacks
-- that these lead to as long as they return 0, and the number of bytes parsed and the state behind
-- the last of them.
pub record HttpParser (P : Type 0) : Type 0 where
  pub calls : P → Bytes → List (HttpCall P)
  pub parsed : P → Bytes → ℕ
  pub next : P → Bytes → P

module _ {P : Type 0} where
  unfoldable pub on_http :
      MultipartParser → ParserInfo → HttpEvent → Request P → Option (ℤ × Request P)
  on_http mp p (url s) req = ss_on_url s req
  on_http mp p (header_field s) req = ss_on_header_field p s req
  on_http mp p (header_value s) req = ss_on_header_value s req
  on_http mp p headers_complete req = ss_on_headers_complete req
  on_http mp p (body s) req = ss_on_body s req
  on_http mp p message_complete req = ss_on_message_complete mp req

  -- The callbacks run in turn up to the first that does not return 0.
  unfoldable pub run_http :
      MultipartParser → List (HttpCall P) → ℕ → P → Request P → Option (ℕ × Request P)
  run_http mp [] parsed next req = some (parsed, record req { parser = next })
  run_http mp (c ∷ calls) parsed next req = elim (on_http mp c.info c.event req) [
    | none ↦ none
    | some (ret, req') ↦ elim (is_zero ret) [
      | true ↦ run_http mp calls parsed next req'
      | false ↦ some (c.stops_at, record req' { parser = c.stopped })
    ]
  ]

  unfoldable pub parse_request :
      MultipartParser → HttpParser P → Bytes → Request P → Option (ℤ × Request P)
  parse_request mp hp read_buffer req =
      let read_size = length read_buffer in
      let grown = record req { total_req_size = req.total_req_size + read_size } in
      let run =
        run_http mp (hp.calls req.parser read_buffer) (hp.parsed req.parser read_buffer)
          (hp.next req.parser read_buffer) grown in
      if ltb max_req_size grown.total_req_size
      then some (negsuc 0, grown)
      else (run >>= λ r. some (
          if not (r.0 == read_size)
          then (negsuc 0, r.1)
          else if not (is_zero (r.1).parse_err)
          then ((r.1).parse_err, r.1)
          else if not ((r.1).parse_part == parse_req_over)
          then (need_more_status, r.1)
          else (pos 0, r.1)))
