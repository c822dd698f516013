-- ===== src/Request/Rejected.antt =====
-- POST requests without a `Content-Length`: `parse_request` of src/sim_parser.cpp and what
-- `on_readable` of src/http_server.cpp makes of its result.
use ehttp.Base.{
  ℕ, ◌+◌, ◌<◌, ◌≤◌, ◌≡◌, refl, ap, ◌∙◌, false, not, List, [], ◌∷◌, ◌++◌, some, ℤ, pos, negsuc,
  arith, is_zero, if◌then◌else◌, ltb, ◌==◌, Bytes, codes, length,
}
use ehttp.Request.Callbacks.{ParserInfo, ss_on_headers_complete}
use ehttp.Request.Collect.{with_headers}
use ehttp.Request.Ending.{complete_no_length, with_headers-method, with_headers-IsCollected}
use ehttp.Request.Headers.{header_of}
use ehttp.Request.Multipart.{MultipartParser}
use ehttp.Request.Parse.{
  url, headers_complete, HttpCall, HttpParser, on_http, run_http, parse_request,
}
use ehttp.Request.Passing.{header_events, Leads, run_http-Passes, head-Passes}
use ehttp.Request.{
  Request, max_req_size, parse_req_over, need_more_status, parse_len_required, new_request,
}
use ehttp.RequestLine.{append_request_url}

module _ {P : Type 0} where
  -- The callback at the end of the headers fails: no later call is made.
  stops :
      (mp : MultipartParser) (c : HttpCall P) (calls : List (HttpCall P)) (parsed : ℕ) (next : P)
      (req r : Request P)
      → c.event ≡ headers_complete
      → ss_on_headers_complete req ≡ some (negsuc 0, r)
      → run_http mp (c ∷ calls) parsed next req ≡ some (c.stops_at, record r { parser = c.stopped })
  unfolding run_http on_http
  stops mp c calls parsed next req r same e =
      let failed : on_http mp c.info c.event req ≡ some (negsuc 0, r) =
        ap (λ v. on_http mp c.info v req) same ∙ e in
      rw (failed, run_http)

  -- What the callbacks are run on: the bytes are counted first.
  abbrev pub grown : Bytes → Request P → Request P
  grown buf req = record req { total_req_size = req.total_req_size + length buf }

  -- What `parse_request` returns behind the callbacks.
  abbrev pub verdict : ℕ → ℕ → Request P → ℤ × Request P
  verdict size n r =
      if not (n == size)
      then (negsuc 0, r)
      else if not (is_zero r.parse_err)
      then (r.parse_err, r)
      else if not (r.parse_part == parse_req_over)
      then (need_more_status, r)
      else (pos 0, r)

  pub parse_request_ran :
      (mp : MultipartParser) (hp : HttpParser P) (buf : Bytes) (req : Request P) (n : ℕ)
      (r : Request P)
      → req.total_req_size + length buf ≤ max_req_size
      → run_http mp
          (hp.calls req.parser buf)
          (hp.parsed req.parser buf)
          (hp.next req.parser buf)
          (grown buf req)
        ≡ some (n, r)
      → parse_request mp hp buf req ≡ some (verdict (length buf) n r)
  unfolding parse_request
  parse_request_ran mp hp buf req n r small run =
      let counted : ltb max_req_size (req.total_req_size + length buf) ≡ false = ground arith in
      rw (counted, run)

  -- A POST request with at least one header and a missing or empty `Content-Length`, within the
  -- size limit, on a new request object, where the HTTP parser calls for the URL, for the name and
  -- the value of each header and for the end of the headers, at any places of the bytes, and stops
  -- before the last byte when this last callback fails, whatever calls would follow:
  -- `parse_request` returns -1, and the code for a missing length stands in `_parse_err` alone.
  pub parse_request-no_length :
      (mp : MultipartParser) (hp : HttpParser P) (buf : Bytes) (p : ParserInfo) (init : P)
      (u : Bytes) (h : Bytes × Bytes) (hs : List (Bytes × Bytes)) (heads : List (HttpCall P))
      (c : HttpCall P) (later : List (HttpCall P))
      → hp.calls init buf ≡ heads ++ c ∷ later
      → Leads p (url u ∷ header_events (h ∷ hs)) heads
      → c.event ≡ headers_complete
      → c.stops_at < length buf
      → length buf ≤ max_req_size
      → p.method_str ≡ codes "POST"
      → header_of (codes "Content-Length") (h ∷ hs) ≡ []
      → (r : Request P) × (parse_request mp hp buf (new_request init) ≡ some (negsuc 0, r))
        × (r.parse_err ≡ parse_len_required)
  parse_request-no_length mp hp buf p init u h hs heads c later calls leads ends stop small post
        none =
      let first = grown buf (new_request init) in
      let req = record first { line = append_request_url first.line u } in
      let collected = with_headers p (h ∷ hs) req in
      let (r, failed, err) =
        complete_no_length (h ∷ hs) collected
          (with_headers-IsCollected p (h ∷ hs) req refl refl refl)
          (with_headers-method p h hs req refl ∙ post) none in
      let early : (c.stops_at == length buf) ≡ false = ground arith in
      (
        record r { parser = c.stopped },
        parse_request_ran mp hp buf (new_request init) c.stops_at (record r { parser = c.stopped })
              (omega (arith, small))
              (ap (λ cs. run_http mp cs (hp.parsed init buf) (hp.next init buf) first) calls
                ∙ run_http-Passes mp p (url u ∷ header_events (h ∷ hs)) heads (c ∷ later)
                    (hp.parsed init buf) (hp.next init buf) first collected leads
                    (head-Passes mp p u (h ∷ hs) first refl)
                ∙ stops mp c later (hp.parsed init buf) (hp.next init buf) collected r ends failed)
            ∙ rw early,
        err,
      )
