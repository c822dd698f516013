-- ===== src/Request/Fragments.antt =====
-- The bytes that are read may cut a URL, a header or a body anywhere: what the callbacks build does
-- not depend on where.
use ehttp.Base.{
  ◌>>=◌, ℕ, ◌≡◌, refl, sym, ◌∙◌, true, false, inl, inr, Bool-cases, Option-cases, List, [], ◌∷◌,
  ◌++◌, append_assoc, Option, none, some, ℤ, pos, arith, is_zero, ◌==◌, Bytes,
}
use ehttp.Request.Callbacks.{
  ParserInfo, append_last, ss_on_url, ss_on_header_field, ss_on_header_value, ss_on_body,
  push_header_field, finish_request_line, version_line,
}
use ehttp.Request.Multipart.{MultipartParser}
use ehttp.Request.Parse.{
  HttpEvent, url, header_field, header_value, body, HttpCall, on_http, run_http,
}
use ehttp.Request.{Request, parse_req_line, parse_req_head}
use ehttp.RequestLine.Url.{parse_request_url_params_lem}
use ehttp.RequestLine.{set_method, parse_request_url_params}

append_last_cons :
    (y : Bytes) (r : List Bytes) (a : Bytes)
    → (z : Bytes) × (zs : List Bytes) × (append_last (y ∷ r) a ≡ some (z ∷ zs))
unfolding append_last
append_last_cons y [] a = (y ++ a, [], refl)
append_last_cons y (x ∷ r) a = let (z, zs, e) = append_last_cons x r a in (y, z ∷ zs, rw e)

append_last-append :
    (xs : List Bytes) (a b : Bytes)
    → append_last xs (a ++ b) ≡ (append_last xs a >>= λ ys. append_last ys b)
unfolding append_last
append_last-append [] a b = refl
append_last-append (x ∷ []) a b = rw append_assoc
append_last-append (x ∷ y ∷ r) a b =
    let (z, zs, e) = append_last_cons y r a in rw (append_last-append (y ∷ r) a b, e)

append_last-concat :
    (xs : List Bytes) (a b : Bytes) → append_last (xs ++ a ∷ []) b ≡ some (xs ++ (a ++ b) ∷ [])
unfolding append_last
append_last-concat [] a b = refl
append_last-concat (x ∷ []) a b = refl
append_last-concat (x ∷ y ∷ r) a b = rw (append_last-concat (y ∷ r) a b)

-- The parts of a request that arrive in pieces.
pub data Part : Type 0 where
  in_url in_header_field in_header_value in_body : Part

abbrev pub part_event : Part → Bytes → HttpEvent
part_event in_url = url
part_event in_header_field = header_field
part_event in_header_value = header_value
part_event in_body = body

abbrev KeepsPart : {P : Type 0} → ℕ → Option (ℤ × Request P) → Type 0
KeepsPart n none = Unit
KeepsPart n (some (ret, req)) = (ret ≡ pos 0) × (req.parse_part ≡ n)

abbrev ReturnsZero : {P : Type 0} → Option (ℤ × Request P) → Type 0
ReturnsZero none = Unit
ReturnsZero (some (ret, req)) = is_zero ret ≡ true

module _ {P : Type 0} where
  ss_on_header_value-append :
      (a b : Bytes) (req : Request P)
      → ss_on_header_value (a ++ b) req
        ≡ (ss_on_header_value a req >>= λ r. ss_on_header_value b r.1)
  unfolding ss_on_header_value
  ss_on_header_value-append a b req =
      ground
        (arith, append_last-append req.header_values a b, append_last-concat req.header_values a b)

  push_header_field-append :
      (a b : Bytes) (req : Request P)
      → push_header_field (a ++ b) req ≡ (push_header_field a req >>= λ r. push_header_field b r.1)
  unfolding push_header_field
  push_header_field-append a b req =
      ground
        (arith, append_last-append req.header_fields a b, append_last-concat req.header_fields a b)

  -- The request line always finishes well.
  abbrev pub finished_line : ParserInfo → Request P → Request P
  finished_line p req = record req {
    line = version_line p (parse_request_url_params (set_method req.line p.method_str)).1;
    parse_part = parse_req_head;
  }

  pub finish_request_line_lem :
      (p : ParserInfo) (req : Request P) → finish_request_line p req ≡ (pos 0, finished_line p req)
  unfolding finish_request_line
  finish_request_line_lem p req =
      rw (parse_request_url_params_lem (set_method req.line p.method_str))

  push_header_field-parse_part :
      (a : Bytes) (req : Request P) → KeepsPart req.parse_part (push_header_field a req)
  unfolding push_header_field
  push_header_field-parse_part a req = ground arith

  pub ss_on_header_field_later :
      (p : ParserInfo) (b : Bytes) (req : Request P)
      → (req.parse_part == parse_req_line) ≡ false
      → ss_on_header_field p b req ≡ push_header_field b req
  unfolding ss_on_header_field
  ss_on_header_field_later p b req e = rw e

  pub ss_on_header_field_first :
      (p : ParserInfo) (b : Bytes) (req : Request P)
      → (req.parse_part == parse_req_line) ≡ true
      → ss_on_header_field p b req ≡ push_header_field b (finished_line p req)
  unfolding ss_on_header_field
  ss_on_header_field_first p b req e = rw (e, finish_request_line_lem p req)

  push_then_field :
      (p : ParserInfo) (a b : Bytes) (req : Request P)
      → (req.parse_part == parse_req_line) ≡ false
      → push_header_field (a ++ b) req
        ≡ (push_header_field a req >>= λ r. ss_on_header_field p b r.1)
  push_then_field p a b req e = elim (Option-cases (push_header_field a req)) [
    | inl f ↦ push_header_field-append a b req ∙ rw f
    | inr (r, f) ↦
        let kept : KeepsPart req.parse_part (some r) =
          rw f at (push_header_field-parse_part a req) in
        push_header_field-append a b req
        ∙ rw f (sym (ss_on_header_field_later p b r.1 (rw (kept.1) e)))
  ]

  ss_on_header_field-append :
      (p : ParserInfo) (a b : Bytes) (req : Request P)
      → ss_on_header_field p (a ++ b) req
        ≡ (ss_on_header_field p a req >>= λ r. ss_on_header_field p b r.1)
  ss_on_header_field-append p a b req = elim (Bool-cases (req.parse_part == parse_req_line)) [
    | inl e ↦
        rw (ss_on_header_field_first p (a ++ b) req e, ss_on_header_field_first p a req e)
          (push_then_field p a b (finished_line p req) refl)
    | inr e ↦
        rw (ss_on_header_field_later p (a ++ b) req e, ss_on_header_field_later p a req e)
          (push_then_field p a b req e)
  ]

  -- A URL, a header field, a header value or a body that comes in two pieces leads to the same
  -- request as one that comes whole, and to a fault exactly where the whole one does.
  pub on_http-append :
      (mp : MultipartParser) (p : ParserInfo) (k : Part) (a b : Bytes) (req : Request P)
      → on_http mp p (part_event k (a ++ b)) req
        ≡ (on_http mp p (part_event k a) req >>= λ r. on_http mp p (part_event k b) r.1)
  unfolding on_http
  on_http-append mp p in_url a b req = unfold ss_on_url in rw append_assoc
  on_http-append mp p in_header_field a b req = ss_on_header_field-append p a b req
  on_http-append mp p in_header_value a b req = ss_on_header_value-append a b req
  on_http-append mp p in_body a b req = unfold ss_on_body in rw append_assoc

  push_header_field-ReturnsZero :
      (a : Bytes) (req : Request P) → ReturnsZero (push_header_field a req)
  unfolding push_header_field
  push_header_field-ReturnsZero a req = ground arith

  -- The callbacks of these parts return 0 or fault.
  part-ReturnsZero :
      (mp : MultipartParser) (p : ParserInfo) (k : Part) (a : Bytes) (req : Request P)
      → ReturnsZero (on_http mp p (part_event k a) req)
  unfolding on_http
  part-ReturnsZero mp p in_url a req = unfold ss_on_url in refl
  part-ReturnsZero mp p in_header_field a req =
      elim (Bool-cases (req.parse_part == parse_req_line)) [
        | inl e ↦ rw (ss_on_header_field_first p a req e) (push_header_field-ReturnsZero a _)
        | inr e ↦ rw (ss_on_header_field_later p a req e) (push_header_field-ReturnsZero a req)
      ]
  part-ReturnsZero mp p in_header_value a req = unfold ss_on_header_value in ground arith
  part-ReturnsZero mp p in_body a req = unfold ss_on_body in refl

  abbrev pub call_of : ParserInfo → HttpEvent → ℕ → P → HttpCall P
  call_of p ev n s = record { event = ev; info = p; stops_at = n; stopped = s }

  pub run_part :
      (mp : MultipartParser) (p : ParserInfo) (k : Part) (a : Bytes) (n : ℕ) (s : P)
      (calls : List (HttpCall P)) (parsed : ℕ) (next : P) (req : Request P)
      → run_http mp (call_of p (part_event k a) n s ∷ calls) parsed next req
        ≡ (on_http mp p (part_event k a) req >>= λ r. run_http mp calls parsed next r.1)
  unfolding run_http
  run_part mp p k a n s calls parsed next req =
      elim (Option-cases (on_http mp p (part_event k a) req)) [
        | inl e ↦ rw (e, run_http)
        | inr (r, e) ↦
            let zero : ReturnsZero (some r) = rw e at (part-ReturnsZero mp p k a req) in
            rw (e, run_http) (rw zero)
      ]

  -- Two calls of the parser for the two pieces of a URL, a header field, a header value or a body
  -- lead to the same run as one call for the whole, whatever calls follow.
  pub run_http-append :
      (mp : MultipartParser) (p : ParserInfo) (k : Part) (a b : Bytes) (n : ℕ) (s : P)
      (calls : List (HttpCall P)) (parsed : ℕ) (next : P) (req : Request P)
      → run_http mp
          (call_of p (part_event k a) n s ∷ call_of p (part_event k b) n s ∷ calls)
          parsed
          next
          req
        ≡ run_http mp (call_of p (part_event k (a ++ b)) n s ∷ calls) parsed next req
  run_http-append mp p k a b n s calls parsed next req =
      elim (Option-cases (on_http mp p (part_event k a) req)) [
        | inl e ↦ rw (run_part mp p k a, run_part mp p k (a ++ b), on_http-append mp p k a b req, e)
        | inr (r, e) ↦
            rw (run_part mp p k a, run_part mp p k (a ++ b), on_http-append mp p k a b req, e)
              (run_part mp p k b n s calls parsed next r.1)
      ]
