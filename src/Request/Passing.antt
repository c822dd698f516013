-- ===== src/Request/Passing.antt =====
-- Runs of the callbacks of src/sim_parser.cpp in which each returns 0: they do not depend on how far
-- the HTTP parser says it got at each call.
use ehttp.Base.{
  ℕ, ◌≡◌, refl, sym, ap, ◌∙◌, true, false, inl, inr, Bool-cases, List, [], ◌∷◌, ◌++◌, append-nil,
  some, pos, ◌==◌, Bytes,
}
use ehttp.Request.Callbacks.{
  ParserInfo, ss_on_url, ss_on_header_field, ss_on_header_value, push_header_field,
}
use ehttp.Request.Collect.{line_done, with_header, with_headers}
use ehttp.Request.Fragments.{finished_line, ss_on_header_field_first, ss_on_header_field_later}
use ehttp.Request.Multipart.{MultipartParser}
use ehttp.Request.Parse.{
  HttpEvent, url, header_field, header_value, headers_complete, message_complete, body, HttpCall,
  on_http, run_http,
}
use ehttp.Request.{Request, parse_req_line}
use ehttp.RequestLine.{append_request_url}

-- Only the callback for a field reads the method and the version, which the HTTP parser knows by
-- then; before, they may be anything.
abbrev pub Knows : ParserInfo → HttpEvent → ParserInfo → Type 0
Knows p (url s) i = Unit
Knows p (header_field s) i = i ≡ p
Knows p (header_value s) i = Unit
Knows p headers_complete i = Unit
Knows p (body s) i = Unit
Knows p message_complete i = Unit

-- The events of a list of headers, each with its field and its value in one piece.
abbrev pub header_events : List (Bytes × Bytes) → List HttpEvent
header_events [] = []
header_events ((f, v) ∷ hs) = header_field f ∷ header_value v ∷ header_events hs

module _ {P : Type 0} where
  -- Calls for these events, for a request with the method and the version `p`. How far the parser
  -- got at each of them, and its state there, are left open.
  abbrev pub Leads : ParserInfo → List HttpEvent → List (HttpCall P) → Type 0
  Leads p [] [] = Unit
  Leads p [] (c ∷ cs) = ⊥
  Leads p (ev ∷ evs) [] = ⊥
  Leads p (ev ∷ evs) (c ∷ cs) = (c.event ≡ ev) × (Knows p ev c.info × Leads p evs cs)

  -- The callbacks for these events return 0 in turn, from one request to the other.
  abbrev pub Passes : MultipartParser → ParserInfo → List HttpEvent → Request P → Request P → Type 0
  Passes mp p [] req r = req ≡ r
  Passes mp p (ev ∷ evs) req r =
      (q : Request P) × ((on_http mp p ev req ≡ some (pos 0, q)) × Passes mp p evs q r)

  pub Passes-append :
      (mp : MultipartParser) (p : ParserInfo) (evs later : List HttpEvent) (req q r : Request P)
      → Passes mp p evs req q
      → Passes mp p later q r
      → Passes mp p (evs ++ later) req r
  Passes-append mp p [] later req q r e h = rw e h
  Passes-append mp p (ev ∷ evs) later req q r (s, (e, t)) h =
      (s, (e, Passes-append mp p evs later s q r t h))

  on_http-Knows :
      (mp : MultipartParser) (p i : ParserInfo) (ev : HttpEvent) (req : Request P)
      → Knows p ev i
      → on_http mp i ev req ≡ on_http mp p ev req
  unfolding on_http
  on_http-Knows mp p i (url s) req k = refl
  on_http-Knows mp p i (header_field s) req k = ap (λ j. ss_on_header_field j s req) k
  on_http-Knows mp p i (header_value s) req k = refl
  on_http-Knows mp p i headers_complete req k = refl
  on_http-Knows mp p i (body s) req k = refl
  on_http-Knows mp p i message_complete req k = refl

  run_call :
      (mp : MultipartParser) (c : HttpCall P) (calls : List (HttpCall P)) (parsed : ℕ) (next : P)
      (req q : Request P)
      → on_http mp c.info c.event req ≡ some (pos 0, q)
      → run_http mp (c ∷ calls) parsed next req ≡ run_http mp calls parsed next q
  unfolding run_http
  run_call mp c calls parsed next req q e = rw (e, run_http)

  pub run_http-Passes :
      (mp : MultipartParser) (p : ParserInfo) (evs : List HttpEvent) (cs rest : List (HttpCall P))
      (parsed : ℕ) (next : P) (req r : Request P)
      → Leads p evs cs
      → Passes mp p evs req r
      → run_http mp (cs ++ rest) parsed next req ≡ run_http mp rest parsed next r
  run_http-Passes mp p [] [] rest parsed next req r h e = ap (run_http mp rest parsed next) e
  run_http-Passes mp p [] (c ∷ cs) rest parsed next req r h e = absurd h
  run_http-Passes mp p (ev ∷ evs) [] rest parsed next req r h e = absurd h
  run_http-Passes mp p (ev ∷ evs) (c ∷ cs) rest parsed next req r (same, (known, h)) (q, (e, t)) =
      run_call mp c (cs ++ rest) parsed next req q
        (ap (λ v. on_http mp c.info v req) same ∙ on_http-Knows mp p c.info ev req known ∙ e)
      ∙ run_http-Passes mp p evs cs rest parsed next q r h t

  -- All calls pass.
  pub run_http-all :
      (mp : MultipartParser) (p : ParserInfo) (evs : List HttpEvent) (cs : List (HttpCall P))
      (parsed : ℕ) (next : P) (req r : Request P)
      → Leads p evs cs
      → Passes mp p evs req r
      → run_http mp cs parsed next req ≡ some (parsed, record r { parser = next })
  unfolding run_http
  run_http-all mp p evs cs parsed next req r h e =
      ap (λ calls. run_http mp calls parsed next req) (sym (append-nil cs))
      ∙ run_http-Passes mp p evs cs [] parsed next req r h e

  pushed :
      (f : Bytes) (req : Request P)
      → req.last_was_value ≡ true
      → push_header_field f req
        ≡ some (
          pos 0,
          record req { header_fields = req.header_fields ++ f ∷ []; last_was_value = false },
        )
  unfolding push_header_field
  pushed f req h = rw h

  field_pushed :
      (p : ParserInfo) (f : Bytes) (req : Request P)
      → req.last_was_value ≡ true
      → ss_on_header_field p f req
        ≡ some (
          pos 0,
          record (line_done p req) {
            header_fields = (line_done p req).header_fields ++ f ∷ [];
            last_was_value = false;
          },
        )
  field_pushed p f req h = elim (Bool-cases (req.parse_part == parse_req_line)) [
    | inl e ↦ rw (ss_on_header_field_first p f req e, e) (pushed f (finished_line p req) h)
    | inr e ↦ rw (ss_on_header_field_later p f req e, e) (pushed f req h)
  ]

  headers-Passes :
      (mp : MultipartParser) (p : ParserInfo) (hs : List (Bytes × Bytes)) (req : Request P)
      → req.last_was_value ≡ true
      → Passes mp p (header_events hs) req (with_headers p hs req)
  unfolding with_headers on_http ss_on_header_value
  headers-Passes mp p [] req h = refl
  headers-Passes mp p ((f, v) ∷ hs) req h = (
    _,
    (
      field_pushed p f req h,
      (with_header p (f, v) req, (refl, headers-Passes mp p hs (with_header p (f, v) req) refl)),
    ),
  )

  -- The events of a request line and its headers pass and are collected.
  pub head-Passes :
      (mp : MultipartParser) (p : ParserInfo) (u : Bytes) (hs : List (Bytes × Bytes))
      (req : Request P)
      → req.last_was_value ≡ true
      → Passes mp p
          (url u ∷ header_events hs)
          req
          (with_headers p hs (record req { line = append_request_url req.line u }))
  unfolding on_http ss_on_url
  head-Passes mp p u hs req h = (_, (refl, headers-Passes mp p hs _ h))
