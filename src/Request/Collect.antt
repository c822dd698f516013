-- ===== src/Request/Collect.antt =====
-- The header events of a whole request, from the first field on.
use ehttp.Base.{
  ◌>>=◌, ℕ, ◌≡◌, refl, sym, ap, ◌∙◌, true, inl, inr, Bool-cases, Option-cases, none, List, [], ◌∷◌,
  ◌++◌, append_assoc, append-nil, some, ℤ, pos, if◌then◌else◌, ◌==◌, Bytes, arith,
}
use ehttp.Request.Callbacks.{
  ParserInfo, ss_on_header_field, ss_on_header_value, push_header_field, ss_on_headers_complete,
}
use ehttp.Request.Fragments.{
  in_header_field, in_header_value, finished_line, ss_on_header_field_first,
  ss_on_header_field_later, call_of, run_part,
}
use ehttp.Request.Headers.{
  names, contents, header_of, value_or_empty, get_header-find, get_header-ss_on_headers_complete,
}
use ehttp.Request.Multipart.{MultipartParser}
use ehttp.Request.Parse.{header_field, header_value, headers_complete, HttpCall, on_http, run_http}
use ehttp.Std.OrdMap
use ehttp.Std.Order.{bytes_ord}
use ehttp.StringUtils.{ss_str_tolower}
use ehttp.Request.{Request, parse_req_line, get_header}

module _ {P : Type 0} where
  -- The request as the first field leaves it, and as a field and its value leave it.
  abbrev pub line_done : ParserInfo → Request P → Request P
  line_done p req = if req.parse_part == parse_req_line then finished_line p req else req

  abbrev pub with_header : ParserInfo → Bytes × Bytes → Request P → Request P
  with_header p (f, v) req = record (line_done p req) {
    header_fields = (line_done p req).header_fields ++ f ∷ [];
    header_values = (line_done p req).header_values ++ v ∷ [];
    last_was_value = true;
  }

  unfoldable pub with_headers : ParserInfo → List (Bytes × Bytes) → Request P → Request P
  with_headers p [] req = req
  with_headers p (h ∷ hs) req = with_headers p hs (with_header p h req)

  -- The calls for a list of headers, each with its field and its value in one piece.
  abbrev pub header_calls : ParserInfo → ℕ → P → List (Bytes × Bytes) → List (HttpCall P)
  header_calls p n s [] = []
  header_calls p n s ((f, v) ∷ hs) =
      call_of p (header_field f) n s ∷ call_of p (header_value v) n s ∷ header_calls p n s hs

  field_then_value :
      (p : ParserInfo) (f v : Bytes) (req : Request P)
      → req.last_was_value ≡ true
      → (push_header_field f req >>= λ r. ss_on_header_value v r.1)
        ≡ some (
          pos 0,
          record req {
            header_fields = req.header_fields ++ f ∷ [];
            header_values = req.header_values ++ v ∷ [];
            last_was_value = true;
          },
        )
  unfolding push_header_field ss_on_header_value
  field_then_value p f v req h = rw h

  header_pair :
      (p : ParserInfo) (f v : Bytes) (req : Request P)
      → req.last_was_value ≡ true
      → (ss_on_header_field p f req >>= λ r. ss_on_header_value v r.1)
        ≡ some (pos 0, with_header p (f, v) req)
  header_pair p f v req h = elim (Bool-cases (req.parse_part == parse_req_line)) [
    | inl e ↦
        rw (ss_on_header_field_first p f req e, e) (field_then_value p f v (finished_line p req) h)
    | inr e ↦ rw (ss_on_header_field_later p f req e, e) (field_then_value p f v req h)
  ]

  run_header :
      (mp : MultipartParser) (p : ParserInfo) (n : ℕ) (s : P) (f v : Bytes)
      (calls : List (HttpCall P)) (parsed : ℕ) (next : P) (req : Request P)
      → req.last_was_value ≡ true
      → run_http mp
          (call_of p (header_field f) n s ∷ call_of p (header_value v) n s ∷ calls)
          parsed
          next
          req
        ≡ run_http mp calls parsed next (with_header p (f, v) req)
  unfolding on_http
  run_header mp p n s f v calls parsed next req h =
      elim (Option-cases (ss_on_header_field p f req)) [
        | inl e ↦ absurd (none_ne_some (rw e at (header_pair p f v req h)))
        | inr (r, e) ↦
            run_part mp p in_header_field f n s _ parsed next req
            ∙ rw e (
                run_part mp p in_header_value v n s calls parsed next r.1
                ∙ rw (rw e at (header_pair p f v req h)))
      ]
    where
      none_ne_some : {a : ℤ × Request P} → none ≡ some a → ⊥
      none_ne_some h = cc

  -- The run of the header calls collects the fields and the values, and finishes the request line
  -- at the first field.
  pub run_http-header_calls :
      (mp : MultipartParser) (p : ParserInfo) (n : ℕ) (s : P) (hs : List (Bytes × Bytes))
      (calls : List (HttpCall P)) (parsed : ℕ) (next : P) (req : Request P)
      → req.last_was_value ≡ true
      → run_http mp (header_calls p n s hs ++ calls) parsed next req
        ≡ run_http mp calls parsed next (with_headers p hs req)
  unfolding with_headers
  run_http-header_calls mp p n s [] calls parsed next req h = refl
  run_http-header_calls mp p n s ((f, v) ∷ hs) calls parsed next req h =
      run_header mp p n s f v _ parsed next req h
      ∙ run_http-header_calls mp p n s hs calls parsed next (with_header p (f, v) req) refl

  line_done_kept :
      (p : ParserInfo) (req : Request P)
      → ((line_done p req).header_fields ≡ req.header_fields)
        × ((line_done p req).header_values ≡ req.header_values)
        × ((line_done p req).headers ≡ req.headers)
  line_done_kept p req = ground arith

  pub with_headers-fields :
      (p : ParserInfo) (hs : List (Bytes × Bytes)) (req : Request P)
      → ((with_headers p hs req).header_fields ≡ req.header_fields ++ names hs)
        × ((with_headers p hs req).header_values ≡ req.header_values ++ contents hs)
        × ((with_headers p hs req).headers ≡ req.headers)
  unfolding with_headers
  with_headers-fields p [] req = (sym (append-nil _), sym (append-nil _), refl)
  with_headers-fields p ((f, v) ∷ hs) req =
      let (a, b, c) = with_headers-fields p hs (with_header p (f, v) req) in
      let (fields, values, headers) = line_done_kept p req in
      (
        a ∙ rw fields (append_assoc req.header_fields _ _),
        b ∙ rw values (append_assoc req.header_values _ _),
        c ∙ headers,
      )

  -- A run of the one call that ends the headers.
  complete_call :
      (mp : MultipartParser) (p : ParserInfo) (n : ℕ) (s : P) (parsed count : ℕ) (next : P)
      (req r : Request P)
      → run_http mp (call_of p headers_complete n s ∷ []) parsed next req ≡ some (count, r)
      → (q : ℤ × Request P) × (ss_on_headers_complete req ≡ some q) × (r.headers ≡ (q.1).headers)
  unfolding run_http on_http
  complete_call mp p n s parsed count next req r e =
      elim (Option-cases (ss_on_headers_complete req)) [
        | inl f ↦ absurd (ground arith)
        | inr (q, f) ↦ (q, f, ground arith)
      ]

  -- The headers of a request that has none yet and waits for a field, from the calls for them to
  -- the end of the headers, where no callback faults: however that end is answered, each name then
  -- has the last value that came under it, in any case of its letters.
  pub get_header-header_calls :
      (mp : MultipartParser) (p : ParserInfo) (n : ℕ) (s : P) (hs : List (Bytes × Bytes))
      (name : Bytes) (parsed count : ℕ) (next : P) (req r : Request P)
      → req.last_was_value ≡ true
      → req.header_fields ≡ []
      → req.header_values ≡ []
      → req.headers ≡ []
      → run_http mp (header_calls p n s hs ++ call_of p headers_complete n s ∷ []) parsed next req
        ≡ some (count, r)
      → (get_header r name).0 ≡ header_of name hs
  get_header-header_calls mp p n s hs name parsed count next req r hl hf hv hh e =
      let (fields, values, headers) = with_headers-fields p hs req in
      let (q, done, same) =
        complete_call mp p n s parsed count next (with_headers p hs req) r
          (sym (run_http-header_calls mp p n s hs _ parsed next req hl) ∙ e) in
      get_header-find r name
      ∙ ap (λ (m : List (Bytes × Bytes)). value_or_empty (OrdMap.find (ss_str_tolower name) m)) same
      ∙ sym (get_header-find q.1 name)
      ∙ get_header-ss_on_headers_complete hs (with_headers p hs req) name q (fields ∙ rw hf)
          (values ∙ rw hv) (headers ∙ hh) done
