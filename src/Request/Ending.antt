-- ===== src/Request/Ending.antt =====
-- The end of the headers, `ss_on_headers_complete` of src/sim_parser.cpp, on the headers that the
-- callbacks before it have collected.
use ehttp.Base.{
  ◌≡◌, refl, ap, ◌∙◌, Bool, true, false, List, [], ◌∷◌, ◌++◌, some, pos, negsuc, arith,
  if◌then◌else◌, ◌==◌, Bytes, codes, same_bytes, length, is_empty,
}
use ehttp.Request.Callbacks.{ParserInfo, add_headers, ss_on_headers_complete, version_line}
use ehttp.Request.Collect.{line_done, with_header, with_headers, with_headers-fields}
use ehttp.Request.Fragments.{finished_line}
use ehttp.Request.Headers.{
  names, contents, header_of, length-names, headers_over, get_header-headers_over,
}
use ehttp.Request.{Request, parse_req_line, parse_len_required, get_header, get_method, add_header}
use ehttp.RequestLine.{RequestLine, set_method, parse_request_url_params}
use ehttp.RequestLine.Url.{query_part, parse_request_url_params_lem}
use ehttp.RequestParam.Query.{query_pairs, insert_all}
use ehttp.RequestParam.{RequestParam}
use ehttp.Std.Stream.{has_byte}

version_line-method : (p : ParserInfo) (l : RequestLine) → (version_line p l).method ≡ l.method
version_line-method p l = ground arith

params-method : (l : RequestLine) → (parse_request_url_params l).1.method ≡ l.method
params-method l = rw (parse_request_url_params_lem l) (ground arith)

version_line-param : (p : ParserInfo) (l : RequestLine) → (version_line p l).param ≡ l.param
version_line-param p l = ground arith

version_line-url :
    (p : ParserInfo) (l : RequestLine) → (version_line p l).request_url ≡ l.request_url
version_line-url p l = ground arith

params-url : (l : RequestLine) → (parse_request_url_params l).1.request_url ≡ l.request_url
params-url l = rw (parse_request_url_params_lem l) (ground arith)

-- The parameters of a line whose URL was parsed.
abbrev pub url_params : RequestLine → RequestParam
url_params l =
    if has_byte b'?' l.request_url
    then insert_all (query_pairs (query_part l.request_url)) l.param
    else l.param

params-param : (l : RequestLine) → (parse_request_url_params l).1.param ≡ url_params l
params-param l = rw (parse_request_url_params_lem l) (ground arith)

module _ {P : Type 0} where
  add_headers-line :
      (fs vs : List Bytes) (req : Request P) → (add_headers fs vs req).1.line ≡ req.line
  unfolding add_headers add_header
  add_headers-line [] vs req = refl
  add_headers-line (f ∷ fs) [] req = refl
  add_headers-line (f ∷ fs) (v ∷ vs) req = add_headers-line fs vs _

  -- What the callback needs of the request: the headers collected, and none in the map yet.
  pub record IsCollected (hs : List (Bytes × Bytes)) (req : Request P) : Type 0 where
    pub fields : req.header_fields ≡ names hs
    pub values : req.header_values ≡ contents hs
    pub unmapped : req.headers ≡ []

  as_many :
      (hs : List (Bytes × Bytes)) (req : Request P)
      → IsCollected hs req
      → (length req.header_fields == length req.header_values) ≡ true
  as_many hs req c =
      ap (λ fs. length fs == length req.header_values) c.fields
      ∙ ap (λ vs. length (names hs) == length vs) c.values
      ∙ length-names hs

  pub headers_over-line : (req : Request P) → (headers_over req).line ≡ req.line
  headers_over-line req = add_headers-line req.header_fields req.header_values req

  headers_over-method : (req : Request P) → get_method (headers_over req) ≡ get_method req
  headers_over-method req =
      ap (λ (l : RequestLine). l.method) (add_headers-line req.header_fields req.header_values req)

  posted :
      (req : Request P) (b : Bool)
      → same_bytes (get_method req) (codes "POST") ≡ b
      → same_bytes (get_method (headers_over req)) (codes "POST") ≡ b
  posted req b e = ap (λ m. same_bytes m (codes "POST")) (headers_over-method req) ∙ e

  -- A POST request whose `Content-Length` is missing or empty fails here.
  pub complete_no_length :
      (hs : List (Bytes × Bytes)) (req : Request P)
      → IsCollected hs req
      → get_method req ≡ codes "POST"
      → header_of (codes "Content-Length") hs ≡ []
      → (r : Request P) × (ss_on_headers_complete req ≡ some (negsuc 0, r))
        × (r.parse_err ≡ parse_len_required)
  unfolding ss_on_headers_complete
  complete_no_length hs req c post none =
      let over = headers_over req in
      let empty =
        get_header-headers_over hs req (codes "Content-Length") c.fields c.values c.unmapped
        ∙ none in
      (
        record ((get_header over (codes "Content-Length")).1) { parse_err = parse_len_required },
        rw (
          as_many hs req c,
          posted req true (ap (λ m. same_bytes m (codes "POST")) post),
          ap is_empty empty,
        ),
        refl,
      )

  -- With a length, the POST request goes on, as its headers were asked for the length.
  pub complete_length :
      (hs : List (Bytes × Bytes)) (req : Request P)
      → IsCollected hs req
      → get_method req ≡ codes "POST"
      → is_empty (header_of (codes "Content-Length") hs) ≡ false
      → ss_on_headers_complete req
        ≡ some (pos 0, (get_header (headers_over req) (codes "Content-Length")).1)
  unfolding ss_on_headers_complete
  complete_length hs req c post sized =
      let present =
        ap is_empty
          (get_header-headers_over hs req (codes "Content-Length") c.fields c.values c.unmapped)
        ∙ sized in
      rw (as_many hs req c, posted req true (ap (λ m. same_bytes m (codes "POST")) post), present)

  -- Any other method goes on.
  pub complete_other :
      (hs : List (Bytes × Bytes)) (req : Request P)
      → IsCollected hs req
      → same_bytes (get_method req) (codes "POST") ≡ false
      → ss_on_headers_complete req ≡ some (pos 0, headers_over req)
  unfolding ss_on_headers_complete
  complete_other hs req c other = rw (as_many hs req c, posted req false other)

  pub finished_line-method :
      (p : ParserInfo) (req : Request P) → get_method (finished_line p req) ≡ p.method_str
  finished_line-method p req =
      version_line-method p _ ∙ params-method (set_method req.line p.method_str)

  pub finished_line-url :
      (p : ParserInfo) (req : Request P)
      → (finished_line p req).line.request_url ≡ req.line.request_url
  finished_line-url p req = version_line-url p _ ∙ params-url (set_method req.line p.method_str)

  pub finished_line-param :
      (p : ParserInfo) (req : Request P) → (finished_line p req).line.param ≡ url_params req.line
  finished_line-param p req =
      version_line-param p _ ∙ params-param (set_method req.line p.method_str)

  pub with_headers-line :
      (p : ParserInfo) (hs : List (Bytes × Bytes)) (req : Request P)
      → (req.parse_part == parse_req_line) ≡ false
      → (with_headers p hs req).line ≡ req.line
  unfolding with_headers
  with_headers-line p [] req h = refl
  with_headers-line p (x ∷ hs) req h =
      let same : line_done p req ≡ req = ap (λ b. if b then finished_line p req else req) h in
      with_headers-line p hs (with_header p x req)
        (ap (λ (r : Request P). r.parse_part == parse_req_line) same ∙ h)
      ∙ ap (λ (r : Request P). r.line) same

  -- The first of the headers finishes the request line.
  pub with_headers-finished :
      (p : ParserInfo) (h : Bytes × Bytes) (hs : List (Bytes × Bytes)) (req : Request P)
      → (req.parse_part == parse_req_line) ≡ true
      → (with_headers p (h ∷ hs) req).line ≡ (finished_line p req).line
  unfolding with_headers
  with_headers-finished p h hs req e =
      let first : line_done p req ≡ finished_line p req =
        ap (λ b. if b then finished_line p req else req) e in
      with_headers-line p hs (with_header p h req)
        (ap (λ (r : Request P). r.parse_part == parse_req_line) first)
      ∙ ap (λ (r : Request P). r.line) first

  pub with_headers-method :
      (p : ParserInfo) (h : Bytes × Bytes) (hs : List (Bytes × Bytes)) (req : Request P)
      → (req.parse_part == parse_req_line) ≡ true
      → get_method (with_headers p (h ∷ hs) req) ≡ p.method_str
  with_headers-method p h hs req e =
      ap (λ (l : RequestLine). l.method) (with_headers-finished p h hs req e)
      ∙ finished_line-method p req

  pub with_headers-IsCollected :
      (p : ParserInfo) (hs : List (Bytes × Bytes)) (req : Request P)
      → req.header_fields ≡ []
      → req.header_values ≡ []
      → req.headers ≡ []
      → IsCollected hs (with_headers p hs req)
  with_headers-IsCollected p hs req hf hv hh =
      let (fields, values, unmapped) = with_headers-fields p hs req in
      record {
        fields = fields ∙ ap (λ fs. fs ++ names hs) hf;
        values = values ∙ ap (λ vs. vs ++ contents hs) hv;
        unmapped = unmapped ∙ hh;
      }
