-- ===== src/Request/Headers.antt =====
-- How header fields and values become the headers that `get_header` answers.
use ehttp.Base.{
  ◌≡◌, refl, sym, ap, ◌∙◌, true, ◌⊎◌, inl, inr, Bool-cases, Option-cases, List, [], ◌∷◌, map,
  Option, none, some, ℤ, arith, if◌then◌else◌, ◌==◌, Bytes, codes, same_bytes, length,
}
use ehttp.Request.Callbacks.{add_headers, ss_on_headers_complete}
use ehttp.Request.{Request, parse_req_head_over, get_header, add_header}
use ehttp.Std.OrdMap
use ehttp.Std.Order.{bytes_ord, same_key, same_key→eq, same_key-same_bytes}
use ehttp.StringUtils.{ss_str_tolower}

abbrev pub value_or_empty : Option Bytes → Bytes
value_or_empty none = []
value_or_empty (some v) = v

-- The last value that a list of headers has under a lowered name, if it has one.
abbrev pub last_value : Bytes → List (Bytes × Bytes) → Option Bytes → Option Bytes
last_value key [] found = found
last_value key ((f, v) ∷ hs) found =
    last_value key hs (if same_bytes (ss_str_tolower f) key then some v else found)

-- What a header's name stands for, whatever the case of its letters.
abbrev pub header_of : Bytes → List (Bytes × Bytes) → Bytes
header_of name hs = value_or_empty (last_value (ss_str_tolower name) hs none)

abbrev pub names : List (Bytes × Bytes) → List Bytes
names = map (λ h. h.0)

abbrev pub contents : List (Bytes × Bytes) → List Bytes
contents = map (λ h. h.1)

insert_headers : List (Bytes × Bytes) → List (Bytes × Bytes) → List (Bytes × Bytes)
insert_headers [] m = m
insert_headers ((f, v) ∷ hs) m = insert_headers hs (OrdMap.insert (ss_str_tolower f) v m)

find-insert_headers :
    (key : Bytes) (hs m : List (Bytes × Bytes))
    → OrdMap.find key (insert_headers hs m) ≡ last_value key hs (OrdMap.find key m)
unfolding insert_headers
find-insert_headers key [] m = refl
find-insert_headers key ((f, v) ∷ hs) m =
    find-insert_headers key hs _
    ∙ rw (OrdMap.find-insert (ss_str_tolower f) key v m, same_key-same_bytes (ss_str_tolower f) key)

pub length-names : (hs : List (Bytes × Bytes)) → (length (names hs) == length (contents hs)) ≡ true
length-names [] = refl
length-names (h ∷ hs) = ground (arith, length-names hs)

find-insert_empty :
    (key name : Bytes) (m : List (Bytes × Bytes))
    → OrdMap.find key m ≡ none
    → value_or_empty (OrdMap.find name (OrdMap.insert key [] m))
      ≡ value_or_empty (OrdMap.find name m)
find-insert_empty key name m e = elim (Bool-cases (same_key key name)) [
  | inl s ↦ rw (OrdMap.find-insert key name [] m, s, ← same_key→eq key name s, e)
  | inr s ↦ rw (OrdMap.find-insert key name [] m, s)
]

module _ {P : Type 0} where
  add_headers-insert_headers :
      (hs : List (Bytes × Bytes)) (req : Request P)
      → (add_headers (names hs) (contents hs) req).1
        ≡ record req { headers = insert_headers hs req.headers }
  unfolding add_headers insert_headers add_header
  add_headers-insert_headers [] req = refl
  add_headers-insert_headers ((f, v) ∷ hs) req = add_headers-insert_headers hs _

  pub get_header-find :
      (req : Request P) (name : Bytes)
      → (get_header req name).0 ≡ value_or_empty (OrdMap.find (ss_str_tolower name) req.headers)
  unfolding get_header
  get_header-find req name = elim (Option-cases (OrdMap.find (ss_str_tolower name) req.headers)) [
    | inl e ↦ rw (e, get_header)
    | inr (v, e) ↦ rw (e, get_header)
  ]

  -- Asking for a header may add an empty one, which no answer shows.
  pub get_header-get_header :
      (req : Request P) (asked name : Bytes)
      → (get_header (get_header req asked).1 name).0 ≡ (get_header req name).0
  unfolding get_header
  get_header-get_header req asked name =
      get_header-find (get_header req asked).1 name
      ∙ kept (Option-cases (OrdMap.find (ss_str_tolower asked) req.headers))
      ∙ sym (get_header-find req name)
    where
      kept :
          (OrdMap.find (ss_str_tolower asked) req.headers ≡ none)
            ⊎ ((v : Bytes) × (OrdMap.find (ss_str_tolower asked) req.headers ≡ some v))
          → value_or_empty (OrdMap.find (ss_str_tolower name) (get_header req asked).1.headers)
            ≡ value_or_empty (OrdMap.find (ss_str_tolower name) req.headers)
      kept (inl e) =
          rw (e, get_header)
            (find-insert_empty (ss_str_tolower asked) (ss_str_tolower name) req.headers e)
      kept (inr (v, e)) = rw (e, get_header)

  -- The request when its headers are in the map.
  abbrev pub headers_over : Request P → Request P
  headers_over req =
      let (fields, added) = add_headers req.header_fields req.header_values req in
      record added { header_fields = fields; parse_part = parse_req_head_over }

  complete_headers :
      (req : Request P) (r : ℤ × Request P)
      → (length req.header_fields == length req.header_values) ≡ true
      → ss_on_headers_complete req ≡ some r
      → ((r.1).headers ≡ (headers_over req).headers)
        ⊎ ((r.1).headers ≡ (get_header (headers_over req) (codes "Content-Length")).1.headers)
  unfolding ss_on_headers_complete
  complete_headers req r h e = ground arith

  added_headers :
      (fs vs : List Bytes) (hs : List (Bytes × Bytes)) (req : Request P)
      → fs ≡ names hs
      → vs ≡ contents hs
      → (add_headers fs vs req).1.headers ≡ insert_headers hs req.headers
  added_headers fs vs hs req hf hv =
      rw (hf, hv) (ap (λ (r : Request P). r.headers) (add_headers-insert_headers hs req))

  pub get_header-headers_over :
      (hs : List (Bytes × Bytes)) (req : Request P) (name : Bytes)
      → req.header_fields ≡ names hs
      → req.header_values ≡ contents hs
      → req.headers ≡ []
      → (get_header (headers_over req) name).0 ≡ header_of name hs
  unfolding OrdMap.find
  get_header-headers_over hs req name hf hv hh =
      get_header-find (headers_over req) name
      ∙ rw (added_headers req.header_fields req.header_values hs req hf hv, hh)
          (ap value_or_empty (find-insert_headers (ss_str_tolower name) hs []))

  -- Whatever the callback returns at the end of the headers, the request then answers each name,
  -- in any case of its letters, with the last value that came under it, and with the empty text
  -- where none came.
  pub get_header-ss_on_headers_complete :
      (hs : List (Bytes × Bytes)) (req : Request P) (name : Bytes) (r : ℤ × Request P)
      → req.header_fields ≡ names hs
      → req.header_values ≡ contents hs
      → req.headers ≡ []
      → ss_on_headers_complete req ≡ some r
      → (get_header r.1 name).0 ≡ header_of name hs
  get_header-ss_on_headers_complete hs req name r hf hv hh e =
      elim (complete_headers req r (rw (hf, hv) (length-names hs)) e) [
        | inl f ↦
            get_header-find r.1 name
            ∙ rw f (sym (get_header-find (headers_over req) name))
            ∙ get_header-headers_over hs req name hf hv hh
        | inr f ↦
            get_header-find r.1 name
            ∙ rw f (
                sym
                  (get_header-find (get_header (headers_over req) (codes "Content-Length")).1 name))
            ∙ get_header-get_header (headers_over req) (codes "Content-Length") name
            ∙ get_header-headers_over hs req name hf hv hh
      ]
