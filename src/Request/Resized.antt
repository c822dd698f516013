-- ===== src/Request/Resized.antt =====
-- The callbacks of the multipart parser of src/sim_parser.cpp do not look at the size that
-- `parse_request` counts, nor at the state of the HTTP parser.
use ehttp.Base.{
  ℕ, ◌++◌, ◌≡◌, refl, ap, ◌∙◌, true, false, Bool-cases, inl, inr, List, [], ◌∷◌, Option, none, some,
  ℤ, arith, is_zero, Bytes, codes,
}
use ehttp.Request.Multipart.{
  MultipartParser, MultipartEvent, MultipartCall, part_header_field, part_header_value, part_data,
  part_data_end, body_end, on_multipart, run_multipart, ss_parse_multipart_data,
  ss_on_multipart_name, ss_on_multipart_value, ss_on_multipart_data, ss_on_multipart_data_over,
  ss_on_multipart_body_end, parse_with_boundary, parse_with_type,
}
use ehttp.Request.{Request, get_header}
use ehttp.StringUtils.{ss_split_str}

module _ {P : Type 0} where
  -- A request with another counted size and another state of the parser.
  abbrev pub sized : ℕ → P → Request P → Request P
  sized n q req = record req { total_req_size = n; parser = q }

  abbrev pub resize {ℓ} : {A : Type ℓ} → ℕ → P → Option (A × Request P) → Option (A × Request P)
  resize n q none = none
  resize n q (some (a, req)) = some (a, sized n q req)

  ss_on_multipart_name-sized :
      (n : ℕ) (q : P) (s : Bytes) (req : Request P)
      → ss_on_multipart_name s (sized n q req) ≡ resize n q (ss_on_multipart_name s req)
  unfolding ss_on_multipart_name
  ss_on_multipart_name-sized n q s req = ground arith

  ss_on_multipart_value-sized :
      (n : ℕ) (q : P) (s : Bytes) (req : Request P)
      → ss_on_multipart_value s (sized n q req) ≡ resize n q (ss_on_multipart_value s req)
  unfolding ss_on_multipart_value
  ss_on_multipart_value-sized n q s req = ground arith

  ss_on_multipart_data-sized :
      (n : ℕ) (q : P) (s : Bytes) (req : Request P)
      → ss_on_multipart_data s (sized n q req) ≡ resize n q (ss_on_multipart_data s req)
  unfolding ss_on_multipart_data
  ss_on_multipart_data-sized n q s req = ground arith

  ss_on_multipart_data_over-sized :
      (n : ℕ) (q : P) (req : Request P)
      → ss_on_multipart_data_over (sized n q req) ≡ resize n q (ss_on_multipart_data_over req)
  unfolding ss_on_multipart_data_over
  ss_on_multipart_data_over-sized n q req = ground arith

  ss_on_multipart_body_end-sized :
      (n : ℕ) (q : P) (req : Request P)
      → ss_on_multipart_body_end (sized n q req) ≡ resize n q (ss_on_multipart_body_end req)
  unfolding ss_on_multipart_body_end
  ss_on_multipart_body_end-sized n q req = refl

  pub get_header-sized :
      (n : ℕ) (q : P) (name : Bytes) (req : Request P)
      → get_header (sized n q req) name
        ≡ ((get_header req name).0, sized n q (get_header req name).1)
  unfolding get_header
  get_header-sized n q name req = ground arith

  on_multipart-sized :
      (n : ℕ) (q : P) (e : MultipartEvent) (req : Request P)
      → on_multipart e (sized n q req) ≡ resize n q (on_multipart e req)
  unfolding on_multipart
  on_multipart-sized n q (part_header_field s) req = ss_on_multipart_name-sized n q s req
  on_multipart-sized n q (part_header_value s) req = ss_on_multipart_value-sized n q s req
  on_multipart-sized n q (part_data s) req = ss_on_multipart_data-sized n q s req
  on_multipart-sized n q part_data_end req = ss_on_multipart_data_over-sized n q req
  on_multipart-sized n q body_end req = ss_on_multipart_body_end-sized n q req

  -- A call of the multipart parser, and then the others.
  abbrev then_multipart :
      MultipartCall → List MultipartCall → ℕ → Option (ℤ × Request P) → Option (ℕ × Request P)
  then_multipart c calls parsed none = none
  then_multipart c calls parsed (some (ret, req)) = elim (is_zero ret) [
    | true ↦ run_multipart calls parsed req
    | false ↦ some (c.stops_at, req)
  ]

  then_multipart-sized :
      (n : ℕ) (q : P) (c : MultipartCall) (calls : List MultipartCall) (parsed : ℕ)
      (o : Option (ℤ × Request P))
      → ((req : Request P)
          → run_multipart calls parsed (sized n q req)
            ≡ resize n q (run_multipart calls parsed req))
      → then_multipart c calls parsed (resize n q o) ≡ resize n q (then_multipart c calls parsed o)
  then_multipart-sized n q c calls parsed none h = refl
  then_multipart-sized n q c calls parsed (some (ret, req)) h = elim (Bool-cases (is_zero ret)) [
    | inl e ↦ rw (e, then_multipart) (h req)
    | inr e ↦ rw (e, then_multipart)
  ]

  run_multipart-sized :
      (n : ℕ) (q : P) (calls : List MultipartCall) (parsed : ℕ) (req : Request P)
      → run_multipart calls parsed (sized n q req) ≡ resize n q (run_multipart calls parsed req)
  unfolding run_multipart
  run_multipart-sized n q [] parsed req = refl
  run_multipart-sized n q (c ∷ calls) parsed req =
      ap (then_multipart c calls parsed) (on_multipart-sized n q c.event req)
      ∙ then_multipart-sized n q c calls parsed (on_multipart c.event req)
          (run_multipart-sized n q calls parsed)

  parse_with_boundary-sized :
      (n : ℕ) (q : P) (mp : MultipartParser) (tokens : List Bytes) (req : Request P)
      → parse_with_boundary mp tokens (sized n q req)
        ≡ resize n q (parse_with_boundary mp tokens req)
  unfolding parse_with_boundary
  parse_with_boundary-sized n q mp [] req = refl
  parse_with_boundary-sized n q mp (name ∷ []) req = refl
  parse_with_boundary-sized n q mp (name ∷ value ∷ []) req =
      let raw = req.body.raw_string in
      let boundary = codes "--" ++ value in
      ground (arith, run_multipart-sized n q (mp.calls boundary raw) (mp.parsed boundary raw) req)
  parse_with_boundary-sized n q mp (name ∷ value ∷ other ∷ tokens) req = refl

  parse_with_type-sized :
      (n : ℕ) (q : P) (mp : MultipartParser) (tokens : List Bytes) (req : Request P)
      → parse_with_type mp tokens (sized n q req) ≡ resize n q (parse_with_type mp tokens req)
  unfolding parse_with_type
  parse_with_type-sized n q mp [] req = refl
  parse_with_type-sized n q mp (kind ∷ []) req = refl
  parse_with_type-sized n q mp (kind ∷ attribute ∷ []) req =
      parse_with_boundary-sized n q mp (ss_split_str attribute b'=' []).1 req
  parse_with_type-sized n q mp (kind ∷ attribute ∷ other ∷ tokens) req = refl

  pub ss_parse_multipart_data-sized :
      (n : ℕ) (q : P) (mp : MultipartParser) (req : Request P)
      → ss_parse_multipart_data mp (sized n q req) ≡ resize n q (ss_parse_multipart_data mp req)
  unfolding ss_parse_multipart_data
  ss_parse_multipart_data-sized n q mp req = rw (get_header-sized n q (codes "Content-Type") req) (
      ground (
        arith,
        parse_with_type-sized n q mp
            (ss_split_str (get_header req (codes "Content-Type")).0 b';' []).1
            (get_header req (codes "Content-Type")).1,
      ))
