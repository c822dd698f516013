-- ===== src/Request/Form.antt =====
-- The end of a message with a form as its body, `ss_on_body` and `ss_on_message_complete` of
-- src/sim_parser.cpp.
use ehttp.Base.{
  ◌≡◌, refl, ap, ◌∙◌, false, inl, inr, Option-cases, [], ◌∷◌, ◌++◌, some, pos, Bytes, codes,
  is_empty,
}
use ehttp.Request.Callbacks.{
  ParserInfo, ss_on_body, ss_on_headers_complete, ss_on_message_complete, parse_form,
  parse_multipart, contains,
}
use ehttp.Request.Multipart.{MultipartParser}
use ehttp.Request.Parse.{headers_complete, body, message_complete, on_http}
use ehttp.Request.Passing.{Passes}
use ehttp.Request.{Request, parse_req_body, parse_req_over, get_header}
use ehttp.RequestBody.{RequestBody, empty_body}
use ehttp.RequestParam.{no_params, parse_query_url}
use ehttp.Std.OrdMap
use ehttp.Std.Order.{bytes_ord}
use ehttp.StringUtils.{ss_str_tolower}

abbrev pub form_type : Bytes
form_type = codes "application/x-www-form-urlencoded"

-- A body with the text of a form, as it comes and as it is parsed.
abbrev pub raw_body : Bytes → RequestBody
raw_body b = record empty_body { raw_string = b }

abbrev pub form_body : Bytes → RequestBody
form_body b = record (raw_body b) { req_params = (parse_query_url no_params b).1 }

module _ {P : Type 0} where
  abbrev pub with_body : Bytes → Request P → Request P
  with_body b req = record req {
    body = record (req.body) { raw_string = req.body.raw_string ++ b };
    parse_part = parse_req_body;
  }

  pub get_header-body :
      (req : Request P) (name : Bytes)
      → ((get_header req name).1.body ≡ req.body)
        × ((get_header req name).1.parse_err ≡ req.parse_err)
  unfolding get_header
  get_header-body req name = elim (Option-cases (OrdMap.find (ss_str_tolower name) req.headers)) [
    | inl e ↦ rw (e, get_header) (refl, refl)
    | inr (v, e) ↦ rw (e, get_header) (refl, refl)
  ]

  -- The request when its form is parsed, `asked` for its content type.
  abbrev pub formed : Bytes → Request P → Request P
  formed b asked = record asked { body = form_body b; parse_part = parse_req_over }

  parse_form-raw_body :
      (req : Request P) (b : Bytes)
      → req.body ≡ raw_body b
      → is_empty b ≡ false
      → parse_form form_type req ≡ record req { body = form_body b }
  unfolding parse_form
  parse_form-raw_body req b e full =
      let raw : is_empty req.body.raw_string ≡ false =
        ap (λ (c : RequestBody). is_empty c.raw_string) e ∙ full in
      rw raw (
        ap
          (λ (c : RequestBody). record req {
            body = record c { req_params = (parse_query_url c.req_params c.raw_string).1 };
          })
          e)

  pub completed_form :
      (mp : MultipartParser) (req : Request P) (b : Bytes)
      → req.body ≡ raw_body b
      → is_empty b ≡ false
      → (get_header req (codes "Content-Type")).0 ≡ form_type
      → ss_on_message_complete mp req
        ≡ some (pos 0, formed b (get_header req (codes "Content-Type")).1)
  unfolding ss_on_message_complete parse_multipart contains
  completed_form mp req b e full form =
      let (same, err) = get_header-body req (codes "Content-Type") in
      rw (form, parse_form-raw_body (get_header req (codes "Content-Type")).1 b (same ∙ e) full)

  pub finish_form :
      (mp : MultipartParser) (p : ParserInfo) (b : Bytes) (req over r : Request P)
      → ss_on_headers_complete req ≡ some (pos 0, over)
      → ss_on_message_complete mp (with_body b over) ≡ some (pos 0, r)
      → Passes mp p (headers_complete ∷ body b ∷ message_complete ∷ []) req r
  unfolding on_http ss_on_body
  finish_form mp p b req over r e f = (over, (e, (with_body b over, (refl, (r, (f, refl))))))
