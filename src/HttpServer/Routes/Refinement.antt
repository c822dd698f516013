-- ===== src/HttpServer/Routes/Refinement.antt =====
-- The resources of a server against a plain routing table: the list of the mappings in the order of
-- the calls of `add_mapping` of src/http_server.cpp.
use ehttp.Base.{
  ◌≡◌, sym, ap, ◌∙◌, ◌||◌, Bool, true, false, inl, inr, Bool-cases, List, [], ◌∷◌, Option-cases,
  if◌then◌else◌, Bytes, same_bytes, same_bytes→eq, arith,
}
use ehttp.HttpServer.Method.{HttpMethod, allows}
use ehttp.HttpServer.Routes.{ResourceMap, method_not_allowed, not_found, answer, handle_request}
use ehttp.HttpServer.Routes.Laws.{
  Mapping, add_mapping, run_mapping, add_mapping_taken, handle_request-add_mapping, has-add_mapping,
}
use ehttp.Request
use ehttp.Request.{Request}
use ehttp.Response.{Response}
use ehttp.Std.OrdMap
use ehttp.Std.Order.{bytes_ord}

-- The calls of `add_mapping`: a path, a handler and a method each.
abbrev pub Table : Type 0 → Type 0 → Type 0
Table P J = List (Bytes × (Mapping P J × HttpMethod))

-- Whether a path is known does not depend on how the path came about.
has_same :
    {V : Type 0} (path uri : Bytes) (m : List (Bytes × V))
    → same_bytes path uri ≡ true
    → OrdMap.has path m ≡ OrdMap.has uri m
has_same path uri m e = ap (λ k. OrdMap.has k m) (same_bytes→eq path uri e)

module _ {P J : Type 0} where
  -- The calls, one after the other.
  abbrev pub add_mappings : ResourceMap P J → Table P J → ResourceMap P J
  add_mappings m [] = m
  add_mappings m ((path, (k, method)) ∷ table) = add_mappings (add_mapping m path k method).1 table

  -- The answer of a table: the first mapping of the path, whatever follows it.
  abbrev pub route : J → (J → Bytes) → Table P J → Request P → Response → Request P × Response
  route null write [] req res = (req, not_found res)
  route null write ((path, (k, method)) ∷ table) req res =
      let later = route null write table req res in
      if same_bytes path (Request.get_request_uri req)
      then (if allows method (Request.get_method req)
          then run_mapping null write k req res
          else (req, method_not_allowed method res))
      else later

  handle_request_none :
      (null : J) (write : J → Bytes) (m : ResourceMap P J) (req : Request P) (res : Response)
      → OrdMap.has (Request.get_request_uri req) m ≡ false
      → handle_request null write m req res ≡ (req, not_found res)
  unfolding handle_request answer
  handle_request_none null write m req res h =
      elim (Option-cases (OrdMap.find (Request.get_request_uri req) m)) [
        | inl e ↦ ap (answer null write req res) e
        | inr (r, e) ↦ absurd (ground (arith, ap OrdMap.is_some e, h))
      ]

  -- Behind resources that are there already.
  handle_request-add_mappings_from :
      (null : J) (write : J → Bytes) (m : ResourceMap P J) (table : Table P J) (req : Request P)
      (res : Response)
      → handle_request null write (add_mappings m table) req res ≡ (
          if OrdMap.has (Request.get_request_uri req) m
          then handle_request null write m req res
          else route null write table req res)
  handle_request-add_mappings_from null write m [] req res =
      elim (Bool-cases (OrdMap.has (Request.get_request_uri req) m)) [
        | inl e ↦ rw e
        | inr e ↦ rw e (handle_request_none null write m req res e)
      ]
  handle_request-add_mappings_from null write m ((path, (k, method)) ∷ table) req res =
      elim (Bool-cases (OrdMap.has path m)) [
        | inl taken ↦
            ap (λ r. handle_request null write (add_mappings r.1 table) req res)
              (add_mapping_taken m path k method taken)
            ∙ handle_request-add_mappings_from null write m table req res
            ∙ elim (Bool-cases here) [
              | inl e ↦ rw (sym (has_same path uri m e), taken)
              | inr e ↦ rw e
            ]
        | inr free ↦
            handle_request-add_mappings_from null write (add_mapping m path k method).1 table req
              res
            ∙ ap
                (λ b.
                  if b
                  then handle_request null write (add_mapping m path k method).1 req res
                  else route null write table req res)
                (has-add_mapping m path uri k method free)
            ∙ ap (λ a. if here || OrdMap.has uri m then a else route null write table req res)
                (handle_request-add_mapping null write m path k method req res free)
            ∙ elim (Bool-cases here) [
              | inl e ↦ rw (e, sym (has_same path uri m e), free)
              | inr e ↦ rw e
            ]
      ]
    where
      uri : Bytes
      uri = Request.get_request_uri req

      here : Bool
      here = same_bytes path uri

  -- A server to which the mappings of a table were added, in any number and whatever their paths,
  -- answers each request as the table does: by the first mapping of its path, with 405 where the
  -- method of that mapping does not allow the request's, and with 404 where there is none.
  pub handle_request-route :
      (null : J) (write : J → Bytes) (table : Table P J) (req : Request P) (res : Response)
      → handle_request null write (add_mappings [] table) req res ≡ route null write table req res
  unfolding OrdMap.find
  handle_request-route null write table req res =
      handle_request-add_mappings_from null write [] table req res
