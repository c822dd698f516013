-- ===== src/HttpServer/Routes/Laws.antt =====
-- Mapping a path and answering a request.
use ehttp.Base.{
  ◌||◌, ◌≡◌, refl, ap, ◌∙◌, Bool, true, false, inl, inr, Bool-cases, Option, none, some, ℤ, negsuc,
  if◌then◌else◌, Bytes, same_bytes,
}
use ehttp.HttpServer.Method.{HttpMethod, allows}
use ehttp.HttpServer.Routes.{
  Resource, ResourceMap, add_method_mapping, add_json_mapping, add_handler_mapping, call_handler,
  answer, method_not_allowed, handle_request, add_resource,
}
use ehttp.Request
use ehttp.Request.{Request}
use ehttp.Response.{Response, set_body}
use ehttp.Std.OrdMap
use ehttp.Std.Order.{bytes_ord, same_key-same_bytes}

-- A mapping call of one of the three kinds.
pub data Mapping (P J : Type 0) : Type 0 where
  method_handler : (Request P → Response → Request P × Response) → Mapping P J
  json_handler json_action : (Request P → J → Request P × J) → Mapping P J

module _ {P J : Type 0} where
  abbrev pub add_mapping : ResourceMap P J → Bytes → Mapping P J → HttpMethod → ℤ × ResourceMap P J
  add_mapping m path (method_handler h) method = add_method_mapping m path h method
  add_mapping m path (json_handler h) method = add_json_mapping m path h method
  add_mapping m path (json_action h) method = add_handler_mapping m path h method

  -- What the handler makes of a request.
  abbrev pub run_mapping :
      J → (J → Bytes) → Mapping P J → Request P → Response → Request P × Response
  run_mapping null write (method_handler h) req res = h req res
  run_mapping null write (json_handler h) req res =
      let (req', root) = h req null in (req', set_body write res root)
  run_mapping null write (json_action h) req res =
      let (req', root) = h req null in (req', set_body write res root)

  handler_of : Mapping P J → Option (Request P → Response → Request P × Response)
  handler_of (method_handler h) = some h
  handler_of (json_handler h) = none
  handler_of (json_action h) = none

  json_of : Mapping P J → Option (Request P → J → Request P × J)
  json_of (method_handler h) = none
  json_of (json_handler h) = some h
  json_of (json_action h) = none

  action_of : Mapping P J → Option (Request P → J → Request P × J)
  action_of (method_handler h) = none
  action_of (json_handler h) = none
  action_of (json_action h) = some h

  abbrev resource_of : Mapping P J → HttpMethod → Resource P J
  resource_of k method = record {
    method = method;
    handler_ptr = handler_of k;
    json_ptr = json_of k;
    jh = action_of k;
  }

  add_mapping-resource :
      (m : ResourceMap P J) (path : Bytes) (k : Mapping P J) (method : HttpMethod)
      → add_mapping m path k method ≡ add_resource m path (resource_of k method)
  unfolding add_method_mapping add_json_mapping add_handler_mapping handler_of json_of action_of
  add_mapping-resource m path (method_handler h) method = refl
  add_mapping-resource m path (json_handler h) method = refl
  add_mapping-resource m path (json_action h) method = refl

  call_handler-resource :
      (null : J) (write : J → Bytes) (k : Mapping P J) (method : HttpMethod) (req : Request P)
      (res : Response)
      → call_handler null write (resource_of k method) req res ≡ run_mapping null write k req res
  unfolding call_handler handler_of json_of action_of
  call_handler-resource null write (method_handler h) method req res = refl
  call_handler-resource null write (json_handler h) method req res = refl
  call_handler-resource null write (json_action h) method req res = refl

  answer-resource :
      (null : J) (write : J → Bytes) (k : Mapping P J) (method : HttpMethod) (req : Request P)
      (res : Response)
      → answer null write req res (some (resource_of k method)) ≡ (
          if allows method (Request.get_method req)
          then run_mapping null write k req res
          else (req, method_not_allowed method res))
  unfolding answer
  answer-resource null write k method req res =
      elim (Bool-cases (allows method (Request.get_method req))) [
        | inl e ↦ rw e (call_handler-resource null write k method req res)
        | inr e ↦ rw e
      ]

  -- A path that is taken is refused, and the resources stay as they were.
  pub add_mapping_taken :
      (m : ResourceMap P J) (path : Bytes) (k : Mapping P J) (method : HttpMethod)
      → OrdMap.has path m ≡ true
      → add_mapping m path k method ≡ (negsuc 0, m)
  unfolding add_resource
  add_mapping_taken m path k method taken = add_mapping-resource m path k method ∙ rw taken

  -- A path that is free is mapped: a request for it is answered by the new handler if the method is
  -- allowed, and with 405 and the allowed methods if it is not; a request for any other path is
  -- answered as before.
  pub handle_request-add_mapping :
      (null : J) (write : J → Bytes) (m : ResourceMap P J) (path : Bytes) (k : Mapping P J)
      (method : HttpMethod) (req : Request P) (res : Response)
      → OrdMap.has path m ≡ false
      → handle_request null write (add_mapping m path k method).1 req res ≡ (
          if same_bytes path (Request.get_request_uri req)
          then (if allows method (Request.get_method req)
              then run_mapping null write k req res
              else (req, method_not_allowed method res))
          else handle_request null write m req res)
  unfolding add_resource handle_request
  handle_request-add_mapping null write m path k method req res free =
      rw (add_mapping-resource m path k method, free)
        (found-insert (same_bytes path (Request.get_request_uri req)) (
          OrdMap.find-insert path (Request.get_request_uri req) (resource_of k method) m
          ∙ rw (same_key-same_bytes path (Request.get_request_uri req))))
    where
      found-insert :
          (here : Bool)
          → OrdMap.find (Request.get_request_uri req) (OrdMap.insert path (resource_of k method) m)
            ≡ (if here
                then some (resource_of k method)
                else OrdMap.find (Request.get_request_uri req) m)
          → handle_request null write (OrdMap.insert path (resource_of k method) m) req res ≡ (
              if here
              then (if allows method (Request.get_method req)
                  then run_mapping null write k req res
                  else (req, method_not_allowed method res))
              else handle_request null write m req res)
      found-insert true e =
          ap (answer null write req res) e ∙ answer-resource null write k method req res
      found-insert false e = ap (answer null write req res) e

  -- A mapping makes its path known, and changes nothing for the others.
  pub has-add_mapping :
      (m : ResourceMap P J) (path uri : Bytes) (k : Mapping P J) (method : HttpMethod)
      → OrdMap.has path m ≡ false
      → OrdMap.has uri (add_mapping m path k method).1 ≡ (same_bytes path uri || OrdMap.has uri m)
  unfolding add_resource
  has-add_mapping m path uri k method free =
      rw (add_mapping-resource m path k method, free)
        (OrdMap.has-insert path uri (resource_of k method) m
          ∙ ap (λ b. b || OrdMap.has uri m) (same_key-same_bytes path uri))
