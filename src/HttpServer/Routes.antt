-- ===== src/HttpServer/Routes.antt =====
-- `Resource`, `HttpServer::add_mapping` and `HttpEpollWatcher::handle_request` of
-- src/http_server.cpp. The handlers are the application's: they are functions of the request. `J`
-- is the type of JSON values, `json_null` an empty value and `write` the fast writer.
pub mod Laws
pub mod Refinement
use ehttp.Base.{
  ℕ, Bool, true, false, not, List, [], ◌∷◌, Option, none, some, ℤ, pos, negsuc, if◌then◌else◌,
  Bytes, codes,
}
use ehttp.HttpServer.Method.{HttpMethod, allows, get_names_str, get_method}
use ehttp.Request
use ehttp.Request.{Request}
use ehttp.Response.{Response, status_not_found, status_method_not_allowed, set_head, set_body}
use ehttp.Std.OrdMap
use ehttp.Std.Order.{bytes_ord}

pub record Resource (P J : Type 0) : Type 0 where
  pub method : HttpMethod
  pub handler_ptr : Option (Request P → Response → Request P × Response)
  pub json_ptr : Option (Request P → J → Request P × J)
  pub jh : Option (Request P → J → Request P × J)

abbrev pub ResourceMap : Type 0 → Type 0 → Type 0
ResourceMap P J = List (Bytes × Resource P J)

abbrev pub not_found : Response → Response
not_found res = record res { code_msg = status_not_found; body = status_not_found.msg }

abbrev pub method_not_allowed : HttpMethod → Response → Response
method_not_allowed method res =
    record (set_head (record res { code_msg = status_method_not_allowed }) (codes "Allow")
      (get_names_str method)) { body = [] }

module _ {P J : Type 0} where
  -- What the three overloads of `add_mapping` share: a path is taken once.
  add_resource : ResourceMap P J → Bytes → Resource P J → ℤ × ResourceMap P J
  add_resource m path res =
      if OrdMap.has path m then (negsuc 0, m) else (pos 0, OrdMap.insert path res m)

  unfoldable pub add_method_mapping :
      ResourceMap P J
      → Bytes
      → (Request P → Response → Request P × Response)
      → HttpMethod
      → ℤ × ResourceMap P J
  unfolding add_resource
  add_method_mapping m path handler method =
      add_resource m path
        (record { method = method; handler_ptr = some handler; json_ptr = none; jh = none })

  unfoldable pub add_json_mapping :
      ResourceMap P J → Bytes → (Request P → J → Request P × J) → HttpMethod → ℤ × ResourceMap P J
  unfolding add_resource
  add_json_mapping m path handler method =
      add_resource m path
        (record { method = method; handler_ptr = none; json_ptr = some handler; jh = none })

  unfoldable pub add_handler_mapping :
      ResourceMap P J → Bytes → (Request P → J → Request P × J) → HttpMethod → ℤ × ResourceMap P J
  unfolding add_resource
  add_handler_mapping m path handler method =
      add_resource m path
        (record { method = method; handler_ptr = none; json_ptr = none; jh = some handler })

  -- The handler of a resource, in the order in which the three kinds are tried.
  unfoldable pub call_handler :
      J → (J → Bytes) → Resource P J → Request P → Response → Request P × Response
  call_handler json_null write resource req res = elim resource.json_ptr [
    | some json ↦ (let (req', root) = json req json_null in (req', set_body write res root))
    | none ↦ elim resource.handler_ptr [
      | some handler ↦ handler req res
      | none ↦ elim resource.jh [
        | some action ↦ (let (req', root) = action req json_null in (req', set_body write res root))
        | none ↦ (req, res)
      ]
    ]
  ]

  -- What `handle_request` does with what it finds under the URI.
  unfoldable pub answer :
      J → (J → Bytes) → Request P → Response → Option (Resource P J) → Request P × Response
  answer json_null write req res none = (req, not_found res)
  answer json_null write req res (some resource) =
      if not (allows resource.method (Request.get_method req))
      then (req, method_not_allowed resource.method res)
      else call_handler json_null write resource req res

  -- Every path returns 0; the result is the request and the response.
  unfoldable pub handle_request :
      J → (J → Bytes) → ResourceMap P J → Request P → Response → Request P × Response
  handle_request json_null write m req res =
      answer json_null write req res (OrdMap.find (Request.get_request_uri req) m)
