-- ===== src/Request.antt =====
-- `Request` of src/sim_parser.h and src/sim_parser.cpp: its state and accessors. `P` is the state
-- of the `http_parser` that a request holds.
pub mod Multipart
pub mod Callbacks
pub mod Parse
pub mod Fragments
pub mod Headers
pub mod Collect
pub mod Passing
pub mod Ending
pub mod Rejected
pub mod Accepted
pub mod Get
pub mod Form
pub mod Post
pub mod Resized
pub mod Sized
pub mod Calls
pub mod Reads
use ehttp.Base.{
  ℕ, Bool, true, false, List, [], ◌∷◌, Option, none, some, ℤ, pos, negsuc, if◌then◌else◌, Bytes,
  codes, same_bytes, is_empty,
}
use ehttp.RequestBody
use ehttp.RequestBody.{RequestBody, empty_body}
use ehttp.RequestLine
use ehttp.RequestLine.{RequestLine, empty_line}
use ehttp.RequestParam
use ehttp.Std.OrdMap
use ehttp.Std.Order.{bytes_ord}
use ehttp.StringUtils.{ss_str_tolower}
use ehttp.Unescape.{unescape}

abbrev pub max_req_size : ℕ
max_req_size = 10485760

abbrev pub parse_req_line : ℕ
parse_req_line = 0

abbrev pub parse_req_head : ℕ
parse_req_head = 1

abbrev pub parse_req_body : ℕ
parse_req_body = 2

abbrev pub parse_req_over : ℕ
parse_req_over = 3

abbrev pub parse_req_head_over : ℕ
parse_req_head_over = 4

abbrev pub need_more_status : ℤ
need_more_status = pos 1

abbrev pub parse_len_required : ℤ
parse_len_required = pos 2

abbrev pub parse_multipart_err : ℤ
parse_multipart_err = negsuc 2

pub record Request (P : Type 0) : Type 0 where
  pub last_was_value : Bool
  pub header_fields : List Bytes
  pub header_values : List Bytes
  pub parse_part : ℕ
  pub parse_err : ℤ
  pub line : RequestLine
  pub headers : List (Bytes × Bytes)
  pub total_req_size : ℕ
  pub body : RequestBody
  pub parser : P
  pub client_ip : Option Bytes

-- `Request::Request`, on a parser that `http_parser_init` made.
abbrev pub new_request : {P : Type 0} → P → Request P
new_request p = record {
  last_was_value = true;
  header_fields = [];
  header_values = [];
  parse_part = parse_req_line;
  parse_err = pos 0;
  line = empty_line;
  headers = [];
  total_req_size = 0;
  body = empty_body;
  parser = p;
  client_ip = none;
}

module _ {P : Type 0} where
  abbrev pub get_method : Request P → Bytes
  get_method req = RequestLine.get_method req.line

  unfoldable pub get_request_uri : Request P → Bytes
  get_request_uri req = RequestLine.get_request_uri req.line

  unfoldable pub get_request_url : Request P → Bytes
  get_request_url req = RequestLine.get_request_url req.line

  -- `_headers[name]`: a missing entry comes into being, empty.
  unfoldable pub get_header : Request P → Bytes → Bytes × Request P
  get_header req name =
      let key = ss_str_tolower name in
      elim (OrdMap.find key req.headers) [
        | none ↦ ([], record req { headers = OrdMap.insert key [] req.headers })
        | some value ↦ (value, req)
      ]

  -- The name is lowered in place; the caller's copy is the first result.
  unfoldable pub add_header : Request P → Bytes → Bytes → Bytes × Request P
  add_header req name value =
      let key = ss_str_tolower name in
      (key, record req { headers = OrdMap.insert key value req.headers })

  unfoldable pub get_param : Request P → Bytes → Bytes
  get_param req name =
      if same_bytes (get_method req) (codes "GET")
      then RequestParam.get_param (RequestLine.get_request_param req.line) name
      else if same_bytes (get_method req) (codes "POST")
      then RequestBody.get_param req.body name
      else []

  unfoldable pub get_unescape_param : Request P → Bytes → Bytes
  unfolding get_param
  get_unescape_param req name =
      let param = get_param req name in if is_empty param then param else unescape param

  unfoldable pub get_params : Request P → Bytes → List Bytes → List Bytes
  get_params req name params =
      let from_line =
        if same_bytes (get_method req) (codes "GET")
        then RequestParam.get_params (RequestLine.get_request_param req.line) name params
        else params in
      if same_bytes (get_method req) (codes "POST")
      then RequestBody.get_params req.body name from_line
      else from_line

  abbrev pub get_client_ip : Request P → Option Bytes
  get_client_ip req = req.client_ip

  abbrev pub set_client_ip : Request P → Bytes → Request P
  set_client_ip req ip = record req { client_ip = some ip }
