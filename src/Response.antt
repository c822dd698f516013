-- ===== src/Response.antt =====
-- `Response` of src/sim_parser.h and src/sim_parser.cpp: status, headers, body and the bytes to send.
pub mod Output
pub mod Reading
pub mod Layout
use ehttp.Base.{
  ℕ, ◌+◌, ◌-◌, Bool, true, false, not, List, [], ◌∷◌, ◌++◌, ℤ, pos, negsuc, if◌then◌else◌, leb,
  Bytes, codes, length,
}
use ehttp.Request.{need_more_status}
use ehttp.Response.Output.{OutStream, empty_stream, good, put, read, tellg, seekg, clear}
use ehttp.Std.Decimal.{show_nat, show_int}
use ehttp.Std.OrdMap
use ehttp.Std.Order.{bytes_ord}

pub record CodeMsg : Type 0 where
  pub status_code : ℤ
  pub msg : Bytes

abbrev pub status_ok : CodeMsg
status_ok = record { status_code = pos 200; msg = codes "OK" }

abbrev pub status_not_found : CodeMsg
status_not_found = record { status_code = pos 404; msg = codes "Not Found" }

abbrev pub status_method_not_allowed : CodeMsg
status_method_not_allowed = record { status_code = pos 405; msg = codes "Method Not Allowed" }

abbrev pub status_length_required : CodeMsg
status_length_required = record { status_code = pos 411; msg = codes "Length Required" }

-- `EHTTP_VERSION` of src/ehttp_version.h.
abbrev pub ehttp_version : Bytes
ehttp_version = codes "1.0.5"

pub record Response : Type 0 where
  pub is_writed : Bool
  pub code_msg : CodeMsg
  pub body : Bytes
  pub headers : List (Bytes × Bytes)
  pub res_bytes : OutStream

abbrev pub new_response : CodeMsg → Response
new_response c = record {
  is_writed = false;
  code_msg = c;
  body = [];
  headers = [];
  res_bytes = empty_stream;
}

abbrev pub set_head : Response → Bytes → Bytes → Response
set_head r name value = record r { headers = OrdMap.insert name value r.headers }

-- `write` stands for `Json::FastWriter::write`.
abbrev pub set_body {ℓ} : {J : Type ℓ} → (J → Bytes) → Response → J → Response
set_body write r root = record r { body = write root }

abbrev pub crlf : Bytes
crlf = 13 ∷ 10 ∷ []

-- `_res_bytes << a << b << ... << "\r\n"`
unfoldable pub put_all : List Bytes → OutStream → OutStream
put_all [] s = s
put_all (b ∷ bs) s = put_all bs (put b s)

unfoldable pub put_line : List Bytes → OutStream → OutStream
put_line parts s = put crlf (put_all parts s)

-- `for (it = _headers.begin(); ...) _res_bytes << it->first << ": " << it->second << "\r\n"`
unfoldable pub put_headers : List (Bytes × Bytes) → OutStream → OutStream
put_headers [] s = s
put_headers ((name, value) ∷ hs) s = put_headers hs (put_line (name ∷ codes ": " ∷ value ∷ []) s)

abbrev pub status_parts : Response → Bytes → List Bytes
status_parts r http_version =
    http_version ∷ codes " " ∷ show_int r.code_msg.status_code ∷ codes " " ∷ r.code_msg.msg ∷ []

abbrev pub con_status : Bool → Bytes
con_status is_keepalive =
    if is_keepalive then codes "Connection: Keep-Alive" else codes "Connection: close"

abbrev pub default_type : Bytes
default_type = codes "Content-Type: application/json; charset=UTF-8"

unfoldable pub gen_response : Response → Bytes → Bool → ℤ × Response
gen_response r http_version is_keepalive =
    let s1 = put_line (status_parts r http_version) r.res_bytes in
    let s2 = put_line (codes "Server: ehttp/" ∷ ehttp_version ∷ []) s1 in
    let s3 =
      if OrdMap.has (codes "Content-Type") r.headers then s2 else put_line (default_type ∷ []) s2 in
    let s4 =
      if OrdMap.has (codes "Content-Length") r.headers
      then s3
      else put_line (codes "Content-Length: " ∷ show_nat (length r.body) ∷ []) s3 in
    let s5 = put_line (con_status is_keepalive ∷ []) s4 in
    let s6 = put_headers r.headers s5 in (pos 0, record r { res_bytes = put r.body (put crlf s6) })

-- The bytes stored in the caller's buffer, `read_size` and the returned code.
unfoldable pub readsome : Response → ℕ → Bytes × ℕ × ℤ × Response
readsome r buffer_size =
    let (bytes, s) = read r.res_bytes buffer_size in
    (bytes, s.count, (if not s.eof then need_more_status else pos 0), record r { res_bytes = s })

-- `(int) tellg() - num`
abbrev pub back : ℤ → ℕ → ℤ
back (pos n) num = if leb num n then pos (n - num) else negsuc (num - n - 1)
back (negsuc n) num = negsuc (n + num)

unfoldable pub rollback : Response → ℕ → ℤ × Response
rollback r num =
    let cleared = if r.res_bytes.eof then clear r.res_bytes else r.res_bytes in
    let moved = seekg (back (tellg cleared) num) cleared in
    ((if good moved then pos 0 else negsuc 0), record r { res_bytes = moved })
