-- ===== src/RequestLine.antt =====
-- `RequestLine` of src/sim_parser.h and src/sim_parser.cpp: the first line of a request.
pub mod Url
use ehttp.Base.{ℕ, Bool, List, [], ◌∷◌, ◌++◌, ℤ, pos, if◌then◌else◌, Bytes, codes}
use ehttp.RequestParam.{RequestParam, no_params, parse_query_url}
use ehttp.Std.Stream.{Stream, open_on, good, getline}

pub record RequestLine : Type 0 where
  pub param : RequestParam
  pub method : Bytes
  pub request_url : Bytes
  pub http_version : Bytes

abbrev pub empty_line : RequestLine
empty_line = record { param = no_params; method = []; request_url = []; http_version = [] }

abbrev pub get_method : RequestLine → Bytes
get_method r = r.method

abbrev pub get_request_url : RequestLine → Bytes
get_request_url r = r.request_url

unfoldable pub get_request_uri : RequestLine → Bytes
get_request_uri r = (getline b'?' (open_on (get_request_url r))).0

abbrev pub get_http_version : RequestLine → Bytes
get_http_version r = r.http_version

abbrev pub get_request_param : RequestLine → RequestParam
get_request_param r = r.param

unfoldable pub to_string : RequestLine → Bytes
to_string r =
    codes "method:"
    ++ (r.method
        ++ (codes ","
            ++ (codes "request_url:"
                ++ (r.request_url ++ (codes "," ++ (codes "http_version:" ++ r.http_version))))))

abbrev pub set_method : RequestLine → Bytes → RequestLine
set_method r m = record r { method = m }

abbrev pub set_request_url : RequestLine → Bytes → RequestLine
set_request_url r url = record r { request_url = url }

abbrev pub append_request_url : RequestLine → Bytes → RequestLine
append_request_url r url = record r { request_url = r.request_url ++ url }

abbrev pub set_http_version : RequestLine → Bytes → RequestLine
set_http_version r v = record r { http_version = v }

unfoldable pub parse_request_url_params : RequestLine → ℤ × RequestLine
parse_request_url_params r =
    let (uri, ss) = getline b'?' (open_on r.request_url) in
    let (query_url, ss') = getline b'?' ss in
    if good ss
    then (pos 0, record r { param = (parse_query_url r.param query_url).1 })
    else (pos 0, r)
