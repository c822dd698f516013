-- ===== src/RequestLine/Url.antt =====
-- The parts of a request URL.
use ehttp.Base.{◌≡◌, inl, inr, pos, if◌then◌else◌, Bool-cases, Bytes}
use ehttp.RequestLine.{RequestLine, get_request_uri, parse_request_url_params}
use ehttp.RequestParam.Query.{query_pairs, insert_all, parse_query_url-query_pairs}
use ehttp.Std.Stream.{before, after, has_byte, getline_found, getline_last, getline-before}

-- The URI is what stands before the first question mark, the whole URL where there is none.
pub get_request_uri-before : (r : RequestLine) → get_request_uri r ≡ before b'?' r.request_url
unfolding get_request_uri
get_request_uri-before r = getline-before b'?' r.request_url

-- The text between the first question mark and the second, or the end.
abbrev pub query_part : Bytes → Bytes
query_part url = before b'?' (after b'?' url)

-- Parsing returns 0 and changes the parameters alone: with a question mark in the URL they gain
-- the pairs of the text up to the next question mark, and with none they stay.
pub parse_request_url_params_lem :
    (r : RequestLine)
    → parse_request_url_params r ≡ (
      pos 0,
      (if has_byte b'?' r.request_url
          then record r { param = insert_all (query_pairs (query_part r.request_url)) r.param }
          else r),
    )
unfolding parse_request_url_params
parse_request_url_params_lem r = elim (Bool-cases (has_byte b'?' r.request_url)) [
  | inl e ↦ rw (
    getline_found b'?' r.request_url e,
    e,
    getline-before b'?' (after b'?' r.request_url),
    parse_query_url-query_pairs r.param (query_part r.request_url),
  )
  | inr e ↦ rw (getline_last b'?' r.request_url e, e)
]
