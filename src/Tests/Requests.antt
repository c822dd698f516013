-- ===== src/Tests/Requests.antt =====
-- The parsing of requests at concrete bytes, with an HTTP parser for heads of one header.
use ehttp.Base.{
  List, ℕ, if◌then◌else◌, same_bytes, ◌≡◌, refl, [], ◌∷◌, ◌++◌, Bytes, codes, length, drop,
}
use ehttp.Request.Callbacks.{
  ParserInfo, ss_on_header_field, finish_request_line, push_header_field, ss_on_header_value,
  ss_on_headers_complete, add_headers,
}
use ehttp.Request.Collect.{with_headers, get_header-header_calls}
use ehttp.Request.Fragments.{part_event, in_url, call_of, run_http-append}
use ehttp.Request.Headers.{header_of, headers_over}
use ehttp.Request.Multipart.{MultipartParser}
use ehttp.Request.Calls.{Continues, merges_cut}
use ehttp.Request.Parse.{url, message_complete, HttpCall, HttpParser, on_http, run_http}
use ehttp.Request.{Request, new_request, get_header, add_header}
use ehttp.RequestLine.{parse_request_url_params}
use ehttp.Std.Stream.{before, after, getline}

abbrev pub no_parts : MultipartParser
no_parts = record { calls = λ boundary body. []; parsed = λ boundary body. length body }

abbrev pub get_info : ParserInfo
get_info = record { method_str = codes "GET"; http_major = 1; http_minor = 1 }

abbrev pub post_info : ParserInfo
post_info = record { method_str = codes "POST"; http_major = 1; http_minor = 1 }

-- The target of a request line, and the first header behind it.
abbrev pub target : Bytes → Bytes
target buf = before b' ' (after b' ' buf)

abbrev pub first_header : Bytes → Bytes × Bytes
first_header buf =
    let line = before 13 (after 10 buf) in (before b':' line, drop 1 (after b':' line))

abbrev pub host : Bytes × Bytes
host = (codes "Host", codes "h")

abbrev fresh : Request (Unit {0})
fresh = new_request tt

run_http-append_example :
    run_http no_parts
      (call_of get_info (part_event in_url (codes "/")) 0 tt
        ∷ call_of get_info (part_event in_url (codes "x")) 0 tt
        ∷ [])
      2
      tt
      fresh
    ≡ run_http no_parts
        (call_of get_info (part_event in_url (codes "/" ++ codes "x")) 0 tt ∷ [])
        2
        tt
        fresh
run_http-append_example =
    run_http-append no_parts get_info in_url (codes "/") (codes "x") 0 tt [] 2 tt fresh

abbrev at_body : Request (Unit {0})
at_body = headers_over (with_headers get_info (host ∷ []) fresh)

get_header-header_calls_example :
    (get_header at_body (codes "HOST")).0 ≡ header_of (codes "HOST") (host ∷ [])
unfolding with_headers run_http on_http ss_on_header_field finish_request_line
    parse_request_url_params getline push_header_field ss_on_header_value ss_on_headers_complete
    add_headers add_header
get_header-header_calls_example =
    get_header-header_calls no_parts get_info 0 tt (host ∷ []) (codes "HOST") 7 7 tt fresh at_body
      refl refl refl refl refl

-- A request whose URL is cut between two reads.
abbrev pub first_read : Bytes
first_read = codes "GET /x"

abbrev pub second_read : Bytes
second_read = codes "?a=1 HTTP/1.1"

abbrev first_calls : List (HttpCall (Unit {0}))
first_calls = call_of get_info (url (codes "/x")) 4 tt ∷ []

abbrev later_calls : ℕ → List (HttpCall (Unit {0}))
later_calls n = call_of get_info message_complete n tt ∷ []

abbrev pub cut_parser : HttpParser (Unit {0})
cut_parser = record {
  calls = λ s buf.
      if same_bytes buf first_read
      then first_calls
      else if same_bytes buf second_read
      then call_of get_info (url (codes "?a=1")) 0 tt ∷ later_calls 13
      else call_of get_info (url (codes "/x?a=1")) 4 tt ∷ later_calls 19;
  parsed = λ s buf. length buf;
  next = λ s buf. s;
}

pub cut_parser-Continues : Continues cut_parser tt first_read second_read
cut_parser-Continues = record {
  calls = merges_cut get_info in_url (codes "/x") (codes "?a=1") 4 6 4 tt tt tt (later_calls 19);
  whole = refl;
  parsed = refl;
  next = refl;
}
