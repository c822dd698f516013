-- ===== src/Tests/Parsers.antt =====
-- An HTTP parser for heads with given headers, which says at each call where in the bytes it stands.
use ehttp.Base.{ℕ, ◌+◌, List, [], ◌∷◌, ◌++◌, Bytes, length}
use ehttp.Request.Callbacks.{ParserInfo}
use ehttp.Request.Parse.{
  HttpEvent, url, header_field, header_value, body, headers_complete, message_complete, HttpCall,
  HttpParser,
}
use ehttp.Std.Stream.{before, after}
use ehttp.Tests.Requests.{get_info, post_info, target, first_header}

-- The state is the number of bytes taken.
abbrev pub call_at : ParserInfo → HttpEvent → ℕ → HttpCall ℕ
call_at p ev n = record { event = ev; info = p; stops_at = n; stopped = n }

-- The calls for headers that begin at `n`, and the place behind them.
abbrev pub headers_at : ParserInfo → ℕ → List (Bytes × Bytes) → List (HttpCall ℕ)
headers_at p n [] = []
headers_at p n ((f, v) ∷ hs) =
    let colon = n + length f in
    let line_end = colon + 2 + length v in
    call_at p (header_field f) (colon + 1)
    ∷ call_at p (header_value v) (line_end + 1)
    ∷ headers_at p (line_end + 2) hs

abbrev pub headers_end : ℕ → List (Bytes × Bytes) → ℕ
headers_end n [] = n
headers_end n ((f, v) ∷ hs) = headers_end (n + length f + length v + 4) hs

-- The version is not known yet when the URL ends.
abbrev pub head_at : ParserInfo → Bytes → List (Bytes × Bytes) → List (HttpCall ℕ)
head_at p buf hs =
    call_at (record p { http_major = 0; http_minor = 0 }) (url (target buf))
      (length (before b' ' buf) + 1 + length (target buf))
    ∷ headers_at p (length (before 10 buf) + 1) hs

abbrev pub blank_line : Bytes → List (Bytes × Bytes) → ℕ
blank_line buf hs = headers_end (length (before 10 buf) + 1) hs

abbrev pub get_parser : HttpParser ℕ
get_parser = record {
  calls = λ s buf.
      let hs = first_header buf ∷ [] in
      head_at get_info buf hs
      ++ call_at get_info headers_complete (blank_line buf hs + 1)
        ∷ call_at get_info message_complete (blank_line buf hs + 2)
        ∷ [];
  parsed = λ s buf. length buf;
  next = λ s buf. s + length buf;
}

-- A POST request without a length has no body.
abbrev pub post_parser : HttpParser ℕ
post_parser = record {
  calls = λ s buf.
      let hs = first_header buf ∷ [] in
      head_at post_info buf hs
      ++ call_at post_info headers_complete (blank_line buf hs + 1)
        ∷ call_at post_info message_complete (blank_line buf hs + 2)
        ∷ [];
  parsed = λ s buf. length buf;
  next = λ s buf. s + length buf;
}

-- With two headers, and a body behind the empty line.
abbrev pub form_parser : HttpParser ℕ
form_parser = record {
  calls = λ s buf.
      let hs = first_header buf ∷ first_header (after 10 buf) ∷ [] in
      head_at post_info buf hs
      ++ call_at post_info headers_complete (blank_line buf hs + 1)
        ∷ call_at post_info (body (after 10 (after 10 (after 10 (after 10 buf))))) (length buf)
        ∷ call_at post_info message_complete (length buf)
        ∷ [];
  parsed = λ s buf. length buf;
  next = λ s buf. s + length buf;
}
