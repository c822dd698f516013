-- ===== src/Response/Layout.antt =====
-- The bytes that `gen_response` writes, as lines.
pub mod Message
use ehttp.Base.{
  ℕ, zero, suc, ◌+◌, ◌*◌, ◌/◌, ◌%◌, ◌<◌, ◌≤◌, ◌≡◌, refl, sym, ap, ◌∙◌, Bool, true, false, inl, inr,
  Bool-cases, List, [], ◌∷◌, ◌++◌, map, append_assoc, append-nil, ℤ, pos, negsuc, arith, tests,
  if◌then◌else◌, ltb, ◌==◌, ◌||◌, Bytes, codes, length, length-append, drop, is_empty, All,
  All-append,
}
use ehttp.Response.Output.{OutStream, empty_stream, put}
use ehttp.Std.Decimal.{show_fuel, show_nat, show_int}
use ehttp.Response.{
  Response, CodeMsg, crlf, ehttp_version, put_all, put_line, put_headers, status_parts, con_status,
  default_type, gen_response,
}
use ehttp.Std.OrdMap
use ehttp.Std.Order.{bytes_ord}
use ehttp.Std.Split.{Free}
use ehttp.Std.Stream.{has_byte, has_byte-append}

abbrev pub joined : List Bytes → Bytes
joined [] = []
joined (b ∷ bs) = b ++ joined bs

abbrev pub header_line : Bytes × Bytes → Bytes
header_line (name, value) = joined (name ∷ codes ": " ∷ value ∷ [])

-- A header that the response sets itself where the handler set none.
abbrev pub default_line : Bool → Bytes → List Bytes
default_line true line = []
default_line false line = line ∷ []

-- The lines of a head, from their parts.
abbrev pub lines_of :
    Bytes → Bytes → Bool → Bytes → Bool → Bytes → Bytes → List (Bytes × Bytes) → List Bytes
lines_of status server typed type sized size con hs =
    status
    ∷ server
    ∷ (default_line typed type ++ (default_line sized size ++ (con ∷ map header_line hs)))

abbrev pub server_parts : List Bytes
server_parts = codes "Server: ehttp/" ∷ ehttp_version ∷ []

abbrev pub length_parts : Response → List Bytes
length_parts r = codes "Content-Length: " ∷ show_nat (length r.body) ∷ []

-- The head of a response: its own default headers yield to those that the handler set.
unfoldable pub head_lines : Response → Bytes → Bool → List Bytes
head_lines r version is_keepalive =
    lines_of (joined (status_parts r version)) (joined server_parts)
      (OrdMap.has (codes "Content-Type") r.headers) (joined (default_type ∷ []))
      (OrdMap.has (codes "Content-Length") r.headers) (joined (length_parts r))
      (joined (con_status is_keepalive ∷ [])) r.headers

abbrev pub render_lines : List Bytes → Bytes
render_lines [] = []
render_lines (l ∷ ls) = l ++ (crlf ++ render_lines ls)

render_lines-append : (a b : List Bytes) → render_lines (a ++ b) ≡ render_lines a ++ render_lines b
render_lines-append [] b = refl
render_lines-append (l ∷ a) b = simp (render_lines-append a b, append_assoc)

abbrev pub written : Bytes → OutStream
written b = record empty_stream { buffer = b }

put_all-joined : (bs : List Bytes) (b : Bytes) → put_all bs (written b) ≡ written (b ++ joined bs)
unfolding put_all
put_all-joined [] b = ap written (sym (append-nil b))
put_all-joined (x ∷ bs) b = put_all-joined bs (b ++ x) ∙ ap written (append_assoc b x _)

put_line-joined :
    (bs : List Bytes) (b : Bytes)
    → put_line bs (written b) ≡ written (b ++ render_lines (joined bs ∷ []))
unfolding put_line
put_line-joined bs b = rw (put_all-joined bs b) (ap written (append_assoc b (joined bs) crlf))

put_default :
    (c : Bool) (bs : List Bytes) (b : Bytes)
    → (if c then written b else put_line bs (written b))
      ≡ written (b ++ render_lines (default_line c (joined bs)))
put_default true bs b = ap written (sym (append-nil b))
put_default false bs b = put_line-joined bs b

put_headers_lem :
    (hs : List (Bytes × Bytes)) (b : Bytes)
    → put_headers hs (written b) ≡ written (b ++ render_lines (map header_line hs))
unfolding put_headers
put_headers_lem [] b = ap written (sym (append-nil b))
put_headers_lem ((name, value) ∷ hs) b =
    rw (put_line-joined (name ∷ codes ": " ∷ value ∷ []) b)
      (put_headers_lem hs _ ∙ ap written (simp append_assoc))

put_message :
    (status server type size con : List Bytes) (typed sized : Bool) (hs : List (Bytes × Bytes))
    (body : Bytes)
    → let s2 = put_line server (put_line status empty_stream) in
      let s3 = if typed then s2 else put_line type s2 in
      let s4 = if sized then s3 else put_line size s3 in
      put body (put crlf (put_headers hs (put_line con s4)))
      ≡ written (
          render_lines (
            lines_of
              (joined status)
              (joined server)
              typed
              (joined type)
              sized
              (joined size)
              (joined con)
              hs)
          ++ (crlf ++ body))
put_message status server type size con typed sized hs body =
    rw
      (
        put_line-joined status [],
        put_line-joined server,
        put_default typed type,
        put_default sized size,
        put_line-joined con,
        put_headers_lem hs,
      )
      (ap written (simp (append_assoc, render_lines-append)))

pub gen_response_bytes :
    (r : Response) (version : Bytes) (is_keepalive : Bool)
    → r.res_bytes ≡ empty_stream
    → (gen_response r version is_keepalive).1.res_bytes
      ≡ written (render_lines (head_lines r version is_keepalive) ++ (crlf ++ r.body))
unfolding gen_response head_lines
gen_response_bytes r version is_keepalive fresh =
    rw fresh (put_message (status_parts r version) _ _ _ _ _ _ r.headers r.body)
