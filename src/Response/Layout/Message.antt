-- ===== src/Response/Layout/Message.antt =====
-- What `gen_response` writes is an HTTP message: header lines, an empty line, the body.
use ehttp.Response.Layout.{
  joined, header_line, default_line, lines_of, server_parts, length_parts, head_lines, render_lines,
  gen_response_bytes,
}
use ehttp.Base.{
  ℕ, zero, suc, ◌+◌, ◌/◌, ◌%◌, ◌<◌, ◌≤◌, ◌≡◌, refl, Bool, true, false, inl, inr, Bool-cases, List,
  [], ◌∷◌, ◌++◌, map, append_assoc, ℤ, pos, negsuc, arith, if◌then◌else◌, ltb, ◌==◌, Bytes, codes,
  length, length-append, drop, is_empty, All, All-append,
}
use ehttp.Response.Output.{empty_stream}
use ehttp.Std.Decimal.{show_fuel, show_nat, show_int}
use ehttp.Response.{Response, crlf, status_parts, con_status, default_type, gen_response}
use ehttp.Std.OrdMap
use ehttp.Std.Order.{bytes_ord}
use ehttp.Std.Split.{Free}
use ehttp.Std.Stream.{has_byte, has_byte-append}

-- A reader of messages: a line ends at a carriage return and a line feed, the head at an empty
-- line.
abbrev pub cut_line : Bytes → Bytes × Bytes
cut_line [] = ([], [])
cut_line (c ∷ s) =
    let (line, rest) = cut_line s in if c == 13 then ([], drop 1 s) else (c ∷ line, rest)

read_lines : ℕ → Bytes → List Bytes × Bytes
read_lines zero s = ([], s)
read_lines (suc fuel) s =
    let (line, rest) = cut_line s in
    let (lines, body) = read_lines fuel rest in
    if is_empty line then ([], rest) else (line ∷ lines, body)

unfoldable pub read_message : Bytes → List Bytes × Bytes
unfolding read_lines
read_message s = read_lines (suc (length s)) s

abbrev pub NonEmptyLine : Bytes → Type 0
NonEmptyLine l = (is_empty l ≡ false) × Free 13 l

cut_line-append : (l s : Bytes) → Free 13 l → cut_line (l ++ (crlf ++ s)) ≡ (l, s)
unfolding has_byte
cut_line-append [] s h = refl
cut_line-append (c ∷ l) s h = ground (arith, cut_line-append l s)

read_lines-render :
    (fuel : ℕ) (ls : List Bytes) (body : Bytes)
    → length ls < fuel
    → All NonEmptyLine ls
    → read_lines fuel (render_lines ls ++ (crlf ++ body)) ≡ (ls, body)
unfolding read_lines
read_lines-render zero ls body h a = absurd (omega arith)
read_lines-render (suc fuel) [] body h a = refl
read_lines-render (suc fuel) (l ∷ ls) body h a =
    rw (append_assoc l (crlf ++ render_lines ls) (crlf ++ body)) (
      rw (cut_line-append l (render_lines ls ++ (crlf ++ body)) a.0.1, a.0.0)
        (rw (read_lines-render fuel ls body (omega arith) a.1)))

length-render_lines : (ls : List Bytes) → length ls ≤ length (render_lines ls)
length-render_lines [] = omega arith
length-render_lines (l ∷ ls) = omega (
  arith,
  length-append l (crlf ++ render_lines ls),
  length-append crlf (render_lines ls),
  length-render_lines ls,
)

read_message-render :
    (ls : List Bytes) (body : Bytes)
    → All NonEmptyLine ls
    → read_message (render_lines ls ++ (crlf ++ body)) ≡ (ls, body)
unfolding read_message
read_message-render ls body h =
    read_lines-render (suc (length (render_lines ls ++ (crlf ++ body)))) ls body
      (omega (arith, length-render_lines ls, length-append (render_lines ls) (crlf ++ body))) h

digits-Free : (fuel n : ℕ) → Free 13 (show_fuel fuel n)
unfolding show_fuel has_byte
digits-Free zero n = refl
digits-Free (suc fuel) n = elim (Bool-cases (ltb n 10)) [
  | inl e ↦ rw e (ground arith)
  | inr e ↦
      rw
        (
          e,
          has_byte-append 13 (show_fuel fuel (n / 10)) ((48 + n % 10) ∷ []),
          digits-Free fuel (n / 10),
        )
        (ground arith)
]

show_nat-Free : (n : ℕ) → Free 13 (show_nat n)
unfolding show_nat
show_nat-Free n = digits-Free (suc n) n

show_int-Free : (n : ℤ) → Free 13 (show_int n)
unfolding show_int has_byte
show_int-Free (pos n) = show_nat-Free n
show_int-Free (negsuc n) = show_nat-Free (suc n)

joined-Free : (parts : List Bytes) → All (Free 13) parts → Free 13 (joined parts)
unfolding has_byte
joined-Free [] h = refl
joined-Free (p ∷ parts) h = rw (has_byte-append 13 p (joined parts), h.0, joined-Free parts h.1)

append_nonempty : (a : Bytes) (c : ℕ) (s : Bytes) → is_empty (a ++ c ∷ s) ≡ false
append_nonempty [] c s = refl
append_nonempty (x ∷ a) c s = refl

-- No carriage return in a header.
abbrev pub CleanHeader : Bytes × Bytes → Type 0
CleanHeader (name, value) = Free 13 name × Free 13 value

header_line_clean :
    (hs : List (Bytes × Bytes)) → All CleanHeader hs → All NonEmptyLine (map header_line hs)
unfolding has_byte
header_line_clean [] h = tt
header_line_clean ((name, value) ∷ hs) h = (
  (
    append_nonempty name b':' _,
    joined-Free (name ∷ codes ": " ∷ value ∷ []) (h.0.0, (refl, (h.0.1, tt))),
  ),
  header_line_clean hs h.1,
)

default_clean : (c : Bool) (l : Bytes) → NonEmptyLine l → All NonEmptyLine (default_line c l)
default_clean true l h = tt
default_clean false l h = (h, tt)

lines_of_clean :
    (status server : Bytes) (typed : Bool) (type : Bytes) (sized : Bool) (size con : Bytes)
    (hs : List (Bytes × Bytes))
    → NonEmptyLine status
    → NonEmptyLine server
    → NonEmptyLine type
    → NonEmptyLine size
    → NonEmptyLine con
    → All CleanHeader hs
    → All NonEmptyLine (lines_of status server typed type sized size con hs)
lines_of_clean status server typed type sized size con hs a b c d e h =
    let rest : All NonEmptyLine (con ∷ map header_line hs) = (e, header_line_clean hs h) in
    let tail =
      All-append NonEmptyLine (default_line sized size) (con ∷ map header_line hs)
        (default_clean sized size d) rest in
    (a, (b, All-append NonEmptyLine (default_line typed type) _ (default_clean typed type c) tail))

con_clean : (is_keepalive : Bool) → NonEmptyLine (joined (con_status is_keepalive ∷ []))
unfolding has_byte
con_clean true = (refl, refl)
con_clean false = (refl, refl)

head_lines_clean :
    (r : Response) (version : Bytes) (is_keepalive : Bool)
    → Free 13 version
    → Free 13 r.code_msg.msg
    → All CleanHeader r.headers
    → All NonEmptyLine (head_lines r version is_keepalive)
unfolding head_lines has_byte
head_lines_clean r version is_keepalive v m h =
    lines_of_clean (joined (status_parts r version)) (joined server_parts)
      (OrdMap.has (codes "Content-Type") r.headers) (joined (default_type ∷ []))
      (OrdMap.has (codes "Content-Length") r.headers) (joined (length_parts r))
      (joined (con_status is_keepalive ∷ [])) r.headers
      (
        append_nonempty version b' ' _,
        joined-Free (status_parts r version) (v, (refl, (show_int-Free _, (refl, (m, tt))))),
      )
      (refl, refl) (refl, refl)
      (refl, joined-Free (length_parts r) (refl, (show_nat-Free (length r.body), tt)))
      (con_clean is_keepalive) h

-- The bytes that a fresh response generates are an HTTP message: a reader that ends a line at a
-- carriage return and a line feed, and the head at an empty line, finds the header lines of the
-- response and then its body, where no carriage return stands in the version, the status message or
-- a header of the handler.
pub read_message-gen_response :
    (r : Response) (version : Bytes) (is_keepalive : Bool)
    → r.res_bytes ≡ empty_stream
    → Free 13 version
    → Free 13 r.code_msg.msg
    → All CleanHeader r.headers
    → read_message (gen_response r version is_keepalive).1.res_bytes.buffer
      ≡ (head_lines r version is_keepalive, r.body)
read_message-gen_response r version is_keepalive fresh v m h =
    rw (gen_response_bytes r version is_keepalive fresh) (
      read_message-render (head_lines r version is_keepalive) r.body
        (head_lines_clean r version is_keepalive v m h))
