-- ===== src/HttpServer/Watcher/Reads.antt =====
-- A request that arrives in any number of reads at `HttpEpollWatcher::on_readable` of
-- src/http_server.cpp.
use ehttp.Base.{
  ◌>>=◌, ℕ, ◌+◌, ◌≤◌, ◌≡◌, refl, sym, ap, ◌∙◌, false, List, [], ◌∷◌, ◌++◌, Option, some, ℤ, pos,
  same_int, if◌then◌else◌, ◌==◌, Bytes, length, length-append, arith,
}
use ehttp.HttpServer.Routes.{ResourceMap}
use ehttp.HttpServer.Watcher.{HttpContext, got, on_readable, after_parse, read_continue}
use ehttp.Request.Calls.{Continues, run_calls}
use ehttp.Request.Multipart.{MultipartParser}
use ehttp.Request.Parse.{HttpParser, parse_request}
use ehttp.Request.Reads.{first_read, second_read}
use ehttp.Request.Resized.{sized}
use ehttp.Request.{Request, max_req_size, need_more_status, parse_req_over}

-- A read of at least one byte.
abbrev pub Read : Type 0
Read = ℕ × Bytes

abbrev pub bytes_of : Read → Bytes
bytes_of (c, s) = c ∷ s

-- The bytes of some reads, the first apart.
abbrev pub all_bytes : Read → List Read → Bytes
all_bytes r [] = bytes_of r
all_bytes r (next ∷ reads) = bytes_of r ++ all_bytes next reads

abbrev pub tail_bytes : Read → List Read → Bytes
tail_bytes (c, s) [] = s
tail_bytes (c, s) (next ∷ reads) = s ++ all_bytes next reads

-- The reads up to the last leave the message incomplete, their callbacks return 0 and report no error,
-- and the HTTP parser goes on where it stopped; the size of all the bytes is within the limit.
pub data IsArriving {P : Type 0} (mp : MultipartParser) (hp : HttpParser P)
    : Read → List Read → Request P → Type 0 where
  last_read : (r : Read) (req : Request P) → IsArriving mp hp r [] req
  one_more :
      (r next : Read) (reads : List Read) (req behind : Request P)
      → Continues hp req.parser (bytes_of r) (all_bytes next reads)
      → run_calls mp (hp.calls req.parser (bytes_of r)) req ≡ some behind
      → behind.parse_err ≡ pos 0
      → (behind.parse_part == parse_req_over) ≡ false
      → req.total_req_size + length (bytes_of r ++ all_bytes next reads) ≤ max_req_size
      → IsArriving mp hp next reads (
          sized (req.total_req_size + length (bytes_of r)) (hp.next req.parser (bytes_of r)) behind)
      → IsArriving mp hp r (next ∷ reads) req

module _ {P J : Type 0} (mp : MultipartParser) (hp : HttpParser P) (null : J) (write : J → Bytes)
    (m : ResourceMap P J) (ip : Bytes) where
  -- The calls of `on_readable` for some reads, up to the first that does not ask for more.
  abbrev pub read_all : Read → List Read → HttpContext P → Option (ℤ × HttpContext P)
  read_all (c, s) [] ctx = on_readable mp hp null write m ip (got c s) ctx
  read_all (c, s) (next ∷ reads) ctx =
      let more = read_all next reads in
      on_readable mp hp null write m ip (got c s) ctx >>= λ r.
      if same_int r.0 read_continue then more r.1 else some r

  on_readable_more :
      (r : Read) (ctx : HttpContext P) (req : Request P)
      → parse_request mp hp (bytes_of r) ctx.request ≡ some (need_more_status, req)
      → on_readable mp hp null write m ip (got r.0 r.1) ctx
        ≡ some (read_continue, record ctx { request = req })
  unfolding on_readable after_parse
  on_readable_more r ctx req e =
      ap (λ o. o >>= λ x. some (after_parse null write m ip ctx.response x)) e

  on_readable_bytes :
      (r : Read) (reads : List Read) (ctx : HttpContext P)
      → on_readable mp hp null write m ip (got r.0 (tail_bytes r reads)) ctx ≡ (
          parse_request mp hp (all_bytes r reads) ctx.request >>= λ x.
          some (after_parse null write m ip ctx.response x))
  unfolding on_readable
  on_readable_bytes r [] ctx = refl
  on_readable_bytes r (next ∷ reads) ctx = refl

  -- Bytes that come in any number of reads are answered as if they had come in one: where all but the
  -- last leave the message incomplete, with callbacks that return 0 and report no error, the size is
  -- within the limit and the HTTP parser goes on where it stopped, the calls of `on_readable` up to the
  -- last return what one call for all the bytes returns, and leave the same request and response,
  -- faults and errors included.
  pub read_all-on_readable :
      (r : Read) (reads : List Read) (ctx : HttpContext P)
      → IsArriving mp hp r reads ctx.request
      → read_all r reads ctx ≡ on_readable mp hp null write m ip (got r.0 (tail_bytes r reads)) ctx
  read_all-on_readable r reads ctx (last_read q req) = refl
  read_all-on_readable r reads ctx (one_more q next rest req behind c ran good part small h) =
      let a = bytes_of q in
      let b = all_bytes next rest in
      let small_a : ctx.request.total_req_size + length a ≤ max_req_size =
        omega (arith, small, length-append a b) in
      let r1 =
        sized (ctx.request.total_req_size + length a) (hp.next ctx.request.parser a) behind in
      ap (λ o. o >>= λ x. if same_int x.0 read_continue then read_all next rest x.1 else some x)
        (on_readable_more q ctx r1
          (first_read mp hp a b ctx.request behind c ran good part small_a))
      ∙ read_all-on_readable next rest (record ctx { request = r1 }) h
      ∙ on_readable_bytes next rest (record ctx { request = r1 })
      ∙ ap (λ o. o >>= λ x. some (after_parse null write m ip ctx.response x))
          (second_read mp hp a b ctx.request behind c ran small)
      ∙ sym (on_readable_bytes q (next ∷ rest) ctx)
