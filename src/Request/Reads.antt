-- ===== src/Request/Reads.antt =====
-- A request that arrives in two reads of `parse_request` of src/sim_parser.cpp.
use ehttp.Base.{
  ◌>>=◌, ℕ, ◌+◌, ◌≤◌, ◌≡◌, refl, sym, ap, ◌∙◌, true, false, [], ◌++◌, map, Option, none, some, pos,
  arith, is_zero, ltb, ◌==◌, Bytes, length, length-append, append-nil,
}
use ehttp.Request.Multipart.{MultipartParser}
use ehttp.Request.Parse.{HttpParser, run_http, parse_request}
use ehttp.Request.Rejected.{grown, verdict}
use ehttp.Request.Resized.{sized}
use ehttp.Request.Sized.{recount, run_http-sized}
use ehttp.Request.{Request, max_req_size, need_more_status, parse_req_over}
use ehttp.Request.Calls.{
  shifted, Continues, further, run_calls, run_http-Merges, run_http-run_calls, run_http-shifted,
}

same_size : (k n m : ℕ) → (k + n == k + m) ≡ (n == m)
same_size k n m = ground arith

same_self : (n : ℕ) → (n == n) ≡ true
same_self n = ground arith

module _ {P : Type 0} where
  parse_request_run :
      (mp : MultipartParser) (hp : HttpParser P) (buf : Bytes) (req : Request P)
      → req.total_req_size + length buf ≤ max_req_size
      → parse_request mp hp buf req ≡ (
          run_http mp
            (hp.calls req.parser buf)
            (hp.parsed req.parser buf)
            (hp.next req.parser buf)
            (grown buf req)
          >>= λ r. some (verdict (length buf) r.0 r.1))
  unfolding parse_request
  parse_request_run mp hp buf req small =
      let counted : ltb max_req_size (req.total_req_size + length buf) ≡ false = ground arith in
      rw counted

  verdict-further :
      (k size : ℕ) (o : Option (ℕ × Request P))
      → (further k o >>= λ r. some (verdict (k + size) r.0 r.1))
        ≡ (o >>= λ r. some (verdict size r.0 r.1))
  verdict-further k size none = refl
  verdict-further k size (some (n, r)) = rw (same_size k n size)

  recount-further :
      (n k : ℕ) (o : Option (ℕ × Request P)) → recount n (further k o) ≡ further k (recount n o)
  recount-further n k none = refl
  recount-further n k (some (m, r)) = refl

  -- The run of all the bytes, from the run of the second piece.
  run_both :
      (mp : MultipartParser) (hp : HttpParser P) (a b : Bytes) (req r : Request P)
      → Continues hp req.parser a b
      → run_calls mp (hp.calls req.parser a) req ≡ some r
      → let q = hp.next req.parser a in
        run_http mp
          (hp.calls req.parser (a ++ b))
          (hp.parsed req.parser (a ++ b))
          (hp.next req.parser (a ++ b))
          (grown (a ++ b) req)
        ≡ further (length a) (
            recount
              (req.total_req_size + length (a ++ b))
              (run_http mp (hp.calls q b) (hp.parsed q b) (hp.next q b) r))
  run_both mp hp a b req r c ran =
      let q = hp.next req.parser a in
      let n = req.total_req_size + length (a ++ b) in
      run_http-sized n req.parser mp (hp.calls req.parser (a ++ b)) (hp.parsed req.parser (a ++ b))
        (hp.next req.parser (a ++ b)) req
      ∙ ap (recount n) (
          sym (run_http-Merges mp _ _ _ _ req c.calls)
          ∙ run_http-run_calls mp (hp.calls req.parser a) (map (shifted (length a)) (hp.calls q b))
              _ _ req r ran
          ∙ ap
              (λ m.
                run_http mp (map (shifted (length a)) (hp.calls q b)) m
                  (hp.next req.parser (a ++ b)) r)
              c.parsed
          ∙ ap
              (λ s.
                run_http mp (map (shifted (length a)) (hp.calls q b)) (length a + hp.parsed q b) s
                  r)
              c.next
          ∙ run_http-shifted mp (length a) (hp.calls q b) (hp.parsed q b) (hp.next q b) r)
      ∙ recount-further n (length a) _

  no_calls :
      (mp : MultipartParser) (parsed : ℕ) (next : P) (r : Request P)
      → run_http mp [] parsed next r ≡ some (parsed, record r { parser = next })
  unfolding run_http
  no_calls mp parsed next r = refl

  verdict_more :
      (size : ℕ) (x : Request P)
      → x.parse_err ≡ pos 0
      → (x.parse_part == parse_req_over) ≡ false
      → verdict size size x ≡ (need_more_status, x)
  verdict_more size x good part =
      let zero : is_zero x.parse_err ≡ true = ap is_zero good in rw (same_self size, zero, part)

  -- The first read, which leaves the request incomplete.
  pub first_read :
      (mp : MultipartParser) (hp : HttpParser P) (a b : Bytes) (req r : Request P)
      → Continues hp req.parser a b
      → run_calls mp (hp.calls req.parser a) req ≡ some r
      → r.parse_err ≡ pos 0
      → (r.parse_part == parse_req_over) ≡ false
      → req.total_req_size + length a ≤ max_req_size
      → parse_request mp hp a req
        ≡ some (need_more_status, sized (req.total_req_size + length a) (hp.next req.parser a) r)
  first_read mp hp a b req r c ran good part small =
      let q = hp.next req.parser a in
      let n = req.total_req_size + length a in
      parse_request_run mp hp a req small
      ∙ ap (λ o. o >>= λ x. some (verdict (length a) x.0 x.1))
          (run_http-sized n req.parser mp (hp.calls req.parser a) (hp.parsed req.parser a) q req
            ∙ ap (recount n) (
                ap (λ calls. run_http mp calls (hp.parsed req.parser a) q req)
                  (sym (append-nil (hp.calls req.parser a)))
                ∙ run_http-run_calls mp (hp.calls req.parser a) [] (hp.parsed req.parser a) q req r
                    ran
                ∙ no_calls mp (hp.parsed req.parser a) q r))
      ∙ ap (λ m. some (verdict (length a) m (sized n q r))) c.whole
      ∙ ap some (verdict_more (length a) (sized n q r) good part)

  -- The read behind it, which returns what one read of all the bytes returns.
  pub second_read :
      (mp : MultipartParser) (hp : HttpParser P) (a b : Bytes) (req r : Request P)
      → Continues hp req.parser a b
      → run_calls mp (hp.calls req.parser a) req ≡ some r
      → req.total_req_size + length (a ++ b) ≤ max_req_size
      → parse_request mp hp b (sized (req.total_req_size + length a) (hp.next req.parser a) r)
        ≡ parse_request mp hp (a ++ b) req
  second_read mp hp a b req r c ran small =
      let q = hp.next req.parser a in
      let r1 = sized (req.total_req_size + length a) q r in
      let n = req.total_req_size + length (a ++ b) in
      let size = length-append a b in
      let small_b : r1.total_req_size + length b ≤ max_req_size = omega (arith, small, size) in
      let total : req.total_req_size + length a + length b ≡ n = omega (arith, size) in
      parse_request_run mp hp b r1 small_b
      ∙ ap (λ o. o >>= λ x. some (verdict (length b) x.0 x.1))
          (ap (λ t. run_http mp (hp.calls q b) (hp.parsed q b) (hp.next q b) (sized t q r)) total
            ∙ run_http-sized n q mp (hp.calls q b) (hp.parsed q b) (hp.next q b) r)
      ∙ sym (
          parse_request_run mp hp (a ++ b) req small
          ∙ ap (λ o. o >>= λ x. some (verdict (length (a ++ b)) x.0 x.1))
              (run_both mp hp a b req r c ran)
          ∙ ap
              (λ m.
                further (length a)
                  (recount n (run_http mp (hp.calls q b) (hp.parsed q b) (hp.next q b) r))
                >>= λ x. some (verdict m x.0 x.1))
              size
          ∙ verdict-further (length a) (length b) _)
