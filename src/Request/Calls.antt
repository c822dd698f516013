-- ===== src/Request/Calls.antt =====
-- Runs of the callbacks of src/sim_parser.cpp over the calls of several reads.
use ehttp.Base.{
  ◌>>=◌, ℕ, ◌+◌, ◌≡◌, refl, sym, ap, ◌∙◌, true, false, Bool-cases, Option-cases, inl, inr, List, [],
  ◌∷◌, ◌++◌, map, Option, none, some, ℤ, arith, is_zero, if◌then◌else◌, Bytes, length,
}
use ehttp.Request.Callbacks.{ParserInfo}
use ehttp.Request.Fragments.{Part, part_event, call_of, run_part, run_http-append}
use ehttp.Request.Multipart.{MultipartParser}
use ehttp.Request.Parse.{HttpCall, HttpParser, on_http, run_http}
use ehttp.Request.{Request}

-- A call of a later read, whose bytes start at `n`.
abbrev pub shifted : {P : Type 0} → ℕ → HttpCall P → HttpCall P
shifted n c = record c { stops_at = n + c.stops_at }

-- The calls for the whole of some bytes, against those for two pieces of them: the same, but the two
-- calls for the pieces of a part that was cut are one call for the part.
pub data Merges {P : Type 0} : List (HttpCall P) → List (HttpCall P) → Type 0 where
  merges_same : (calls : List (HttpCall P)) → Merges calls calls
  merges_cons :
      (c : HttpCall P) {xs ys : List (HttpCall P)} → Merges xs ys → Merges (c ∷ xs) (c ∷ ys)
  merges_cut :
      (p : ParserInfo) (k : Part) (a b : Bytes) (l m n : ℕ) (q r s : P) (calls : List (HttpCall P))
      → Merges
          (call_of p (part_event k a) l q ∷ call_of p (part_event k b) m r ∷ calls)
          (call_of p (part_event k (a ++ b)) n s ∷ calls)

-- What `http_parser_execute` does with bytes that come in two pieces, where it takes the first piece
-- whole: it goes on where it stopped.
pub record Continues {P : Type 0} (hp : HttpParser P) (state : P) (a b : Bytes) : Type 0 where
  pub calls :
      Merges
        (hp.calls state a ++ map (shifted (length a)) (hp.calls (hp.next state a) b))
        (hp.calls state (a ++ b))
  pub whole : hp.parsed state a ≡ length a
  pub parsed : hp.parsed state (a ++ b) ≡ length a + hp.parsed (hp.next state a) b
  pub next : hp.next state (a ++ b) ≡ hp.next (hp.next state a) b

-- The number of bytes parsed by all reads.
abbrev pub further : {P : Type 0} → ℕ → Option (ℕ × Request P) → Option (ℕ × Request P)
further n none = none
further n (some (parsed, req)) = some (n + parsed, req)

some_inj : {A : Type 0} {a b : A} → some a ≡ some b → a ≡ b
some_inj {a = a} h = ap (λ o. elim o [ none ↦ a | some x ↦ x ]) h

no_result : {A : Type 0} {a : A} → none ≡ some a → ⊥
no_result h = ground (arith, h)

module _ {P : Type 0} where
  -- The request behind some calls, if all the callbacks return 0.
  unfoldable pub run_calls : MultipartParser → List (HttpCall P) → Request P → Option (Request P)
  run_calls mp [] req = some req
  run_calls mp (c ∷ calls) req =
      on_http mp c.info c.event req >>= λ r. if is_zero r.0 then run_calls mp calls r.1 else none

  -- A call, and what is done behind it.
  abbrev behind :
      HttpCall P
      → (Request P → Option (ℕ × Request P))
      → Option (ℤ × Request P)
      → Option (ℕ × Request P)
  behind c run none = none
  behind c run (some (ret, req)) = elim (is_zero ret) [
    | true ↦ run req
    | false ↦ some (c.stops_at, record req { parser = c.stopped })
  ]

  behind_same :
      (c : HttpCall P) (f g : Request P → Option (ℕ × Request P)) (o : Option (ℤ × Request P))
      → ((req : Request P) → f req ≡ g req)
      → behind c f o ≡ behind c g o
  behind_same c f g none h = refl
  behind_same c f g (some (ret, req)) h = elim (Bool-cases (is_zero ret)) [
    | inl e ↦ rw (e, behind) (h req)
    | inr e ↦ rw (e, behind)
  ]

  pub run_http-Merges :
      (mp : MultipartParser) (xs ys : List (HttpCall P)) (parsed : ℕ) (next : P) (req : Request P)
      → Merges xs ys
      → run_http mp xs parsed next req ≡ run_http mp ys parsed next req
  unfolding run_http
  run_http-Merges mp xs ys parsed next req (merges_same calls) = refl
  run_http-Merges mp xs ys parsed next req (merges_cons c h) =
      behind_same c _ _ (on_http mp c.info c.event req)
        (λ r. run_http-Merges mp _ _ parsed next r h)
  run_http-Merges mp xs ys parsed next req (merges_cut p k a b l m n q r s calls) =
      run_part mp p k a l q (call_of p (part_event k b) m r ∷ calls) parsed next req
      ∙ sym (run_part mp p k a m r (call_of p (part_event k b) m r ∷ calls) parsed next req)
      ∙ run_http-append mp p k a b m r calls parsed next req
      ∙ run_part mp p k (a ++ b) m r calls parsed next req
      ∙ sym (run_part mp p k (a ++ b) n s calls parsed next req)

  -- Behind calls that all return 0 the others go on.
  pub run_http-run_calls :
      (mp : MultipartParser) (xs ys : List (HttpCall P)) (parsed : ℕ) (next : P) (req r : Request P)
      → run_calls mp xs req ≡ some r
      → run_http mp (xs ++ ys) parsed next req ≡ run_http mp ys parsed next r
  unfolding run_http run_calls
  run_http-run_calls mp [] ys parsed next req r h = ap (run_http mp ys parsed next) (some_inj h)
  run_http-run_calls mp (c ∷ xs) ys parsed next req r h =
      elim (Option-cases (on_http mp c.info c.event req)) [
        | inl e ↦ absurd (no_result (rw e at h))
        | inr (o, e) ↦ elim (Bool-cases (is_zero o.0)) [
          | inl z ↦
              ap (behind c (run_http mp (xs ++ ys) parsed next)) e
              ∙ rw (z, behind) (run_http-run_calls mp xs ys parsed next o.1 r (rw z at (rw e at h)))
          | inr z ↦ absurd (no_result (rw z at (rw e at h)))
        ]
      ]

  pub run_http-shifted :
      (mp : MultipartParser) (k : ℕ) (calls : List (HttpCall P)) (parsed : ℕ) (next : P)
      (req : Request P)
      → run_http mp (map (shifted k) calls) (k + parsed) next req
        ≡ further k (run_http mp calls parsed next req)
  unfolding run_http
  run_http-shifted mp k [] parsed next req = refl
  run_http-shifted mp k (c ∷ calls) parsed next req =
      elim (Option-cases (on_http mp c.info c.event req)) [
        | inl e ↦ rw (e, run_http)
        | inr (o, e) ↦ elim (Bool-cases (is_zero o.0)) [
          | inl z ↦ rw (e, z, run_http) (run_http-shifted mp k calls parsed next o.1)
          | inr z ↦ rw (e, z, run_http)
        ]
      ]
