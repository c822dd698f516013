-- ===== src/RequestParam/Query.antt =====
-- `parse_query_url` ends, and adds the pairs that the text of the query holds.
use ehttp.Base.{
  ℕ, zero, suc, ◌<◌, ◌≡◌, refl, sym, ap, ◌∙◌, Bool, inl, inr, List, [], ◌∷◌, ◌++◌, map, append-nil,
  arith, pos, Bool-cases, Bytes, length, is_empty, All,
}
use ehttp.Std.MultiMap
use ehttp.Std.Order.{bytes_ord}
use ehttp.Std.Stream.{
  open_on, ended, before, after, has_byte, length-after_lt, getline_found, getline_last,
  getline-ended, has_byte-append,
}
use ehttp.Std.Split.{
  split_on, split_on_found, split_on_last, join, Free, split_on-join, split_on-append,
}
use ehttp.RequestParam.{RequestParam, key_value_loop, query_loop, parse_query_url}

-- Keys and values in turn; a key with nothing behind it has the empty value.
abbrev pub pair_up : List Bytes → List (Bytes × Bytes)
pair_up [] = []
pair_up (k ∷ []) = (k, []) ∷ []
pair_up (k ∷ v ∷ r) = (k, v) ∷ pair_up r

-- The pairs of one piece between ampersands, and of a query.
abbrev pub piece_pairs : Bytes → List (Bytes × Bytes)
piece_pairs s = pair_up (split_on b'=' s)

abbrev pub all_pairs : List Bytes → List (Bytes × Bytes)
all_pairs [] = []
all_pairs (s ∷ r) = piece_pairs s ++ all_pairs r

unfoldable pub query_pairs : Bytes → List (Bytes × Bytes)
query_pairs q = all_pairs (split_on b'&' q)

unfoldable pub insert_all : List (Bytes × Bytes) → RequestParam → RequestParam
insert_all [] p = p
insert_all ((k, v) ∷ r) p = insert_all r (record { params = MultiMap.insert k v p.params })

insert_all-append :
    (a b : List (Bytes × Bytes)) (p : RequestParam)
    → insert_all (a ++ b) p ≡ insert_all b (insert_all a p)
unfolding insert_all
insert_all-append [] b p = refl
insert_all-append ((k, v) ∷ a) b p = insert_all-append a b _

key_value_loop_end :
    (fuel : ℕ) (failed : Bool) (p : RequestParam) → key_value_loop fuel (ended failed) p ≡ p
unfolding key_value_loop
key_value_loop_end zero failed p = refl
key_value_loop_end (suc fuel) failed p = refl

key_value_loop_lem :
    (fuel : ℕ) (s : Bytes) (p : RequestParam)
    → length s < fuel
    → key_value_loop fuel (open_on s) p ≡ insert_all (piece_pairs s) p
unfolding key_value_loop insert_all
key_value_loop_lem zero s p h = absurd (omega arith)
key_value_loop_lem (suc fuel) s p h = elim (Bool-cases (has_byte b'=' s)) [
  | inl e ↦
      let rest = after b'=' s in
      elim (Bool-cases (has_byte b'=' rest)) [
        | inl e' ↦
            rw
              (
                getline_found b'=' s e,
                getline_found b'=' rest e',
                split_on_found b'=' s e,
                split_on_found b'=' rest e',
              )
              (key_value_loop_lem fuel (after b'=' rest) _
                (omega (arith, length-after_lt b'=' s e, length-after_lt b'=' rest e')))
        | inr e' ↦
            rw
              (
                getline_found b'=' s e,
                getline_last b'=' rest e',
                split_on_found b'=' s e,
                split_on_last b'=' rest e',
              )
              (key_value_loop_end fuel _ _)
      ]
  | inr e ↦
      rw (getline_last b'=' s e, getline-ended b'=' (is_empty s), split_on_last b'=' s e)
        (key_value_loop_end fuel _ _)
]

query_loop_end :
    (fuel : ℕ) (failed : Bool) (p : RequestParam) → query_loop fuel (ended failed) p ≡ p
unfolding query_loop
query_loop_end zero failed p = refl
query_loop_end (suc fuel) failed p = refl

query_loop_lem :
    (fuel : ℕ) (s : Bytes) (p : RequestParam)
    → length s < fuel
    → query_loop fuel (open_on s) p ≡ insert_all (query_pairs s) p
unfolding query_loop query_pairs
query_loop_lem zero s p h = absurd (omega arith)
query_loop_lem (suc fuel) s p h = elim (Bool-cases (has_byte b'&' s)) [
  | inl e ↦
      let piece = before b'&' s in
      rw (getline_found b'&' s e, split_on_found b'&' s e)
        (query_loop_lem fuel (after b'&' s) _ (omega (arith, length-after_lt b'&' s e))
          ∙ sym (
              insert_all-append (piece_pairs piece) _ p
              ∙ ap (insert_all _) (sym (key_value_loop_lem _ piece p (omega arith)))))
  | inr e ↦
      rw (getline_last b'&' s e, split_on_last b'&' s e, append-nil)
        (query_loop_end fuel _ _ ∙ key_value_loop_lem _ s p (omega arith))
]

-- On every query the call returns 0 and inserts the pairs that the query holds, in their order:
-- the query is cut at each ampersand, and each piece at each equals sign into keys and values in
-- turn, where a key with nothing behind it has the empty value.
pub parse_query_url-query_pairs :
    (p : RequestParam) (q : Bytes) → parse_query_url p q ≡ (pos 0, insert_all (query_pairs q) p)
unfolding parse_query_url
parse_query_url-query_pairs p q =
    ap (λ r. (pos 0, r)) (query_loop_lem (suc (length q)) q p (omega arith))

-- A pair as a form writes it.
abbrev pub render_pair : Bytes × Bytes → Bytes
render_pair (k, v) = k ++ (b'=' ∷ v)

unfoldable pub render_query : List (Bytes × Bytes) → Bytes
render_query kvs = join b'&' (map render_pair kvs)

-- Neither an ampersand nor an equals sign.
abbrev pub IsPlain : Bytes → Type 0
IsPlain s = Free b'&' s × Free b'=' s

abbrev pub PlainPair : Bytes × Bytes → Type 0
PlainPair (k, v) = IsPlain k × IsPlain v

rendered-Free :
    (kvs : List (Bytes × Bytes)) → All PlainPair kvs → All (Free b'&') (map render_pair kvs)
rendered-Free [] h = tt
rendered-Free ((k, v) ∷ kvs) h = (free, rendered-Free kvs h.1)
  where
    free : Free b'&' (k ++ (b'=' ∷ v))
    free = has_byte-append b'&' k (b'=' ∷ v) ∙ rw (h.0.0.0) (unfold has_byte in h.0.1.0)

all_pairs-render :
    (kvs : List (Bytes × Bytes)) → All PlainPair kvs → all_pairs (map render_pair kvs) ≡ kvs
all_pairs-render [] h = refl
all_pairs-render ((k, v) ∷ kvs) h =
    rw (split_on-append b'=' k v h.0.0.1, split_on_last b'=' v h.0.1.1)
      (ap (◌∷◌ (k, v)) (all_pairs-render kvs h.1))

pub query_pairs-render :
    (kv : Bytes × Bytes) (kvs : List (Bytes × Bytes))
    → All PlainPair (kv ∷ kvs)
    → query_pairs (render_query (kv ∷ kvs)) ≡ kv ∷ kvs
unfolding query_pairs render_query
query_pairs-render kv kvs h =
    rw (split_on-join b'&' (render_pair kv) (map render_pair kvs) (rendered-Free (kv ∷ kvs) h))
      (all_pairs-render (kv ∷ kvs) h)

-- Parsing a query that was rendered from at least one pair inserts these pairs in their order, where
-- no key and no value holds an ampersand or an equals sign.
pub parse_query_url-render_query :
    (p : RequestParam) (kv : Bytes × Bytes) (kvs : List (Bytes × Bytes))
    → All PlainPair (kv ∷ kvs)
    → parse_query_url p (render_query (kv ∷ kvs)) ≡ (pos 0, insert_all (kv ∷ kvs) p)
parse_query_url-render_query p kv kvs h =
    parse_query_url-query_pairs p (render_query (kv ∷ kvs))
    ∙ ap (λ ps. (pos 0, insert_all ps p)) (query_pairs-render kv kvs h)
