-- ===== src/RequestParam/Lookup.antt =====
-- What `get_param` and `get_params` answer after parsing, against the plain list of pairs.
use ehttp.Base.{
  ◌≡◌, refl, sym, ap, ◌∙◌, Bool, true, false, List, [], ◌∷◌, ◌++◌, append-nil, append_assoc, none,
  some, if◌then◌else◌, Bytes, same_bytes,
}
use ehttp.Std.MultiMap
use ehttp.Std.Order.{bytes_ord, same_key-same_bytes}
use ehttp.RequestParam.Query.{query_pairs, insert_all, parse_query_url-query_pairs}
use ehttp.RequestParam.{
  RequestParam, no_params, get_param, get_params, add_param_pair, parse_query_url,
}

-- The values that a list of pairs has for a name, in order.
abbrev pub values : Bytes → List (Bytes × Bytes) → List Bytes
values name [] = []
values name ((k, v) ∷ r) = if same_bytes k name then v ∷ values name r else values name r

abbrev pub first_or_empty : List Bytes → Bytes
first_or_empty [] = []
first_or_empty (v ∷ vs) = v

-- The entries stand in the order of their keys.
abbrev pub IsValid : RequestParam → Type 0
IsValid p = MultiMap.IsSorted p.params

insert_all-IsValid :
    (kvs : List (Bytes × Bytes)) (p : RequestParam) → IsValid p → IsValid (insert_all kvs p)
unfolding insert_all
insert_all-IsValid [] p h = h
insert_all-IsValid ((k, v) ∷ r) p h =
    insert_all-IsValid r _ (MultiMap.insert-IsSorted k v p.params h)

equal_range-insert_all :
    (kvs : List (Bytes × Bytes)) (p : RequestParam) (name : Bytes)
    → IsValid p
    → MultiMap.equal_range name (insert_all kvs p).params
      ≡ MultiMap.equal_range name p.params ++ values name kvs
unfolding insert_all
equal_range-insert_all [] p name h = sym (append-nil _)
equal_range-insert_all ((k, v) ∷ r) p name h =
    equal_range-insert_all r _ name (MultiMap.insert-IsSorted k v p.params h)
    ∙ rw (MultiMap.equal_range-insert k name v p.params h, same_key-same_bytes k name)
        (append_assoc (MultiMap.equal_range name p.params) _ _
          ∙ ap (◌++◌ _) (split (same_bytes k name)))
  where
    split :
        (b : Bool)
        → (if b then v ∷ [] else []) ++ values name r
          ≡ (if b then v ∷ values name r else values name r)
    split true = refl
    split false = refl

-- Entries that stand in the order of their keys still do so after a query was parsed into them.
pub parse_query_url-IsValid :
    (p : RequestParam) (q : Bytes) → IsValid p → IsValid (parse_query_url p q).1
parse_query_url-IsValid p q h =
    rw (parse_query_url-query_pairs p q) (insert_all-IsValid (query_pairs q) p h)

pub get_params-insert_all :
    (kvs : List (Bytes × Bytes)) (p : RequestParam) (name : Bytes) (out : List Bytes)
    → IsValid p
    → get_params (insert_all kvs p) name out ≡ get_params p name out ++ values name kvs
unfolding get_params
get_params-insert_all kvs p name out h =
    rw (equal_range-insert_all kvs p name h) (sym (append_assoc out _ _))

-- `get_params` adds to the caller's list the values that were there for the name, and behind them
-- the values that the query has for it, in the order of the query, where the entries stood in the
-- order of their keys.
pub get_params-parse_query_url :
    (p : RequestParam) (q name : Bytes) (out : List Bytes)
    → IsValid p
    → get_params (parse_query_url p q).1 name out
      ≡ get_params p name out ++ values name (query_pairs q)
get_params-parse_query_url p q name out h =
    rw (parse_query_url-query_pairs p q) (get_params-insert_all (query_pairs q) p name out h)

pub get_param-get_params :
    (p : RequestParam) (name : Bytes) → get_param p name ≡ first_or_empty (get_params p name [])
unfolding get_param get_params
get_param-get_params p name =
    rw (MultiMap.find-equal_range name p.params, get_param)
      (first (MultiMap.equal_range name p.params))
  where
    first :
        (vs : List Bytes) → elim (MultiMap.head vs) [ none ↦ [] | some v ↦ v ] ≡ first_or_empty vs
    first [] = refl
    first (v ∷ vs) = refl

-- After parsing into a fresh object, `get_param` answers the first value that the query has for
-- the name, and the empty text where it has none.
pub get_param-parse_query_url :
    (q name : Bytes)
    → get_param (parse_query_url no_params q).1 name ≡ first_or_empty (values name (query_pairs q))
get_param-parse_query_url q name =
    get_param-get_params _ name
    ∙ rw (get_params-parse_query_url no_params q name [] tt)
        (unfold get_params MultiMap.equal_range in refl)

-- Adding a pair puts its value behind those of its own name, and changes no other name, where the
-- entries stood in the order of their keys.
pub get_params-add_param_pair :
    (p : RequestParam) (key value name : Bytes) (out : List Bytes)
    → IsValid p
    → get_params (add_param_pair p key value).1 name out
      ≡ get_params p name out ++ (if same_bytes key name then value ∷ [] else [])
unfolding get_params add_param_pair
get_params-add_param_pair p key value name out h =
    rw (MultiMap.equal_range-insert key name value p.params h, same_key-same_bytes key name)
      (sym (append_assoc out _ _))
