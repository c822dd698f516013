-- ===== src/RequestParam.antt =====
-- `RequestParam` of src/sim_parser.h and src/sim_parser.cpp: the parameters of a query.
pub mod Query
pub mod Lookup
use ehttp.Base.{
  ℕ, zero, suc, Bool, List, [], ◌∷◌, ◌++◌, Option, none, some, ℤ, pos, if◌then◌else◌, Bytes, length,
}
use ehttp.Std.MultiMap
use ehttp.Std.Order.{bytes_ord}
use ehttp.Std.Stream.{Stream, open_on, good, getline}

pub record RequestParam : Type 0 where
  pub params : List (Bytes × Bytes)

abbrev pub no_params : RequestParam
no_params = record { params = [] }

unfoldable pub get_param : RequestParam → Bytes → Bytes
get_param p name = elim (MultiMap.find name p.params) [ none ↦ [] | some v ↦ v ]

unfoldable pub get_params : RequestParam → Bytes → List Bytes → List Bytes
get_params p name params = params ++ MultiMap.equal_range name p.params

unfoldable pub add_param_pair : RequestParam → Bytes → Bytes → ℤ × RequestParam
add_param_pair p key value = (pos 0, record { params = MultiMap.insert key value p.params })

-- `while (key_value_ss.good())`: a key and a value a round
key_value_loop : ℕ → Stream → RequestParam → RequestParam
key_value_loop zero s p = p
key_value_loop (suc fuel) s p =
    let (key, s1) = getline b'=' s in
    let (value, s2) = getline b'=' s1 in
    let more = key_value_loop fuel s2 (record { params = MultiMap.insert key value p.params }) in
    if good s then more else p

-- `while (query_ss.good())`: a piece between ampersands a round
query_loop : ℕ → Stream → RequestParam → RequestParam
query_loop zero s p = p
query_loop (suc fuel) s p =
    let (key_value, s1) = getline b'&' s in
    let more = query_loop fuel s1 (key_value_loop (suc (length key_value)) (open_on key_value) p) in
    if good s then more else p

-- Each round takes at least one byte or leaves a stream that is not good.
pub parse_query_url : RequestParam → Bytes → ℤ × RequestParam
parse_query_url p query_url = (pos 0, query_loop (suc (length query_url)) (open_on query_url) p)
