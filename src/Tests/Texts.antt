-- ===== src/Tests/Texts.antt =====
-- Splitting, query strings and escapes at concrete texts.
use ehttp.Base.{◌≡◌, refl, [], ◌∷◌, ◌++◌, pos, arith, codes, map}
use ehttp.RequestBody.MultiParams.{item_pair, get_params-parse_multi_params}
use ehttp.RequestBody
use ehttp.RequestBody.{
  RequestBody, FileItem, new_file_item, set_name, append_data, parse_multi_params,
}
use ehttp.RequestLine.{RequestLine, empty_line, set_request_url}
use ehttp.RequestParam.Lookup.{values, get_params-parse_query_url}
use ehttp.RequestParam.Query.{
  query_pairs, insert_all, render_query, parse_query_url-query_pairs, parse_query_url-render_query,
}
use ehttp.RequestParam.{no_params, get_params, parse_query_url}
use ehttp.Std.Split.{pieces, join}
use ehttp.Std.Stream.{has_byte}
use ehttp.StringUtils.SplitStr.{ss_split_str-pieces, ss_split_str-join}
use ehttp.StringUtils.{ss_split_str}
use ehttp.Unescape.Form.{form_encode, unescape-form_encode}
use ehttp.Unescape.{unescape}

ss_split_str-pieces_example :
    ss_split_str (codes "a;b;") b';' [] ≡ (pos 0, [] ++ pieces b';' (codes "a;b;"))
ss_split_str-pieces_example = ss_split_str-pieces (codes "a;b;") b';' []

ss_split_str-join_example :
    ss_split_str (join b';' (codes "a" ∷ codes "b" ∷ [])) b';' []
    ≡ (pos 0, codes "a" ∷ codes "b" ∷ [])
unfolding has_byte
ss_split_str-join_example =
    ss_split_str-join b';' (codes "a") (codes "b" ∷ []) (refl, (refl, tt)) tt

parse_query_url-query_pairs_example :
    parse_query_url no_params (codes "a=1&b=2")
    ≡ (pos 0, insert_all (query_pairs (codes "a=1&b=2")) no_params)
parse_query_url-query_pairs_example = parse_query_url-query_pairs no_params (codes "a=1&b=2")

parse_query_url-render_query_example :
    parse_query_url no_params (render_query ((codes "a", codes "1") ∷ (codes "b", []) ∷ []))
    ≡ (pos 0, insert_all ((codes "a", codes "1") ∷ (codes "b", []) ∷ []) no_params)
unfolding has_byte
parse_query_url-render_query_example =
    parse_query_url-render_query no_params (codes "a", codes "1") ((codes "b", []) ∷ [])
      (((refl, refl), (refl, refl)), (((refl, refl), (refl, refl)), tt))

get_params-parse_query_url_example :
    get_params (parse_query_url no_params (codes "a=1&a=2")).1 (codes "a") []
    ≡ get_params no_params (codes "a") [] ++ values (codes "a") (query_pairs (codes "a=1&a=2"))
get_params-parse_query_url_example =
    get_params-parse_query_url no_params (codes "a=1&a=2") (codes "a") [] tt

unescape-form_encode_example : unescape (form_encode (codes "a b")) ≡ codes "a b"
unescape-form_encode_example =
    unescape-form_encode (codes "a b") (omega arith, (omega arith, (omega arith, tt)))

abbrev line : RequestLine
line = set_request_url empty_line (codes "/x?a=1")

abbrev parts_body : RequestBody
parts_body = record {
  raw_string = [];
  req_params = no_params;
  file_items = append_data (set_name new_file_item (codes "f")) (codes "v") ∷ [];
}

get_params-parse_multi_params_example :
    RequestBody.get_params (parse_multi_params parts_body).1 (codes "f") []
    ≡ RequestBody.get_params parts_body (codes "f") []
      ++ values (codes "f") (map item_pair parts_body.file_items)
get_params-parse_multi_params_example = get_params-parse_multi_params parts_body (codes "f") [] tt
