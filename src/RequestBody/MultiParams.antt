-- ===== src/RequestBody/MultiParams.antt =====
-- The parameters that the items of a multipart body become.
use ehttp.Base.{◌≡◌, refl, List, [], ◌∷◌, ◌++◌, map, Bytes}
use ehttp.RequestBody.{RequestBody, FileItem, add_items, parse_multi_params, get_params}
use ehttp.RequestParam.Lookup.{IsValid, values, get_params-insert_all}
use ehttp.RequestParam.Query.{insert_all}
use ehttp.RequestParam.{RequestParam, add_param_pair}

abbrev pub item_pair : FileItem → Bytes × Bytes
item_pair item = (item.name, item.content)

add_items-insert_all :
    (items : List FileItem) (p : RequestParam)
    → add_items items p ≡ insert_all (map item_pair items) p
unfolding add_items insert_all add_param_pair
add_items-insert_all [] p = refl
add_items-insert_all (item ∷ items) p = add_items-insert_all items _

-- After the items became parameters, a name has the values that it had before and behind them the
-- contents of the items of that name, in the order of the parts, where the entries stood in the
-- order of their keys.
pub get_params-parse_multi_params :
    (b : RequestBody) (name : Bytes) (out : List Bytes)
    → IsValid b.req_params
    → get_params (parse_multi_params b).1 name out
      ≡ get_params b name out ++ values name (map item_pair b.file_items)
unfolding parse_multi_params
get_params-parse_multi_params b name out h =
    rw (add_items-insert_all b.file_items b.req_params)
      (get_params-insert_all (map item_pair b.file_items) b.req_params name out h)
