-- ===== src/RequestBody.antt =====
-- `FileItem` and `RequestBody` of src/sim_parser.h and src/sim_parser.cpp.
pub mod MultiParams
use ehttp.Base.{ℕ, zero, suc, Bool, true, false, not, List, [], ◌∷◌, ◌++◌, ℤ, pos, Bytes, ◌==◌}
use ehttp.RequestParam.{RequestParam, no_params, add_param_pair}
use ehttp.RequestParam

abbrev pub parse_multi_disposition : ℕ
parse_multi_disposition = 0

abbrev pub parse_multi_content_type : ℕ
parse_multi_content_type = 1

abbrev pub parse_multi_over : ℕ
parse_multi_over = 3

-- `_parse_state` is declared `bool`.
pub record FileItem : Type 0 where
  pub is_file : Bool
  pub parse_state : Bool
  pub content_type : Bytes
  pub name : Bytes
  pub filename : Bytes
  pub content : Bytes

-- The conversions between `int` and `bool`.
abbrev pub to_bool : ℕ → Bool
to_bool n = not (n == 0)

abbrev pub to_int : Bool → ℕ
to_int false = 0
to_int true = 1

abbrev pub new_file_item : FileItem
new_file_item = record {
  is_file = false;
  parse_state = to_bool parse_multi_disposition;
  content_type = [];
  name = [];
  filename = [];
  content = [];
}

abbrev pub set_is_file : FileItem → FileItem
set_is_file f = record f { is_file = true }

abbrev pub set_name : FileItem → Bytes → FileItem
set_name f name = record f { name = name }

abbrev pub set_filename : FileItem → Bytes → FileItem
set_filename f filename = record f { filename = filename }

abbrev pub append_data : FileItem → Bytes → FileItem
append_data f c = record f { content = f.content ++ c }

abbrev pub set_content_type : FileItem → Bytes → FileItem
set_content_type f c = record f { content_type = c }

unfoldable pub get_parse_state : FileItem → Bool
get_parse_state f = f.parse_state

unfoldable pub set_parse_state : FileItem → ℕ → FileItem
set_parse_state f state = record f { parse_state = to_bool state }

pub record RequestBody : Type 0 where
  pub raw_string : Bytes
  pub req_params : RequestParam
  pub file_items : List FileItem

abbrev pub empty_body : RequestBody
empty_body = record { raw_string = []; req_params = no_params; file_items = [] }

abbrev pub get_param : RequestBody → Bytes → Bytes
get_param b name = RequestParam.get_param b.req_params name

abbrev pub get_params : RequestBody → Bytes → List Bytes → List Bytes
get_params b name params = RequestParam.get_params b.req_params name params

-- The loop of `parse_multi_params` over the items.
add_items : List FileItem → RequestParam → RequestParam
add_items [] p = p
add_items (item ∷ items) p = add_items items (add_param_pair p item.name item.content).1

unfoldable pub parse_multi_params : RequestBody → ℤ × RequestBody
unfolding add_items
parse_multi_params b = (pos 0, record b { req_params = add_items b.file_items b.req_params })
