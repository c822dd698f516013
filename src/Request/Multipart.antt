-- ===== src/Request/Multipart.antt =====
-- The callbacks of the multipart parser in src/sim_parser.cpp. The parser itself is not part of
-- the repository's own code: `MultipartParser` says what the callbacks see of it.
use ehttp.Base.{
  ◌>>=◌, ℕ, ◌-◌, true, false, List, [], ◌∷◌, ◌++◌, Option, none, some, ℤ, pos, negsuc, is_zero,
  if◌then◌else◌, ltb, ◌==◌, Bytes, codes, same_bytes, length, take, drop, is_empty,
}
use ehttp.Request.{Request, get_header}
use ehttp.RequestBody.{
  FileItem, new_file_item, parse_multi_disposition, parse_multi_content_type, parse_multi_over,
  to_int, set_is_file, set_name, set_filename, append_data, set_content_type, get_parse_state,
  set_parse_state, parse_multi_params,
}
use ehttp.StringUtils.{ss_split_str}

-- `s.substr(from, count)` throws where `from` is behind the end.
unfoldable pub substr : Bytes → ℕ → ℕ → Option Bytes
substr s from count = if ltb (length s) from then none else some (take count (drop from s))

-- `size_t` holds 64 bits: `n - 2`.
abbrev pub size_sub : ℕ → ℕ → ℕ
size_sub n k = if ltb n k then 18446744073709551616 - (k - n) else n - k

abbrev pub quoted_nothing : Bytes
quoted_nothing = b'"' ∷ b'"' ∷ []

-- The part of `ss_parse_disposition_value` behind the split. The results are the returned code and
-- `output`, which is what the caller gave where the call returns at the split.
disposition_tokens : List Bytes → Bytes → Option (ℤ × Bytes)
disposition_tokens (name ∷ value ∷ []) output =
    let inner = substr value 1 (size_sub (length value) 2) in
    if same_bytes value quoted_nothing
    then some (pos 0, [])
    else inner >>= λ s. some ((if is_empty s then negsuc 0 else pos 0), s)
disposition_tokens _ output = some (negsuc 0, output)

unfoldable pub ss_parse_disposition_value : Bytes → Bytes → Option (ℤ × Bytes)
unfolding disposition_tokens
ss_parse_disposition_value input output = disposition_tokens (ss_split_str input b'=' []).1 output

-- The file name behind the field name, of an item whose field name is set.
disposition_file : List Bytes → FileItem → Option (ℤ × FileItem)
disposition_file [] item = some (pos 0, item)
disposition_file (token ∷ _) item = do
  (ret, filename) ← ss_parse_disposition_value token []
  some (
      if is_zero ret
      then (pos 0, set_filename (set_is_file item) filename)
      else (ret, set_is_file item))

disposition_parts : List Bytes → FileItem → Option (ℤ × FileItem)
unfolding disposition_file
disposition_parts (kind ∷ token ∷ more) item = do
  (ret, fieldname) ← ss_parse_disposition_value token []
  elim (is_zero ret) [
    | true ↦ disposition_file more (set_name item fieldname)
    | false ↦ some (ret, item)
  ]
disposition_parts _ item = some (negsuc 0, item)

unfoldable pub ss_parse_multi_disposition : Bytes → FileItem → Option (ℤ × FileItem)
unfolding disposition_parts
ss_parse_multi_disposition input item = disposition_parts (ss_split_str input b';' []).1 item

-- The last item of a vector, and the vector with that item replaced.
unfoldable pub last_item : List FileItem → Option FileItem
last_item [] = none
last_item (x ∷ []) = some x
last_item (x ∷ y ∷ r) = last_item (y ∷ r)

unfoldable pub set_last_item : List FileItem → FileItem → List FileItem
set_last_item [] item = []
set_last_item (x ∷ []) item = item ∷ []
set_last_item (x ∷ y ∷ r) item = x ∷ set_last_item (y ∷ r) item

module _ {P : Type 0} where
  abbrev pub set_items : Request P → List FileItem → Request P
  set_items req items = record req { body = record (req.body) { file_items = items } }

  abbrev pub items_of : Request P → List FileItem
  items_of req = req.body.file_items

  unfoldable pub ss_on_multipart_name : Bytes → Request P → Option (ℤ × Request P)
  ss_on_multipart_name s req =
      let items = items_of req in
      let pushed =
        if same_bytes s (codes "Content-Disposition")
        then items ++ set_parse_state new_file_item parse_multi_disposition ∷ []
        else items in
      let req' = set_items req pushed in
      if same_bytes s (codes "Content-Type")
      then elim (last_item pushed) [
        | none ↦ some (pos 1, req')
        | some item ↦ some (
          pos 0,
          set_items req' (set_last_item pushed (set_parse_state item parse_multi_content_type)),
        )
      ]
      else some (pos 0, req')

  -- The end of `ss_on_multipart_value`, for the item as the first test left it.
  value_as_type : Bytes → Request P → FileItem → ℤ × Request P
  value_as_type s req item =
      let typed =
        if to_int (get_parse_state item) == parse_multi_content_type
        then set_content_type item s
        else item in
      (pos 0, set_items req (set_last_item (items_of req) typed))

  unfoldable pub ss_on_multipart_value : Bytes → Request P → Option (ℤ × Request P)
  unfolding value_as_type
  ss_on_multipart_value s req = elim (last_item (items_of req)) [
    | none ↦ some (negsuc 0, req)
    | some item ↦ elim (to_int (get_parse_state item) == parse_multi_disposition) [
      | true ↦ ss_parse_multi_disposition s item >>= λ r. some (
          if is_zero r.0
          then value_as_type s req r.1
          else (r.0, set_items req (set_last_item (items_of req) r.1)))
      | false ↦ some (value_as_type s req item)
    ]
  ]

  unfoldable pub ss_on_multipart_data : Bytes → Request P → Option (ℤ × Request P)
  ss_on_multipart_data s req =
      if is_empty s then some (pos 0, req) else elim (last_item (items_of req)) [
        | none ↦ some (pos 1, req)
        | some item ↦
            some (pos 0, set_items req (set_last_item (items_of req) (append_data item s)))
      ]

  unfoldable pub ss_on_multipart_data_over : Request P → Option (ℤ × Request P)
  ss_on_multipart_data_over req = elim (last_item (items_of req)) [
    | none ↦ some (pos 1, req)
    | some item ↦ some (
      pos 0,
      set_items req (set_last_item (items_of req) (set_parse_state item parse_multi_over)),
    )
  ]

  unfoldable pub ss_on_multipart_body_end : Request P → Option (ℤ × Request P)
  ss_on_multipart_body_end req =
      let (ret, body) = parse_multi_params req.body in some (ret, record req { body = body })

-- The settings that `ss_parse_multipart_data` fills in.
pub data MultipartEvent : Type 0 where
  part_header_field part_header_value part_data : Bytes → MultipartEvent
  part_data_end body_end : MultipartEvent

pub record MultipartCall : Type 0 where
  pub event : MultipartEvent
  -- what `multipart_parser_execute` returns if this callback does not return 0
  pub stops_at : ℕ

-- `multipart_parser_init` and `multipart_parser_execute` of the multipart-parser-c library: the
-- callbacks that a body leads to, with a given boundary, as long as they return 0, and the number
-- of bytes parsed when they all do.
pub record MultipartParser : Type 0 where
  pub calls : Bytes → Bytes → List MultipartCall
  pub parsed : Bytes → Bytes → ℕ

module _ {P : Type 0} where
  unfoldable pub on_multipart : MultipartEvent → Request P → Option (ℤ × Request P)
  on_multipart (part_header_field s) req = ss_on_multipart_name s req
  on_multipart (part_header_value s) req = ss_on_multipart_value s req
  on_multipart (part_data s) req = ss_on_multipart_data s req
  on_multipart part_data_end req = ss_on_multipart_data_over req
  on_multipart body_end req = ss_on_multipart_body_end req

  -- `multipart_parser_execute` with the callbacks: they run in turn up to the first that does not
  -- return 0.
  unfoldable pub run_multipart : List MultipartCall → ℕ → Request P → Option (ℕ × Request P)
  run_multipart [] parsed req = some (parsed, req)
  run_multipart (c ∷ calls) parsed req = elim (on_multipart c.event req) [
    | none ↦ none
    | some (ret, req') ↦ elim (is_zero ret) [
      | true ↦ run_multipart calls parsed req'
      | false ↦ some (c.stops_at, req')
    ]
  ]

  -- Behind the two splits of the content type.
  unfoldable pub parse_with_boundary :
      MultipartParser → List Bytes → Request P → Option (ℤ × Request P)
  parse_with_boundary mp (name ∷ value ∷ []) req =
      let boundary = codes "--" ++ value in
      let raw = req.body.raw_string in
      run_multipart (mp.calls boundary raw) (mp.parsed boundary raw) req >>= λ r.
      some ((if r.0 == length raw then pos 0 else negsuc 0), r.1)
  parse_with_boundary mp _ req = some (pos 0, req)

  unfoldable pub parse_with_type : MultipartParser → List Bytes → Request P → Option (ℤ × Request P)
  unfolding parse_with_boundary
  parse_with_type mp (kind ∷ attribute ∷ []) req =
      parse_with_boundary mp (ss_split_str attribute b'=' []).1 req
  parse_with_type mp _ req = some (pos 0, req)

  -- Both early returns on a content type that does not split hand back the 0 of `ss_split_str`.
  unfoldable pub ss_parse_multipart_data : MultipartParser → Request P → Option (ℤ × Request P)
  unfolding parse_with_type
  ss_parse_multipart_data mp req =
      let (ct, req') = get_header req (codes "Content-Type") in
      let parsed = parse_with_type mp (ss_split_str ct b';' []).1 req' in
      if is_empty req.body.raw_string then some (pos 0, req) else parsed
