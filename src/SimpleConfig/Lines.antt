-- ===== src/SimpleConfig/Lines.antt =====
-- The loop of `get_config_map` of src/simple_config.cpp goes through the lines of a file.
use ehttp.Base.{
  ℕ, zero, suc, ◌<◌, ◌≡◌, refl, ap, ◌∙◌, inl, inr, Bool, Bool-cases, List, [], ◌∷◌, Option, some, ℤ,
  pos, arith, if◌then◌else◌, ◌==◌, Bytes, same_bytes, length, is_empty,
}
use ehttp.SimpleConfig.{set_config, config_loop, get_config_map}
use ehttp.Std.OrdMap
use ehttp.Std.Order.{bytes_ord, same_key-same_bytes}
use ehttp.Std.Split.{split_on, split_on_found, split_on_last}
use ehttp.Std.Stream.{
  open_on, ended, after, has_byte, getline, length-after_lt, getline_found, getline_last,
  getline-ended,
}

-- What the lines of a file do to the map, one after the other.
unfoldable set_lines : List Bytes → List (Bytes × Bytes) → List (Bytes × Bytes)
set_lines [] configs = configs
set_lines (line ∷ lines) configs = set_lines lines (set_config line configs)

config_loop_end :
    (fuel : ℕ) (failed : Bool) (configs : List (Bytes × Bytes))
    → config_loop fuel (ended failed) configs ≡ configs
unfolding config_loop
config_loop_end zero failed configs = refl
config_loop_end (suc fuel) failed configs = refl

config_loop_lem :
    (fuel : ℕ) (s : Bytes) (configs : List (Bytes × Bytes))
    → length s < fuel
    → config_loop fuel (open_on s) configs ≡ set_lines (split_on 10 s) configs
unfolding config_loop set_lines
config_loop_lem zero s configs h = absurd (omega arith)
config_loop_lem (suc fuel) s configs h = elim (Bool-cases (has_byte 10 s)) [
  | inl e ↦
      rw (getline_found 10 s e, split_on_found 10 s e)
        (config_loop_lem fuel (after 10 s) _ (omega (arith, length-after_lt 10 s e)))
  | inr e ↦ rw (getline_last 10 s e, split_on_last 10 s e) (config_loop_end fuel _ _)
]

get_config_map-set_lines :
    (text : Bytes) (configs : List (Bytes × Bytes))
    → get_config_map (some text) configs ≡ (pos 0, set_lines (split_on 10 text) configs)
unfolding get_config_map
get_config_map-set_lines text configs =
    ap (λ m. (pos 0, m)) (config_loop_lem (suc (length text)) text configs (omega arith))

-- The key and the value of a line: what stands in front of its first equals sign, and from there to
-- the next or to the end. An empty line and a comment have none.
abbrev key_and_value : List Bytes → List (Bytes × Bytes)
key_and_value [] = []
key_and_value (k ∷ []) = (k, []) ∷ []
key_and_value (k ∷ v ∷ rest) = (k, v) ∷ []

unfoldable pub setting : Bytes → List (Bytes × Bytes)
setting [] = []
setting (c ∷ line) = if c == b'#' then [] else key_and_value (split_on b'=' (c ∷ line))

-- The value of the last line that sets a key, or else the one that was there.
unfoldable pub last_setting : Bytes → List Bytes → Option Bytes → Option Bytes
last_setting key [] found = found
last_setting key (line ∷ lines) found = last_setting key lines (elim (setting line) [
  | [] ↦ found
  | (k, v) ∷ rest ↦ if same_bytes k key then some v else found
])

getline_pair :
    (s : Bytes)
    → key_and_value (split_on b'=' s)
      ≡ ((getline b'=' (open_on s)).0, (getline b'=' (getline b'=' (open_on s)).1).0) ∷ []
getline_pair s = elim (Bool-cases (has_byte b'=' s)) [
  | inl e ↦
      let rest = after b'=' s in
      elim (Bool-cases (has_byte b'=' rest)) [
        | inl f ↦ rw (
          getline_found b'=' s e,
          getline_found b'=' rest f,
          split_on_found b'=' s e,
          split_on_found b'=' rest f,
        )
        | inr f ↦ rw (
          getline_found b'=' s e,
          getline_last b'=' rest f,
          split_on_found b'=' s e,
          split_on_last b'=' rest f,
        )
      ]
  | inr e ↦ rw (getline_last b'=' s e, getline-ended b'=' (is_empty s), split_on_last b'=' s e)
]

find-set_config :
    (key line : Bytes) (configs : List (Bytes × Bytes))
    → OrdMap.find key (set_config line configs) ≡ elim (setting line) [
      | [] ↦ OrdMap.find key configs
      | (k, v) ∷ rest ↦ if same_bytes k key then some v else OrdMap.find key configs
    ]
unfolding set_config setting
find-set_config key [] configs = refl
find-set_config key (c ∷ line) configs = elim (Bool-cases (c == b'#')) [
  | inl e ↦ rw e
  | inr e ↦
      let (name, tail) = getline b'=' (open_on (c ∷ line)) in
      let value = (getline b'=' tail).0 in
      rw (e, getline_pair (c ∷ line))
        (OrdMap.find-insert name key _ configs
          ∙ ap (λ b. if b then some value else OrdMap.find key configs)
              (same_key-same_bytes name key))
]

find-set_lines :
    (key : Bytes) (lines : List Bytes) (configs : List (Bytes × Bytes))
    → OrdMap.find key (set_lines lines configs) ≡ last_setting key lines (OrdMap.find key configs)
unfolding set_lines last_setting
find-set_lines key [] configs = refl
find-set_lines key (line ∷ lines) configs =
    find-set_lines key lines (set_config line configs)
    ∙ ap (last_setting key lines) (find-set_config key line configs)

-- A file that opens is read to its end: the call returns 0, and each key has the value of the last
-- line that sets it, or the one that it had before if none does, where a line that is not empty and
-- does not begin with a number sign sets the text in front of its first equals sign to the text
-- behind it up to the next one, and to the empty text if it has none.
pub get_config_map-last_setting :
    (text key : Bytes) (configs : List (Bytes × Bytes))
    → let r = get_config_map (some text) configs in
      (r.0 ≡ pos 0)
      × (OrdMap.find key r.1 ≡ last_setting key (split_on 10 text) (OrdMap.find key configs))
get_config_map-last_setting text key configs =
    let e = get_config_map-set_lines text configs in
    (
      ap (λ (r : ℤ × List (Bytes × Bytes)). r.0) e,
      ap (λ (r : ℤ × List (Bytes × Bytes)). OrdMap.find key r.1) e
          ∙ find-set_lines key (split_on 10 text) configs,
    )
