-- ===== src/SimpleConfig.antt =====
-- `get_config_map` of src/simple_config.cpp. A file that does not open is `none`.
pub mod Lines
use ehttp.Base.{
  ℕ, zero, suc, List, [], ◌∷◌, Option, none, some, ℤ, pos, negsuc, if◌then◌else◌, ◌==◌, Bytes,
  length,
}
use ehttp.Std.OrdMap
use ehttp.Std.Order.{bytes_ord}
use ehttp.Std.Stream.{Stream, open_on, good, getline}

-- What one line does to the map.
unfoldable pub set_config : Bytes → List (Bytes × Bytes) → List (Bytes × Bytes)
set_config [] configs = configs
set_config (c ∷ line) configs =
    let (key, s1) = getline b'=' (open_on (c ∷ line)) in
    let (value, s2) = getline b'=' s1 in
    if c == b'#' then configs else OrdMap.insert key value configs

-- `while (fs.good())`: a line a round. Each round takes a byte or ends the stream.
config_loop : ℕ → Stream → List (Bytes × Bytes) → List (Bytes × Bytes)
config_loop zero fs configs = configs
config_loop (suc fuel) fs configs =
    let (line, fs') = getline 10 fs in
    let more = config_loop fuel fs' (set_config line configs) in if good fs then more else configs

unfoldable pub get_config_map : Option Bytes → List (Bytes × Bytes) → ℤ × List (Bytes × Bytes)
unfolding config_loop
get_config_map none configs = (negsuc 0, configs)
get_config_map (some text) configs = (pos 0, config_loop (suc (length text)) (open_on text) configs)
