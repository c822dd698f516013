-- ===== src/StringUtils.antt =====
-- src/string_utils.cpp: splitting at a byte, and lower case.
pub mod SplitStr
use ehttp.Base.{
  same_bytes, Bool, map, ℕ, zero, suc, ◌+◌, Bool, ◌&&◌, List, [], ◌∷◌, ◌++◌, map, ℤ, pos,
  if◌then◌else◌, leb, Bytes, length, is_empty,
}
use ehttp.Std.Stream.{before, Stream, open_on, getline}

-- `while (std::getline(ss, token, s)) tokens.push_back(token)`
split_loop : ℕ → ℕ → Stream → List Bytes → List Bytes
split_loop zero d s tokens = tokens
split_loop (suc fuel) d s tokens =
    let (token, s') = getline d s in
    let more = split_loop fuel d s' (tokens ++ token ∷ []) in if s'.failed then tokens else more

-- A call takes at least one byte or ends the loop.
pub ss_split_str : Bytes → ℕ → List Bytes → ℤ × List Bytes
ss_split_str input d tokens =
    let split = split_loop (suc (length input)) d (open_on input) tokens in
    if is_empty input then (pos 0, tokens) else (pos 0, split)

-- `::tolower` in the C locale
unfoldable pub tolower : ℕ → ℕ
tolower c = if leb b'A' c && leb c b'Z' then c + 32 else c

unfoldable pub ss_str_tolower : Bytes → Bytes
ss_str_tolower = map tolower

-- `strcasecmp(a, b) == 0`, on the C strings of two texts.
unfoldable pub same_ignoring_case : Bytes → Bytes → Bool
same_ignoring_case a b = same_bytes (map tolower (before 0 a)) (map tolower (before 0 b))
