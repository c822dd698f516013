-- ===== src/Unescape.antt =====
-- `ishex` and `unescape` of src/sim_parser.cpp.
pub mod Form
use ehttp.Base.{
  ℕ, zero, suc, ◌+◌, ◌-◌, ◌*◌, Bool, ◌&&◌, ◌||◌, List, [], ◌∷◌, ◌++◌, if◌then◌else◌, leb, ◌==◌,
  Bytes,
}

unfoldable pub ishex : ℕ → Bool
ishex c = (leb b'a' c && leb c b'f') || (leb b'A' c && leb c b'F') || (leb b'0' c && leb c b'9')

-- `param[i]` on a `std::string`: the byte at the end is zero.
unfoldable pub byte_at : Bytes → ℕ → ℕ
byte_at [] i = 0
byte_at (c ∷ s) zero = c
byte_at (c ∷ s) (suc i) = byte_at s i

-- The value of a digit that `strtol` reads in base 16.
unfoldable pub digit_value : ℕ → ℕ
digit_value c = if leb c b'9' then c - b'0' else if leb c b'F' then c - b'A' + 10 else c - b'a' + 10

-- The loop over `i`: `skip` bytes are still to be passed over, which `i += 2` asks for. The bytes
-- behind the current one are `param[i + 1]` and on.
unescape_from : ℕ → Bytes → Bytes
unescape_from skip [] = []
unescape_from (suc skip) (c ∷ s) = unescape_from skip s
unescape_from zero (c ∷ s) =
    let escaped = c == b'%' && (ishex (byte_at s 0) && ishex (byte_at s 1)) in
    let decoded = 16 * digit_value (byte_at s 0) + digit_value (byte_at s 1) in
    let out = if escaped then decoded ∷ [] else if c == b'+' then b' ' ∷ [] else c ∷ [] in
    out ++ unescape_from (if escaped then 2 else 0) s

unfoldable pub unescape : Bytes → Bytes
unfolding unescape_from ishex byte_at digit_value
unescape param = unescape_from 0 param
