-- ===== src/Unescape/Form.antt =====
-- `unescape` undoes the encoding of application/x-www-form-urlencoded.
use ehttp.Base.{
  ℕ, zero, suc, ◌+◌, ◌*◌, ◌/◌, ◌%◌, ◌≤◌, ◌<◌, ◌≡◌, refl, ap, ◌∙◌, Bool, true, false, inl, inr,
  Bool-cases, ◌&&◌, ◌||◌, [], ◌∷◌, ◌++◌, arith, if◌then◌else◌, leb, ltb, ◌==◌, Bytes, length, All,
}
use ehttp.Std.Stream.{has_byte}
use ehttp.Unescape.{ishex, byte_at, digit_value, unescape_from, unescape}

-- The bytes that a form leaves as they are.
abbrev pub is_unreserved : ℕ → Bool
is_unreserved c =
    (leb b'a' c && leb c b'z')
    || (leb b'A' c && leb c b'Z')
    || (leb b'0' c && leb c b'9')
    || c == b'-'
    || c == b'.'
    || c == b'_'
    || c == b'*'

abbrev pub hex_digit : ℕ → ℕ
hex_digit n = if ltb n 10 then n + 48 else n + 55

unfoldable pub encode_byte : ℕ → Bytes
encode_byte c =
    if is_unreserved c
    then c ∷ []
    else if c == b' '
    then b'+' ∷ []
    else b'%' ∷ hex_digit (c / 16) ∷ hex_digit (c % 16) ∷ []

unfoldable pub form_encode : Bytes → Bytes
form_encode [] = []
form_encode (c ∷ s) = encode_byte c ++ form_encode s

abbrev pub IsByte : ℕ → Type 0
IsByte c = c < 256

hex_digit-ishex : (n : ℕ) → n < 16 → ishex (hex_digit n) ≡ true
unfolding ishex
hex_digit-ishex n h = ground arith

digit_value-hex_digit : (n : ℕ) → n < 16 → digit_value (hex_digit n) ≡ n
unfolding digit_value
digit_value-hex_digit n h = ground arith

unescape_plain :
    (c : ℕ) (s : Bytes)
    → (c == b'%') ≡ false
    → (c == b'+') ≡ false
    → unescape_from 0 (c ∷ s) ≡ c ∷ unescape_from 0 s
unfolding unescape_from
unescape_plain c s h k = rw (h, k)

unescape_escaped :
    (a b : ℕ) (s : Bytes)
    → ishex a ≡ true
    → ishex b ≡ true
    → unescape_from 0 (b'%' ∷ a ∷ b ∷ s) ≡ (16 * digit_value a + digit_value b) ∷ unescape_from 0 s
unfolding unescape_from byte_at
unescape_escaped a b s h k = rw (h, k)

unescape_hex :
    (n : ℕ) (s : Bytes)
    → n < 256
    → unescape_from 0 (b'%' ∷ hex_digit (n / 16) ∷ hex_digit (n % 16) ∷ s) ≡ n ∷ unescape_from 0 s
unescape_hex n s h =
    let high : n / 16 < 16 = omega arith in
    let low : n % 16 < 16 = omega arith in
    unescape_escaped _ _ s (hex_digit-ishex (n / 16) high) (hex_digit-ishex (n % 16) low)
    ∙ ap (λ k. k ∷ unescape_from 0 s)
        (omega (arith, digit_value-hex_digit (n / 16) high, digit_value-hex_digit (n % 16) low))

unescape_space : (c : ℕ) (s : Bytes) → c ≡ b' ' → unescape_from 0 (b'+' ∷ s) ≡ c ∷ unescape_from 0 s
unfolding unescape_from
unescape_space c s h = rw h

unescape-encode_byte :
    (c : ℕ) (s : Bytes) → c < 256 → unescape_from 0 (encode_byte c ++ s) ≡ c ∷ unescape_from 0 s
unfolding encode_byte
unescape-encode_byte c s h = elim (Bool-cases (is_unreserved c)) [
  | inl e ↦ rw e (unescape_plain c s (ground arith) (ground arith))
  | inr e ↦ elim (Bool-cases (c == b' ')) [
    | inl f ↦ rw (e, f) (unescape_space c s (ground arith))
    | inr f ↦ rw (e, f) (unescape_hex c s h)
  ]
]

-- Unescaping what a form encoded gives the text back, for any text of bytes below 256.
pub unescape-form_encode : (s : Bytes) → All IsByte s → unescape (form_encode s) ≡ s
unfolding unescape form_encode
unescape-form_encode [] h = refl
unescape-form_encode (c ∷ s) h =
    unescape-encode_byte c (form_encode s) h.0 ∙ ap (◌∷◌ c) (unescape-form_encode s h.1)

-- A text with no percent sign and no plus sign is left as it is.
pub unescape_fixed :
    (s : Bytes) → has_byte b'%' s ≡ false → has_byte b'+' s ≡ false → unescape s ≡ s
unfolding unescape has_byte
unescape_fixed [] h k = refl
unescape_fixed (c ∷ s) h k =
    unescape_plain c s (ground arith) (ground arith)
    ∙ ap (◌∷◌ c) (unescape_fixed s (ground arith) (ground arith))

unescape_from_nil : (skip : ℕ) → length (unescape_from skip []) ≤ 0
unfolding unescape_from
unescape_from_nil zero = omega arith
unescape_from_nil (suc skip) = omega arith

unescape_from_shorter : (skip : ℕ) (s : Bytes) → length (unescape_from skip s) ≤ length s
unfolding unescape_from
unescape_from_shorter skip [] = unescape_from_nil skip
unescape_from_shorter (suc skip) (c ∷ s) = omega (arith, unescape_from_shorter skip s)
unescape_from_shorter zero (c ∷ s) =
    ground (arith, unescape_from_shorter 2 s, unescape_from_shorter 0 s)

-- The result is never longer than the text.
pub length-unescape_le : (s : Bytes) → length (unescape s) ≤ length s
unfolding unescape
length-unescape_le s = unescape_from_shorter 0 s
