-- ===== src/Std/Decimal.antt =====
-- Numbers written to a `std::stringstream` or by `sprintf`, and read by `atoi`.
use ehttp.Base.{
  ◌<◌, ◌≤◌, ◌≡◌, refl, ◌∙◌, arith, tests, Bool-cases, inl, inr, ℕ, zero, suc, ◌+◌, ◌-◌, ◌*◌, ◌/◌,
  ◌%◌, Bool, ◌&&◌, ◌||◌, [], ◌∷◌, ◌++◌, ℤ, pos, negsuc, if◌then◌else◌, ltb, lt→ltb, leb, ◌==◌,
  Bytes, length, length-append,
}

-- `s << n`: the decimal digits; as many rounds as the number has digits suffice.
unfoldable pub show_fuel : ℕ → ℕ → Bytes
show_fuel zero n = []
show_fuel (suc fuel) n =
    let digits = show_fuel fuel (n / 10) ++ (48 + n % 10) ∷ [] in
    if ltb n 10 then (48 + n) ∷ [] else digits

unfoldable pub show_nat : ℕ → Bytes
unfolding show_fuel
show_nat n = show_fuel (suc n) n

unfoldable pub show_int : ℤ → Bytes
show_int (pos n) = show_nat n
show_int (negsuc n) = b'-' ∷ show_nat (suc n)

-- Reading decimal digits, most significant first.
unfoldable pub read_nat : ℕ → Bytes → ℕ
read_nat value [] = value
read_nat value (c ∷ s) = read_nat (10 * value + (c - 48)) s

read_nat-append :
    (value c : ℕ) (s : Bytes) → read_nat value (s ++ c ∷ []) ≡ 10 * read_nat value s + (c - 48)
unfolding read_nat
read_nat-append value c [] = refl
read_nat-append value c (d ∷ s) = read_nat-append (10 * value + (d - 48)) c s

read_nat-show_fuel : (fuel n : ℕ) → n < fuel → read_nat 0 (show_fuel fuel n) ≡ n
unfolding show_fuel
read_nat-show_fuel zero n h = absurd (omega arith)
read_nat-show_fuel (suc fuel) n h = elim (Bool-cases (ltb n 10)) [
  | inl e ↦ rw e (unfold read_nat in omega arith)
  | inr e ↦
      rw (e, read_nat-append 0 (48 + n % 10) (show_fuel fuel (n / 10)))
        (omega (tests, read_nat-show_fuel fuel (n / 10) (ground arith)))
]

-- Reading the digits that were written gives the number back.
pub read_nat-show_nat : (n : ℕ) → read_nat 0 (show_nat n) ≡ n
unfolding show_nat
read_nat-show_nat n = read_nat-show_fuel (suc n) n (omega arith)

abbrev zeros : ℕ → Bytes
zeros zero = []
zeros (suc n) = 48 ∷ zeros n

-- `%0wd`: zeros in front, up to a width.
abbrev pub pad : ℕ → Bytes → Bytes
pad width s = zeros (width - length s) ++ s

-- Ten to a power.
abbrev pub tens : ℕ → ℕ
tens zero = 1
tens (suc d) = 10 * tens d

length-show_fuel : (fuel d n : ℕ) → n < 10 * tens d → length (show_fuel fuel n) ≤ suc d
unfolding show_fuel
length-show_fuel zero d n h = omega arith
length-show_fuel (suc fuel) zero n h = rw (lt→ltb n 10 (omega arith)) (omega arith)
length-show_fuel (suc fuel) (suc d) n h = elim (Bool-cases (ltb n 10)) [
  | inl e ↦ rw e (omega arith)
  | inr e ↦
      rw (e, length-append (show_fuel fuel (n / 10)) ((48 + n % 10) ∷ []))
        (omega (arith, length-show_fuel fuel d (n / 10) (omega arith)))
]

-- A number below a power of ten has as many digits as the power says, at most.
pub length-show_nat : (d n : ℕ) → n < 10 * tens d → length (show_nat n) ≤ suc d
unfolding show_nat
length-show_nat d n h = length-show_fuel (suc n) d n h

length-zeros : (n : ℕ) → length (zeros n) ≡ n
length-zeros zero = refl
length-zeros (suc n) = omega (arith, length-zeros n)

pub length-pad : (width : ℕ) (s : Bytes) → length s ≤ width → length (pad width s) ≡ width
length-pad width s h =
    length-append (zeros (width - length s)) s ∙ omega (arith, length-zeros (width - length s))

-- White space, for `isspace`.
abbrev is_space : ℕ → Bool
is_space c = c == 32 || (leb 9 c && leb c 13)

abbrev is_digit : ℕ → Bool
is_digit c = leb 48 c && leb c 57

abbrev skip_space : Bytes → Bytes
skip_space [] = []
skip_space (c ∷ s) = let rest = skip_space s in if is_space c then rest else c ∷ s

abbrev leading_digits : Bytes → Bytes
leading_digits [] = []
leading_digits (c ∷ s) = let rest = leading_digits s in if is_digit c then c ∷ rest else []

abbrev negated : ℕ → ℤ
negated zero = pos 0
negated (suc n) = negsuc n

abbrev signed : Bytes → ℤ
signed [] = pos 0
signed (c ∷ s) =
    if c == b'-'
    then negated (read_nat 0 (leading_digits s))
    else if c == b'+'
    then pos (read_nat 0 (leading_digits s))
    else pos (read_nat 0 (leading_digits (c ∷ s)))

-- `atoi(s)`, for a number within the range of an `int`.
unfoldable pub atoi : Bytes → ℤ
unfolding read_nat
atoi s = signed (skip_space s)
