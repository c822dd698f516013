-- ===== src/Std/Stream.antt =====
-- Reading a `std::stringstream`: what is left of its text and its state bits.
use ehttp.Base.{
  ◌++◌, inl, inr, Bool-cases, ◌<◌, ◌≡◌, refl, is_empty, ℕ, ◌≤◌, Bool, true, false, not, ◌||◌, [],
  ◌∷◌, arith, ◌==◌, if◌then◌else◌, Bytes, length,
}

pub record Stream : Type 0 where
  pub rest : Bytes
  pub eof : Bool
  pub failed : Bool

abbrev pub open_on : Bytes → Stream
open_on s = record { rest = s; eof = false; failed = false }

-- `ss.good()`
abbrev pub good : Stream → Bool
good s = not (s.eof || s.failed)

-- The bytes before the first delimiter, and those behind it with the delimiter's presence.
unfoldable pub before : ℕ → Bytes → Bytes
before d [] = []
before d (c ∷ cs) = if c == d then [] else c ∷ before d cs

unfoldable pub after : ℕ → Bytes → Bytes
after d [] = []
after d (c ∷ cs) = if c == d then cs else after d cs

unfoldable pub has_byte : ℕ → Bytes → Bool
has_byte d [] = false
has_byte d (c ∷ cs) = c == d || has_byte d cs

-- The stream behind `std::getline(ss, token, d)`: the delimiter is taken and not stored; at the end
-- of the text the call sets `eofbit`, and `failbit` too where it took no byte.
scanned : ℕ → Bytes → Stream
scanned d [] = record { rest = []; eof = true; failed = true }
scanned d (c ∷ cs) = record {
  rest = after d (c ∷ cs);
  eof = not (has_byte d (c ∷ cs));
  failed = false;
}

-- A call on a stream that is not good leaves its fresh token empty and sets `failbit`.
unfoldable pub getline : ℕ → Stream → Bytes × Stream
unfolding scanned
getline d s =
    if good s then (before d s.rest, scanned d s.rest) else ([], record s { failed = true })

pub length-after : (d : ℕ) (s : Bytes) → length (after d s) ≤ length s
unfolding after
length-after d [] = omega arith
length-after d (c ∷ cs) = ground (arith, length-after d cs)

pub length-after_lt : (d : ℕ) (s : Bytes) → has_byte d s ≡ true → length (after d s) < length s
unfolding after has_byte
length-after_lt d [] h = ground arith
length-after_lt d (c ∷ cs) h = ground (arith, length-after_lt d cs)

pub before_all : (d : ℕ) (s : Bytes) → has_byte d s ≡ false → before d s ≡ s
unfolding before has_byte
before_all d [] h = refl
before_all d (c ∷ cs) h = ground (arith, before_all d cs)

after_none : (d : ℕ) (s : Bytes) → has_byte d s ≡ false → after d s ≡ []
unfolding after has_byte
after_none d [] h = refl
after_none d (c ∷ cs) h = ground (arith, after_none d cs)

-- The stream behind a call that met the end of the text.
abbrev pub ended : Bool → Stream
ended failed = record { rest = []; eof = true; failed = failed }

-- The two answers of `getline` on a good stream.
pub getline_found :
    (d : ℕ) (s : Bytes)
    → has_byte d s ≡ true
    → getline d (open_on s) ≡ (before d s, open_on (after d s))
unfolding getline has_byte
getline_found d [] h = ground arith
getline_found d (c ∷ cs) h = rw h

pub getline_last :
    (d : ℕ) (s : Bytes) → has_byte d s ≡ false → getline d (open_on s) ≡ (s, ended (is_empty s))
unfolding getline
getline_last d [] h = unfold before after in refl
getline_last d (c ∷ cs) h = rw (before_all d (c ∷ cs) h, after_none d (c ∷ cs) h, h)

pub getline-ended : (d : ℕ) (failed : Bool) → getline d (ended failed) ≡ ([], ended true)
unfolding getline
getline-ended d failed = refl

-- The token of the first call on a text.
pub getline-before : (d : ℕ) (s : Bytes) → (getline d (open_on s)).0 ≡ before d s
getline-before d s = elim (Bool-cases (has_byte d s)) [
  | inl e ↦ rw (getline_found d s e)
  | inr e ↦ rw (getline_last d s e, before_all d s e)
]

pub has_byte-append : (d : ℕ) (a b : Bytes) → has_byte d (a ++ b) ≡ (has_byte d a || has_byte d b)
unfolding has_byte
has_byte-append d [] b = refl
has_byte-append d (c ∷ a) b = ground (arith, has_byte-append d a b)
