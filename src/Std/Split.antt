-- ===== src/Std/Split.antt =====
-- Splitting at a delimiter, with no stream: what loops over `std::getline` compute.
use ehttp.Base.{
  ℕ, ◌≡◌, refl, ap, true, false, List, [], ◌∷◌, ◌++◌, arith, ◌==◌, if◌then◌else◌, Bytes, All,
}
use ehttp.Std.Stream.{before, after, has_byte}

abbrev pub cons_head : ℕ → List Bytes → List Bytes
cons_head c [] = (c ∷ []) ∷ []
cons_head c (p ∷ ps) = (c ∷ p) ∷ ps

-- The pieces between the delimiters: one more than there are delimiters.
unfoldable pub split_on : ℕ → Bytes → List Bytes
split_on d [] = [] ∷ []
split_on d (c ∷ cs) = if c == d then [] ∷ split_on d cs else cons_head c (split_on d cs)

-- The pieces that delimiters end: an empty last piece is none.
unfoldable pub pieces : ℕ → Bytes → List Bytes
pieces d [] = []
pieces d (c ∷ cs) = if c == d then [] ∷ pieces d cs else cons_head c (pieces d cs)

pub split_on_found :
    (d : ℕ) (s : Bytes) → has_byte d s ≡ true → split_on d s ≡ before d s ∷ split_on d (after d s)
unfolding split_on before after has_byte
split_on_found d [] h = ground arith
split_on_found d (c ∷ cs) h = ground (arith, split_on_found d cs)

pub split_on_last : (d : ℕ) (s : Bytes) → has_byte d s ≡ false → split_on d s ≡ s ∷ []
unfolding split_on has_byte
split_on_last d [] h = refl
split_on_last d (c ∷ cs) h = ground (arith, split_on_last d cs)

pub pieces_found :
    (d : ℕ) (s : Bytes) → has_byte d s ≡ true → pieces d s ≡ before d s ∷ pieces d (after d s)
unfolding pieces before after has_byte
pieces_found d [] h = ground arith
pieces_found d (c ∷ cs) h = ground (arith, pieces_found d cs)

pub pieces_last :
    (d : ℕ) (c : ℕ) (s : Bytes) → has_byte d (c ∷ s) ≡ false → pieces d (c ∷ s) ≡ (c ∷ s) ∷ []
unfolding pieces has_byte
pieces_last d c [] h = ground arith
pieces_last d c (b ∷ s) h = ground (arith, pieces_last d b s)

-- The pieces with the delimiter between them.
unfoldable pub join : ℕ → List Bytes → Bytes
join d [] = []
join d (p ∷ []) = p
join d (p ∷ q ∷ r) = p ++ (d ∷ join d (q ∷ r))

abbrev pub Free : ℕ → Bytes → Type 0
Free d p = has_byte d p ≡ false

pub split_on-append :
    (d : ℕ) (p s : Bytes) → Free d p → split_on d (p ++ (d ∷ s)) ≡ p ∷ split_on d s
unfolding split_on has_byte
split_on-append d [] s h = ground arith
split_on-append d (c ∷ p) s h = ground (arith, split_on-append d p s)

-- Splitting undoes joining.
pub split_on-join :
    (d : ℕ) (p : Bytes) (ps : List Bytes)
    → All (Free d) (p ∷ ps)
    → split_on d (join d (p ∷ ps)) ≡ p ∷ ps
unfolding join
split_on-join d p [] h = split_on_last d p h.0
split_on-join d p (q ∷ r) h = rw (split_on-append d p _ h.0) (ap (◌∷◌ p) (split_on-join d q r h.1))

pieces-append : (d : ℕ) (p s : Bytes) → Free d p → pieces d (p ++ (d ∷ s)) ≡ p ∷ pieces d s
unfolding pieces has_byte
pieces-append d [] s h = ground arith
pieces-append d (c ∷ p) s h = ground (arith, pieces-append d p s)

abbrev pub last_or : Bytes → List Bytes → Bytes
last_or p [] = p
last_or p (q ∷ r) = last_or q r

abbrev pub NonEmpty : Bytes → Type 0
NonEmpty [] = ⊥
NonEmpty (c ∷ s) = Unit

-- So does splitting into ended pieces, where the last piece is not empty.
pub pieces-join :
    (d : ℕ) (p : Bytes) (ps : List Bytes)
    → All (Free d) (p ∷ ps)
    → NonEmpty (last_or p ps)
    → pieces d (join d (p ∷ ps)) ≡ p ∷ ps
unfolding join
pieces-join d [] [] h n = absurd n
pieces-join d (c ∷ p) [] h n = pieces_last d c p h.0
pieces-join d p (q ∷ r) h n = rw (pieces-append d p _ h.0) (ap (◌∷◌ p) (pieces-join d q r h.1 n))
