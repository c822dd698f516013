-- ===== src/Std/Order.antt =====
-- `std::less<Key>`: a strict total order, which the ordered containers test keys by.
use ehttp.Base.{
  ℕ, ◌≡◌, Bool, true, false, not, ◌||◌, arith, ltb, Bytes, same_bytes, refl, [], ◌∷◌, less_bytes,
  less_bytes_irrefl, less_bytes_trans, less_bytes_antisym,
}

pub record Ord {ℓ} (K : Type ℓ) : Type ℓ where
  pub less : K → K → Bool
  pub irrefl : (a : K) → less a a ≡ false
  pub trans : (a b c : K) → less a b ≡ true → less b c ≡ true → less a c ≡ true
  pub antisym : (a b : K) → less a b ≡ false → less b a ≡ false → a ≡ b

pub nat_irrefl : (a : ℕ) → ltb a a ≡ false
nat_irrefl a = ground arith

pub nat_trans : (a b c : ℕ) → ltb a b ≡ true → ltb b c ≡ true → ltb a c ≡ true
nat_trans a b c h k = ground arith

pub nat_antisym : (a b : ℕ) → ltb a b ≡ false → ltb b a ≡ false → a ≡ b
nat_antisym a b h k = ground arith

instance abbrev pub nat_ord : Ord ℕ
nat_ord = record { less = ltb; irrefl = nat_irrefl; trans = nat_trans; antisym = nat_antisym }

instance abbrev pub bytes_ord : Ord Bytes
bytes_ord = record {
  less = less_bytes;
  irrefl = less_bytes_irrefl;
  trans = less_bytes_trans;
  antisym = less_bytes_antisym;
}

module _ {ℓ} {K : Type ℓ} ⦃o : Ord K⦄ where
  -- Two keys are equivalent when neither is less.
  abbrev pub same_key : K → K → Bool
  same_key a b = not (o.less a b || o.less b a)

  pub same_key→eq : (a b : K) → same_key a b ≡ true → a ≡ b
  same_key→eq a b h = ground (arith, o.antisym a b)

  pub same_key_refl : (a : K) → same_key a a ≡ true
  same_key_refl a = ground (arith, o.irrefl a)

  pub less_asym : (a b : K) → o.less a b ≡ true → o.less b a ≡ false
  less_asym a b h = ground (arith, o.trans a b a, o.irrefl a)

-- On texts the equivalence is equality of the bytes.
pub same_key-same_bytes : (a b : Bytes) → same_key a b ≡ same_bytes a b
same_key-same_bytes [] [] = refl
same_key-same_bytes [] (y ∷ b) = refl
same_key-same_bytes (x ∷ a) [] = refl
same_key-same_bytes (x ∷ a) (y ∷ b) = ground (arith, same_key-same_bytes a b)
