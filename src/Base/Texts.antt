-- ===== src/Base/Texts.antt =====
-- Texts as lists of bytes; `std::string::compare` orders them by their unsigned bytes.
use Prim.Native.Char.{code}
use Prim.Native.String.{String}
use Prim.Native.Nat.{ℕ}
use mathlib.Core.Path.{◌≡◌, refl}
use mathlib.Core.Bool.{Bool, true, false, ◌&&◌, ◌||◌}
use mathlib.Core.List.{List, [], ◌∷◌}
use native.Mathlib.Omega.{arith}
use ehttp.Base.Tests.{ltb, ◌==◌}

abbrev pub Bytes : Type 0
Bytes = List ℕ

-- The code points of a literal: its bytes, as every literal here is ASCII.
abbrev pub codes : String → Bytes
codes String.[] = []
codes (String.◌∷◌ c s) = code c ∷ codes s

abbrev pub same_bytes : Bytes → Bytes → Bool
same_bytes [] [] = true
same_bytes [] (y ∷ ys) = false
same_bytes (x ∷ xs) [] = false
same_bytes (x ∷ xs) (y ∷ ys) = x == y && same_bytes xs ys

abbrev pub less_bytes : Bytes → Bytes → Bool
less_bytes xs [] = false
less_bytes [] (y ∷ ys) = true
less_bytes (x ∷ xs) (y ∷ ys) = ltb x y || (x == y && less_bytes xs ys)

pub same_bytes→eq : (a b : Bytes) → same_bytes a b ≡ true → a ≡ b
same_bytes→eq [] [] h = refl
same_bytes→eq [] (y ∷ b) h = ground arith
same_bytes→eq (x ∷ a) [] h = ground arith
same_bytes→eq (x ∷ a) (y ∷ b) h = ground (arith, same_bytes→eq a b)

pub same_bytes_refl : (a : Bytes) → same_bytes a a ≡ true
same_bytes_refl [] = refl
same_bytes_refl (x ∷ a) = ground (arith, same_bytes_refl a)

pub less_bytes_irrefl : (a : Bytes) → less_bytes a a ≡ false
less_bytes_irrefl [] = refl
less_bytes_irrefl (x ∷ a) = ground (arith, less_bytes_irrefl a)

pub less_bytes_trans :
    (a b c : Bytes) → less_bytes a b ≡ true → less_bytes b c ≡ true → less_bytes a c ≡ true
less_bytes_trans a [] c h k = ground arith
less_bytes_trans a (y ∷ b) [] h k = ground arith
less_bytes_trans [] (y ∷ b) (z ∷ c) h k = refl
less_bytes_trans (x ∷ a) (y ∷ b) (z ∷ c) h k = ground (arith, less_bytes_trans a b c)

pub less_bytes_antisym : (a b : Bytes) → less_bytes a b ≡ false → less_bytes b a ≡ false → a ≡ b
less_bytes_antisym [] [] h k = refl
less_bytes_antisym [] (y ∷ b) h k = ground arith
less_bytes_antisym (x ∷ a) [] h k = ground arith
less_bytes_antisym (x ∷ a) (y ∷ b) h k = ground (arith, less_bytes_antisym a b)
