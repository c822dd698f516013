-- ===== src/Std/OrdMap.antt =====
-- `std::map<Key, T>`: its entries in the order of their keys, as an iteration meets them.
use ehttp.Base.{
  ap, ◌∙◌, ◌||◌, ◌+◌, ◌-◌, ◌≡◌, refl, Bool, true, false, List, [], ◌∷◌, Option, none, some, arith,
  if◌then◌else◌, length,
}
use ehttp.Std.Order.{Ord, same_key, less_asym}

abbrev pub is_some {ℓ} : {A : Type ℓ} → Option A → Bool
is_some none = false
is_some (some a) = true

is_some_if {ℓ} :
    {A : Type ℓ} (b : Bool) (a : A) (o : Option A)
    → is_some (if b then some a else o) ≡ (b || is_some o)
is_some_if true a o = refl
is_some_if false a o = refl

module _ {ℓ κ} {K : Type ℓ} {V : Type κ} ⦃o : Ord K⦄ where
  -- `m.find(k)`
  unfoldable pub find : K → List (K × V) → Option V
  find k [] = none
  find k ((j, w) ∷ m) = if same_key j k then some w else find k m

  -- `m.count(k)`, as a truth value
  abbrev pub has : K → List (K × V) → Bool
  has k m = is_some (find k m)

  -- `m[k] = v`
  unfoldable pub insert : K → V → List (K × V) → List (K × V)
  insert k v [] = (k, v) ∷ []
  insert k v ((j, w) ∷ m) =
      if o.less k j
      then (k, v) ∷ (j, w) ∷ m
      else if same_key j k
      then (j, v) ∷ m
      else (j, w) ∷ insert k v m

  -- `m.erase(k)`
  unfoldable pub erase : K → List (K × V) → List (K × V)
  erase k [] = []
  erase k ((j, w) ∷ m) = if same_key j k then m else (j, w) ∷ erase k m

  -- Every key is above `k`.
  abbrev pub Above : K → List (K × V) → Type 0
  Above k [] = Unit
  Above k ((j, w) ∷ m) = (o.less k j ≡ true) × Above k m

  abbrev pub IsSorted : List (K × V) → Type 0
  IsSorted [] = Unit
  IsSorted ((j, w) ∷ m) = Above j m × IsSorted m

  pub find-insert :
      (k j : K) (v : V) (m : List (K × V))
      → find j (insert k v m) ≡ (if same_key k j then some v else find j m)
  unfolding find insert
  find-insert k j v [] = refl
  find-insert k j v ((i, w) ∷ m) =
      ground (arith, find-insert k j v m, o.antisym i k, o.antisym k j, o.antisym i j)

  Above-trans : (k j : K) (m : List (K × V)) → o.less k j ≡ true → Above j m → Above k m
  Above-trans k j [] h a = tt
  Above-trans k j ((i, w) ∷ m) h a = (o.trans k j i h a.0, Above-trans k j m h a.1)

  insert-Above :
      (b k : K) (v : V) (m : List (K × V)) → o.less b k ≡ true → Above b m → Above b (insert k v m)
  unfolding insert
  insert-Above b k v [] h a = (h, tt)
  insert-Above b k v ((i, w) ∷ m) h a = ground (arith, insert-Above b k v m h a.1)

  pub insert-IsSorted : (k : K) (v : V) (m : List (K × V)) → IsSorted m → IsSorted (insert k v m)
  unfolding insert
  insert-IsSorted k v [] s = (tt, tt)
  insert-IsSorted k v ((i, w) ∷ m) s =
      ground
        (arith, insert-IsSorted k v m s.1, insert-Above i k v m, Above-trans k i m, o.antisym i k)

  find-Above : (k : K) (m : List (K × V)) → Above k m → find k m ≡ none
  unfolding find
  find-Above k [] a = refl
  find-Above k ((i, w) ∷ m) a = ground (arith, find-Above k m a.1)

  pub find-erase :
      (k j : K) (m : List (K × V))
      → IsSorted m
      → find j (erase k m) ≡ (if same_key k j then none else find j m)
  unfolding find erase
  find-erase k j [] s = ground arith
  find-erase k j ((i, w) ∷ m) s =
      ground (
        arith,
        find-erase k j m s.1,
        find-Above i m s.0,
        o.antisym i k,
        o.antisym k j,
        o.antisym i j,
      )

  erase-Above : (b k : K) (m : List (K × V)) → Above b m → Above b (erase k m)
  unfolding erase
  erase-Above b k [] a = tt
  erase-Above b k ((i, w) ∷ m) a = ground (arith, erase-Above b k m a.1)

  pub erase-IsSorted : (k : K) (m : List (K × V)) → IsSorted m → IsSorted (erase k m)
  unfolding erase
  erase-IsSorted k [] s = tt
  erase-IsSorted k ((i, w) ∷ m) s = ground (arith, erase-IsSorted k m s.1, erase-Above i k m s.0)

  -- A new key adds one entry, and an old key none.
  pub length-insert :
      (k : K) (v : V) (m : List (K × V))
      → IsSorted m
      → length (insert k v m) ≡ (if has k m then length m else length m + 1)
  unfolding insert find
  length-insert k v [] s = omega arith
  length-insert k v ((i, w) ∷ m) s =
      ground (arith, length-insert k v m s.1, find-Above k m, Above-trans k i m, less_asym k i)

  pub length-erase :
      (k : K) (m : List (K × V)) → length (erase k m) ≡ (if has k m then length m - 1 else length m)
  unfolding erase find
  length-erase k [] = refl
  length-erase k ((i, w) ∷ m) = ground (arith, length-erase k m, length_pos k m)
    where
      length_pos : (k : K) (m : List (K × V)) → has k m ≡ true → (length m - 1) + 1 ≡ length m
      length_pos k [] h = ground arith
      length_pos k (x ∷ m) h = omega arith

  pub has-insert :
      (k j : K) (v : V) (m : List (K × V)) → has j (insert k v m) ≡ (same_key k j || has j m)
  has-insert k j v m = ap is_some (find-insert k j v m) ∙ is_some_if (same_key k j) v (find j m)

  pub has_cons :
      (k j : K) (v : V) (m : List (K × V)) → has j ((k, v) ∷ m) ≡ (same_key k j || has j m)
  unfolding find
  has_cons k j v m = is_some_if (same_key k j) v (find j m)
