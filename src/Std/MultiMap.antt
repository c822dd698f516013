-- ===== src/Std/MultiMap.antt =====
-- `std::multimap<Key, T>`: equal keys stand together, in the order of their insertion.

use ehttp.Base.{
  ◌≡◌, refl, true, false, List, [], ◌∷◌, ◌++◌, Option, none, some, append-nil, arith, if◌then◌else◌,
}
use ehttp.Std.Order.{Ord, same_key, less_asym}

abbrev pub head {κ} : {V : Type κ} → List V → Option V
head [] = none
head (v ∷ vs) = some v

module _ {ℓ κ} {K : Type ℓ} {V : Type κ} ⦃o : Ord K⦄ where
  -- `m.insert(pair)`: at the upper bound of the key
  unfoldable pub insert : K → V → List (K × V) → List (K × V)
  insert k v [] = (k, v) ∷ []
  insert k v ((j, w) ∷ m) = if o.less k j then (k, v) ∷ (j, w) ∷ m else (j, w) ∷ insert k v m

  -- The values of `m.equal_range(k)`, in order.
  unfoldable pub equal_range : K → List (K × V) → List V
  equal_range k [] = []
  equal_range k ((j, w) ∷ m) = if same_key j k then w ∷ equal_range k m else equal_range k m

  -- `m.find(k)`: the first entry of the range
  unfoldable pub find : K → List (K × V) → Option V
  find k [] = none
  find k ((j, w) ∷ m) = if same_key j k then some w else find k m

  abbrev pub NotBelow : K → List (K × V) → Type 0
  NotBelow k [] = Unit
  NotBelow k ((j, w) ∷ m) = (o.less j k ≡ false) × NotBelow k m

  abbrev pub IsSorted : List (K × V) → Type 0
  IsSorted [] = Unit
  IsSorted ((j, w) ∷ m) = NotBelow j m × IsSorted m

  NotBelow-less : (k j : K) (m : List (K × V)) → o.less k j ≡ true → NotBelow j m → NotBelow k m
  NotBelow-less k j [] h a = tt
  NotBelow-less k j ((i, w) ∷ m) h a =
      (ground (arith, o.trans i k j, a.0), NotBelow-less k j m h a.1)

  insert-NotBelow :
      (b k : K) (v : V) (m : List (K × V))
      → o.less k b ≡ false
      → NotBelow b m
      → NotBelow b (insert k v m)
  unfolding insert
  insert-NotBelow b k v [] h a = (h, tt)
  insert-NotBelow b k v ((i, w) ∷ m) h a = ground (arith, insert-NotBelow b k v m h a.1)

  pub insert-IsSorted : (k : K) (v : V) (m : List (K × V)) → IsSorted m → IsSorted (insert k v m)
  unfolding insert
  insert-IsSorted k v [] s = (tt, tt)
  insert-IsSorted k v ((i, w) ∷ m) s = ground (
    arith,
    insert-IsSorted k v m s.1,
    insert-NotBelow i k v m,
    NotBelow-less k i m,
    less_asym k i,
  )

  equal_range_above :
      (k j : K) (m : List (K × V)) → o.less k j ≡ true → NotBelow j m → equal_range k m ≡ []
  unfolding equal_range
  equal_range_above k j [] h a = refl
  equal_range_above k j ((i, w) ∷ m) h a =
      ground (arith, equal_range_above k j m h a.1, o.antisym i k, o.trans i k j)

  -- The new value goes behind the values that its key has.
  pub equal_range-insert :
      (k j : K) (v : V) (m : List (K × V))
      → IsSorted m
      → equal_range j (insert k v m) ≡ equal_range j m ++ (if same_key k j then v ∷ [] else [])
  unfolding insert equal_range
  equal_range-insert k j v [] s = refl
  equal_range-insert k j v ((i, w) ∷ m) s = ground (
    arith,
    equal_range-insert k j v m s.1,
    equal_range_above k i m,
    o.antisym i j,
    o.antisym k j,
    o.trans k i j,
    less_asym k i,
    append-nil (equal_range j m),
    append-nil (w ∷ equal_range j m),
  )

  pub find-equal_range : (k : K) (m : List (K × V)) → find k m ≡ head (equal_range k m)
  unfolding find equal_range
  find-equal_range k [] = refl
  find-equal_range k ((j, w) ∷ m) = ground (arith, find-equal_range k m)
