-- ===== src/HttpServer/Method.antt =====
-- `HttpMethod` of src/http_server.h and src/http_server.cpp. A set is a map into the unit type.
use ehttp.Base.{
  ℕ, ◌+◌, ◌-◌, ◌≡◌, refl, ap, ◌∙◌, Bool, true, false, List, [], ◌∷◌, ◌++◌, append-nil, arith,
  if◌then◌else◌, ◌==◌, ◌||◌, Bytes, codes, length,
}
use ehttp.Std.OrdMap
use ehttp.Std.Order.{Ord, nat_ord, bytes_ord}

abbrev pub Set : Type 0 → Type 0
Set K = List (K × Unit {0})

pub record HttpMethod : Type 0 where
  pub method_codes : Set ℕ
  pub method_names : Set Bytes

abbrev pub http_method : ℕ → Bytes → HttpMethod
http_method code name = record { method_codes = (code, tt) ∷ []; method_names = (name, tt) ∷ [] }

abbrev pub get_method : HttpMethod
get_method = http_method 1 (codes "GET")

abbrev pub post_method : HttpMethod
post_method = http_method 2 (codes "POST")

abbrev pub options_method : HttpMethod
options_method = http_method 3 (codes "OPTIONS")

-- `set.insert(first, last)`
insert_range : {K : Type 0} ⦃o : Ord K⦄ → Set K → Set K → Set K
insert_range [] s = s
insert_range ((k, _) ∷ ks) s = insert_range ks (OrdMap.insert k tt s)

-- `operator|`: what it makes of `*this`, to which it returns a reference.
unfoldable pub or_method : HttpMethod → HttpMethod → HttpMethod
unfolding insert_range
or_method this hm = record {
  method_codes = insert_range hm.method_codes this.method_codes;
  method_names = insert_range hm.method_names this.method_names;
}

-- `get_names()->count(name)`
unfoldable pub allows : HttpMethod → Bytes → Bool
allows m name = OrdMap.has name m.method_names

-- The loop of `get_names_str`, at round `i` of `size`.
names_loop : ℕ → ℕ → Set Bytes → Bytes
names_loop i size [] = []
names_loop i size ((name, _) ∷ names) =
    name ++ ((if i == size - 1 then [] else codes ", ") ++ names_loop (i + 1) size names)

unfoldable pub get_names_str : HttpMethod → Bytes
unfolding names_loop
get_names_str m = names_loop 0 (length m.method_names) m.method_names

-- The names with a comma and a space between them.
abbrev pub comma_separated : Set Bytes → Bytes
comma_separated [] = []
comma_separated ((name, _) ∷ []) = name
comma_separated ((name, _) ∷ n ∷ ns) = name ++ (codes ", " ++ comma_separated (n ∷ ns))

names_loop_lem :
    (i size : ℕ) (names : Set Bytes)
    → size ≡ i + length names
    → names_loop i size names ≡ comma_separated names
unfolding names_loop
names_loop_lem i size [] h = refl
names_loop_lem i size ((name, u) ∷ []) h =
    let last : (i == size - 1) ≡ true = ground arith in rw last (append-nil name)
names_loop_lem i size ((name, u) ∷ n ∷ ns) h =
    let more : (i == size - 1) ≡ false = ground arith in
    rw more (
      ap (λ (rest : Bytes). name ++ (codes ", " ++ rest))
        (names_loop_lem (i + 1) size (n ∷ ns) (omega arith)))

-- The names are printed in the order of the set, with a comma and a space between two of them and
-- nothing behind the last.
pub get_names_str-comma_separated :
    (m : HttpMethod) → get_names_str m ≡ comma_separated m.method_names
unfolding get_names_str
get_names_str-comma_separated m =
    names_loop_lem 0 (length m.method_names) m.method_names (omega arith)

or_swap : (a b c : Bool) → (a || (b || c)) ≡ ((b || a) || c)
or_swap true true c = refl
or_swap true false c = refl
or_swap false b c = ground arith

has-insert_range :
    (name : Bytes) (ks s : Set Bytes)
    → OrdMap.has name (insert_range ks s) ≡ (OrdMap.has name ks || OrdMap.has name s)
unfolding insert_range
has-insert_range name [] s = unfold OrdMap.find in refl
has-insert_range name ((k, u) ∷ ks) s =
    has-insert_range name ks (OrdMap.insert k tt s)
    ∙ rw (OrdMap.has-insert k name tt s, OrdMap.has_cons k name u ks)
        (or_swap (OrdMap.has name ks) _ _)

-- A method that was joined to another allows what either of them allows, and nothing else.
pub allows-or_method :
    (this hm : HttpMethod) (name : Bytes)
    → allows (or_method this hm) name ≡ (allows hm name || allows this name)
unfolding allows or_method
allows-or_method this hm name = has-insert_range name hm.method_names this.method_names
