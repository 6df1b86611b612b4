-- ===== src/Network/AddressBook/Table.antt =====
-- The containers of the address book (src/infra/network/addressbook.hpp): `std::map` from numbers as
-- a list in the order of the keys, `std::vector` and `std::set` of numbers as lists.
use mathlib.Core.Option
use znode.Common.{
  ℕ, zero, suc, ◌<◌, ◌≡◌, ◌≢◌, refl, ap, arith, Bool, false, ◌||◌, List, [], ◌∷◌, ◌++◌, length,
  take, Option, some, none, ltb, ◌==◌, if◌then◌else◌,
}

module _ {V : Type 0} where
  unfoldable pub lookup : ℕ → List (ℕ × V) → Option V
  lookup k [] = none
  lookup k ((j, v) ∷ m) = if j == k then some v else lookup k m

  -- `emplace` of a key that is not there.
  unfoldable pub put : ℕ → V → List (ℕ × V) → List (ℕ × V)
  put k v [] = (k, v) ∷ []
  put k v ((j, w) ∷ m) =
      let rest = put k v m in if ltb k j then (k, v) ∷ (j, w) ∷ m else (j, w) ∷ rest

  unfoldable pub erase : ℕ → List (ℕ × V) → List (ℕ × V)
  erase k [] = []
  erase k ((j, v) ∷ m) = let rest = erase k m in if j == k then rest else (j, v) ∷ rest

  -- A write through an iterator.
  unfoldable pub modify : ℕ → (V → V) → List (ℕ × V) → List (ℕ × V)
  modify k f [] = []
  modify k f ((j, v) ∷ m) = (j, if j == k then f v else v) ∷ modify k f m

  pub lookup-put :
      (k j : ℕ) (v : V) (m : List (ℕ × V))
      → lookup k m ≡ none
      → lookup j (put k v m) ≡ (if k == j then some v else lookup j m)
  unfolding lookup put
  lookup-put k j v [] h = refl
  lookup-put k j v ((i, w) ∷ m) h = ground (arith, lookup-put k j v m)

  pub lookup-erase :
      (k j : ℕ) (m : List (ℕ × V)) → lookup j (erase k m) ≡ (if k == j then none else lookup j m)
  unfolding lookup erase
  lookup-erase k j [] = ground arith
  lookup-erase k j ((i, w) ∷ m) = ground (arith, lookup-erase k j m)

  pub lookup-modify_self :
      (k : ℕ) (f : V → V) (m : List (ℕ × V)) (v : V)
      → lookup k m ≡ some v
      → lookup k (modify k f m) ≡ some (f v)
  unfolding lookup modify
  lookup-modify_self k f [] v h = cc
  lookup-modify_self k f ((i, w) ∷ m) v h = ground (arith, lookup-modify_self k f m v)

  pub lookup-modify_ne :
      (k j : ℕ) (f : V → V) (m : List (ℕ × V)) → k ≢ j → lookup j (modify k f m) ≡ lookup j m
  unfolding lookup modify
  lookup-modify_ne k j f [] h = refl
  lookup-modify_ne k j f ((i, w) ∷ m) h = ground (arith, lookup-modify_ne k j f m h)

  -- A reading that the write does not change.
  pub lookup-modify_same :
      {R : Type 0} (g : V → R) (k j : ℕ) (f : V → V) (m : List (ℕ × V))
      → ((v : V) → g (f v) ≡ g v)
      → Option.map g (lookup j (modify k f m)) ≡ Option.map g (lookup j m)
  unfolding lookup modify
  lookup-modify_same g k j f [] h = refl
  lookup-modify_same g k j f ((i, w) ∷ m) h = ground (arith, lookup-modify_same g k j f m h, h w)

module _ {A : Type 0} where
  unfoldable pub get_elem? : List A → ℕ → Option A
  get_elem? [] i = none
  get_elem? (x ∷ xs) zero = some x
  get_elem? (x ∷ xs) (suc i) = get_elem? xs i

  unfoldable pub set : List A → ℕ → A → List A
  set [] i v = []
  set (x ∷ xs) zero v = v ∷ xs
  set (x ∷ xs) (suc i) v = x ∷ set xs i v

  pub get_elem?-set :
      (xs : List A) (i j : ℕ) (v : A)
      → i < length xs
      → get_elem? (set xs i v) j ≡ (if i == j then some v else get_elem? xs j)
  unfolding get_elem? set
  get_elem?-set [] i j v h = absurd (omega arith)
  get_elem?-set (x ∷ xs) zero zero v h = refl
  get_elem?-set (x ∷ xs) zero (suc j) v h = ground arith
  get_elem?-set (x ∷ xs) (suc i) zero v h = ground arith
  get_elem?-set (x ∷ xs) (suc i) (suc j) v h = ground (arith, get_elem?-set xs i j v)

  pub length-set : (xs : List A) (i : ℕ) (v : A) → length (set xs i v) ≡ length xs
  unfolding set
  length-set [] i v = refl
  length-set (x ∷ xs) zero v = refl
  length-set (x ∷ xs) (suc i) v = ap suc (length-set xs i v)

  pub get_elem?-append :
      (xs : List A) (v : A) (i : ℕ)
      → get_elem? (xs ++ v ∷ []) i ≡ (if length xs == i then some v else get_elem? xs i)
  unfolding get_elem?
  get_elem?-append [] v zero = refl
  get_elem?-append [] v (suc i) = ground arith
  get_elem?-append (x ∷ xs) v zero = ground arith
  get_elem?-append (x ∷ xs) v (suc i) = ground (arith, get_elem?-append xs v i)

  pub get_elem?-take :
      (n : ℕ) (xs : List A) (i : ℕ)
      → get_elem? (take n xs) i ≡ (if ltb i n then get_elem? xs i else none)
  unfolding get_elem?
  get_elem?-take zero xs i = ground arith
  get_elem?-take (suc n) [] i = ground arith
  get_elem?-take (suc n) (x ∷ xs) zero = ground arith
  get_elem?-take (suc n) (x ∷ xs) (suc i) = ground (arith, get_elem?-take n xs i)

  pub get_elem?-below : (xs : List A) (i : ℕ) {v : A} → get_elem? xs i ≡ some v → i < length xs
  unfolding get_elem?
  get_elem?-below [] i h = cc
  get_elem?-below (x ∷ xs) zero h = omega arith
  get_elem?-below (x ∷ xs) (suc i) h = omega (arith, get_elem?-below xs i h)

unfoldable pub member : ℕ → List ℕ → Bool
member s [] = false
member s (x ∷ xs) = x == s || member s xs

unfoldable pub without : ℕ → List ℕ → List ℕ
without s [] = []
without s (x ∷ xs) = let rest = without s xs in if x == s then rest else x ∷ rest

pub member-without :
    (s t : ℕ) (xs : List ℕ) → member t (without s xs) ≡ (if s == t then false else member t xs)
unfolding member without
member-without s t [] = ground arith
member-without s t (x ∷ xs) = ground (arith, member-without s t xs)

-- `erase` of each of the keys.
unfoldable pub erase_each : {V : Type 0} → List ℕ → List (ℕ × V) → List (ℕ × V)
erase_each [] m = m
erase_each (k ∷ ks) m = erase_each ks (erase k m)

pub lookup-erase_each :
    {V : Type 0} (ks : List ℕ) (m : List (ℕ × V)) (j : ℕ)
    → lookup j (erase_each ks m) ≡ (if member j ks then none else lookup j m)
unfolding erase_each member
lookup-erase_each [] m j = refl
lookup-erase_each (k ∷ ks) m j =
    ground (arith, lookup-erase_each ks (erase k m) j, lookup-erase k j m)
