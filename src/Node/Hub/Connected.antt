-- ===== src/Node/Hub/Connected.antt =====
-- The map of connected addresses of `NodeHub` (src/node/network/node_hub.cpp).
use znode.Common.{
  ℕ, ◌≡◌, ◌⊎◌, inl, inr, refl, sym, ap, ◌∙◌, Bool, true, false, List, [], ◌∷◌, Option, some, none,
  ◌==◌, if◌then◌else◌, Bool-cases,
}
use znode.Common.Bytes.{bytes_eq_refl, bytes_eq→eq}
use znode.Network.Addresses.{Address, v4, v6}
use znode.Network.AddressBook.Defs.{address_eq, increment, decrease}
use znode.Node.Hub.{connections_of, count_address, release_address}

pub address_eq→eq : (a b : Address) → address_eq a b ≡ true → a ≡ b
unfolding address_eq
address_eq→eq (v4 a) (v4 b) h = ap v4 (bytes_eq→eq a b h)
address_eq→eq (v6 a) (v6 b) h = ap v6 (bytes_eq→eq a b h)
address_eq→eq (v4 a) (v6 b) h = cc
address_eq→eq (v6 a) (v4 b) h = cc

pub address_eq_refl : (a : Address) → address_eq a a ≡ true
unfolding address_eq
address_eq_refl (v4 a) = bytes_eq_refl a
address_eq_refl (v6 a) = bytes_eq_refl a

pub address_cases : (a b : Address) → (a ≡ b) ⊎ (address_eq a b ≡ false)
address_cases a b = elim (Bool-cases (address_eq a b)) [
  | inl e ↦ inl (address_eq→eq a b e)
  | inr e ↦ inr e
]

abbrev pub value_of : Option ℕ → ℕ
value_of none = 0
value_of (some n) = n

apart_from :
    (a b c : Address) → address_eq c a ≡ false → address_eq c b ≡ true → address_eq a b ≡ false
apart_from a b c differ same = elim (Bool-cases (address_eq a b)) [
  | inl e ↦
      let a_is_c : c ≡ a = address_eq→eq c b same ∙ sym (address_eq→eq a b e) in
      cc (differ, ap (λ x. address_eq x a) a_is_c, address_eq_refl a)
  | inr e ↦ e
]

address_eq_comm_false : (a c : Address) → address_eq c a ≡ false → address_eq a c ≡ false
address_eq_comm_false a c h = elim (address_cases a c) [
  | inl e ↦ cc (h, ap (λ x. address_eq c x) e, address_eq_refl c)
  | inr e ↦ e
]

unfoldable pub one_less : Option ℕ → Option ℕ
one_less none = none
one_less (some n) = if decrease n 1 == 0 then none else some (decrease n 1)

-- A map has a key once.
abbrev pub Keyed : List (Address × ℕ) → Type 0
Keyed [] = Unit {0}
Keyed ((a, n) ∷ m) = (connections_of a m ≡ none) × Keyed m

pub connections_of-count :
    (a b : Address) (m : List (Address × ℕ))
    → connections_of b (count_address a m) ≡ (
        if address_eq a b
        then some (increment (value_of (connections_of a m)))
        else connections_of b m)
unfolding connections_of count_address
connections_of-count a b [] = elim (Bool-cases (address_eq a b)) [
  | inl e ↦ rw (e) refl
  | inr e ↦ rw (e) refl
]
connections_of-count a b ((c, n) ∷ m) = elim (address_cases c a) [
  | inl e ↦
      rw (e, address_eq_refl a)
        (elim (Bool-cases (address_eq a b)) [ inl f ↦ rw (f) refl | inr f ↦ rw (f) refl ])
  | inr e ↦ elim (Bool-cases (address_eq c b)) [
    | inl f ↦ rw (e, f, apart_from a b c e f) refl
    | inr f ↦ rw (e, f, connections_of-count a b m) refl
  ]
]

pub connections_of-release :
    (a b : Address) (m : List (Address × ℕ))
    → Keyed m
    → connections_of b (release_address a m)
      ≡ (if address_eq a b then one_less (connections_of a m) else connections_of b m)
unfolding connections_of release_address one_less
connections_of-release a b [] k = elim (Bool-cases (address_eq a b)) [
  | inl e ↦ rw (e) refl
  | inr e ↦ rw (e) refl
]
connections_of-release a b ((c, n) ∷ m) k = elim (address_cases c a) [
  | inl e ↦
      let absent : connections_of a m ≡ none = ap (λ x. connections_of x m) (sym e) ∙ k.0 in
      rw (e, address_eq_refl a)
        (elim (Bool-cases (decrease n 1 == 0)) [
          | inl z ↦ elim (address_cases a b) [
            | inl f ↦ rw (z, ← f, address_eq_refl a) absent
            | inr f ↦ rw (z, f) refl
          ]
          | inr z ↦ elim (Bool-cases (address_eq a b)) [
            | inl f ↦ rw (z, f) refl
            | inr f ↦ rw (z, f) refl
          ]
        ])
  | inr e ↦ elim (Bool-cases (address_eq c b)) [
    | inl f ↦ rw (e, f, apart_from a b c e f) refl
    | inr f ↦ rw (e, f, connections_of-release a b m k.1) refl
  ]
]

if-same : {A : Type 0} (t : Bool) (x y : A) → t ≡ false → (if t then x else y) ≡ y
if-same t x y e = rw (e) refl

pub Keyed-count : (a : Address) (m : List (Address × ℕ)) → Keyed m → Keyed (count_address a m)
unfolding count_address connections_of
Keyed-count a [] k = (refl, tt)
Keyed-count a ((c, n) ∷ m) k = elim (Bool-cases (address_eq c a)) [
  | inl e ↦ rw (e) k
  | inr e ↦ rw (e) (
    connections_of-count a c m ∙ if-same (address_eq a c) _ _ (address_eq_comm_false a c e) ∙ k.0,
    Keyed-count a m k.1,
  )
]

pub Keyed-release : (a : Address) (m : List (Address × ℕ)) → Keyed m → Keyed (release_address a m)
unfolding release_address connections_of
Keyed-release a [] k = tt
Keyed-release a ((c, n) ∷ m) k = elim (Bool-cases (address_eq c a)) [
  | inl e ↦ elim (Bool-cases (decrease n 1 == 0)) [ inl z ↦ rw (e, z) k.1 | inr z ↦ rw (e, z) k ]
  | inr e ↦ rw (e) (
    connections_of-release a c m k.1
        ∙ if-same (address_eq a c) _ _ (address_eq_comm_false a c e)
        ∙ k.0,
    Keyed-release a m k.1,
  )
]
