-- ===== src/Network/AddressBook/Links.antt =====
-- How the entries of an address book (src/infra/network/addressbook.hpp) and its buckets refer to one
-- another, and what an entry's change does to it.
use mathlib.Core.Option
use znode.Common.{
  ℕ, ◌<◌, ◌≤◌, ◌≡◌, ◌≢◌, ◌↔◌, ◌⊎◌, inl, inr, arith, Bool, true, false, not, ◌||◌, Option, some,
  none, length, ◌==◌, Bool-cases, ==_iff,
}
use znode.Network.Addresses.{IpLibrary, is_routable}
use znode.Network.Addresses.Service.{NodeServiceInfo}
use znode.Network.AddressBook.Table.{lookup, member, get_elem?}
use znode.Network.AddressBook.Defs.{AddressBook, is_empty, has_value, at_position}

-- An entry but for its place in the random order.
unfoldable pub still : AddressBook → ℕ → Option NodeServiceInfo
still b id = Option.map (at_position 0) (lookup id b.entries)

unfoldable pub position : AddressBook → ℕ → Option ℕ
position b id = Option.map (λ info. info.random_pos) (lookup id b.entries)

abbrev pub refers : Option NodeServiceInfo → ℕ → Bool
refers none slot = false
refers (some info) slot = member slot info.new_refs

abbrev pub tried_at : Option NodeServiceInfo → Option ℕ
tried_at none = none
tried_at (some info) = info.tried_ref

abbrev pub is_placed : NodeServiceInfo → Bool
is_placed info = not (is_empty info.new_refs) || has_value info.tried_ref

-- The addresses of an entry can be reached from outside, so they have a group.
abbrev pub IsRouted : IpLibrary → NodeServiceInfo → Type 0
IsRouted lib info =
    (is_routable lib info.service.endpoint.address ≡ true) × (is_routable lib info.origin ≡ true)

-- An entry is routed, in new buckets or in a tried one, not in both, and somewhere unless exempt.
abbrev pub Fits : IpLibrary → (ℕ → Type 0) → ℕ → ℕ → NodeServiceInfo → Type 0
Fits lib X last id info =
    IsRouted lib info
    × ((is_empty info.new_refs ≡ true) ⊎ (info.tried_ref ≡ none))
    × ((is_placed info ≡ true) ⊎ X id)
    × (1 ≤ id)
    × (id < last)

abbrev pub Fitting : IpLibrary → (ℕ → Type 0) → ℕ → ℕ → Option NodeServiceInfo → Type 0
Fitting lib X last id none = Unit {0}
Fitting lib X last id (some info) = Fits lib X last id info

-- The slots of the new and the tried buckets name just the entries that refer to them.
pub record Linked (lib : IpLibrary) (S : ℕ → Option NodeServiceInfo) (N T : ℕ → Option ℕ) (last : ℕ)
    (X : ℕ → Type 0) : Type 0 where
  pub new_iff : (slot id : ℕ) → (N slot ≡ some id) ↔ (refers (S id) slot ≡ true)
  pub tried_iff : (slot id : ℕ) → (T slot ≡ some id) ↔ (tried_at (S id) ≡ some slot)
  pub fits : (id : ℕ) (info : NodeServiceInfo) → S id ≡ some info → Fits lib X last id info

-- One entry changes to `v`, and the buckets with it.
pub record Changes (lib : IpLibrary) (S : ℕ → Option NodeServiceInfo) (N T : ℕ → Option ℕ)
    (last : ℕ) (X : ℕ → Type 0) (id : ℕ) (v : Option NodeServiceInfo)
    (S' : ℕ → Option NodeServiceInfo) (N' T' : ℕ → Option ℕ) (last' : ℕ) (X' : ℕ → Type 0)
    : Type 0 where
  pub own : S' id ≡ v
  pub others : (j : ℕ) → id ≢ j → S' j ≡ S j
  pub new_own : (slot : ℕ) → (N' slot ≡ some id) ↔ (refers v slot ≡ true)
  pub new_others : (slot j : ℕ) → id ≢ j → (N' slot ≡ some j) ↔ (N slot ≡ some j)
  pub tried_own : (slot : ℕ) → (T' slot ≡ some id) ↔ (tried_at v ≡ some slot)
  pub tried_others : (slot j : ℕ) → id ≢ j → (T' slot ≡ some j) ↔ (T slot ≡ some j)
  pub fits : Fitting lib X' last' id v
  pub exempt : (j : ℕ) → id ≢ j → X j → X' j
  pub grows : last ≤ last'

pub ℕ-cases : (a b : ℕ) → (a ≡ b) ⊎ (a ≢ b)
ℕ-cases a b = elim (Bool-cases (a == b)) [
  | inl e ↦ inl ((==_iff a b).0 e)
  | inr e ↦ inr (λ h. cc (e, (==_iff a b).1 h))
]

unwrap :
    (lib : IpLibrary) (X : ℕ → Type 0) (last id : ℕ) (info : NodeServiceInfo)
    (v : Option NodeServiceInfo)
    → v ≡ some info
    → Fitting lib X last id v
    → Fits lib X last id info
unwrap lib X last id info v e f = rw e at f

module _ {lib : IpLibrary} {S S' : ℕ → Option NodeServiceInfo} {N T N' T' : ℕ → Option ℕ}
    {last last' : ℕ} {X X' : ℕ → Type 0} {id : ℕ} {v : Option NodeServiceInfo}
    (c : Changes lib S N T last X id v S' N' T' last' X') (l : Linked lib S N T last X) where
  fits' : (j : ℕ) (info : NodeServiceInfo) → S' j ≡ some info → Fits lib X' last' j info
  fits' j info h = elim (ℕ-cases id j) [
    | inl e ↦
        let is_v : v ≡ some info = cc (c.own, h, e) in
        rw (← e) (unwrap lib X' last' id info v is_v c.fits)
    | inr e ↦
        let f = l.fits j info (cc (c.others j e, h)) in
        (
          f.0,
          f.1,
          elim f.2 [ inl p ↦ inl p | inr p ↦ inr (c.exempt j e p) ],
          f.3,
          omega (arith, f.4, c.grows),
        )
  ]

  pub Changes-Linked : Linked lib S' N' T' last' X'
  Changes-Linked = record {
    new_iff = λ slot j. elim (ℕ-cases id j) [
      | inl e ↦ rw (← e, c.own) (c.new_own slot)
      | inr e ↦ rw (c.others j e) (
        λ h. (l.new_iff slot j).0 ((c.new_others slot j e).0 h),
        λ h. (c.new_others slot j e).1 ((l.new_iff slot j).1 h),
      )
    ];
    tried_iff = λ slot j. elim (ℕ-cases id j) [
      | inl e ↦ rw (← e, c.own) (c.tried_own slot)
      | inr e ↦ rw (c.others j e) (
        λ h. (l.tried_iff slot j).0 ((c.tried_others slot j e).0 h),
        λ h. (c.tried_others slot j e).1 ((l.tried_iff slot j).1 h),
      )
    ];
    fits = fits';
  }

abbrev pub Nobody : ℕ → Type 0
Nobody id = ⊥

-- The place in the random order is where the identifier stands.
abbrev pub Ordered : AddressBook → Type 0
Ordered b = (i id : ℕ) → (get_elem? b.randomly_ordered_ids i ≡ some id) ↔ (position b id ≡ some i)

pub record Consistent (lib : IpLibrary) (X : ℕ → Type 0) (b : AddressBook) : Type 0 where
  pub linked :
      Linked lib
        (still b)
        (λ slot. lookup slot b.new_buckets)
        (λ slot. lookup slot b.tried_buckets)
        b.last_used_id
        X
  pub ordered : Ordered b
  pub few : length b.randomly_ordered_ids < b.last_used_id
