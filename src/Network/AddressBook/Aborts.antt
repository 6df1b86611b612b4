-- ===== src/Network/AddressBook/Aborts.antt =====
-- Where `AddressBook::insert_or_update` (src/infra/network/addressbook.cpp) ends the program: at the
-- assertion of `compute_group`.
use znode.Common.{
  ℕ, ◌+◌, ◌<◌, ◌≤◌, ◌≡◌, ◌↔◌, inl, inr, refl, arith, true, false, ◌&&◌, Option, some, none, List,
  if◌then◌else◌, Bool-cases, Option-cases,
}
use znode.Network.Addresses.{Address, is_routable}
use znode.Network.Addresses.Service.{NodeService, NodeServiceInfo}
use znode.Network.AddressBook.Slots.{Externals, compute_group, get_new_slot}
use znode.Network.AddressBook.Defs.{AddressBook, u32_mod, find_endpoint}
use znode.Network.AddressBook.Insert.{
  Moment, new_info, insert_entry, insert_or_update_impl, insert_or_update, address_same,
}
use znode.Network.AddressBook.Links.{Consistent, Nobody}
use znode.Network.AddressBook.Erase.{Ensures}
use znode.Network.AddressBook.Update.{Grows, insert_or_update_impl-Grows}

module _ (ext : Externals) where
  compute_group-none : (a : Address) → is_routable ext.lib a ≡ false → compute_group ext a ≡ none
  unfolding compute_group
  compute_group-none a h = rw (h) refl

  get_new_slot-none :
      (key : List ℕ) (info : NodeServiceInfo) (source : Address)
      → (is_routable ext.lib info.service.endpoint.address && is_routable ext.lib source) ≡ false
      → get_new_slot ext key info source ≡ none
  unfolding get_new_slot
  get_new_slot-none key info source h = elim (Bool-cases (is_routable ext.lib source)) [
    | inr e ↦ rw (compute_group-none source e, get_new_slot) refl
    | inl e ↦
        let unreachable : is_routable ext.lib info.service.endpoint.address ≡ false =
          grind (arith, h, e) in
        elim (Option-cases (compute_group ext source)) [
          | inl f ↦ rw (f, get_new_slot) refl
          | inr (g, f) ↦
              rw (f, get_new_slot, compute_group-none info.service.endpoint.address unreachable)
                refl
        ]
  ]

  insert_entry-none :
      (service : NodeService) (source : Address) (time_penalty : ℕ) (b : AddressBook)
      → (is_routable ext.lib service.endpoint.address && is_routable ext.lib source) ≡ false
      → insert_entry ext service source time_penalty b ≡ none
  unfolding insert_entry new_info
  insert_entry-none service source time_penalty b h =
      rw (get_new_slot-none b.key (new_info service source time_penalty) source h) refl

Ensures-total : {A : Type 0} (P : A → Type 0) (r : Option A) → Ensures r P → r ≡ none → ⊥
Ensures-total P none h e = h
Ensures-total P (some a) h e = cc e

-- On a consistent book with an identifier left, inserting a service whose endpoint is not in the
-- book aborts at an assertion exactly when its address or the source is not routable.
pub insert_or_update-aborts :
    (ext : Externals) (moment : Moment) (service : NodeService) (source : Address)
    (time_penalty : ℕ) (b : AddressBook)
    → Consistent ext.lib Nobody b
    → 1 ≤ b.last_used_id
    → b.last_used_id + 1 < u32_mod
    → find_endpoint service.endpoint b.entries ≡ none
    → (insert_or_update ext moment service source time_penalty b ≡ none)
      ↔ ((is_routable ext.lib service.endpoint.address && is_routable ext.lib source) ≡ false)
unfolding insert_or_update insert_or_update_impl
insert_or_update-aborts ext moment service source time_penalty b c real room unknown = (
  λ aborts.
      elim (Bool-cases
        (is_routable ext.lib service.endpoint.address && is_routable ext.lib source)) [
          | inr e ↦ e
          | inl e ↦
              let routed : is_routable ext.lib service.endpoint.address ≡ true = grind (arith, e) in
              let sourced : is_routable ext.lib source ≡ true = grind (arith, e) in
              absurd (
                Ensures-total (Grows ext b)
                  (insert_or_update_impl ext moment 0 service source time_penalty b)
                  (insert_or_update_impl-Grows ext moment b c service source sourced time_penalty 0
                    real room routed)
                  aborts)
        ],
  λ e.
      rw
        (
          unknown,
          insert_or_update_impl,
          insert_entry-none ext service source
              (if address_same source service.endpoint.address then 0 else time_penalty) b e,
        )
        refl,
)
