-- ===== src/Network/AddressBook/Select.antt =====
-- `AddressBook::get_random_services` (src/infra/network/addressbook.cpp). A draw of `randomize` is a
-- parameter, by its number in the call.
pub mod Picks
use znode.Common.{
  ℕ, zero, suc, ◌+◌, ◌-◌, ◌*◌, ◌/◌, min, Bool, true, false, not, ◌&&◌, ◌||◌, List, [], ◌∷◌, ◌++◌,
  length, Option, some, none, ltb, ◌==◌, if◌then◌else◌,
}
use znode.Network.Addresses.{IpAddressType, ipv4, ipv6, IpEndpoint, get_type}
use znode.Network.Addresses.Service.{NodeService, NodeServiceInfo, is_bad}
use znode.Network.AddressBook.Table.{lookup, get_elem?}
use znode.Network.AddressBook.Defs.{AddressBook, ◌>>=◌, swap_randomly_ordered_ids}
use znode.Network.AddressBook.Insert.{Moment, is_known}

unfoldable pub type_eq : IpAddressType → IpAddressType → Bool
type_eq ipv4 ipv4 = true
type_eq ipv6 ipv6 = true
type_eq ipv4 ipv6 = false
type_eq ipv6 ipv4 = false

-- `not type.has_value() or get_type() == type.value()`.
unfoldable pub is_wanted : Option IpAddressType → NodeServiceInfo → Bool
unfolding type_eq get_type
is_wanted none info = true
is_wanted (some type) info = type_eq (get_type info.service.endpoint.address) type

unfoldable pub limit : ℕ → ℕ → ℕ → ℕ
limit size max_count max_percentage =
    let count = if ltb 0 max_percentage then size * max_percentage / 100 else size in
    if ltb 0 max_count then min count max_count else count

module _ (moment : Moment) (type : Option IpAddressType) (count : ℕ) where
  -- The entry in place `i`, after a random one of those behind was put there.
  unfoldable pub pick : ℕ → AddressBook → Option (NodeServiceInfo × AddressBook)
  pick i b =
      swap_randomly_ordered_ids i (moment.randomize i 0 (length b.randomly_ordered_ids - i - 1) + i)
        b
      >>= λ b1. get_elem? b1.randomly_ordered_ids i >>= λ id.
          lookup id b1.entries >>= λ info. some (info, b1)

  -- The three tests that skip an entry.
  unfoldable pub is_taken : NodeServiceInfo → List IpEndpoint → Bool
  unfolding is_wanted is_known
  is_taken info selected =
      is_wanted type info
      && (not (is_bad info moment.now) && not (is_known info.service.endpoint selected))

  -- The loop, a round for each place that is left.
  unfoldable pub pick_each :
      ℕ
      → ℕ
      → List NodeService
      → List IpEndpoint
      → AddressBook
      → Option (List NodeService × AddressBook)
  pick_each zero i ret selected b = some (ret, b)
  pick_each (suc rounds) i ret selected b = elim (ltb (length ret) count) [
    | false ↦ some (ret, b)
    | true ↦ pick i b >>= λ r. elim (is_taken r.0 selected) [
      | true ↦
          pick_each rounds (suc i) (ret ++ r.0.service ∷ []) (r.0.service.endpoint ∷ selected) r.1
      | false ↦ pick_each rounds (suc i) ret selected r.1
    ]
  ]

unfoldable pub get_random_services :
    Moment → ℕ → ℕ → Option IpAddressType → AddressBook → Option (List NodeService × AddressBook)
unfolding limit
get_random_services moment max_count max_percentage type b =
    if length b.randomly_ordered_ids == 0
    then some ([], b)
    else pick_each moment type (limit (length b.randomly_ordered_ids) max_count max_percentage)
        (length b.randomly_ordered_ids) 0 [] [] b
