-- ===== src/Network/AddressBook/Groups.antt =====
-- Where the slots of an address book lie: `compute_group`, `get_new_slot` and `get_tried_slot`
-- (src/infra/network/addressbook.cpp) for addresses that can be reached from outside.
use znode.Common.{ℕ, ◌<◌, ◌≡◌, inl, inr, refl, arith, true, List, some, Bool-cases}
use znode.Network.Addresses.{
  Address, v4, v6, IpLibrary, get_type, is_valid, is_routable, endpoint_bytes,
}
use znode.Network.Addresses.SubNet.{subnet_base_address, calculate_subnet_base_address}
use znode.Network.Addresses.Service.{NodeServiceInfo}
use znode.Network.AddressBook.Slots.{
  Externals, SlotAddress, new_buckets_count, tried_buckets_count, bucket_size, group_of,
  groups_prefix, compute_group, new_slot, get_new_slot, tried_slot, get_tried_slot,
}

abbrev pub IsSlot : ℕ → SlotAddress → Type 0
IsSlot count s = (s.x < count) × (s.y < bucket_size)

is_routable-valid :
    (lib : IpLibrary) (a : Address) → is_routable lib a ≡ true → is_valid lib a ≡ true
unfolding is_routable
is_routable-valid lib a h = elim (Bool-cases (is_valid lib a)) [
  | inl e ↦ e
  | inr e ↦ cc (rw e at h)
]

module _ (ext : Externals) where
  grouped :
      (a : Address)
      → is_valid ext.lib a ≡ true
      → (g : List ℕ) × (group_of
            (get_type a)
            (subnet_base_address ext.lib a (groups_prefix (get_type a)))
          ≡ some g)
  unfolding group_of subnet_base_address calculate_subnet_base_address groups_prefix get_type
  grouped (v4 bytes) h = rw (h) (_, refl)
  grouped (v6 bytes) h = rw (h) (_, refl)

  compute_group-some :
      (a : Address) → is_routable ext.lib a ≡ true → (g : List ℕ) × (compute_group ext a ≡ some g)
  unfolding compute_group
  compute_group-some a h = let (g, e) = grouped a (is_routable-valid ext.lib a h) in (g, rw (h) e)

  new_slot-IsSlot : (key g h e : List ℕ) → IsSlot new_buckets_count (new_slot ext key g h e)
  unfolding new_slot
  new_slot-IsSlot key g h e = (omega arith, omega arith)

  tried_slot-IsSlot : (key h e : List ℕ) → IsSlot tried_buckets_count (tried_slot ext key h e)
  unfolding tried_slot
  tried_slot-IsSlot key h e = (omega arith, omega arith)

  pub get_new_slot-IsSlot :
      (key : List ℕ) (info : NodeServiceInfo) (source : Address)
      → is_routable ext.lib info.service.endpoint.address ≡ true
      → is_routable ext.lib source ≡ true
      → (s : SlotAddress) × (get_new_slot ext key info source ≡ some s) × IsSlot new_buckets_count s
  unfolding get_new_slot
  get_new_slot-IsSlot key info source service_routed source_routed =
      let (g, e) = compute_group-some source source_routed in
      let (h, f) = compute_group-some info.service.endpoint.address service_routed in
      (
        new_slot ext key g h (endpoint_bytes ext.lib info.service.endpoint),
        rw (e, f, get_new_slot) refl,
        new_slot-IsSlot key g h _,
      )

  pub get_tried_slot-IsSlot :
      (key : List ℕ) (info : NodeServiceInfo)
      → is_routable ext.lib info.service.endpoint.address ≡ true
      → (s : SlotAddress) × (get_tried_slot ext key info ≡ some s) × IsSlot tried_buckets_count s
  unfolding get_tried_slot
  get_tried_slot-IsSlot key info service_routed =
      let (h, f) = compute_group-some info.service.endpoint.address service_routed in
      (
        tried_slot ext key h (endpoint_bytes ext.lib info.service.endpoint),
        rw (f, get_tried_slot) refl,
        tried_slot-IsSlot key h _,
      )
