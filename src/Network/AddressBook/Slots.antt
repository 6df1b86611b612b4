-- ===== src/Network/AddressBook/Slots.antt =====
-- `AddressBook::SlotAddress`, `compute_group`, `get_new_slot` and `get_tried_slot`
-- (src/infra/network/addressbook.hpp, addressbook.cpp). SipHash is OpenSSL's: `siphash` gives the eight
-- bytes of the digest of a text under a key.
use znode.Common.{
  ℕ, ◌+◌, ◌*◌, ◌%◌, List, ◌∷◌, ◌++◌, take, Option, some, none, Outcome, success, failure,
  if◌then◌else◌,
}
use znode.Serialize.Defs.{le_bytes, le_value}
use znode.Network.Addresses.{
  Address, IpLibrary, IpAddressType, ipv4, ipv6, get_type, to_bytes, is_routable, endpoint_bytes,
}
use znode.Network.Addresses.SubNet.{SubNetError, subnet_base_address}
use znode.Network.Addresses.Service.{NodeServiceInfo}

pub record Externals : Type 0 where
  pub lib : IpLibrary
  pub siphash : List ℕ → List ℕ → List ℕ

abbrev pub bucket_size : ℕ
bucket_size = 64

abbrev pub new_buckets_count : ℕ
new_buckets_count = 1024

abbrev pub tried_buckets_count : ℕ
tried_buckets_count = 256

abbrev pub max_new_bucket_references : ℕ
max_new_bucket_references = 8

abbrev pub new_buckets_per_source_group : ℕ
new_buckets_per_source_group = 64

abbrev pub tried_buckets_per_group : ℕ
tried_buckets_per_group = 8

-- `kIPv4SubnetGroupsPrefix` and `kIPv6SubnetGroupsPrefix`.
unfoldable pub groups_prefix : IpAddressType → ℕ
groups_prefix ipv4 = 16
groups_prefix ipv6 = 64

unfoldable pub address_type_value : IpAddressType → ℕ
address_type_value ipv4 = 1
address_type_value ipv6 = 4

pub record SlotAddress : Type 0 where
  pub x : ℕ
  pub y : ℕ

-- The union's `xy`: `y` holds the low half.
unfoldable pub xy : SlotAddress → ℕ
xy s = s.y + 65536 * s.x

-- The bytes of a base address, behind `Bytes{1, type}`.
unfoldable pub group_of : IpAddressType → Outcome SubNetError Address → Option (List ℕ)
unfolding address_type_value to_bytes
group_of type (success subnet) = some (1 ∷ address_type_value type ∷ to_bytes subnet)
group_of type (failure e) = none

module _ (ext : Externals) where
  -- `none` where the program aborts.
  unfoldable pub compute_group : Address → Option (List ℕ)
  unfolding group_of groups_prefix get_type
  compute_group address =
      if is_routable ext.lib address
      then group_of (get_type address)
          (subnet_base_address ext.lib address (groups_prefix (get_type address)))
      else none

  -- `load_little_u64(finalize())`.
  unfoldable pub digest : List ℕ → List ℕ → ℕ
  unfolding le_value
  digest key text = le_value (take 8 (ext.siphash key text))

  unfoldable pub new_slot : List ℕ → List ℕ → List ℕ → List ℕ → SlotAddress
  unfolding digest le_bytes
  new_slot key source_group service_group endpoint =
      let hash1 = digest key (service_group ++ source_group) in
      let hash2 = digest key (source_group ++ le_bytes 8 (hash1 % new_buckets_per_source_group)) in
      let x = hash2 % new_buckets_count in
      let hash3 = digest key (b'N' ∷ le_bytes 2 x ++ endpoint) in
      record { x = x; y = hash3 % bucket_size }

  unfoldable pub get_new_slot : List ℕ → NodeServiceInfo → Address → Option SlotAddress
  get_new_slot key service source = elim (compute_group source) [
    | none ↦ none
    | some source_group ↦ elim (compute_group service.service.endpoint.address) [
      | none ↦ none
      | some service_group ↦ some (
          new_slot key source_group service_group (endpoint_bytes ext.lib service.service.endpoint))
    ]
  ]

  unfoldable pub tried_slot : List ℕ → List ℕ → List ℕ → SlotAddress
  unfolding digest le_bytes
  tried_slot key service_group service_key =
      let hash1 = digest key service_key in
      let hash2 = digest key (service_group ++ le_bytes 8 (hash1 % tried_buckets_per_group)) in
      let x = hash2 % tried_buckets_count in
      let hash3 = digest key (b'T' ∷ le_bytes 2 x ++ service_key) in
      record { x = x; y = hash3 % bucket_size }

  unfoldable pub get_tried_slot : List ℕ → NodeServiceInfo → Option SlotAddress
  get_tried_slot key service = elim (compute_group service.service.endpoint.address) [
    | none ↦ none
    | some service_group ↦
        some (tried_slot key service_group (endpoint_bytes ext.lib service.service.endpoint))
  ]
