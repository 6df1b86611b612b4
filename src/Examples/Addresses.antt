-- ===== src/Examples/Addresses.antt =====
-- Addresses and subnets (src/infra/network/addresses.cpp), with Boost's calls as its documentation
-- has them.
use znode.Common.{
  ℕ, ◌+◌, ◌*◌, ◌≡◌, ◌↔◌, ◌≤◌, ◌<◌, ◌^◌, refl, arith, Bool, true, List, [], ◌∷◌, ◌++◌, length,
  replicate, some, success, get_or, ◌==◌,
}
use znode.Common.Bytes.{bytes_eq}
use znode.Serialize.Codec.{RoundTrips}
use znode.Network.Addresses.{Address, v4, v6, IpLibrary, IsIpLibrary, is_valid, is_any, is_v4}
use znode.Network.Addresses.Wire.{IsWire}
use znode.Network.Addresses.Service.{NodeService, bind_node_service_info}
use znode.Network.Addresses.Service.Wire.{IsInfo, info_bytes, bind_node_service_info-RoundTrips}
use znode.Network.Addresses.SubNet.{
  IpSubNet, is_valid_subnet, contains, calculate_subnet_base_address,
}
use znode.Network.Addresses.SubNet.Contains.{IsAddress, contains-calculate_subnet_base_address}
use znode.Serialize.Defs.{serialize, ser_compact_sizeof}
use znode.Serialize.Moves.{put}
use znode.Examples.Payloads.{stream_with}
use znode.Network.Header.{or_default}
use znode.Network.Protocol.{addr}
use znode.Network.Definitions.{definition_of}
use znode.Network.Payloads.Version.{IsVersion, bind_version, version_bytes, bind_version-RoundTrips}
use znode.Network.Payloads.Addr.{bind_addr, bind_addr_bounded}

abbrev loopback : Address → Bool
loopback (v4 bytes) = get_or bytes 0 0 == 127
loopback (v6 bytes) = bytes_eq bytes (replicate 15 0 ++ (1 ∷ []))

abbrev multicast : Address → Bool
multicast (v4 bytes) = get_or bytes 0 0 == 224
multicast (v6 bytes) = get_or bytes 0 0 == 255

abbrev unspecified : Address → Bool
unspecified (v4 bytes) = bytes_eq bytes (replicate 4 0)
unspecified (v6 bytes) = bytes_eq bytes (replicate 16 0)

abbrev number_of : List ℕ → ℕ
number_of bytes =
    ((get_or bytes 0 0 * 256 + get_or bytes 1 0) * 256 + get_or bytes 2 0) * 256 + get_or bytes 3 0

abbrev pub boost : IpLibrary
boost = record {
  is_loopback_address = loopback;
  is_multicast_address = multicast;
  is_unspecified_address = unspecified;
  any_v4 = replicate 4 0;
  any_v6 = replicate 16 0;
  v4_mapped = λ bytes. replicate 10 0 ++ (0xff ∷ 0xff ∷ bytes);
  to_uint = number_of;
}

boost-IsIpLibrary : IsIpLibrary boost
boost-IsIpLibrary = record { mapped = λ bytes h. refl; uint = λ a b c d. refl }

bind_node_service_info-RoundTrips_example :
    RoundTrips
      (bind_node_service_info boost)
      IsInfo
      (info_bytes boost)
      (λ i old. record i { tried_ref = old.tried_ref; new_refs = old.new_refs })
bind_node_service_info-RoundTrips_example =
    bind_node_service_info-RoundTrips boost boost-IsIpLibrary

-- 10.1.0.0/16 and 10.1.2.3.
abbrev subnet : IpSubNet
subnet = record { base_address = v4 (10 ∷ 1 ∷ 0 ∷ 0 ∷ []); prefix_length = 16 }

abbrev member : Address
member = v4 (10 ∷ 1 ∷ 2 ∷ 3 ∷ [])

contains_example :
    (contains boost subnet member ≡ true)
    ↔ (calculate_subnet_base_address boost member 16 ≡ success subnet.base_address)
unfolding IsAddress is_valid_subnet is_valid is_any bytes_eq is_v4
contains_example =
    contains-calculate_subnet_base_address boost boost-IsIpLibrary subnet member
      (refl, (omega arith, (omega arith, (omega arith, (omega arith, tt)))))
      (refl, (omega arith, (omega arith, (omega arith, (omega arith, tt))))) refl refl refl

bind_version-RoundTrips_example :
    RoundTrips
      (bind_version boost)
      (λ p. IsVersion p × (p.timestamp < 2 ^ 63) × (p.last_block_height < 2 ^ 31))
      (version_bytes boost)
      (λ p old. record p {
        recipient_service = record p.recipient_service { time = old.recipient_service.time };
        sender_service = record p.sender_service { time = old.sender_service.time };
      })
bind_version-RoundTrips_example = bind_version-RoundTrips boost boost-IsIpLibrary

abbrev one_service : List NodeService
one_service =
    record {
      time = 1700000000;
      services = 1;
      endpoint = record { address = v4 (203 ∷ 0 ∷ 112 ∷ 7 ∷ []); port = 9033 };
    }
    ∷ []

bind_addr_bounded_example :
    (bytes : List ℕ) × (bind_addr boost one_service serialize (stream_with [])
      ≡ (success tt, one_service, put (stream_with []) bytes))
    × ((definition_of addr).vector_item_size ≡ some 30)
    × (length bytes ≡ ser_compact_sizeof 1 + 1 * 30)
    × (or_default (definition_of addr).min_payload_length 0 ≤ length bytes)
    × (length bytes ≤ or_default (definition_of addr).max_payload_length 0)
unfolding IsWire definition_of
bind_addr_bounded_example =
    bind_addr_bounded boost boost-IsIpLibrary one_service (stream_with [])
      (omega arith, omega arith, ((((omega arith, omega arith), (refl, omega arith))), tt))
      (omega arith)
