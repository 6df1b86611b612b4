-- ===== src/Network/Payloads/Addr.antt =====
-- `MsgAddrPayload` and `MsgPingPongPayload` (src/infra/network/payloads.cpp).
use znode.Common.{
  success, ◌+◌, ℕ, ◌*◌, ◌≤◌, ◌≡◌, arith, List, [], ◌∷◌, ◌++◌, refl, length, replicate,
  length-append, All, some,
}
use znode.Serialize.Moves.{put, Fits}
use znode.Serialize.Defs.{
  SDataStream, compute_size, serialize, deserialize, ser_compact_sizeof, le_bytes,
}
use znode.Serialize.LittleEndian.{length-le_bytes}
use znode.Serialize.Bind.{Bind, bind_int}
use znode.Serialize.Codec.{RoundTrips}
use znode.Serialize.Compact.{compact_bytes, length-compact_bytes}
use znode.Serialize.Vector.{
  write_vector, read_vector, encode_each, encode_vector, write_vector_lem, read_vector_lem,
}
use znode.Network.Addresses.{v4, IpLibrary, IsIpLibrary}
use znode.Network.Addresses.Wire.{wire_bytes, length-wire_bytes}
use znode.Network.Addresses.Service.{NodeService, to_u32, bind_node_service}
use znode.Network.Addresses.Service.Wire.{
  IsService, service_bytes, time_bytes, bind_node_service-RoundTrips,
}
use znode.Network.Protocol.{addr}
use znode.Network.Definitions.{definition_of}
use znode.Network.Header.{or_default}

abbrev pub max_addr_items : ℕ
max_addr_items = 1000

-- `NodeService::kTimeInit`.
abbrev time_init : ℕ
time_init = 100000000

-- A value-initialised service, with which `resize` fills.
abbrev pub fresh_service : NodeService
fresh_service = record {
  time = time_init;
  services = 0;
  endpoint = record { address = v4 (replicate 4 0); port = 0 };
}

-- The nonce is the payload.
unfoldable pub bind_ping_pong : Bind ℕ
bind_ping_pong = bind_int 8

module _ (lib : IpLibrary) where
  -- The payload is its `identifiers_`.
  unfoldable pub bind_addr : Bind (List NodeService)
  unfolding bind_node_service
  bind_addr items serialize s = write_vector max_addr_items (bind_node_service lib) items s
  bind_addr items compute_size s =
      read_vector max_addr_items (bind_node_service lib) fresh_service items s
  bind_addr items deserialize s =
      read_vector max_addr_items (bind_node_service lib) fresh_service items s

abbrev pub IsAddr : List NodeService → Type 0
IsAddr items = (1 ≤ length items) × (length items ≤ max_addr_items) × All IsService items

module _ (lib : IpLibrary) (good : IsIpLibrary lib) where
  pub bind_addr-RoundTrips :
      RoundTrips (bind_addr lib) IsAddr (encode_vector (service_bytes lib)) (λ items old. items)
  unfolding bind_addr
  bind_addr-RoundTrips = record {
    writes = λ items s (lo, hi, h) fits.
        write_vector_lem (bind_node_service-RoundTrips lib good) max_addr_items items s lo hi
          (omega arith) h fits;
    reads = λ items old s rest (lo, hi, h) v e.
        read_vector_lem (bind_node_service-RoundTrips lib good) max_addr_items fresh_service items
          old s rest lo hi (omega arith) h v e;
  }

  -- `kAddrItemSize`.
  length-service_bytes : (n : NodeService) → IsService n → length (service_bytes lib n) ≡ 30
  unfolding service_bytes time_bytes
  length-service_bytes n h = omega (
    arith,
    length-append (time_bytes n.time ++ le_bytes 8 n.services) (wire_bytes lib n.endpoint),
    length-append (time_bytes n.time) (le_bytes 8 n.services),
    length-le_bytes 4 (to_u32 n.time),
    length-le_bytes 8 n.services,
    length-wire_bytes lib good n.endpoint h.1,
  )

  length-encode_each :
      (items : List NodeService)
      → All IsService items
      → length (encode_each (service_bytes lib) items) ≡ length items * 30
  unfolding encode_each
  length-encode_each [] h = omega arith
  length-encode_each (n ∷ ns) h = omega (
    arith,
    length-append (service_bytes lib n) (encode_each (service_bytes lib) ns),
    length-service_bytes n h.0,
    length-encode_each ns h.1,
  )

  -- A thousand items at most are counted in one byte or three.
  compact_bounds : (n : ℕ) → n ≤ 1000 → (1 ≤ ser_compact_sizeof n) × (ser_compact_sizeof n ≤ 3)
  unfolding ser_compact_sizeof
  compact_bounds n h = ground arith

  -- The length of the wire form.
  length-encode_vector :
      (items : List NodeService)
      → IsAddr items
      → (length (encode_vector (service_bytes lib) items)
          ≡ ser_compact_sizeof (length items) + length items * 30)
        × (or_default (definition_of addr).min_payload_length 0
            ≤ length (encode_vector (service_bytes lib) items))
        × (length (encode_vector (service_bytes lib) items)
            ≤ or_default (definition_of addr).max_payload_length 0)
  unfolding definition_of encode_vector ser_compact_sizeof
  length-encode_vector items (lo, hi, h) =
      let n =
        length-append (compact_bytes (length items)) (encode_each (service_bytes lib) items) in
      let size = length-compact_bytes (length items) in
      let few = compact_bounds (length items) hi in
      let each = length-encode_each items h in
      (
        omega (arith, n, size, each),
        omega (arith, n, size, each, few.0, few.1),
        omega (arith, n, size, each, few.0, few.1),
      )

  -- With Boost mapping IPv4 addresses as documented, serializing 1 to 1000 well-formed services on
  -- a stream with room for the longest payload of addr succeeds and appends bytes whose number is
  -- that of their compact count and 30 for each service, the item size of the definition of addr,
  -- and within the bounds of its payload length.
  pub bind_addr_bounded :
      (items : List NodeService) (s : SDataStream)
      → IsAddr items
      → Fits s (or_default (definition_of addr).max_payload_length 0)
      → (bytes : List ℕ) × (bind_addr lib items serialize s ≡ (success tt, items, put s bytes))
        × ((definition_of addr).vector_item_size ≡ some 30)
        × (length bytes ≡ ser_compact_sizeof (length items) + length items * 30)
        × (or_default (definition_of addr).min_payload_length 0 ≤ length bytes)
        × (length bytes ≤ or_default (definition_of addr).max_payload_length 0)
  unfolding definition_of
  bind_addr_bounded items s ok room =
      let (exact, lo, hi) = length-encode_vector items ok in
      (
        encode_vector (service_bytes lib) items,
        bind_addr-RoundTrips.writes items s ok (omega (arith, room, hi)),
        refl,
        exact,
        lo,
        hi,
      )
