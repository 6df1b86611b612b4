-- ===== src/Network/Addresses/Service/Wire.antt =====
-- The bytes of a `NodeService` and a `NodeServiceInfo` (src/infra/network/addresses.cpp).
use znode.Common.{ℕ, ◌^◌, ◌<◌, ◌≡◌, refl, arith, List, ◌++◌}
use znode.Serialize.Defs.{le_bytes}
use znode.Serialize.Codec.{RoundTrips, Measures, seq-RoundTrips, seq-Measures}
use znode.Serialize.Members.{
  field-RoundTrips, field-Measures, via-RoundTrips, via-Measures, bind_int-RoundTrips,
  bind_int-Measures, bind_string-RoundTrips, bind_string-Measures, string_bytes, IsShort,
}
use znode.Network.Addresses.{IpLibrary, IsIpLibrary}
use znode.Network.Addresses.Wire.{
  IsWire, address_bytes, bind_address-RoundTrips, bind_address-Measures, IsWireEndpoint, wire_bytes,
  bind_endpoint-RoundTrips, bind_endpoint-Measures,
}
use znode.Network.Addresses.Service.{
  NodeService, NodeServiceInfo, to_u32, bind_time, bind_node_service, bind_version_node_service,
  bind_node_service_info,
}

abbrev pub IsU32 : ℕ → Type 0
IsU32 n = n < 256 ^ 4

small_time : (n : ℕ) → IsU32 n → to_u32 n < 256 ^ 4
unfolding to_u32
small_time n h = omega arith

same_time : (n : ℕ) → IsU32 n → to_u32 n ≡ n
unfolding to_u32
same_time n h = omega arith

unfoldable pub time_bytes : ℕ → List ℕ
time_bytes n = le_bytes 4 (to_u32 n)

bind_time-RoundTrips : RoundTrips bind_time IsU32 time_bytes (λ n old. n)
unfolding bind_time time_bytes
bind_time-RoundTrips =
    via-RoundTrips to_u32 (λ n. n) IsU32 small_time same_time (bind_int-RoundTrips 4)

bind_time-Measures : Measures bind_time IsU32 time_bytes
unfolding bind_time time_bytes
bind_time-Measures = via-Measures to_u32 (λ n. n) IsU32 small_time same_time (bind_int-Measures 4)

abbrev pub IsService : NodeService → Type 0
IsService n = (IsU32 n.time × (n.services < 256 ^ 8)) × IsWireEndpoint n.endpoint

abbrev pub IsVersionService : NodeService → Type 0
IsVersionService n = (n.services < 256 ^ 8) × IsWireEndpoint n.endpoint

abbrev pub IsInfo : NodeServiceInfo → Type 0
IsInfo i =
    (((((IsService i.service × IsShort i.user_agent) × IsWire i.origin)
          × IsU32 i.last_connection_attempt)
        × IsU32 i.last_connection_success)
      × IsU32 i.connection_attempts)
    × IsU32 i.random_pos

module _ (lib : IpLibrary) where
  unfoldable pub version_service_bytes : NodeService → List ℕ
  version_service_bytes n = le_bytes 8 n.services ++ wire_bytes lib n.endpoint

  unfoldable pub service_bytes : NodeService → List ℕ
  service_bytes n = (time_bytes n.time ++ le_bytes 8 n.services) ++ wire_bytes lib n.endpoint

  unfoldable pub info_bytes : NodeServiceInfo → List ℕ
  info_bytes i =
      (((((service_bytes i.service ++ string_bytes i.user_agent) ++ address_bytes lib i.origin)
            ++ time_bytes i.last_connection_attempt)
          ++ time_bytes i.last_connection_success)
        ++ le_bytes 4 i.connection_attempts)
      ++ le_bytes 4 i.random_pos

module _ (lib : IpLibrary) (good : IsIpLibrary lib) where
  pub bind_version_node_service-RoundTrips :
      RoundTrips
        (bind_version_node_service lib)
        IsVersionService
        (version_service_bytes lib)
        (λ n old. record n { time = old.time })
  unfolding bind_version_node_service version_service_bytes
  bind_version_node_service-RoundTrips =
      seq-RoundTrips
        (field-RoundTrips (λ i. i.services) (λ v i. record i { services = v }) (λ i. refl)
          (bind_int-RoundTrips 8))
        (field-RoundTrips (λ i. i.endpoint) (λ v i. record i { endpoint = v }) (λ i. refl)
          (bind_endpoint-RoundTrips lib good))

  pub bind_version_node_service-Measures :
      Measures (bind_version_node_service lib) IsVersionService (version_service_bytes lib)
  unfolding bind_version_node_service version_service_bytes
  bind_version_node_service-Measures =
      seq-Measures
        (field-Measures (λ i. i.services) (λ v i. record i { services = v }) (λ i. refl)
          (bind_int-Measures 8))
        (field-Measures (λ i. i.endpoint) (λ v i. record i { endpoint = v }) (λ i. refl)
          (bind_endpoint-Measures lib good))

  pub bind_node_service-RoundTrips :
      RoundTrips (bind_node_service lib) IsService (service_bytes lib) (λ n old. n)
  unfolding bind_node_service service_bytes
  bind_node_service-RoundTrips =
      seq-RoundTrips
        (seq-RoundTrips
          (field-RoundTrips (λ i. i.time) (λ v i. record i { time = v }) (λ i. refl)
            bind_time-RoundTrips)
          (field-RoundTrips (λ i. i.services) (λ v i. record i { services = v }) (λ i. refl)
            (bind_int-RoundTrips 8)))
        (field-RoundTrips (λ i. i.endpoint) (λ v i. record i { endpoint = v }) (λ i. refl)
          (bind_endpoint-RoundTrips lib good))

  pub bind_node_service-Measures : Measures (bind_node_service lib) IsService (service_bytes lib)
  unfolding bind_node_service service_bytes
  bind_node_service-Measures =
      seq-Measures
        (seq-Measures
          (field-Measures (λ i. i.time) (λ v i. record i { time = v }) (λ i. refl)
            bind_time-Measures)
          (field-Measures (λ i. i.services) (λ v i. record i { services = v }) (λ i. refl)
            (bind_int-Measures 8)))
        (field-Measures (λ i. i.endpoint) (λ v i. record i { endpoint = v }) (λ i. refl)
          (bind_endpoint-Measures lib good))

  -- With Boost mapping IPv4 addresses as documented, service information whose numbers fit their
  -- widths, with a short user agent, and whose addresses have the size of their version and, for
  -- IPv6, do not start with eight zero bytes, is written member by member where there is room, and
  -- reading from these bytes takes just them and gives all back but the references into the
  -- buckets, which stay as they were.
  pub bind_node_service_info-RoundTrips :
      RoundTrips
        (bind_node_service_info lib)
        IsInfo
        (info_bytes lib)
        (λ i old. record i { tried_ref = old.tried_ref; new_refs = old.new_refs })
  unfolding bind_node_service_info info_bytes
  bind_node_service_info-RoundTrips =
      seq-RoundTrips
        (seq-RoundTrips
          (seq-RoundTrips
            (seq-RoundTrips
              (seq-RoundTrips
                (seq-RoundTrips
                  (field-RoundTrips (λ i. i.service) (λ v i. record i { service = v }) (λ i. refl)
                    bind_node_service-RoundTrips)
                  (field-RoundTrips (λ i. i.user_agent) (λ v i. record i { user_agent = v })
                    (λ i. refl) bind_string-RoundTrips))
                (field-RoundTrips (λ i. i.origin) (λ v i. record i { origin = v }) (λ i. refl)
                  (bind_address-RoundTrips lib good)))
              (field-RoundTrips (λ i. i.last_connection_attempt)
                (λ v i. record i { last_connection_attempt = v }) (λ i. refl) bind_time-RoundTrips))
            (field-RoundTrips (λ i. i.last_connection_success)
              (λ v i. record i { last_connection_success = v }) (λ i. refl) bind_time-RoundTrips))
          (field-RoundTrips (λ i. i.connection_attempts)
            (λ v i. record i { connection_attempts = v }) (λ i. refl) (bind_int-RoundTrips 4)))
        (field-RoundTrips (λ i. i.random_pos) (λ v i. record i { random_pos = v }) (λ i. refl)
          (bind_int-RoundTrips 4))

  pub bind_node_service_info-Measures :
      Measures (bind_node_service_info lib) IsInfo (info_bytes lib)
  unfolding bind_node_service_info info_bytes
  bind_node_service_info-Measures =
      seq-Measures
        (seq-Measures
          (seq-Measures
            (seq-Measures
              (seq-Measures
                (seq-Measures
                  (field-Measures (λ i. i.service) (λ v i. record i { service = v }) (λ i. refl)
                    bind_node_service-Measures)
                  (field-Measures (λ i. i.user_agent) (λ v i. record i { user_agent = v })
                    (λ i. refl) bind_string-Measures))
                (field-Measures (λ i. i.origin) (λ v i. record i { origin = v }) (λ i. refl)
                  (bind_address-Measures lib good)))
              (field-Measures (λ i. i.last_connection_attempt)
                (λ v i. record i { last_connection_attempt = v }) (λ i. refl) bind_time-Measures))
            (field-Measures (λ i. i.last_connection_success)
              (λ v i. record i { last_connection_success = v }) (λ i. refl) bind_time-Measures))
          (field-Measures (λ i. i.connection_attempts) (λ v i. record i { connection_attempts = v })
            (λ i. refl) (bind_int-Measures 4)))
        (field-Measures (λ i. i.random_pos) (λ v i. record i { random_pos = v }) (λ i. refl)
          (bind_int-Measures 4))
