-- ===== src/Network/Payloads/Version.antt =====
-- `MsgVersionPayload` (src/infra/network/payloads.hpp and payloads.cpp). A signed integer is its bit
-- pattern: it is negative from the half of its range on.
use znode.Common.{ℕ, ◌^◌, ◌<◌, refl, Bool, List, ◌++◌, failure, if◌then◌else◌, leb, leb-false}
use znode.Errors.{net, NetError}
use znode.Stream.Defs.{Status}
use znode.Serialize.Defs.{SDataStream, Action, compute_size, serialize, deserialize, le_bytes}
use znode.Serialize.Bind.{Bind, bind_int, bind_bool, bind_string, field, ◌⨾◌}
use znode.Serialize.Codec.{RoundTrips, Measures, seq-RoundTrips, seq-Measures}
use znode.Serialize.Members.{
  field-RoundTrips, field-Measures, bind_int-RoundTrips, bind_int-Measures, bind_bool-RoundTrips,
  bind_bool-Measures, bool_bytes, bind_string-RoundTrips, bind_string-Measures, string_bytes,
  IsShort,
}
use znode.Network.Addresses.{IpLibrary, IsIpLibrary}
use znode.Network.Addresses.Service.{NodeService, bind_version_node_service}
use znode.Network.Addresses.Service.Wire.{
  IsU32, IsVersionService, version_service_bytes, bind_version_node_service-RoundTrips,
  bind_version_node_service-Measures,
}

pub record Version : Type 0 where
  pub protocol_version : ℕ
  pub services : ℕ
  pub timestamp : ℕ
  pub recipient_service : NodeService
  pub sender_service : NodeService
  pub nonce : ℕ
  pub user_agent : List ℕ
  pub last_block_height : ℕ
  pub relay : Bool

-- The two checks behind the members, which come whatever the outcome of the members was.
unfoldable pub check_version :
    Action → Status × Version × SDataStream → Status × Version × SDataStream
check_version compute_size x = x
check_version serialize x = x
check_version deserialize (r, p, s) =
    if leb (2 ^ 63) p.timestamp
    then (failure (net NetError.message_payload_invalid_timestamp), p, s)
    else if leb (2 ^ 31) p.last_block_height
    then (failure (net NetError.message_payload_invalid_last_block_height), p, s)
    else (r, p, s)

module _ (lib : IpLibrary) where
  unfoldable pub bind_version_members : Bind Version
  bind_version_members =
      field (λ p. p.protocol_version) (λ v p. record p { protocol_version = v }) (bind_int 4)
      ⨾ field (λ p. p.services) (λ v p. record p { services = v }) (bind_int 8)
      ⨾ field (λ p. p.timestamp) (λ v p. record p { timestamp = v }) (bind_int 8)
      ⨾ field (λ p. p.recipient_service) (λ v p. record p { recipient_service = v })
          (bind_version_node_service lib)
      ⨾ field (λ p. p.sender_service) (λ v p. record p { sender_service = v })
          (bind_version_node_service lib)
      ⨾ field (λ p. p.nonce) (λ v p. record p { nonce = v }) (bind_int 8)
      ⨾ field (λ p. p.user_agent) (λ v p. record p { user_agent = v }) bind_string
      ⨾ field (λ p. p.last_block_height) (λ v p. record p { last_block_height = v }) (bind_int 4)
      ⨾ field (λ p. p.relay) (λ v p. record p { relay = v }) bind_bool

  unfoldable pub bind_version : Bind Version
  unfolding bind_version_members check_version
  bind_version p action s = check_version action (bind_version_members p action s)

  unfoldable pub version_bytes : Version → List ℕ
  version_bytes p =
      (((((((le_bytes 4 p.protocol_version ++ le_bytes 8 p.services) ++ le_bytes 8 p.timestamp)
                ++ version_service_bytes lib p.recipient_service)
              ++ version_service_bytes lib p.sender_service)
            ++ le_bytes 8 p.nonce)
          ++ string_bytes p.user_agent)
        ++ le_bytes 4 p.last_block_height)
      ++ bool_bytes p.relay

-- Members of their widths, and a timestamp and a height that are not negative.
abbrev pub IsVersion : Version → Type 0
IsVersion p =
    (((((((IsU32 p.protocol_version × (p.services < 256 ^ 8)) × (p.timestamp < 256 ^ 8))
              × IsVersionService p.recipient_service)
            × IsVersionService p.sender_service)
          × (p.nonce < 256 ^ 8))
        × IsShort p.user_agent)
      × IsU32 p.last_block_height)
    × Unit {0}

module _ (lib : IpLibrary) (good : IsIpLibrary lib) where
  members-RoundTrips : RoundTrips (bind_version_members lib) IsVersion (version_bytes lib) (λ p old.
      record p {
        recipient_service = record p.recipient_service { time = old.recipient_service.time };
        sender_service = record p.sender_service { time = old.sender_service.time };
      })
  unfolding bind_version_members version_bytes
  members-RoundTrips =
      seq-RoundTrips
        (seq-RoundTrips
          (seq-RoundTrips
            (seq-RoundTrips
              (seq-RoundTrips
                (seq-RoundTrips
                  (seq-RoundTrips
                    (seq-RoundTrips
                      (field-RoundTrips (λ p. p.protocol_version)
                        (λ v p. record p { protocol_version = v }) (λ p. refl)
                        (bind_int-RoundTrips 4))
                      (field-RoundTrips (λ p. p.services) (λ v p. record p { services = v })
                        (λ p. refl) (bind_int-RoundTrips 8)))
                    (field-RoundTrips (λ p. p.timestamp) (λ v p. record p { timestamp = v })
                      (λ p. refl) (bind_int-RoundTrips 8)))
                  (field-RoundTrips (λ p. p.recipient_service)
                    (λ v p. record p { recipient_service = v }) (λ p. refl)
                    (bind_version_node_service-RoundTrips lib good)))
                (field-RoundTrips (λ p. p.sender_service) (λ v p. record p { sender_service = v })
                  (λ p. refl) (bind_version_node_service-RoundTrips lib good)))
              (field-RoundTrips (λ p. p.nonce) (λ v p. record p { nonce = v }) (λ p. refl)
                (bind_int-RoundTrips 8)))
            (field-RoundTrips (λ p. p.user_agent) (λ v p. record p { user_agent = v }) (λ p. refl)
              bind_string-RoundTrips))
          (field-RoundTrips (λ p. p.last_block_height) (λ v p. record p { last_block_height = v })
            (λ p. refl) (bind_int-RoundTrips 4)))
        (field-RoundTrips (λ p. p.relay) (λ v p. record p { relay = v }) (λ p. refl)
          bind_bool-RoundTrips)

  members-Measures : Measures (bind_version_members lib) IsVersion (version_bytes lib)
  unfolding bind_version_members version_bytes
  members-Measures =
      seq-Measures
        (seq-Measures
          (seq-Measures
            (seq-Measures
              (seq-Measures
                (seq-Measures
                  (seq-Measures
                    (seq-Measures
                      (field-Measures (λ p. p.protocol_version)
                        (λ v p. record p { protocol_version = v }) (λ p. refl)
                        (bind_int-Measures 4))
                      (field-Measures (λ p. p.services) (λ v p. record p { services = v })
                        (λ p. refl) (bind_int-Measures 8)))
                    (field-Measures (λ p. p.timestamp) (λ v p. record p { timestamp = v })
                      (λ p. refl) (bind_int-Measures 8)))
                  (field-Measures (λ p. p.recipient_service)
                    (λ v p. record p { recipient_service = v }) (λ p. refl)
                    (bind_version_node_service-Measures lib good)))
                (field-Measures (λ p. p.sender_service) (λ v p. record p { sender_service = v })
                  (λ p. refl) (bind_version_node_service-Measures lib good)))
              (field-Measures (λ p. p.nonce) (λ v p. record p { nonce = v }) (λ p. refl)
                (bind_int-Measures 8)))
            (field-Measures (λ p. p.user_agent) (λ v p. record p { user_agent = v }) (λ p. refl)
              bind_string-Measures))
          (field-Measures (λ p. p.last_block_height) (λ v p. record p { last_block_height = v })
            (λ p. refl) (bind_int-Measures 4)))
        (field-Measures (λ p. p.relay) (λ v p. record p { relay = v }) (λ p. refl)
          bind_bool-Measures)

  -- With Boost mapping IPv4 addresses as documented, a version payload of members that fit their
  -- widths, with a timestamp and a height that are not negative, is written member by member where
  -- there is room, and reading from these bytes takes just them and gives all back but the times
  -- of the two services, which stay as they were.
  pub bind_version-RoundTrips :
      RoundTrips
        (bind_version lib)
        (λ p. IsVersion p × (p.timestamp < 2 ^ 63) × (p.last_block_height < 2 ^ 31))
        (version_bytes lib)
        (λ p old. record p {
          recipient_service = record p.recipient_service { time = old.recipient_service.time };
          sender_service = record p.sender_service { time = old.sender_service.time };
        })
  unfolding bind_version check_version
  bind_version-RoundTrips = record {
    writes = λ p s h fits. members-RoundTrips.writes p s h.0 fits;
    reads = λ p old s rest h v e. rw (
      members-RoundTrips.reads p old s rest h.0 v e,
      leb-false (2 ^ 63) p.timestamp h.1,
      leb-false (2 ^ 31) p.last_block_height h.2,
    );
  }

  pub bind_version-Measures : Measures (bind_version lib) IsVersion (version_bytes lib)
  unfolding bind_version check_version
  bind_version-Measures = record { measures = λ p s h small. members-Measures.measures p s h small }
