-- ===== src/Network/Addresses/Service.antt =====
-- `NodeService`, `VersionNodeService` and `NodeServiceInfo` of src/infra/network/addresses.hpp and
-- addresses.cpp. Times are seconds since the epoch.
pub mod Wire
use znode.Common.{
  ℕ, ◌+◌, ◌*◌, ◌%◌, ◌^◌, Bool, true, false, ◌&&◌, List, Option, if◌then◌else◌, ltb, ◌==◌,
}
use znode.Serialize.Bind.{Bind, bind_int, bind_string, field, via, ◌⨾◌}
use znode.Network.Addresses.{Address, IpLibrary, IpEndpoint}
use znode.Network.Addresses.Wire.{bind_address, bind_endpoint}

pub record NodeService : Type 0 where
  pub time : ℕ
  pub services : ℕ
  pub endpoint : IpEndpoint

pub record NodeServiceInfo : Type 0 where
  pub service : NodeService
  pub user_agent : List ℕ
  pub origin : Address
  pub last_connection_attempt : ℕ
  pub last_connection_success : ℕ
  pub connection_attempts : ℕ
  pub random_pos : ℕ
  pub tried_ref : Option ℕ
  pub new_refs : List ℕ

-- `static_cast<uint32_t>` of a time, which the time is then replaced with.
unfoldable pub to_u32 : ℕ → ℕ
to_u32 n = n % 256 ^ 4

unfoldable pub bind_time : Bind ℕ
unfolding to_u32
bind_time = via to_u32 (λ n. n) (bind_int 4)

module _ (lib : IpLibrary) where
  unfoldable pub bind_node_service : Bind NodeService
  unfolding bind_time bind_endpoint
  bind_node_service =
      field (λ n. n.time) (λ v n. record n { time = v }) bind_time
      ⨾ field (λ n. n.services) (λ v n. record n { services = v }) (bind_int 8)
      ⨾ field (λ n. n.endpoint) (λ v n. record n { endpoint = v }) (bind_endpoint lib)

  -- `VersionNodeService`: the time is not bound.
  unfoldable pub bind_version_node_service : Bind NodeService
  unfolding bind_endpoint
  bind_version_node_service =
      field (λ n. n.services) (λ v n. record n { services = v }) (bind_int 8)
      ⨾ field (λ n. n.endpoint) (λ v n. record n { endpoint = v }) (bind_endpoint lib)

  unfoldable pub bind_node_service_info : Bind NodeServiceInfo
  unfolding bind_node_service bind_address bind_time
  bind_node_service_info =
      field (λ i. i.service) (λ v i. record i { service = v }) bind_node_service
      ⨾ field (λ i. i.user_agent) (λ v i. record i { user_agent = v }) bind_string
      ⨾ field (λ i. i.origin) (λ v i. record i { origin = v }) (bind_address lib)
      ⨾ field (λ i. i.last_connection_attempt) (λ v i. record i { last_connection_attempt = v })
          bind_time
      ⨾ field (λ i. i.last_connection_success) (λ v i. record i { last_connection_success = v })
          bind_time
      ⨾ field (λ i. i.connection_attempts) (λ v i. record i { connection_attempts = v })
          (bind_int 4)
      ⨾ field (λ i. i.random_pos) (λ v i. record i { random_pos = v }) (bind_int 4)

abbrev days : ℕ → ℕ
days n = n * 86400

abbrev pub max_days_since_last_seen : ℕ
max_days_since_last_seen = days 30

abbrev pub new_peer_max_retries : ℕ
new_peer_max_retries = 3

abbrev pub recent_connection_days : ℕ
recent_connection_days = days 7

abbrev pub max_reconnection_failures : ℕ
max_reconnection_failures = 10

-- The source's signed seconds are compared after moving what it takes from `now` to the other side.
unfoldable pub is_bad : NodeServiceInfo → ℕ → Bool
is_bad i now =
    if ltb now (i.last_connection_attempt + 60)
    then false
    else if ltb (now + 600) i.service.time
    then true
    else if ltb (i.service.time + max_days_since_last_seen) now
    then true
    else if (i.last_connection_success == 0) && ltb new_peer_max_retries i.connection_attempts
    then true
    else (ltb (i.last_connection_success + recent_connection_days) now
        && ltb max_reconnection_failures i.connection_attempts)
