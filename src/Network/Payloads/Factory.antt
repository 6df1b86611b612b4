-- ===== src/Network/Payloads/Factory.antt =====
-- `MessagePayload` and `MessagePayload::from_type` (src/infra/network/payloads.hpp and payloads.cpp).
use znode.Common.{ℕ, ◌≡◌, refl, false, List, [], success, none}
use znode.Serialize.Defs.{SDataStream, Action}
use znode.Serialize.Bind.{Bind, into}
use znode.Types.Inventory.{InventoryItem, zero_hash}
use znode.Network.Addresses.{IpLibrary}
use znode.Network.Addresses.Service.{NodeService}
use znode.Network.Protocol.{
  MessageType, version, verack, inv, addr, ping, pong, get_headers, headers, get_addr, mempool,
  reject, get_data, not_found, missing_or_unknown, RejectionCode,
}
use znode.Network.Payloads.Version.{Version, bind_version}
use znode.Network.Payloads.Addr.{fresh_service, bind_ping_pong, bind_addr}
use znode.Network.Payloads.GetHeaders.{GetHeaders, bind_get_headers}
use znode.Network.Payloads.Inventory.{bind_inventory}
use znode.Network.Payloads.Reject.{Reject, bind_reject}

-- A payload's class, with the type given to the classes that stand for several.
pub data Payload : Type 0 where
  null_payload : MessageType → Payload
  version_payload : Version → Payload
  ping_pong_payload : MessageType → ℕ → Payload
  get_headers_payload : GetHeaders → Payload
  addr_payload : List NodeService → Payload
  inventory_payload : MessageType → List InventoryItem → Payload
  reject_payload : Reject → Payload

-- The constructors' `ASSERT_PRE` ends the program where it does not hold.
pub data Created : Type 0 where
  created : Payload → Created
  no_payload assertion_failed : Created

unfoldable pub payload_type : Payload → MessageType
payload_type (null_payload type) = type
payload_type (version_payload p) = version
payload_type (ping_pong_payload type nonce) = type
payload_type (get_headers_payload p) = get_headers
payload_type (addr_payload items) = addr
payload_type (inventory_payload type items) = type
payload_type (reject_payload p) = reject

-- The constructors, each with its precondition.
unfoldable pub new_null : MessageType → Created
new_null verack = created (null_payload verack)
new_null mempool = created (null_payload mempool)
new_null get_addr = created (null_payload get_addr)
new_null other = assertion_failed

new_ping_pong : MessageType → Created
new_ping_pong ping = created (ping_pong_payload ping 0)
new_ping_pong pong = created (ping_pong_payload pong 0)
new_ping_pong other = assertion_failed

new_inventory : MessageType → Created
new_inventory inv = created (inventory_payload inv [])
new_inventory get_data = created (inventory_payload get_data [])
new_inventory not_found = created (inventory_payload not_found [])
new_inventory other = assertion_failed

new_version : Created
new_version = created (
    version_payload (record {
      protocol_version = 0;
      services = 0;
      timestamp = 0;
      recipient_service = fresh_service;
      sender_service = fresh_service;
      nonce = 0;
      user_agent = [];
      last_block_height = 0;
      relay = false;
    }))

new_get_headers : Created
new_get_headers = created (
    get_headers_payload
      (record { protocol_version = 0; block_locator_hashes = []; hash_stop = zero_hash }))

new_reject : Created
new_reject = created (
    reject_payload (record {
      rejected_command = [];
      rejection_code = RejectionCode.ok;
      reason = [];
      extra_data = none;
    }))

unfoldable pub from_type : MessageType → Created
unfolding new_null new_ping_pong new_inventory new_version new_get_headers new_reject
from_type version = new_version
from_type ping = new_ping_pong ping
from_type pong = new_ping_pong pong
from_type get_headers = new_get_headers
from_type addr = created (addr_payload [])
from_type inv = new_inventory inv
from_type get_data = new_inventory get_data
from_type not_found = new_inventory not_found
from_type reject = new_reject
from_type verack = new_null verack
from_type mempool = new_null mempool
from_type get_addr = new_null get_addr
from_type missing_or_unknown = new_null missing_or_unknown
from_type headers = no_payload

-- The virtual `serialization`.
module _ (lib : IpLibrary) where
  unfoldable pub bind_payload : Bind Payload
  unfolding bind_version bind_addr bind_ping_pong
  bind_payload (null_payload type) action s = (success tt, null_payload type, s)
  bind_payload (version_payload p) action s = into version_payload (bind_version lib p action s)
  bind_payload (ping_pong_payload type nonce) action s =
      into (ping_pong_payload type) (bind_ping_pong nonce action s)
  bind_payload (get_headers_payload p) action s =
      into get_headers_payload (bind_get_headers p action s)
  bind_payload (addr_payload items) action s = into addr_payload (bind_addr lib items action s)
  bind_payload (inventory_payload type items) action s =
      into (inventory_payload type) (bind_inventory items action s)
  bind_payload (reject_payload p) action s = into reject_payload (bind_reject p action s)

  -- Binding a payload, to an end or an error, leaves its type.
  pub bind_payload-payload_type :
      (p : Payload) (action : Action) (s : SDataStream)
      → payload_type ((bind_payload p action s).1) ≡ payload_type p
  unfolding bind_payload payload_type
  bind_payload-payload_type (null_payload type) action s = refl
  bind_payload-payload_type (version_payload p) action s = refl
  bind_payload-payload_type (ping_pong_payload type nonce) action s = refl
  bind_payload-payload_type (get_headers_payload p) action s = refl
  bind_payload-payload_type (addr_payload items) action s = refl
  bind_payload-payload_type (inventory_payload type items) action s = refl
  bind_payload-payload_type (reject_payload p) action s = refl
