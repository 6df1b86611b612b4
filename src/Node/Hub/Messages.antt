-- ===== src/Node/Hub/Messages.antt =====
-- The messages that a `NodeHub` handles (src/node/network/node_hub.cpp): `on_node_received_message`,
-- and the rounds of `address_book_processor_work` for those that it queues. `std::shuffle` is a
-- parameter. `none` is a failed assertion.
pub mod Answers
use znode.Common.{
  ℕ, ◌+◌, ◌*◌, ◌<◌, ◌≤◌, ◌≡◌, ◌⊎◌, inl, inr, refl, ap, ◌∙◌, arith, Bool, true, not, ◌||◌, List, [],
  ◌∷◌, length, All, Option, some, none, Bool-cases, if◌then◌else◌,
}
use mathlib.Core.List.{Permᴰ}
use znode.Network.Addresses.{Address, IpEndpoint, is_routable}
use znode.Network.Addresses.Service.{NodeService}
use znode.Network.Protocol.{MessageType, version, addr, get_addr, not_found}
use znode.Network.Payloads.Version.{Version}
use znode.Network.Payloads.Factory.{
  Payload, null_payload, addr_payload, payload_type, Created, created, no_payload, assertion_failed,
  new_null,
}
use znode.Network.AddressBook.Slots.{Externals}
use znode.Network.AddressBook.Defs.{AddressBook, ◌>>=◌, u32_mod}
use znode.Network.AddressBook.Tried.{set_good}
use znode.Network.AddressBook.Insert.{Moment, insert_or_update_services}
use znode.Network.AddressBook.Links.{Consistent, Nobody}
use znode.Network.AddressBook.Erase.{Ensures, Ensures_map, Ensures_bind}
use znode.Network.AddressBook.Runs.{
  Call, IsReachable, good, inserts_services, step, After, step-After, second, third,
}
use znode.Network.AddressBook.Select.{limit, get_random_services}
use znode.Network.AddressBook.Select.Picks.{
  IsRandom, IsOffered, Distinct, endpoints, Picked, get_random_services-Picked,
}
use znode.Node.Hub.{ConnectionType, is_inbound, Attempt, discarded, failed, forwarded, record_dial}

-- The node that a message comes from.
pub record Sender : Type 0 where
  pub type : ConnectionType
  pub endpoint : IpEndpoint
  pub version_info : Version
  pub is_running : Bool

pub data Handled : Type 0 where
  ignored queued : Handled
  answered : Payload → Handled

unfoldable pub get_local_service : IpEndpoint → ℕ → NodeService
get_local_service advertised now = record { time = now; services = 1; endpoint = advertised }

-- The payload of a constructor, unless its assertion fails.
unfoldable pub made : Created → Option Payload
made (created p) = some p
made no_payload = none
made assertion_failed = none

module _ (ext : Externals) (moment : Moment) (advertised : IpEndpoint) where
  unfoldable pub handle_type : Sender → MessageType → AddressBook → Option (Handled × AddressBook)
  unfolding get_local_service is_inbound set_good
  handle_type sender version b =
      if is_inbound sender.type
      then some (ignored, b)
      else (set_good ext sender.endpoint sender.version_info moment.now b >>= λ r.
          some (answered (addr_payload (get_local_service advertised moment.now ∷ [])), r.1))
  handle_type sender addr b = some (queued, b)
  handle_type sender get_addr b = some (queued, b)
  handle_type sender other b = some (ignored, b)

  unfoldable pub on_node_received_message :
      Bool → Sender → Payload → AddressBook → Option (Handled × AddressBook)
  unfolding payload_type
  on_node_received_message is_running sender payload b =
      if not is_running || not sender.is_running
      then some (ignored, b)
      else handle_type sender (payload_type payload) b

  module _ (shuffle : List NodeService → List NodeService) where
    -- The answer to `getaddr`. With no service it is `push_message(MessageType::kNotFound)`, which makes
    -- a `MsgNullPayload`.
    unfoldable pub answer_services : List NodeService → Option Payload
    unfolding new_null
    answer_services [] = made (new_null not_found)
    answer_services (service ∷ services) = some (addr_payload (service ∷ services))

    unfoldable pub address_book_processor_round :
        Address → Payload → AddressBook → Option (Option Payload × AddressBook)
    unfolding insert_or_update_services get_random_services
    address_book_processor_round source (addr_payload services) b =
        insert_or_update_services ext moment (shuffle services) source 7200 b >>= λ r.
        some (none, r.2)
    address_book_processor_round source (null_payload get_addr) b =
        get_random_services moment 1000 25 none b >>= λ r.
        answer_services r.0 >>= λ reply. some (some reply, r.1)
    address_book_processor_round source other b = none

    -- A message, with the round of the processor if it is queued for one.
    unfoldable pub respond :
        Bool → Sender → Payload → AddressBook → Option (Option Payload × AddressBook)
    respond is_running sender payload b =
        on_node_received_message is_running sender payload b >>= λ r. elim r.0 [
          | ignored ↦ some (none, r.1)
          | answered reply ↦ some (some reply, r.1)
          | queued ↦ address_book_processor_round sender.endpoint.address payload r.1
        ]
