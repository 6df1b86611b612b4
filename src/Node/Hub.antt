-- ===== src/Node/Hub.antt =====
-- The connections of `NodeHub` (src/node/network/node_hub.hpp, node_hub.cpp): its counters, and the
-- steps of its workers that change them. The sockets and channels are Boost's: a step is given whether
-- a socket is open and whether a connection succeeds. `none` is a failed assertion.
pub mod Connected
pub mod Counts
pub mod Sessions
pub mod Needed
pub mod Messages
use znode.Common.{
  ℕ, ◌+◌, ◌-◌, ◌%◌, ◌^◌, Bool, true, false, not, ◌&&◌, List, [], ◌∷◌, ◌++◌, Option, some, none, ltb,
  leb, ◌==◌, if◌then◌else◌,
}
use znode.Network.Addresses.{Address, IpEndpoint}
use znode.Network.AddressBook.Slots.{Externals}
use znode.Network.AddressBook.Tried.{set_failed, set_tried}
use znode.Network.AddressBook.Defs.{AddressBook, address_eq, increment, decrease, ◌>>=◌}
use znode.Network.Meters.{TrafficMeter, update_inbound, update_outbound}
use znode.Node.Handshake.{Direction, inbound, outbound}

pub data ConnectionType : Type 0 where
  unspecified dial_in dial_out manual_dial_out seed_dial_out : ConnectionType

pub record Peer : Type 0 where
  pub type : ConnectionType
  pub address : Address

pub record Hub : Type 0 where
  pub nodes : List Peer
  pub connected_addresses : List (Address × ℕ)
  pub current_active_connections : ℕ
  pub current_active_inbound_connections : ℕ
  pub current_active_outbound_connections : ℕ
  pub needed_connections_count : ℕ
  pub need_connections : ℕ
  pub total_connections : ℕ
  pub total_disconnections : ℕ
  pub total_rejected_connections : ℕ
  pub traffic_meter : TrafficMeter

abbrev increment_size : ℕ → ℕ
increment_size n = (n + 1) % 2 ^ 64

-- `connected_addresses_.find(address)`.
unfoldable pub connections_of : Address → List (Address × ℕ) → Option ℕ
connections_of a [] = none
connections_of a ((b, n) ∷ m) = if address_eq b a then some n else connections_of a m

-- `connected_addresses_[address]++`.
unfoldable pub count_address : Address → List (Address × ℕ) → List (Address × ℕ)
count_address a [] = (a, 1) ∷ []
count_address a ((b, n) ∷ m) =
    let rest = count_address a m in if address_eq b a then (b, increment n) ∷ m else (b, n) ∷ rest

-- `--item->second`, and the item is erased at zero.
unfoldable pub release_address : Address → List (Address × ℕ) → List (Address × ℕ)
release_address a [] = []
release_address a ((b, n) ∷ m) =
    let rest = release_address a m in
    if address_eq b a then if decrease n 1 == 0 then m else (b, decrease n 1) ∷ m else (b, n) ∷ rest

unfoldable pub is_inbound : ConnectionType → Bool
is_inbound dial_in = true
is_inbound other = false

unfoldable pub is_unspecified : ConnectionType → Bool
is_unspecified unspecified = true
is_unspecified other = false

unfoldable pub is_outbound : ConnectionType → Bool
is_outbound dial_out = true
is_outbound other = false

unfoldable pub on_node_connected : Peer → Hub → Option Hub
unfolding count_address is_unspecified is_inbound
on_node_connected peer h =
    let h1 = record h {
      connected_addresses = count_address peer.address h.connected_addresses;
      nodes = h.nodes ++ peer ∷ [];
      total_connections = increment_size h.total_connections;
      current_active_connections = increment h.current_active_connections;
    } in
    if is_unspecified peer.type
    then none
    else some (
        if is_inbound peer.type
        then record h1 {
          current_active_inbound_connections = increment h.current_active_inbound_connections;
        }
        else record h1 {
          current_active_outbound_connections = increment h.current_active_outbound_connections;
        })

unfoldable pub on_node_disconnected : Peer → Hub → Option Hub
unfolding release_address is_unspecified is_inbound
on_node_disconnected peer h =
    let h1 = record h {
      connected_addresses = release_address peer.address h.connected_addresses;
      total_disconnections = increment_size h.total_disconnections;
      current_active_connections = decrease h.current_active_connections 1;
    } in
    if is_unspecified peer.type
    then none
    else some (
        if is_inbound peer.type
        then record h1 {
          current_active_inbound_connections = decrease h.current_active_inbound_connections 1;
        }
        else record h1 {
          current_active_outbound_connections = decrease h.current_active_outbound_connections 1;
        })

-- `--needed_connections_count_`.
unfoldable pub one_needed_less : Hub → Hub
one_needed_less h = record h { needed_connections_count = decrease h.needed_connections_count 1 }

-- A round of `node_factory_work`, with a connection whose socket is open or not.
unfoldable pub node_factory_round : ℕ → Bool → Peer → Hub → Option Hub
unfolding one_needed_less is_unspecified is_outbound
node_factory_round max_active_connections is_open peer h =
    if is_unspecified peer.type
    then none
    else let h1 = if is_outbound peer.type then one_needed_less h else h in
      if not is_open
      then some h1
      else if leb max_active_connections h1.current_active_connections
      then some
          (record h1 { total_rejected_connections = increment_size h1.total_rejected_connections })
      else on_node_connected peer h1

-- What the connector does with a connection. Of one that was tried the address book is told, by
-- `record_dial`.
pub data Attempt : Type 0 where
  discarded failed forwarded : Attempt

abbrev pub exceeds : ℕ → Option ℕ → Bool
exceeds max none = false
exceeds max (some n) = leb max n

-- A round of `connector_work`, where connecting succeeds or not.
unfoldable pub connector_round : ℕ → Bool → Peer → Hub → Attempt × Hub
unfolding one_needed_less connections_of
connector_round max_active_connections_per_ip connects peer h =
    if exceeds max_active_connections_per_ip (connections_of peer.address h.connected_addresses)
    then (discarded, one_needed_less h)
    else if connects
    then (forwarded, h)
    else (failed, one_needed_less h)

-- `set_tried` and `set_failed` of the round.
unfoldable pub record_dial :
    Externals → Attempt → IpEndpoint → ℕ → AddressBook → Option (Bool × AddressBook)
unfolding set_tried set_failed
record_dial ext discarded remote time b = some (false, b)
record_dial ext failed remote time b = set_failed ext remote time b
record_dial ext forwarded remote time b = set_tried ext remote time b

-- A round of `address_book_selector_work`: an endpoint is found or not.
unfoldable pub selector_round : Bool → Hub → Hub
unfolding one_needed_less
selector_round found h = if found then h else one_needed_less h

-- The end of `on_service_timer_expired`: more connections are asked for, if none are already.
unfoldable pub ask_connections : ℕ → Bool → Hub → Hub
ask_connections min_outgoing_connections book_is_empty h =
    if ltb h.current_active_outbound_connections min_outgoing_connections && not book_is_empty
    then if h.needed_connections_count == 0
      then record h {
        needed_connections_count = min_outgoing_connections - h.current_active_outbound_connections;
        need_connections = h.need_connections + 1;
      }
      else h
    else h

unfoldable pub on_node_data : Direction → ℕ → Hub → Hub
unfolding update_inbound update_outbound
on_node_data inbound bytes h = record h { traffic_meter = update_inbound bytes h.traffic_meter }
on_node_data outbound bytes h = record h { traffic_meter = update_outbound bytes h.traffic_meter }
