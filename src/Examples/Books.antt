-- ===== src/Examples/Books.antt =====
-- An address book and a hub of connections (src/infra/network/addressbook.cpp,
-- src/node/network/node_hub.cpp).
use znode.Common.{
  ◌⊎◌, not, ◌||◌, ◌↔◌, ◌&&◌, ℕ, ◌-◌, ◌≡◌, refl, arith, true, false, List, [], ◌∷◌, length,
  replicate, Option, none, some,
}
use znode.Common.Bytes.{bytes_eq}
use znode.Examples.Addresses.{boost}
use znode.Examples.Nodes.{our_version}
use znode.Network.Addresses.{
  Address, v4, IpEndpoint, is_routable, is_valid, is_any, is_v4, address_reservation,
  keeps_routable,
}
use znode.Network.Addresses.Service.{NodeService}
use znode.Network.AddressBook.Slots.{Externals}
use znode.Network.AddressBook.Defs.{find_endpoint, AddressBook, u32_mod}
use mathlib.Core.List.{Permᴰ}
use znode.Network.AddressBook.Insert.{Moment, insert_or_update}
use znode.Network.AddressBook.Aborts.{insert_or_update-aborts}
use znode.Network.Payloads.Factory.{Payload, addr_payload, payload_type}
use znode.Node.Hub.Messages.{Sender, respond, get_local_service}
use znode.Node.Hub.Messages.Answers.{IsAnswer, FindsNone, respond-Answers}
use znode.Node.Hub.Needed.{connector_round-starves}
use znode.Network.AddressBook.Links.{Consistent, Nobody}
use znode.Network.AddressBook.Erase.{Ensures}
use znode.Network.AddressBook.Runs.{
  Call, inserts, inserts_services, good, failed, run, fresh_book, fresh_book-Consistent,
  run-Consistent,
}
use znode.Network.AddressBook.Select.{limit, get_random_services}
use znode.Network.AddressBook.Select.Picks.{Picked, IsRandom, get_random_services-Picked}
use znode.Network.Meters.{TrafficMeter}
use znode.Node.Hub.{
  Peer, Hub, dial_in, manual_dial_out, connector_round, ask_connections, node_factory_round,
  on_node_connected, is_unspecified, is_outbound, is_inbound, count_address,
}
use znode.Node.Hub.Counts.{Counts}
use znode.Node.Hub.Sessions.{Session, begins, takes, new_hub, Session-Counts}

-- Every text has the digest 1.
abbrev constant : Externals
constant = record { lib = boost; siphash = λ key text. 1 ∷ replicate 7 0 }

abbrev remote : IpEndpoint
remote = record { address = v4 (8 ∷ 8 ∷ 8 ∷ 8 ∷ []); port = 9033 }

abbrev source : Address
source = v4 (9 ∷ 9 ∷ 9 ∷ 9 ∷ [])

abbrev service : NodeService
service = record { time = 1700000000; services = 1; endpoint = remote }

-- Of two services that fall in one slot, the second takes the place of the first.
abbrev neighbour : NodeService
neighbour = record {
  time = 1700000000;
  services = 1;
  endpoint = record { address = source; port = 9033 };
}

abbrev lowest : Moment
lowest = record { now = 1700000000; randomize = λ draw lo hi. lo }

lowest-IsRandom : IsRandom lowest
lowest-IsRandom draw lo hi h = (omega arith, h)

abbrev calls : List Call
calls =
    inserts lowest service source 7200
    ∷ inserts_services lowest (neighbour ∷ service ∷ []) source 0
    ∷ good remote our_version 1700000100
    ∷ failed remote 1700000200
    ∷ []

abbrev key : List ℕ
key = replicate 16 7

run-Consistent_example : Ensures (run constant calls (fresh_book key)) (Consistent boost Nobody)
unfolding is_routable is_valid is_any is_v4 address_reservation keeps_routable fresh_book bytes_eq
run-Consistent_example =
    run-Consistent constant calls (fresh_book key) (fresh_book-Consistent constant key)
      (omega arith) (omega arith) ((refl, refl), (((refl, (refl, tt)), refl), (tt, (tt, tt))))

abbrev value : Option AddressBook → AddressBook
value none = fresh_book key
value (some b) = b

value-Consistent :
    (r : Option AddressBook)
    → Ensures r (Consistent boost Nobody)
    → Consistent boost Nobody (value r)
value-Consistent none h = absurd h
value-Consistent (some b) h = h

-- The book after the calls.
abbrev book : AddressBook
book = value (run constant calls (fresh_book key))

get_random_services-Picked_example : Ensures (get_random_services lowest 1000 100 none book) λ r.
    Picked lowest lowest-IsRandom none (limit (length book.randomly_ordered_ids) 1000 100) book r
    × Consistent boost Nobody r.1
get_random_services-Picked_example =
    get_random_services-Picked lowest lowest-IsRandom boost 1000 100 none book
      (value-Consistent (run constant calls (fresh_book key)) run-Consistent_example)

abbrev meter : TrafficMeter
meter = record {
  start_time = 0;
  interval_time = 0;
  cumulative_inbound_bytes = 0;
  cumulative_outbound_bytes = 0;
  interval_inbound_bytes = 0;
  interval_outbound_bytes = 0;
}

abbrev caller : Peer
caller = record { type = dial_in; address = source }

-- A hub that took a connection.
abbrev busy : Hub
busy = record (new_hub meter) {
  nodes = caller ∷ [];
  connected_addresses = (source, 1) ∷ [];
  current_active_connections = 1;
  current_active_inbound_connections = 1;
  total_connections = 1;
}

busy-Session : Session 32 2 8 (caller ∷ []) busy
unfolding new_hub node_factory_round on_node_connected is_unspecified is_outbound is_inbound
    count_address
busy-Session = takes _ _ true caller (begins [] (new_hub meter) meter refl refl) refl refl

Session-Counts_example : Counts 32 (caller ∷ []) busy
Session-Counts_example = Session-Counts 32 2 8 (caller ∷ []) busy (omega arith) busy-Session

-- A peer given on the command line that cannot be reached.
abbrev unreachable : Peer
unreachable = record { type = manual_dial_out; address = source }

connector_round-starves_example :
    ((connector_round 2 false unreachable (new_hub meter)).1.needed_connections_count ≡ u32_mod - 1)
    × (ask_connections 8 false (connector_round 2 false unreachable (new_hub meter)).1
        ≡ (connector_round 2 false unreachable (new_hub meter)).1)
unfolding new_hub
connector_round-starves_example = connector_round-starves 2 8 unreachable (new_hub meter) false refl

-- An IPv4 address that is reserved for private networks.
abbrev hidden : Address
hidden = v4 (10 ∷ 0 ∷ 0 ∷ 1 ∷ [])

insert_or_update-aborts_example :
    (insert_or_update constant lowest service hidden 0 (fresh_book key) ≡ none)
    ↔ ((is_routable boost remote.address && is_routable boost hidden) ≡ false)
unfolding fresh_book find_endpoint
insert_or_update-aborts_example =
    insert_or_update-aborts constant lowest service hidden 0 (fresh_book key)
      (fresh_book-Consistent constant key) (omega arith) (omega arith) refl

abbrev sender : Sender
sender = record {
  type = dial_in;
  endpoint = record { address = source; port = 9033 };
  version_info = our_version;
  is_running = true;
}

abbrev swapped : List NodeService → List NodeService
swapped (a ∷ b ∷ services) = b ∷ a ∷ services
swapped other = other

abbrev received : Payload
received = addr_payload (neighbour ∷ service ∷ [])

swapped-Permᴰ : (services : List NodeService) → Permᴰ services (swapped services)
swapped-Permᴰ [] = Permᴰ.nil
swapped-Permᴰ (a ∷ []) = Permᴰ.cons refl Permᴰ.nil
swapped-Permᴰ (a ∷ b ∷ services) = Permᴰ.swap refl refl

respond-Answers_example :
    Ensures (respond constant lowest remote swapped true sender received (fresh_book key)) (λ r.
      Consistent boost Nobody r.1
      × IsAnswer lowest
          (get_local_service remote lowest.now)
          (fresh_book key)
          (not true || not sender.is_running)
          (payload_type received)
          r.0)
    ⊎ ((FindsNone lowest received (fresh_book key) × ((not true || not sender.is_running) ≡ false))
        × (respond constant lowest remote swapped true sender received (fresh_book key) ≡ none))
unfolding is_routable is_valid is_any is_v4 address_reservation keeps_routable fresh_book bytes_eq
    payload_type
respond-Answers_example =
    respond-Answers constant lowest lowest-IsRandom remote swapped swapped-Permᴰ (fresh_book key)
      (fresh_book-Consistent constant key) (omega arith) true sender received (omega arith)
      (refl, (refl, tt)) refl (λ e. (neighbour ∷ service ∷ [], refl), λ e. cc e)
