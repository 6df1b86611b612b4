-- ===== src/Node/Hub/Needed.antt =====
-- The connections that a `NodeHub` still needs (src/node/network/node_hub.cpp).
use znode.Common.{ℕ, ◌-◌, ◌≡◌, inl, inr, refl, Bool, false, not, ◌&&◌, ltb, Bool-cases}
use znode.Network.AddressBook.Defs.{u32_mod}
use znode.Node.Hub.{
  Peer, Hub, connections_of, one_needed_less, connector_round, ask_connections, exceeds,
}

ask_connections-idle :
    (min_outgoing : ℕ) (book_is_empty : Bool) (h : Hub)
    → h.needed_connections_count ≡ u32_mod - 1
    → ask_connections min_outgoing book_is_empty h ≡ h
unfolding ask_connections
ask_connections-idle min_outgoing book_is_empty h e =
    elim (Bool-cases
      (ltb h.current_active_outbound_connections min_outgoing && not book_is_empty)) [
        | inl f ↦ rw (f, e) refl
        | inr f ↦ rw (f) refl
      ]

one_needed_less-wraps :
    (h : Hub)
    → h.needed_connections_count ≡ 0
    → (one_needed_less h).needed_connections_count ≡ u32_mod - 1
unfolding one_needed_less
one_needed_less-wraps h e = rw (e) refl

-- A failed or discarded dial takes one from the needed connections.
connector_round-less :
    (per_ip : ℕ) (peer : Peer) (h : Hub)
    → (connector_round per_ip false peer h).1 ≡ one_needed_less h
unfolding connector_round
connector_round-less per_ip peer h =
    elim (Bool-cases (exceeds per_ip (connections_of peer.address h.connected_addresses))) [
      | inl e ↦ rw (e) refl
      | inr e ↦ rw (e) refl
    ]

-- While no connection is needed, a dial that does not connect makes the count of needed
-- connections 2^32 - 1, and the demand for connections then changes nothing.
pub connector_round-starves :
    (per_ip min_outgoing : ℕ) (peer : Peer) (h : Hub) (book_is_empty : Bool)
    → h.needed_connections_count ≡ 0
    → ((connector_round per_ip false peer h).1.needed_connections_count ≡ u32_mod - 1)
      × (ask_connections min_outgoing book_is_empty (connector_round per_ip false peer h).1
          ≡ (connector_round per_ip false peer h).1)
connector_round-starves per_ip min_outgoing peer h book_is_empty e =
    let wraps : (connector_round per_ip false peer h).1.needed_connections_count ≡ u32_mod - 1 =
      rw (connector_round-less per_ip peer h) (one_needed_less-wraps h e) in
    (wraps, ask_connections-idle min_outgoing book_is_empty _ wraps)
