-- ===== src/Node/Hub/Sessions.antt =====
-- The life of a `NodeHub` (src/node/network/node_hub.cpp) as steps of its workers in any order.
use znode.Common.{
  leb-false→lt, ℕ, ◌+◌, ◌%◌, ◌^◌, ◌<◌, ◌≡◌, inl, inr, refl, arith, Bool, true, false, not, ◌&&◌,
  List, [], ◌∷◌, ◌++◌, Option, some, none, ltb, leb, ◌==◌, if◌then◌else◌, Bool-cases,
}
use znode.Network.AddressBook.Defs.{u32_mod}
use znode.Network.AddressBook.Erase.{Ensures}
use znode.Network.Meters.{TrafficMeter}
use znode.Node.Handshake.{Direction, inbound, outbound}
use znode.Node.Hub.{
  Peer, Hub, connections_of, is_unspecified, is_outbound, on_node_disconnected, one_needed_less,
  node_factory_round, connector_round, selector_round, ask_connections, on_node_data,
  on_node_connected, exceeds,
}
use znode.Node.Hub.Counts.{Counts, on_node_connected-Counts, on_node_disconnected-Counts}

unfoldable pub new_hub : TrafficMeter → Hub
new_hub meter = record {
  nodes = [];
  connected_addresses = [];
  current_active_connections = 0;
  current_active_inbound_connections = 0;
  current_active_outbound_connections = 0;
  needed_connections_count = 0;
  need_connections = 0;
  total_connections = 0;
  total_disconnections = 0;
  total_rejected_connections = 0;
  traffic_meter = meter;
}

-- The hub with its live connections.
pub data Session (max per_ip min_outgoing : ℕ) : List Peer → Hub → Type 0 where
  begins :
      (live : List Peer) (h : Hub) (meter : TrafficMeter)
      → live ≡ []
      → h ≡ new_hub meter
      → Session max per_ip min_outgoing live h
  -- The factory takes a connection, which lives if its socket is open and there is room.
  takes :
      {live : List Peer} {h : Hub} (live' : List Peer) (h' : Hub) (is_open : Bool) (peer : Peer)
      → Session max per_ip min_outgoing live h
      → node_factory_round max is_open peer h ≡ some h'
      → live'
        ≡ (if is_open && not (leb max h.current_active_connections) then peer ∷ live else live)
      → Session max per_ip min_outgoing live' h'
  -- A live connection ends.
  ends :
      {live : List Peer} {h : Hub} (live' : List Peer) (h' : Hub) (before : List Peer) (peer : Peer)
      (behind : List Peer)
      → Session max per_ip min_outgoing live h
      → live ≡ before ++ peer ∷ behind
      → on_node_disconnected peer h ≡ some h'
      → live' ≡ before ++ behind
      → Session max per_ip min_outgoing live' h'
  dials :
      {live : List Peer} {h : Hub} (h' : Hub) (connects : Bool) (peer : Peer)
      → Session max per_ip min_outgoing live h
      → h' ≡ (connector_round per_ip connects peer h).1
      → Session max per_ip min_outgoing live h'
  selects :
      {live : List Peer} {h : Hub} (h' : Hub) (found : Bool)
      → Session max per_ip min_outgoing live h
      → h' ≡ selector_round found h
      → Session max per_ip min_outgoing live h'
  asks :
      {live : List Peer} {h : Hub} (h' : Hub) (book_is_empty : Bool)
      → Session max per_ip min_outgoing live h
      → h' ≡ ask_connections min_outgoing book_is_empty h
      → Session max per_ip min_outgoing live h'
  transfers :
      {live : List Peer} {h : Hub} (h' : Hub) (direction : Direction) (bytes : ℕ)
      → Session max per_ip min_outgoing live h
      → h' ≡ on_node_data direction bytes h
      → Session max per_ip min_outgoing live h'

-- The other counters do not matter.
other :
    {max : ℕ} {live : List Peer} {h : Hub} (needed asked rejected : ℕ) (meter : TrafficMeter)
    → Counts max live h
    → Counts max live (record h {
      needed_connections_count = needed;
      need_connections = asked;
      total_rejected_connections = rejected;
      traffic_meter = meter;
    })
other needed asked rejected meter c = record {
  active = c.active;
  inbounds = c.inbounds;
  outbounds = c.outbounds;
  addresses = c.addresses;
  keyed = c.keyed;
  bounded = c.bounded;
}

module _ (max : ℕ) (live : List Peer) (h : Hub) (c : Counts max live h) where
  less-Counts : Counts max live (one_needed_less h)
  unfolding one_needed_less
  less-Counts = other _ _ _ _ c

  dial-Counts :
      (per_ip : ℕ) (connects : Bool) (peer : Peer)
      → Counts max live (connector_round per_ip connects peer h).1
  unfolding connector_round
  dial-Counts per_ip connects peer =
      let full = exceeds per_ip (connections_of peer.address h.connected_addresses) in
      elim (Bool-cases full) [
        | inl e ↦ rw (e) less-Counts
        | inr e ↦ elim (Bool-cases connects) [ inl f ↦ rw (e, f) c | inr f ↦ rw (e, f) less-Counts ]
      ]

  select-Counts : (found : Bool) → Counts max live (selector_round found h)
  unfolding selector_round
  select-Counts true = c
  select-Counts false = less-Counts

  ask-Counts :
      (min_outgoing : ℕ) (book_is_empty : Bool)
      → Counts max live (ask_connections min_outgoing book_is_empty h)
  unfolding ask_connections
  ask-Counts min_outgoing book_is_empty =
      elim (Bool-cases
        (ltb h.current_active_outbound_connections min_outgoing && not book_is_empty)) [
          | inr e ↦ rw (e) c
          | inl e ↦ elim (Bool-cases (h.needed_connections_count == 0)) [
            | inl f ↦ rw (e, f) (other _ _ _ _ c)
            | inr f ↦ rw (e, f) c
          ]
        ]

  transfer-Counts :
      (direction : Direction) (bytes : ℕ) → Counts max live (on_node_data direction bytes h)
  unfolding on_node_data
  transfer-Counts inbound bytes = other _ _ _ _ c
  transfer-Counts outbound bytes = other _ _ _ _ c

new_hub-Counts : (max : ℕ) (meter : TrafficMeter) → Counts max [] (new_hub meter)
unfolding new_hub connections_of
new_hub-Counts max meter = record {
  active = refl;
  inbounds = refl;
  outbounds = refl;
  addresses = λ a. refl;
  keyed = tt;
  bounded = omega arith;
}

module _ (max : ℕ) (small : max < u32_mod) (live : List Peer) (is_open : Bool) (peer : Peer)
    (known : is_unspecified peer.type ≡ false) where
  accept-Counts :
      (h : Hub)
      → Counts max live h
      → Ensures
          (if not is_open
            then some h
            else if leb max h.current_active_connections
            then some (record h {
              total_rejected_connections = (h.total_rejected_connections + 1) % 2 ^ 64;
            })
            else on_node_connected peer h)
          (Counts max
            (if is_open && not (leb max h.current_active_connections) then peer ∷ live else live))
  accept-Counts h c = elim (Bool-cases is_open) [
    | inr e ↦ rw (e) c
    | inl e ↦ elim (Bool-cases (leb max h.current_active_connections)) [
      | inl f ↦ rw (e, f) (other _ _ _ _ c)
      | inr f ↦
          rw (e, f)
            (on_node_connected-Counts max peer live h c small
              (omega (arith, c.active, leb-false→lt max h.current_active_connections f)) known)
    ]
  ]

  take-Counts :
      (h : Hub)
      → Counts max live h
      → Ensures (node_factory_round max is_open peer h) (
          Counts max
            (if is_open && not (leb max h.current_active_connections) then peer ∷ live else live))
  unfolding node_factory_round one_needed_less
  take-Counts h c = elim (Bool-cases (is_outbound peer.type)) [
    | inl e ↦ rw (known, e) (accept-Counts (one_needed_less h) (less-Counts max live h c))
    | inr e ↦ rw (known, e) (accept-Counts h c)
  ]

Ensures-some : {A : Type 0} (P : A → Type 0) (r : Option A) (a : A) → Ensures r P → r ≡ some a → P a
Ensures-some P none a h e = absurd h
Ensures-some P (some b) a h e = let same : b ≡ a = cc e in rw (← same) h

known_type :
    (peer : Peer) (h h' : Hub)
    → on_node_disconnected peer h ≡ some h'
    → is_unspecified peer.type ≡ false
unfolding on_node_disconnected
known_type peer h h' e = elim (Bool-cases (is_unspecified peer.type)) [
  | inl f ↦ cc (rw (f) at e)
  | inr f ↦ f
]

known_factory_type :
    (max : ℕ) (is_open : Bool) (peer : Peer) (h h' : Hub)
    → node_factory_round max is_open peer h ≡ some h'
    → is_unspecified peer.type ≡ false
unfolding node_factory_round
known_factory_type max is_open peer h h' e = elim (Bool-cases (is_unspecified peer.type)) [
  | inl f ↦ cc (rw (f) at e)
  | inr f ↦ f
]

-- With a limit of connections below 2^32, at every state that the rounds of the factory, the
-- dials, the selections, the demands, the transfers and the ends of live connections reach, in any
-- order, from a new hub, the three counters of active connections are the numbers of live
-- connections, of inbound and of other ones, the count at each address is the number of live
-- connections to it and is absent at zero, no address is counted twice, and the live connections
-- are no more than the limit.
pub Session-Counts :
    (max per_ip min_outgoing : ℕ) (live : List Peer) (h : Hub)
    → max < u32_mod
    → Session max per_ip min_outgoing live h
    → Counts max live h
Session-Counts max per_ip min_outgoing live h small (begins _ _ meter e f) =
    rw (e, f) (new_hub-Counts max meter)
Session-Counts max per_ip min_outgoing live' h' small (takes {live} {h} _ _ is_open peer s e f) =
    rw (f) (
      Ensures-some _ _ h'
        (take-Counts max small live is_open peer (known_factory_type max is_open peer h h' e) h
          (Session-Counts max per_ip min_outgoing live h small s))
        e)
Session-Counts max per_ip min_outgoing live' h' small
      (ends {live} {h} _ _ before peer behind s e f g) =
    rw (g) (
      Ensures-some _ _ h'
        (on_node_disconnected-Counts max peer before behind h
          (rw (← e) (Session-Counts max per_ip min_outgoing live h small s)) small
          (known_type peer h h' f))
        f)
Session-Counts max per_ip min_outgoing live h' small (dials {h = h} _ connects peer s e) = rw (e) (
    dial-Counts max live h (Session-Counts max per_ip min_outgoing live h small s) per_ip connects
      peer)
Session-Counts max per_ip min_outgoing live h' small (selects {h = h} _ found s e) =
    rw (e) (select-Counts max live h (Session-Counts max per_ip min_outgoing live h small s) found)
Session-Counts max per_ip min_outgoing live h' small (asks {h = h} _ book_is_empty s e) = rw (e) (
    ask-Counts max live h (Session-Counts max per_ip min_outgoing live h small s) min_outgoing
      book_is_empty)
Session-Counts max per_ip min_outgoing live h' small (transfers {h = h} _ direction bytes s e) =
    rw (e) (
      transfer-Counts max live h (Session-Counts max per_ip min_outgoing live h small s) direction
        bytes)
