-- ===== src/Node/Hub/Counts.antt =====
-- What the counters of `NodeHub` (src/node/network/node_hub.cpp) count.
use znode.Common.{
  ℕ, ◌+◌, ◌<◌, ◌≤◌, ◌≡◌, inl, inr, refl, ap, ◌∙◌, arith, Bool, true, false, not, List, [], ◌∷◌,
  ◌++◌, length, length-append, Option, some, none, ◌==◌, if◌then◌else◌, Bool-cases, ==_iff,
  ==-false,
}
use znode.Network.Addresses.{Address}
use znode.Network.AddressBook.Defs.{address_eq, increment, decrease, u32_mod}
use znode.Network.AddressBook.Erase.{Ensures}
use znode.Node.Hub.{
  Peer, Hub, connections_of, count_address, release_address, is_inbound, is_unspecified,
  on_node_connected, on_node_disconnected,
}
use znode.Node.Hub.Connected.{
  address_cases, address_eq_refl, value_of, one_less, Keyed, connections_of-count,
  connections_of-release, Keyed-count, Keyed-release,
}

-- The live connections with a property, and to an address.
abbrev pub count : (Peer → Bool) → List Peer → ℕ
count p [] = 0
count p (peer ∷ peers) = (if p peer then 1 else 0) + count p peers

abbrev pub tally : ℕ → Option ℕ
tally n = if n == 0 then none else some n

abbrev pub is_at_address : Address → Peer → Bool
is_at_address a peer = address_eq peer.address a

-- The counters are those of the live connections.
pub record Counts (max : ℕ) (live : List Peer) (h : Hub) : Type 0 where
  pub active : h.current_active_connections ≡ length live
  pub inbounds : h.current_active_inbound_connections ≡ count (λ peer. is_inbound peer.type) live
  pub outbounds :
      h.current_active_outbound_connections ≡ count (λ peer. not (is_inbound peer.type)) live
  pub addresses :
      (a : Address) → connections_of a h.connected_addresses ≡ tally (count (is_at_address a) live)
  pub keyed : Keyed h.connected_addresses
  pub bounded : length live ≤ max

count-append : (p : Peer → Bool) (xs ys : List Peer) → count p (xs ++ ys) ≡ count p xs + count p ys
count-append p [] ys = omega arith
count-append p (x ∷ xs) ys = omega (arith, count-append p xs ys)

count-le : (p : Peer → Bool) (xs : List Peer) → count p xs ≤ length xs
count-le p [] = omega arith
count-le p (x ∷ xs) = ground (arith, count-le p xs)

value_of-tally : (n : ℕ) → value_of (tally n) ≡ n
value_of-tally n = ground arith

tally_suc : (n : ℕ) → n + 1 < u32_mod → some (increment n) ≡ tally (1 + n)
tally_suc n h = elim (Bool-cases (1 + n == 0)) [
  | inl e ↦ let z : 1 + n ≡ 0 = (==_iff (1 + n) 0).0 e in absurd (omega arith)
  | inr e ↦ rw (e) (ap some (omega (arith, h)))
]

one_less-tally : (n : ℕ) → n + 1 < u32_mod → one_less (tally (1 + n)) ≡ tally n
unfolding one_less
one_less-tally n h =
    let e : decrease (1 + n) 1 ≡ n = omega (arith, h) in
    rw (==-false (1 + n) 0 (λ z. omega arith), e) refl

counted_addresses :
    (max : ℕ) (peer : Peer) (live : List Peer) (h : Hub) (a : Address)
    → Counts max live h
    → max < u32_mod
    → length live < max
    → connections_of a (count_address peer.address h.connected_addresses)
      ≡ tally (count (is_at_address a) (peer ∷ live))
counted_addresses max peer live h a c small room = elim (address_cases peer.address a) [
  | inl e ↦
      let n = count (is_at_address a) live in
      let m = h.connected_addresses in
      let few : n ≤ length live = count-le (is_at_address a) live in
      let same : address_eq peer.address a ≡ true =
        ap (λ x. address_eq x a) e ∙ address_eq_refl a in
      let found : connections_of peer.address m ≡ tally n =
        ap (λ x. connections_of x m) e ∙ c.addresses a in
      rw (connections_of-count peer.address a m, same, found, value_of-tally n)
        (tally_suc n (omega (arith, few, room, small)))
  | inr e ↦
      rw (connections_of-count peer.address a h.connected_addresses, e)
        (c.addresses a ∙ ap tally (omega arith))
]

-- A new connection is counted.
pub on_node_connected-Counts :
    (max : ℕ) (peer : Peer) (live : List Peer) (h : Hub)
    → Counts max live h
    → max < u32_mod
    → length live < max
    → is_unspecified peer.type ≡ false
    → Ensures (on_node_connected peer h) (Counts max (peer ∷ live))
unfolding on_node_connected
on_node_connected-Counts max peer live h c small room known =
    let few = count-le (λ peer. is_inbound peer.type) live in
    let others = count-le (λ peer. not (is_inbound peer.type)) live in
    elim (Bool-cases (is_inbound peer.type)) [
      | inl e ↦
          rw (known, e)
            (record {
              active = omega (arith, c.active, small, room);
              inbounds = rw (e) (omega (arith, c.inbounds, small, room, few));
              outbounds = rw (e) (omega (arith, c.outbounds));
              addresses = λ a. counted_addresses max peer live h a c small room;
              keyed = Keyed-count peer.address h.connected_addresses c.keyed;
              bounded = room;
            })
      | inr e ↦
          rw (known, e)
            (record {
              active = omega (arith, c.active, small, room);
              inbounds = rw (e) (omega (arith, c.inbounds));
              outbounds = rw (e) (omega (arith, c.outbounds, small, room, others));
              addresses = λ a. counted_addresses max peer live h a c small room;
              keyed = Keyed-count peer.address h.connected_addresses c.keyed;
              bounded = room;
            })
    ]

module _ (max : ℕ) (peer : Peer) (before behind : List Peer) (h : Hub)
    (c : Counts max (before ++ peer ∷ behind) h) (small : max < u32_mod) where
  split :
      (p : Peer → Bool)
      → count p (before ++ peer ∷ behind) ≡ (if p peer then 1 else 0) + count p (before ++ behind)
  split p = omega (arith, count-append p before (peer ∷ behind), count-append p before behind)

  shorter : length (before ++ peer ∷ behind) ≡ 1 + length (before ++ behind)
  shorter = omega (arith, length-append {0} before (peer ∷ behind), length-append {0} before behind)

  released_addresses :
      (a : Address)
      → connections_of a (release_address peer.address h.connected_addresses)
        ≡ tally (count (is_at_address a) (before ++ behind))
  released_addresses a = elim (address_cases peer.address a) [
    | inl e ↦
        let n = count (is_at_address a) (before ++ behind) in
        let m = h.connected_addresses in
        let few : n ≤ length (before ++ behind) = count-le (is_at_address a) (before ++ behind) in
        let same : address_eq peer.address a ≡ true =
          ap (λ x. address_eq x a) e ∙ address_eq_refl a in
        let more : count (is_at_address a) (before ++ peer ∷ behind) ≡ 1 + n =
          split (is_at_address a) ∙ rw (same) refl in
        let found : connections_of peer.address m ≡ tally (1 + n) =
          ap (λ x. connections_of x m) e ∙ c.addresses a ∙ ap tally more in
        rw (connections_of-release peer.address a m c.keyed, same, found)
          (one_less-tally n (omega (arith, few, shorter, c.bounded, small)))
    | inr e ↦
        let same : count (is_at_address a) (before ++ peer ∷ behind)
            ≡ count (is_at_address a) (before ++ behind) =
          split (is_at_address a) ∙ rw (e) (omega arith) in
        rw (connections_of-release peer.address a h.connected_addresses c.keyed, e)
          (c.addresses a ∙ ap tally same)
  ]

  -- A connection that ends is counted no more.
  pub on_node_disconnected-Counts :
      is_unspecified peer.type ≡ false
      → Ensures (on_node_disconnected peer h) (Counts max (before ++ behind))
  unfolding on_node_disconnected
  on_node_disconnected-Counts known =
      let few = count-le (λ peer. is_inbound peer.type) (before ++ peer ∷ behind) in
      let others = count-le (λ peer. not (is_inbound peer.type)) (before ++ peer ∷ behind) in
      let ins = split (λ peer. is_inbound peer.type) in
      let outs = split (λ peer. not (is_inbound peer.type)) in
      elim (Bool-cases (is_inbound peer.type)) [
        | inl e ↦
            rw (known, e)
              (record {
                active = omega (arith, c.active, shorter, small, c.bounded);
                inbounds = omega (arith, c.inbounds, (rw (e) at ins), few, small, c.bounded);
                outbounds = omega (arith, c.outbounds, (rw (e) at outs));
                addresses = released_addresses;
                keyed = Keyed-release peer.address h.connected_addresses c.keyed;
                bounded = omega (arith, c.bounded, shorter);
              })
        | inr e ↦
            rw (known, e)
              (record {
                active = omega (arith, c.active, shorter, small, c.bounded);
                inbounds = omega (arith, c.inbounds, (rw (e) at ins));
                outbounds = omega (arith, c.outbounds, (rw (e) at outs), others, small, c.bounded);
                addresses = released_addresses;
                keyed = Keyed-release peer.address h.connected_addresses c.keyed;
                bounded = omega (arith, c.bounded, shorter);
              })
      ]
