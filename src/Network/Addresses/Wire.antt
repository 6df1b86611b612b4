-- ===== src/Network/Addresses/Wire.antt =====
-- Addresses and endpoints on the wire: `bind` of an `ip::address`
-- (src/core/serialization/stream.hpp) and `IPEndpoint::serialization`
-- (src/infra/network/addresses.cpp).
use znode.Common.{
  ℕ, ◌+◌, ◌*◌, ◌/◌, ◌%◌, ◌^◌, ◌<◌, ◌≡◌, refl, ap, arith, false, List, [], ◌∷◌, ◌++◌, length,
  length-append, replicate, get_or, take, success, failure, if◌then◌else◌,
}
use znode.Common.Bytes.{bytes_eq}
use znode.Stream.Defs.{Status}
use znode.Serialize.Defs.{SDataStream, compute_size, serialize, deserialize, le_bytes}
use znode.Serialize.LittleEndian.{length-le_bytes}
use znode.Serialize.Bind.{Bind, bind_int, bind_array, field, via, ◌⨾◌, count}
use znode.Serialize.Codec.{RoundTrips, Measures, seq-RoundTrips, seq-Measures}
use znode.Serialize.Members.{
  field-RoundTrips, field-Measures, via-RoundTrips, via-Measures, bind_int-RoundTrips,
  bind_int-Measures, bind_array-RoundTrips, bind_array-Measures,
}
use znode.Network.Addresses.{Address, v4, v6, IpLibrary, IsIpLibrary, IpEndpoint}

abbrev zero_bytes : List ℕ
zero_bytes = replicate 16 0

-- The two `make_address` calls behind a read: the first eight bytes decide.
unfoldable pub address_from : List ℕ → Address
address_from bytes =
    if bytes_eq (take 8 bytes) (replicate 8 0)
    then v4 (get_or bytes 12 0 ∷ get_or bytes 13 0 ∷ get_or bytes 14 0 ∷ get_or bytes 15 0 ∷ [])
    else v6 bytes

-- The object stays as it was, or is made from the bytes read.
unfoldable pub make_address :
    Address → Status × List ℕ × SDataStream → Status × Address × SDataStream
unfolding address_from
make_address old (success u, bytes, s) = (success tt, address_from bytes, s)
make_address old (failure e, bytes, s) = (failure e, old, s)

-- Bytes on the wire in the order of the network.
unfoldable pub bswap_16 : ℕ → ℕ
bswap_16 n = (n % 256) * 256 + (n / 256) % 256

unfoldable pub bind_port : Bind ℕ
unfolding bswap_16
bind_port = via bswap_16 bswap_16 (bind_int 2)

module _ (lib : IpLibrary) where
  unfoldable pub address_bytes : Address → List ℕ
  address_bytes (v4 bytes) = lib.v4_mapped bytes
  address_bytes (v6 bytes) = bytes

  unfoldable pub bind_address : Bind Address
  unfolding address_bytes make_address
  bind_address a compute_size s = (success tt, a, count 16 s)
  bind_address a serialize s =
      let (r, bytes, s') = bind_array 16 (address_bytes a) serialize s in (r, a, s')
  bind_address a deserialize s = make_address a (bind_array 16 zero_bytes deserialize s)

  unfoldable pub bind_endpoint : Bind IpEndpoint
  unfolding bind_address bind_port
  bind_endpoint =
      field (λ e. e.address) (λ a e. record e { address = a }) bind_address
      ⨾ field (λ e. e.port) (λ p e. record e { port = p }) bind_port

-- Addresses that the wire can tell apart: of the version's size, and no IPv6 address that starts
-- with eight zero bytes.
unfoldable pub IsWire : Address → Type 0
IsWire (v4 bytes) = length bytes ≡ 4
IsWire (v6 bytes) = (length bytes ≡ 16) × (bytes_eq (take 8 bytes) (replicate 8 0) ≡ false)

abbrev pub IsPort : ℕ → Type 0
IsPort port = port < 65536

abbrev pub IsWireEndpoint : IpEndpoint → Type 0
IsWireEndpoint e = IsWire e.address × IsPort e.port

-- The port's high byte comes first.
unfoldable pub port_bytes : ℕ → List ℕ
port_bytes port = le_bytes 2 (bswap_16 port)

unfoldable pub wire_bytes : IpLibrary → IpEndpoint → List ℕ
unfolding address_bytes port_bytes
wire_bytes lib e = address_bytes lib e.address ++ port_bytes e.port

port_swaps : (port : ℕ) → port < 65536 → bswap_16 (bswap_16 port) ≡ port
unfolding bswap_16
port_swaps port h = omega arith

small_port : (port : ℕ) → IsPort port → bswap_16 port < 256 ^ 2
unfolding bswap_16
small_port port h = omega arith

bind_port-RoundTrips : RoundTrips bind_port IsPort port_bytes (λ p old. p)
unfolding bind_port port_bytes
bind_port-RoundTrips =
    via-RoundTrips bswap_16 bswap_16 IsPort small_port port_swaps (bind_int-RoundTrips 2)

bind_port-Measures : Measures bind_port IsPort port_bytes
unfolding bind_port port_bytes
bind_port-Measures =
    via-Measures bswap_16 bswap_16 IsPort small_port port_swaps (bind_int-Measures 2)

-- The mapped form of four bytes, written out.
four_mapped :
    (bytes : List ℕ)
    → length bytes ≡ 4
    → (length (replicate 10 0 ++ (0xff ∷ 0xff ∷ bytes)) ≡ 16)
      × (address_from (replicate 10 0 ++ (0xff ∷ 0xff ∷ bytes)) ≡ v4 bytes)
unfolding address_from bytes_eq
four_mapped [] h = absurd (omega arith)
four_mapped (a ∷ []) h = absurd (omega arith)
four_mapped (a ∷ b ∷ []) h = absurd (omega arith)
four_mapped (a ∷ b ∷ c ∷ []) h = absurd (omega arith)
four_mapped (a ∷ b ∷ c ∷ d ∷ []) h = (refl, refl)
four_mapped (a ∷ b ∷ c ∷ d ∷ e ∷ rest) h = absurd (omega arith)

module _ (lib : IpLibrary) (good : IsIpLibrary lib) where
  length-address_bytes : (a : Address) → IsWire a → length (address_bytes lib a) ≡ 16
  unfolding address_bytes IsWire
  length-address_bytes (v4 bytes) h = rw (good.mapped bytes h) ((four_mapped bytes h).0)
  length-address_bytes (v6 bytes) h = h.0

  address_from-address_bytes : (a : Address) → IsWire a → address_from (address_bytes lib a) ≡ a
  unfolding address_from address_bytes IsWire
  address_from-address_bytes (v4 bytes) h = rw (good.mapped bytes h) ((four_mapped bytes h).1)
  address_from-address_bytes (v6 bytes) h = rw (h.1)

  pub bind_address-RoundTrips :
      RoundTrips (bind_address lib) IsWire (address_bytes lib) (λ a old. a)
  unfolding bind_address make_address
  bind_address-RoundTrips = record {
    writes = λ a s h fits.
        rw (
          (bind_array-RoundTrips 16).writes (address_bytes lib a) s (length-address_bytes a h)
            fits);
    reads = λ a old s rest h v e. rw (
      (bind_array-RoundTrips 16).reads (address_bytes lib a) zero_bytes s rest
          (length-address_bytes a h) v e,
      address_from-address_bytes a h,
    );
  }

  pub bind_address-Measures : Measures (bind_address lib) IsWire (address_bytes lib)
  unfolding bind_address bind_array
  bind_address-Measures = record {
    measures = λ a s h small.
        ap (λ (x : Status × List ℕ × SDataStream). (x.0, a, x.2))
          ((bind_array-Measures 16).measures (address_bytes lib a) s (length-address_bytes a h)
            small);
  }

  pub bind_endpoint-RoundTrips :
      RoundTrips (bind_endpoint lib) IsWireEndpoint (wire_bytes lib) (λ e old. e)
  unfolding bind_endpoint wire_bytes
  bind_endpoint-RoundTrips =
      seq-RoundTrips
        (field-RoundTrips (λ e. e.address) (λ a e. record e { address = a }) (λ e. refl)
          bind_address-RoundTrips)
        (field-RoundTrips (λ e. e.port) (λ p e. record e { port = p }) (λ e. refl)
          bind_port-RoundTrips)

  pub bind_endpoint-Measures : Measures (bind_endpoint lib) IsWireEndpoint (wire_bytes lib)
  unfolding bind_endpoint wire_bytes
  bind_endpoint-Measures =
      seq-Measures
        (field-Measures (λ e. e.address) (λ a e. record e { address = a }) (λ e. refl)
          bind_address-Measures)
        (field-Measures (λ e. e.port) (λ p e. record e { port = p }) (λ e. refl) bind_port-Measures)

  pub length-wire_bytes : (e : IpEndpoint) → IsWireEndpoint e → length (wire_bytes lib e) ≡ 18
  unfolding wire_bytes port_bytes
  length-wire_bytes e h = omega (
    arith,
    length-append (address_bytes lib e.address) (le_bytes 2 (bswap_16 e.port)),
    length-address_bytes e.address h.0,
    length-le_bytes 2 (bswap_16 e.port),
  )
