-- ===== src/Network/Addresses.antt =====
-- `IPAddress` and `IPEndpoint` of src/infra/network/addresses.hpp and addresses.cpp. A
-- `boost::asio::ip::address` is its version and its bytes in network order (a scope identifier, which
-- the code never sets, is left out); what Boost computes of it is a parameter.
pub mod Wire
pub mod Service
pub mod SubNet
use Prim.Native.Nat.{bit_and}
use znode.Common.{
  ℕ, ◌+◌, ◌*◌, ◌/◌, ◌%◌, ◌≡◌, Bool, true, false, not, ◌&&◌, ◌||◌, List, [], ◌∷◌, ◌++◌, length,
  replicate, get_or, ltb, leb, ◌==◌, if◌then◌else◌,
}
use znode.Common.Bytes.{bytes_eq}

pub data Address : Type 0 where
  v4 v6 : List ℕ → Address

-- What the code calls of Boost.
pub record IpLibrary : Type 0 where
  pub is_loopback_address : Address → Bool
  pub is_multicast_address : Address → Bool
  pub is_unspecified_address : Address → Bool
  pub any_v4 : List ℕ
  pub any_v6 : List ℕ
  pub v4_mapped : List ℕ → List ℕ
  pub to_uint : List ℕ → ℕ

-- What Boost's documentation says of the calls that the code relies on.
pub record IsIpLibrary (lib : IpLibrary) : Type 0 where
  pub mapped :
      (bytes : List ℕ)
      → length bytes ≡ 4
      → lib.v4_mapped bytes ≡ replicate 10 0 ++ (0xff ∷ 0xff ∷ bytes)
  pub uint : (a b c d : ℕ) → lib.to_uint (a ∷ b ∷ c ∷ d ∷ []) ≡ ((a * 256 + b) * 256 + c) * 256 + d

-- `enum class IPAddressReservationType`.
pub data IpAddressReservationType : Type 0 where
  not_reserved rfc1918 rfc2544 rfc6598 rfc5737 rfc3927 rfc3849 : IpAddressReservationType
  rfc3964 rfc4193 rfc4380 rfc4843 rfc4862 rfc6052 rfc6145 : IpAddressReservationType

pub data IpAddressType : Type 0 where
  ipv4 ipv6 : IpAddressType

-- `if (test) ret = type`.
unfoldable pub becomes :
    IpAddressReservationType → Bool → IpAddressReservationType → IpAddressReservationType
becomes ret test type = if test then type else ret

unfoldable pub address_v4_reservation : Address → IpAddressReservationType
unfolding becomes
address_v4_reservation (v6 bytes) = not_reserved
address_v4_reservation (v4 bytes) =
    let a = get_or bytes 0 0 in
    let b = get_or bytes 1 0 in
    let c = get_or bytes 2 0 in
    let ret1 =
      becomes not_reserved
        ((a == 10) || (((a == 172) && (leb 16 b && leb b 31)) || ((a == 192) && (b == 168))))
        rfc1918 in
    let ret2 = becomes ret1 ((a == 192) && ((b == 18) || (b == 19))) rfc2544 in
    let ret3 = becomes ret2 ((a == 100) && (leb 64 b && leb b 127)) rfc6598 in
    let ret4 =
      becomes ret3
        (((a == 192) && ((b == 0) && (c == 2)))
          || (((a == 198) && ((b == 51) && (c == 100)))
              || ((a == 203) && ((b == 0) && (c == 113)))))
        rfc5737 in
    becomes ret4 ((a == 169) && (b == 254)) rfc3927

-- The first bytes are those given.
unfoldable pub starts : List ℕ → List ℕ → Bool
starts [] bytes = true
starts (p ∷ ps) [] = false
starts (p ∷ ps) (b ∷ bs) = (b == p) && starts ps bs

unfoldable pub address_v6_reservation : Address → IpAddressReservationType
unfolding becomes starts
address_v6_reservation (v4 bytes) = not_reserved
address_v6_reservation (v6 bytes) =
    let ret1 = becomes not_reserved (starts (0x20 ∷ 0x01 ∷ 0x0d ∷ 0xb8 ∷ []) bytes) rfc3849 in
    let ret2 = becomes ret1 (starts (0x20 ∷ 0x02 ∷ []) bytes) rfc3964 in
    let ret3 = becomes ret2 (starts (0xfc ∷ []) bytes || starts (0xfd ∷ []) bytes) rfc4193 in
    let ret4 = becomes ret3 (starts (0x20 ∷ 0x01 ∷ 0x00 ∷ 0x00 ∷ []) bytes) rfc4380 in
    let ret5 =
      becomes ret4
        (starts (0x20 ∷ 0x01 ∷ 0x00 ∷ []) bytes && (bit_and (get_or bytes 3 0) 0xf0 == 0x10))
        rfc4843 in
    let ret6 = becomes ret5 (starts (0xfe ∷ 0x80 ∷ []) bytes) rfc4862 in
    let ret7 = becomes ret6 (starts (0x00 ∷ 0x64 ∷ 0xff ∷ 0x9b ∷ []) bytes) rfc6052 in
    becomes ret7 (starts (0x00 ∷ 0x00 ∷ 0xff ∷ 0xff ∷ replicate 12 0) bytes) rfc6145

unfoldable pub is_v4 : Address → Bool
is_v4 (v4 bytes) = true
is_v4 (v6 bytes) = false

unfoldable pub get_type : Address → IpAddressType
get_type (v4 bytes) = ipv4
get_type (v6 bytes) = ipv6

unfoldable pub to_bytes : Address → List ℕ
to_bytes (v4 bytes) = bytes
to_bytes (v6 bytes) = bytes

-- The reservations that `is_routable` lists.
unfoldable pub keeps_routable : IpAddressReservationType → Bool
keeps_routable rfc1918 = false
keeps_routable rfc2544 = false
keeps_routable rfc3927 = false
keeps_routable rfc4862 = false
keeps_routable rfc6598 = false
keeps_routable rfc5737 = false
keeps_routable rfc4193 = false
keeps_routable rfc4843 = false
keeps_routable rfc3849 = false
keeps_routable other = true

is_reserved_type : IpAddressReservationType → Bool
is_reserved_type not_reserved = false
is_reserved_type other = true

pub record IpEndpoint : Type 0 where
  pub address : Address
  pub port : ℕ

module _ (lib : IpLibrary) where
  abbrev pub is_loopback : Address → Bool
  is_loopback a = lib.is_loopback_address a

  abbrev pub is_multicast : Address → Bool
  is_multicast a = lib.is_multicast_address a

  abbrev pub is_unspecified : Address → Bool
  is_unspecified a = lib.is_unspecified_address a

  unfoldable pub is_any : Address → Bool
  is_any (v4 bytes) = bytes_eq bytes lib.any_v4
  is_any (v6 bytes) = bytes_eq bytes lib.any_v6

  unfoldable pub is_valid : Address → Bool
  unfolding is_any
  is_valid a = not (is_any a || is_unspecified a)

  unfoldable pub address_reservation : Address → IpAddressReservationType
  unfolding is_v4 address_v4_reservation address_v6_reservation
  address_reservation a =
      if is_unspecified a
      then not_reserved
      else if is_v4 a
      then address_v4_reservation a
      else address_v6_reservation a

  unfoldable pub is_routable : Address → Bool
  unfolding is_valid address_reservation keeps_routable
  is_routable a =
      if not (is_valid a) || is_loopback a then false else keeps_routable (address_reservation a)

  unfoldable pub is_reserved : Address → Bool
  unfolding address_reservation is_reserved_type
  is_reserved a = is_reserved_type (address_reservation a)

  unfoldable pub is_valid_endpoint : IpEndpoint → Bool
  unfolding is_valid
  is_valid_endpoint e = is_valid e.address && (ltb 1 e.port && ltb e.port 65535)

  unfoldable pub is_routable_endpoint : IpEndpoint → Bool
  unfolding is_valid_endpoint is_routable
  is_routable_endpoint e = is_valid_endpoint e && is_routable e.address

  unfoldable pub endpoint_bytes : IpEndpoint → List ℕ
  unfolding is_valid to_bytes
  endpoint_bytes e =
      (if is_valid e.address then to_bytes e.address else [])
      ++ ((e.port / 256) % 256 ∷ e.port % 256 ∷ [])
