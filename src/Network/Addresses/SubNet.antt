-- ===== src/Network/Addresses/SubNet.antt =====
-- `IPSubNet` (src/infra/network/addresses.hpp and addresses.cpp).
pub mod Masks
pub mod Contains
use Prim.Native.Nat.{bit_and}
use znode.Common.{
  ℕ, zero, suc, ◌+◌, ◌*◌, ◌/◌, ◌%◌, ◌-◌, ◌^◌, Bool, true, false, not, ◌&&◌, ◌||◌, List, [], ◌∷◌,
  Outcome, success, failure, get_or, if◌then◌else◌, ltb, leb, ◌==◌,
}
use znode.Network.Addresses.{
  Address, v4, v6, IpLibrary, is_v4, is_valid, is_loopback, is_unspecified,
}

-- The `boost::system::errc` values that the class returns.
pub data SubNetError : Type 0 where
  value_too_large invalid_argument illegal_byte_sequence : SubNetError

pub record IpSubNet : Type 0 where
  pub base_address : Address
  pub prefix_length : ℕ

-- `0xFFFFFFFFU << (32U - prefix_length)`. At a prefix of 0 the source shifts by 32, which the language
-- leaves undefined; here that mask is 0.
unfoldable pub v4_mask : ℕ → ℕ
v4_mask prefix = (0xffffffff * 2 ^ (32 - prefix)) % 2 ^ 32

-- The byte at `index` of the mask: full below the prefix, cut at its last byte.
unfoldable pub mask_byte : ℕ → ℕ → ℕ
mask_byte prefix index =
    if ltb index (prefix / 8)
    then 0xff
    else if (index == prefix / 8) && not (prefix % 8 == 0)
    then bit_and 0xff (0xff * 2 ^ (8 - prefix % 8))
    else 0

-- The loop over the bytes and the mask, from `index` on.
unfoldable pub mask_bytes : ℕ → ℕ → List ℕ → List ℕ
unfolding mask_byte
mask_bytes prefix index [] = []
mask_bytes prefix index (b ∷ bs) =
    bit_and b (mask_byte prefix index) ∷ mask_bytes prefix (suc index) bs

-- The same loop where it compares, and returns at the first difference.
unfoldable pub match_bytes : ℕ → ℕ → List ℕ → List ℕ → Bool
unfolding mask_byte
match_bytes prefix index [] base = true
match_bytes prefix index (b ∷ bs) base =
    let rest = match_bytes prefix (suc index) bs base in
    if not (bit_and b (mask_byte prefix index) == get_or base index 0) then false else rest

-- `make_address_v4` of the four bytes of a number.
unfoldable pub split_bytes : ℕ → List ℕ
split_bytes n = (n / 2 ^ 24) % 256 ∷ (n / 2 ^ 16) % 256 ∷ (n / 2 ^ 8) % 256 ∷ n % 256 ∷ []

module _ (lib : IpLibrary) where
  unfoldable pub is_valid_subnet : IpSubNet → Bool
  unfolding is_valid is_v4
  is_valid_subnet n =
      is_valid lib n.base_address
      && (ltb 0 n.prefix_length && leb n.prefix_length (if is_v4 n.base_address then 32 else 128))

  contains_bytes : Address → ℕ → Address → Bool
  unfolding v4_mask match_bytes
  contains_bytes (v4 base) prefix (v4 bytes) =
      bit_and (lib.to_uint bytes) (v4_mask prefix) == lib.to_uint base
  contains_bytes (v4 base) prefix (v6 bytes) = false
  contains_bytes (v6 base) prefix (v4 bytes) = false
  contains_bytes (v6 base) prefix (v6 bytes) = match_bytes prefix 0 bytes base

  unfoldable pub contains : IpSubNet → Address → Bool
  unfolding is_valid_subnet contains_bytes
  contains n a =
      if not (is_valid_subnet n) || (is_unspecified lib a || is_loopback lib a)
      then false
      else contains_bytes n.base_address n.prefix_length a

  -- The overload for an `IPAddress`.
  unfoldable pub contains_address : IpSubNet → Address → Bool
  unfolding is_valid_subnet contains is_valid
  contains_address n a =
      if not (is_valid_subnet n) || not (is_valid lib a) then false else contains n a

  unfoldable pub calculate_subnet_base_address : Address → ℕ → Outcome SubNetError Address
  unfolding v4_mask mask_bytes split_bytes
  calculate_subnet_base_address (v4 bytes) prefix =
      if ltb 32 prefix
      then failure value_too_large
      else success (v4 (split_bytes (bit_and (v4_mask prefix) (lib.to_uint bytes))))
  calculate_subnet_base_address (v6 bytes) prefix =
      if ltb 128 prefix then failure value_too_large else success (v6 (mask_bytes prefix 0 bytes))

  -- The overload for an `IPAddress`.
  unfoldable pub subnet_base_address : Address → ℕ → Outcome SubNetError Address
  unfolding is_valid calculate_subnet_base_address
  subnet_base_address a prefix =
      if not (is_valid lib a)
      then failure invalid_argument
      else calculate_subnet_base_address a prefix

-- `parse_prefix_length` of a mask in decimal notation, from its octets on: a loop with the octets left,
-- whether a zero was seen, and the ones counted.
unfoldable pub is_mask_octet : ℕ → Bool
is_mask_octet o =
    (leb 252 o && not (o == 253))
    || ((o == 128) || ((o == 192) || ((o == 224) || ((o == 240) || (o == 248)))))

unfoldable pub popcount : ℕ → ℕ → ℕ
popcount zero n = 0
popcount (suc bits) n = n % 2 + popcount bits (n / 2)

unfoldable pub count_octets : List ℕ → Bool → ℕ → Outcome SubNetError ℕ
unfolding is_mask_octet popcount
count_octets [] zero_found ones = success ones
count_octets (o ∷ os) zero_found ones =
    let after_zero = count_octets os true ones in
    let after_ones = count_octets os zero_found (ones + popcount 16 o) in
    if o == 0
    then after_zero
    else if is_mask_octet o && leb o 255
    then (if zero_found then failure illegal_byte_sequence else after_ones)
    else failure invalid_argument
