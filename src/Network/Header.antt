-- ===== src/Network/Header.antt =====
-- `MessageHeader` (src/infra/network/message.hpp, message.cpp) and the double digest of
-- src/core/crypto/hash256.cpp. SHA-256 is OpenSSL's and `clamp` is Boost's: both are parameters.
pub mod Accept
pub mod Fields
pub mod Reading
use znode.Common.{
  ℕ, suc, ◌+◌, ◌*◌, ◌%◌, ◌≤◌, ◌<◌, ◌≡◌, ◌↔◌, refl, arith, Bool, true, false, not, ◌&&◌, ◌||◌, List,
  [], ◌∷◌, length, take, replicate, Option, some, none, pad_to, Outcome, success, failure,
  if◌then◌else◌, ltb, leb, ◌==◌,
}
use znode.Common.Words.{u32_mod}
use znode.Common.Bytes.{bytes_eq}
use znode.Errors.{ErrorCode, net, NetError}
use znode.Stream.Defs.{Status}
use znode.Serialize.Bind.{Bind, field, ◌⨾◌, bind_int, bind_array}
use znode.Network.Protocol.{
  MessageType, missing_or_unknown, message_type_from_command, message_header_command_length,
  is_missing,
}
use znode.Network.Definitions.{MessageDefinition, definition_of}

pub record External : Type 0 where
  pub sha256 : List ℕ → List ℕ
  pub clamp : ℕ → ℕ → ℕ → ℕ

-- What the code relies on: `clamp` leaves alone just the values in its range.
pub record IsExternal (x : External) : Type 0 where
  pub clamp_iff : (v lo hi : ℕ) → (x.clamp v lo hi ≡ v) ↔ ((lo ≤ v) × (v ≤ hi))

-- `Hash256::kEmptyHash`.
abbrev pub empty_hash : List ℕ
empty_hash =
    0x5d ∷ 0xf6 ∷ 0xe0 ∷ 0xe2 ∷ 0x76 ∷ 0x13 ∷ 0x59 ∷ 0xd3 ∷ 0x0a ∷ 0x82 ∷ 0x75 ∷ 0x05 ∷ 0x8e ∷ 0x29
    ∷ 0x9f ∷ 0xcc ∷ 0x03 ∷ 0x81 ∷ 0x53 ∷ 0x45 ∷ 0x45 ∷ 0xf5 ∷ 0x5c ∷ 0xf4 ∷ 0x3e ∷ 0x41 ∷ 0x98
    ∷ 0x3f ∷ 0x5d ∷ 0x4c ∷ 0x94 ∷ 0x56 ∷ []

unfoldable pub second_pass : (List ℕ → List ℕ) → List ℕ → List ℕ
second_pass sha256 [] = []
second_pass sha256 (b ∷ bs) = sha256 (b ∷ bs)

-- `Hash256(data).finalize()`.
unfoldable pub hash256 : External → List ℕ → List ℕ
unfolding second_pass
hash256 x [] = empty_hash
hash256 x (b ∷ bs) = second_pass x.sha256 (x.sha256 (b ∷ bs))

abbrev pub max_protocol_message_length : ℕ
max_protocol_message_length = 0x40_0000

abbrev pub message_header_length : ℕ
message_header_length = 24

abbrev pub checksum_length : ℕ
checksum_length = 4

pub record MessageHeader : Type 0 where
  pub network_magic : List ℕ
  pub command : List ℕ
  pub payload_length : ℕ
  pub payload_checksum : List ℕ
  pub message_type : MessageType

unfoldable pub reset_header : MessageHeader → MessageHeader
reset_header h = record {
  network_magic = replicate 4 0;
  command = replicate message_header_command_length 0;
  payload_length = 0;
  payload_checksum = replicate checksum_length 0;
  message_type = missing_or_unknown;
}

unfoldable pub all_zero : List ℕ → Bool
all_zero [] = true
all_zero (b ∷ bs) = (b == 0) && all_zero bs

unfoldable pub pristine : MessageHeader → Bool
unfolding all_zero is_missing
pristine h =
    all_zero h.network_magic
    && (all_zero h.command
        && (all_zero h.payload_checksum && (is_missing h.message_type && (h.payload_length == 0))))

-- `memcpy` of the command string over the field.
unfoldable pub overlay : List ℕ → List ℕ → List ℕ
overlay [] field_bytes = field_bytes
overlay (c ∷ cs) [] = []
overlay (c ∷ cs) (b ∷ bs) = c ∷ overlay cs bs

unfoldable pub set_type : MessageHeader → MessageType → MessageHeader
unfolding pristine overlay definition_of
set_type h type = if not (pristine h) then h else record h {
  command = overlay (take (length h.command) (definition_of type).command) h.command;
  message_type = type;
}

unfoldable pub bind_header : Bind MessageHeader
bind_header =
    field (λ h. h.network_magic) (λ v h. record h { network_magic = v }) (bind_array 4)
    ⨾ field (λ h. h.command) (λ v h. record h { command = v }) (bind_array 12)
    ⨾ field (λ h. h.payload_length) (λ v h. record h { payload_length = v }) (bind_int 4)
    ⨾ field (λ h. h.payload_checksum) (λ v h. record h { payload_checksum = v }) (bind_array 4)

unfoldable pub get_definition : MessageHeader → MessageDefinition
get_definition h = definition_of h.message_type

abbrev pub or_default : Option ℕ → ℕ → ℕ
or_default none d = d
or_default (some v) d = v

-- `a < b` on `int`s that are bit patterns.
abbrev pub signed_lt : ℕ → ℕ → Bool
signed_lt a b = ltb ((a + 0x8000_0000) % u32_mod) ((b + 0x8000_0000) % u32_mod)

unfoldable pub below_version : ℕ → Option ℕ → Bool
below_version version none = false
below_version version (some least) = signed_lt version least

unfoldable pub above_version : ℕ → Option ℕ → Bool
above_version version none = false
above_version version (some most) = signed_lt most version

-- The checks behind the header's type.
unfoldable pub check_payload : External → MessageHeader → ℕ → Status
unfolding below_version above_version
check_payload x h protocol_version =
    let definition = definition_of h.message_type in
    let lo = or_default definition.min_payload_length 0 in
    let hi = or_default definition.max_payload_length max_protocol_message_length in
    if ltb max_protocol_message_length h.payload_length
    then failure (net NetError.message_header_illegal_payload_length)
    else if below_version protocol_version definition.min_protocol_version
    then failure (net NetError.unsupported_message_type_for_protocol_version)
    else if above_version protocol_version definition.max_protocol_version
    then failure (net NetError.deprecated_message_type_for_protocol_version)
    else if not (x.clamp h.payload_length lo hi == h.payload_length)
    then failure (net NetError.message_header_illegal_payload_length)
    else if (h.payload_length == 0)
        && not (bytes_eq h.payload_checksum (take (length h.payload_checksum) empty_hash))
    then failure (net NetError.message_header_invalid_checksum)
    else success tt

unfoldable pub check_type : External → MessageHeader → ℕ → Status × MessageHeader
unfolding check_payload is_missing
check_type x h protocol_version =
    if is_missing h.message_type
    then (failure (net NetError.message_header_illegal_command), h)
    else (check_payload x h protocol_version, h)

-- The type is set as soon as the magic is right.
unfoldable pub validate_magic : External → MessageHeader → ℕ → List ℕ → Status × MessageHeader
unfolding check_type
validate_magic x h protocol_version magic =
    if not (length magic == length h.network_magic)
    then (failure (net NetError.message_header_invalid_magic), h)
    else if not (bytes_eq h.network_magic magic)
    then (failure (net NetError.message_header_invalid_magic), h)
    else check_type x (record h { message_type = message_type_from_command h.command })
        protocol_version
