-- ===== src/Network/Header/Accept.antt =====
-- What a header that `MessageHeader::validate` accepts satisfies.
use znode.Common.{
  ℕ, ◌≤◌, ◌≡◌, ◌≢◌, refl, arith, Bool, true, false, not, ◌&&◌, List, length, take, success, failure,
  if◌then◌else◌, ltb, ◌==◌, sym,
}
use znode.Common.Bytes.{bytes_eq, bytes_eq→eq}
use znode.Errors.{ErrorCode, net, NetError, is_incomplete}
use znode.Stream.Defs.{Status}
use znode.Network.Protocol.{MessageType, missing_or_unknown, message_type_from_command, is_missing}
use znode.Network.Definitions.{MessageDefinition, definition_of}
use znode.Network.Header.{
  External, IsExternal, MessageHeader, empty_hash, or_default, max_protocol_message_length,
  check_payload, validate_magic, below_version, above_version,
}

-- The magic is the network's, the command names a known type, the payload's length is in the type's
-- range, and an empty payload has its known checksum.
pub record Accepted (h : MessageHeader) (magic : List ℕ) : Type 0 where
  pub right_magic : h.network_magic ≡ magic
  pub right_type : h.message_type ≡ message_type_from_command h.command
  pub known : h.message_type ≢ missing_or_unknown
  pub bounded : h.payload_length ≤ max_protocol_message_length
  pub at_least : or_default (definition_of h.message_type).min_payload_length 0 ≤ h.payload_length
  pub at_most :
      h.payload_length
      ≤ or_default (definition_of h.message_type).max_payload_length max_protocol_message_length
  pub empty_checksum :
      h.payload_length ≡ 0 → take (length h.payload_checksum) empty_hash ≡ h.payload_checksum

-- Success under `P`, or an error that is no request for more data.
abbrev pub Decides : Type 0 → Status → Type 0
Decides P (success u) = P
Decides P (failure e) = is_incomplete e ≡ false

record Decision (P : Type 0) (s : Status) : Type 0 where
  outcome : Decides P s

gate :
    {P : Type 0} (b : Bool) (e : ErrorCode) (rest : Status)
    → is_incomplete e ≡ false
    → (b ≡ false → Decision P rest)
    → Decision P (if b then failure e else rest)
gate true e rest h k = record { outcome = h }
gate false e rest h k = k refl

abbrev PayloadOk : MessageHeader → Type 0
PayloadOk h =
    (h.payload_length ≤ max_protocol_message_length)
    × (or_default (definition_of h.message_type).min_payload_length 0 ≤ h.payload_length)
    × (h.payload_length
        ≤ or_default (definition_of h.message_type).max_payload_length max_protocol_message_length)
    × (h.payload_length ≡ 0 → take (length h.payload_checksum) empty_hash ≡ h.payload_checksum)

module _ (x : External) (laws : IsExternal x) (h : MessageHeader) (protocol_version : ℕ) where
  clamped :
      (lo hi : ℕ)
      → not (x.clamp h.payload_length lo hi == h.payload_length) ≡ false
      → (lo ≤ h.payload_length) × (h.payload_length ≤ hi)
  clamped lo hi e = (laws.clamp_iff h.payload_length lo hi).0 (ground arith)

  checksum_of_empty :
      (b : Bool)
      → b ≡ bytes_eq h.payload_checksum (take (length h.payload_checksum) empty_hash)
      → ((h.payload_length == 0) && not b) ≡ false
      → h.payload_length ≡ 0
      → take (length h.payload_checksum) empty_hash ≡ h.payload_checksum
  checksum_of_empty true eb e zero_length = sym (bytes_eq→eq _ _ (sym eb))
  checksum_of_empty false eb e zero_length = absurd (ground arith)

  abbrev definition : MessageDefinition
  definition = definition_of h.message_type

  abbrev lowest : ℕ
  lowest = or_default definition.min_payload_length 0

  abbrev highest : ℕ
  highest = or_default definition.max_payload_length max_protocol_message_length

  abbrev empty_test : Bool
  empty_test =
      (h.payload_length == 0)
      && not (bytes_eq h.payload_checksum (take (length h.payload_checksum) empty_hash))

  abbrev from_empty : Status
  from_empty =
      if empty_test then failure (net NetError.message_header_invalid_checksum) else success tt

  abbrev from_range : Status
  from_range =
      if not (x.clamp h.payload_length lowest highest == h.payload_length)
      then failure (net NetError.message_header_illegal_payload_length)
      else from_empty

  abbrev from_newest : Status
  from_newest =
      if above_version protocol_version definition.max_protocol_version
      then failure (net NetError.deprecated_message_type_for_protocol_version)
      else from_range

  abbrev from_oldest : Status
  from_oldest =
      if below_version protocol_version definition.min_protocol_version
      then failure (net NetError.unsupported_message_type_for_protocol_version)
      else from_newest

  range_lem : h.payload_length ≤ max_protocol_message_length → Decision (PayloadOk h) from_range
  unfolding is_incomplete
  range_lem bounded =
      gate (not (x.clamp h.payload_length lowest highest == h.payload_length)) _ from_empty refl
        λ in_range. gate empty_test _ (success tt) refl λ sum.
          let range = clamped lowest highest in_range in
          record { outcome = (bounded, range.0, range.1, checksum_of_empty _ refl sum) }

  check_payload_lem : Decision (PayloadOk h) (check_payload x h protocol_version)
  unfolding check_payload is_incomplete
  check_payload_lem =
      gate (ltb max_protocol_message_length h.payload_length) _ from_oldest refl λ within.
        gate (below_version protocol_version definition.min_protocol_version) _ from_newest refl
          λ new.
            gate (above_version protocol_version definition.max_protocol_version) _ from_range refl
              λ old. range_lem (ground (arith, within))

-- The header that `validate` leaves.
abbrev pub typed : MessageHeader → MessageHeader
typed h = record h { message_type = message_type_from_command h.command }

-- `validate` accepts a header with its type set, or fails with an error other than a request for more data.
abbrev pub Validates : MessageHeader → List ℕ → Status × MessageHeader → Type 0
Validates h magic (success u, h') = (h' ≡ typed h) × Accepted h' magic
Validates h magic (failure e, h') = is_incomplete e ≡ false

Validates-if :
    (h : MessageHeader) (magic : List ℕ) (b : Bool) (e : ErrorCode) (h' : MessageHeader)
    (rest : Status × MessageHeader)
    → is_incomplete e ≡ false
    → (b ≡ false → Validates h magic rest)
    → Validates h magic (if b then (failure e, h') else rest)
Validates-if h magic true e h' rest i k = i
Validates-if h magic false e h' rest i k = k refl

missing_lem : (type : MessageType) → is_missing type ≡ false → type ≢ missing_or_unknown
unfolding is_missing
missing_lem type e same = cc

module _ (h : MessageHeader) (magic : List ℕ) where
  accept :
      h.network_magic ≡ magic
      → is_missing (message_type_from_command h.command) ≡ false
      → (s : Status) → Decision (PayloadOk (typed h)) s
      → Validates h magic (s, typed h)
  accept same known (failure e) d = d.outcome
  accept same known (success u) d = (
    refl,
    record {
      right_magic = same;
      right_type = refl;
      known = missing_lem _ known;
      bounded = d.outcome.0;
      at_least = d.outcome.1;
      at_most = d.outcome.2;
      empty_checksum = d.outcome.3;
    },
  )

module _ (x : External) (laws : IsExternal x) where
  -- With a clamp that leaves alone just the values in its range, MessageHeader::validate accepts a
  -- header only with the magic of the network, a known type that its command names, a payload
  -- length in the range of that type and, for an empty payload, the checksum of the empty payload,
  -- and then only sets the type; each error is one that asks for no more data.
  pub validate_magic_lem :
      (h : MessageHeader) (protocol_version : ℕ) (magic : List ℕ)
      → Validates h magic (validate_magic x h protocol_version magic)
  unfolding validate_magic is_incomplete
  validate_magic_lem h protocol_version magic =
      Validates-if h magic (not (length magic == length h.network_magic)) _ _ _ refl λ same_length.
        Validates-if h magic (not (bytes_eq h.network_magic magic)) _ _ _ refl λ same.
          Validates-if h magic (is_missing (message_type_from_command h.command)) _ _ _ refl
            λ known.
              accept h magic (bytes_eq→eq _ _ (ground arith)) known _
                (check_payload_lem x laws (typed h) protocol_version)
