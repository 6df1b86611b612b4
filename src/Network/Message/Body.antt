-- ===== src/Network/Message/Body.antt =====
-- A message whose header was accepted, and the ends that its validation may have
-- (src/infra/network/message.cpp).
use znode.Common.{ℕ, ◌+◌, ◌<◌, ◌≤◌, ◌≡◌, arith, true, length, take, drop, success, failure}
use znode.Errors.{is_incomplete}
use znode.Network.Protocol.{
  MessageType, version, verack, ping, pong, get_addr, mempool, reject, missing_or_unknown,
}
use znode.Network.Definitions.{definition_of}
use znode.Network.Header.{
  External, hash256, get_definition, or_default, max_protocol_message_length,
}
use znode.Network.Message.Defs.{Message, returned, aborted, Ended, vector_offset}

-- A vectorized definition leaves room for a count of any width.
pub definition_of-room :
    (type : MessageType)
    → (definition_of type).is_vectorized ≡ true
    → vector_offset (definition_of type) + 9 ≤ or_default (definition_of type).min_payload_length 0
unfolding definition_of vector_offset
definition_of-room version h = cc
definition_of-room verack h = cc
definition_of-room ping h = cc
definition_of-room pong h = cc
definition_of-room get_addr h = cc
definition_of-room mempool h = cc
definition_of-room reject h = cc
definition_of-room missing_or_unknown h = cc
definition_of-room _ h = omega arith

-- The message with its cursor at `p`.
abbrev pub at_pos : Message → ℕ → Message
at_pos m p = record m {
  ser_stream = record m.ser_stream { base = record m.ser_stream.base { read_position = p } };
}

abbrev pub buffered : Message → ℕ
buffered m = length m.ser_stream.base.buffer

-- The header was read and accepted, and there is no more than the message.
pub record BodyReady (m : Message) : Type 0 where
  pub cursor : m.ser_stream.base.read_position ≡ 24
  pub header_read : 24 ≤ buffered m
  pub not_over : buffered m ≤ 24 + m.header.payload_length
  pub bounded : m.header.payload_length ≤ max_protocol_message_length
  pub room :
      (get_definition m.header).is_vectorized ≡ true
      → vector_offset (get_definition m.header) + 9 ≤ m.header.payload_length

-- The payload has its length, and the header's checksum is that of the payload.
abbrev pub Checked : External → Message → Type 0
Checked x m =
    (buffered m ≡ 24 + m.header.payload_length)
    × (take (length m.header.payload_checksum) (hash256 x (drop 24 m.ser_stream.base.buffer))
        ≡ m.header.payload_checksum)

-- How a stage on `m` may end: no assertion fails, only the cursor and the flag change, success means
-- a checked payload, and an incomplete body one that is cut off.
abbrev pub BodyEnd : External → Message → Ended → Type 0
BodyEnd x m (aborted, m') = ⊥
BodyEnd x m (returned (failure e), m') =
    ((p : ℕ) × (m' ≡ at_pos m p))
    × (is_incomplete e ≡ true → buffered m < 24 + m.header.payload_length)
BodyEnd x m (returned (success u), m') =
    ((p : ℕ) × (m' ≡ record (at_pos m p) { payload_validated = true })) × Checked x m
