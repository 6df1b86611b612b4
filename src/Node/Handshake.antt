-- ===== src/Node/Handshake.antt =====
-- The protocol handshake: `ProtocolHandShakeStatus` and
-- `Node::validate_message_for_protocol_handshake` (src/node/network/node.hpp and node.cpp).
pub mod Flags
pub mod Reach
use Prim.Native.Nat.{bit_and, bit_or}
use znode.Common.{
  ℕ, suc, ◌*◌, ◌^◌, Bool, true, false, not, ◌&&◌, ◌||◌, List, [], ◌∷◌, Outcome, success, failure,
  if◌then◌else◌, ltb, ◌==◌,
}
use znode.Errors.{ErrorCode, net, NetError}
use znode.Network.Protocol.{MessageType, version, verack}

-- `DataDirectionMode`.
pub data Direction : Type 0 where
  outbound inbound : Direction

direction_value : Direction → ℕ
direction_value outbound = 0
direction_value inbound = 1

-- `ProtocolHandShakeStatus` is a set of flags.
abbrev pub not_initiated : ℕ
not_initiated = 0

abbrev pub version_exchanged : ℕ
version_exchanged = 3

abbrev pub completed : ℕ
completed = 15

-- The node's status, and how often `on_handshake_completed` was posted.
pub record Shake : Type 0 where
  pub status : ℕ
  pub completions : ℕ

abbrev pub start_shake : Shake
start_shake = record { status = not_initiated; completions = 0 }

unfoldable pub is_version : MessageType → Bool
is_version version = true
is_version other = false

unfoldable pub is_verack : MessageType → Bool
is_verack verack = true
is_verack other = false

-- `new_status_flag`.
unfoldable pub status_flag : Direction → MessageType → ℕ
unfolding direction_value
status_flag d version = 1 * 2 ^ direction_value d
status_flag d verack = 4 * 2 ^ direction_value d
status_flag d other = 0

abbrev pub Validated : Type 0
Validated = Outcome ErrorCode (Unit {0}) × Shake

-- `protocol_handshake_status_.exchange(new_status)` and what follows.
unfoldable pub exchange : ℕ → Shake → Shake
exchange new_status s = record {
  status = new_status;
  completions = if new_status == completed then suc s.completions else s.completions;
}

-- Behind the first two checks: a message of the handshake sets its flag once, any other one waits for
-- the exchange of versions.
unfoldable pub apply_flag : ℕ → Shake → Validated
unfolding exchange
apply_flag flag s =
    if flag == 0
    then (if ltb s.status version_exchanged
        then (failure (net NetError.invalid_protocol_handshake), s)
        else (success tt, s))
    else if bit_and s.status flag == flag
    then (failure (net NetError.duplicate_protocol_handshake), s)
    else (success tt, exchange (bit_or s.status flag) s)

unfoldable pub validate_message_for_protocol_handshake : Direction → MessageType → Shake → Validated
unfolding is_version is_verack status_flag apply_flag
validate_message_for_protocol_handshake d type s =
    if (s.status == not_initiated) && not (is_version type)
    then (failure (net NetError.invalid_protocol_handshake), s)
    else if s.status == completed
    then (if is_version type || is_verack type
        then (failure (net NetError.duplicate_protocol_handshake), s)
        else (success tt, s))
    else apply_flag (status_flag d type) s

-- The messages of a session, each validated; an error ends the session.
next_message : (Shake → Validated) → Validated → Validated
next_message rest (success u, s) = rest s
next_message rest (failure e, s) = (failure e, s)

unfoldable pub run : List (Direction × MessageType) → Shake → Validated
unfolding next_message
run [] s = (success tt, s)
run ((d, type) ∷ others) s =
    next_message (run others) (validate_message_for_protocol_handshake d type s)
