-- ===== src/Node/Parse.antt =====
-- What a node does with the bytes that it reads: `Node::parse_messages` (src/node/network/node.cpp).
-- The timer of deserialization and the logs are left out.
pub mod Ends
use Prim.Native.Nat.{bit_and}
use znode.Common.{
  ℕ, zero, suc, ◌+◌, min, Bool, true, false, not, ◌&&◌, ◌||◌, List, [], ◌∷◌, ◌++◌, length,
  replicate, Option, some, none, Outcome, success, failure, if◌then◌else◌, ltb, ◌==◌,
}
use znode.Errors.{ErrorCode, net, NetError, is_incomplete}
use znode.Stream.Defs.{Status, eof, size}
use znode.Serialize.Defs.{SDataStream, deserialize}
use znode.Network.Addresses.{IpLibrary}
use znode.Network.Protocol.{
  MessageType, verack, ping, pong, get_addr, missing_or_unknown, is_missing,
}
use znode.Network.Header.{External, MessageHeader}
use znode.Network.Message.Defs.{Message, Exit, returned, aborted, Ended, new_message}
use znode.Network.Message.Write.{Written, written, stuck, write_message, push}
use znode.Network.Meters.{PingMeter, end_sample}
use znode.Network.Payloads.Version.{Version}
use znode.Network.Payloads.Factory.{
  Payload, null_payload, version_payload, ping_pong_payload, Created, created, no_payload,
  assertion_failed, payload_type, from_type, bind_payload,
}
use znode.Node.Inbound.{
  Environment, Node, Processed, processed, program_aborted, fresh_message, message_type_of,
  process_inbound_message,
}
use znode.Node.Handshake.{
  Direction, inbound, Shake, validate_message_for_protocol_handshake, Validated,
}

-- How a call of `parse_messages` ends.
pub data Parsed : Type 0 where
  parsed : Status → Node → Parsed
  parse_aborted : Parsed
  out_of_fuel : Parsed

-- The rest of the `try` block behind `write`: its outcome, the messages parsed, the message's stream
-- and the node.
pub data Tried : Type 0 where
  tried : Status → ℕ → SDataStream → Node → Tried
  try_aborted : Tried

-- `kMaxMessagesPerRead`.
abbrev pub max_messages_per_read : ℕ
max_messages_per_read = 32

count_message : ℕ → MessageType → SDataStream → Processed → Tried
count_message count type s program_aborted = try_aborted
count_message count type s (processed (failure e) n) = tried (failure e) count s n
count_message count type s (processed (success u) n) =
    tried (success tt) count s
      (record n { inbound_metrics = n.inbound_metrics ++ ((type, size s.base) ∷ []) })

module _ (env : Environment) where
  deliver : ℕ → MessageType → Node → Status × Payload × SDataStream → Tried
  unfolding count_message process_inbound_message
  deliver count type n (failure e, p, s) = tried (failure e) count s n
  deliver count type n (success u, p, s) =
      if not (eof s.base)
      then tried (failure (net NetError.message_payload_extra_data)) count s n
      else if ltb max_messages_per_read (suc count)
      then tried (failure (net NetError.message_flooding_detected)) (suc count) s n
      else count_message (suc count) type s (process_inbound_message env p n)

  with_payload : ℕ → MessageType → SDataStream → Node → Created → Tried
  unfolding deliver bind_payload
  with_payload count type s n assertion_failed = try_aborted
  with_payload count type s n no_payload =
      tried (failure (net NetError.message_payload_unhandleable)) count s n
  with_payload count type s n (created p) =
      deliver count type n (bind_payload env.addresses p deserialize s)

  accepted : ℕ → MessageType → SDataStream → Node → Validated → Tried
  unfolding with_payload from_type is_missing
  accepted count type s n (failure e, shake) =
      tried (failure e) count s (record n { shake = shake })
  accepted count type s n (success u, shake) =
      if is_missing type
      then try_aborted
      else with_payload count type s (record n { shake = shake }) (from_type type)

  unfoldable pub try_message : ℕ → Message → Node → Tried
  unfolding accepted validate_message_for_protocol_handshake message_type_of
  try_message count m n =
      accepted count (message_type_of m) m.ser_stream n
        (validate_message_for_protocol_handshake inbound (message_type_of m) n.shake)

  -- `catch`: on an incomplete message the loop goes on.
  unfoldable pub caught :
      (ℕ → Node → List ℕ → Parsed) → ℕ → ErrorCode → Message → Node → List ℕ → Parsed
  unfolding is_incomplete
  caught again count e m n rest = elim (is_incomplete e) [
    | true ↦ again count (record n { inbound_message = some m }) rest
    | false ↦
        parsed (failure e) (record n { inbound_message = none; inbound_message_start_time = none })
  ]

  unfoldable pub after_try : (ℕ → Node → List ℕ → Parsed) → Message → List ℕ → Tried → Parsed
  unfolding caught
  after_try again m rest try_aborted = parse_aborted
  after_try again m rest (tried (failure e) count s n) =
      caught again count e (record m { ser_stream = s }) n rest
  after_try again m rest (tried (success u) count s n) =
      again count (record n { inbound_message = none; inbound_message_start_time = none }) rest

  unfoldable pub after_message : (ℕ → Node → List ℕ → Parsed) → ℕ → Node → Written → Parsed
  unfolding caught after_try try_message
  after_message again count n stuck = out_of_fuel
  after_message again count n (written aborted m rest) = parse_aborted
  after_message again count n (written (returned (failure e)) m rest) =
      caught again count e m n rest
  after_message again count n (written (returned (success u)) m rest) =
      after_try again m rest (try_message count m n)

  -- `if (inbound_message_ == nullptr)`.
  unfoldable pub current_message : Node → Option Message → Message × Node
  unfolding fresh_message
  current_message n (some m) = (m, n)
  current_message n none =
      (fresh_message env n, record n { inbound_message_start_time = some env.now })

  -- `while (not data.empty())`.
  unfoldable pub parse_loop : ℕ → ℕ → Node → List ℕ → Parsed
  unfolding after_message current_message
  parse_loop fuel count n [] = parsed (success tt) n
  parse_loop zero count n (b ∷ bs) = out_of_fuel
  parse_loop (suc fuel) count n (b ∷ bs) =
      let (m, n') = current_message n n.inbound_message in
      after_message (parse_loop fuel) count n' (write_message env.external m (b ∷ bs))

  -- Each round takes a byte at least or ends the loop, so `length input` rounds are enough.
  unfoldable pub parse_messages : Node → List ℕ → Parsed
  unfolding parse_loop
  parse_messages n input = parse_loop (length input) 0 n input
