-- ===== src/Node/Inbound.antt =====
-- What a node does with a message that it received: `Node::process_inbound_message` and
-- `Node::push_message` (src/node/network/node.cpp). One reading of the clock stands for those of a
-- call; logs are left out.
use Prim.Native.Nat.{bit_and}
use znode.Common.{
  ℕ, suc, ◌+◌, min, Bool, true, false, not, ◌&&◌, List, [], ◌∷◌, ◌++◌, replicate, Option, some,
  none, success, failure, if◌then◌else◌, ltb, ◌==◌,
}
use znode.Errors.{net, NetError}
use znode.Stream.Defs.{Status}
use znode.Network.Addresses.{IpLibrary}
use znode.Network.Protocol.{MessageType, verack, ping, pong, get_addr, missing_or_unknown}
use znode.Network.Header.{External, MessageHeader, get_definition}
use znode.Network.Message.Defs.{Message, returned, aborted, Ended, new_message}
use znode.Network.Message.Write.{push}
use znode.Network.Meters.{PingMeter, TrafficMeter, end_sample}
use znode.Network.Payloads.Version.{Version}
use znode.Network.Payloads.Factory.{
  Payload, null_payload, version_payload, ping_pong_payload, payload_type, bind_payload, Created,
  created, no_payload, assertion_failed, new_null,
}
use znode.Node.Handshake.{Shake}

-- The code outside, the settings and the clock.
pub record Environment : Type 0 where
  pub external : External
  pub addresses : IpLibrary
  pub blend : ℕ → ℕ → ℕ
  pub magic : List ℕ
  pub now : ℕ

-- `MessagePriority`.
pub data Priority : Type 0 where
  high normal low : Priority

-- A node. What it posts on its strand is counted: `start_writes`, `start_reads` and `stops`. `notified`
-- lists the payloads given to `on_message_`, and the metrics have a type and a size for each message
-- counted. `is_open` is the socket's.
pub record Node : Type 0 where
  pub is_running : Bool
  pub is_open : Bool
  pub is_inbound : Bool
  pub connected_time : ℕ
  pub version : ℕ
  pub shake : Shake
  pub local_version : Version
  pub remote_version : Version
  pub ping_meter : PingMeter
  pub inbound_message : Option Message
  pub inbound_message_start_time : Option ℕ
  pub last_message_received_time : ℕ
  pub inbound_metrics : List (MessageType × ℕ)
  pub outbound_messages_queue : List (Message × Priority)
  pub outbound_message : Option Message
  pub outbound_message_start_time : Option ℕ
  pub last_message_sent_time : ℕ
  pub outbound_metrics : List (MessageType × ℕ)
  pub is_writing : Bool
  pub send_buffer : List ℕ
  pub traffic_meter : TrafficMeter
  pub start_reads : ℕ
  pub stops : ℕ
  pub start_writes : ℕ
  pub notified : List Payload

-- `get_type`.
unfoldable pub message_type_of : Message → MessageType
unfolding get_definition
message_type_of m = (get_definition m.header).message_type

-- How a member ends: with an outcome, or in a failed assertion.
pub data Processed : Type 0 where
  processed : Status → Node → Processed
  program_aborted : Processed

abbrev new_header : MessageHeader
new_header = record {
  network_magic = replicate 4 0;
  command = replicate 12 0;
  payload_length = 0;
  payload_checksum = replicate 4 0;
  message_type = missing_or_unknown;
}

module _ (env : Environment) where
  unfoldable pub fresh_message : Node → Message
  unfolding new_message
  fresh_message n = new_message n.version env.magic new_header

  enqueue : Priority → Node → Ended × Payload → Processed
  enqueue priority n ((aborted, m), p) = program_aborted
  enqueue priority n ((returned (failure e), m), p) = processed (failure e) n
  enqueue priority n ((returned (success u), m), p) = processed (success tt) (record n {
    outbound_messages_queue = n.outbound_messages_queue ++ ((m, priority) ∷ []);
    start_writes = suc n.start_writes;
  })

  unfoldable pub push_message : Payload → Priority → Node → Processed
  unfolding enqueue fresh_message push payload_type
  push_message p priority n =
      enqueue priority n
        (push env.external (payload_type p) (bind_payload env.addresses) p (fresh_message n))

  push_created : Created → Priority → Node → Processed
  unfolding push_message
  push_created (created p) priority n = push_message p priority n
  push_created no_payload priority n = program_aborted
  push_created assertion_failed priority n = program_aborted

  -- The overload that takes a type, for which it makes a `MsgNullPayload`.
  push_type : MessageType → Priority → Node → Processed
  unfolding push_created new_null
  push_type type priority n = push_created (new_null type) priority n

  -- `std::ignore = push_message(...)`.
  ignoring : Processed → (Node → Processed) → Processed
  ignoring program_aborted k = program_aborted
  ignoring (processed r n) k = k n

  -- `on_message_`, and the time of the last message but for pings and pongs.
  notify : Payload → Node → Processed
  notify p n =
      processed (success tt)
        (record n { last_message_received_time = env.now; notified = n.notified ++ (p ∷ []) })

  silently : Node → Processed
  silently n = processed (success tt) (record n { last_message_received_time = env.now })

  -- The payload that is handed on holds what the node had: the two are swapped.
  send_verack : Version → Node → Processed
  unfolding ignoring push_type notify
  send_verack old n = ignoring (push_type verack high n) (notify (version_payload old))

  accept_version : Version → Node → Processed
  unfolding send_verack ignoring push_message
  accept_version remote n =
      let swapped = record n {
        remote_version = remote;
        version = min n.local_version.protocol_version remote.protocol_version;
      } in
      if bit_and n.shake.status 1 == 0
      then ignoring (push_message (version_payload n.local_version) high swapped)
          (send_verack n.remote_version)
      else send_verack n.remote_version swapped

  process_version : Version → Node → Processed
  unfolding accept_version
  process_version remote n =
      if not (env.external.clamp remote.protocol_version 170002 170002 == remote.protocol_version)
      then processed (failure (net NetError.invalid_protocol_version)) n
      else if remote.nonce == n.local_version.nonce
      then processed (failure (net NetError.connected_to_self)) n
      else accept_version remote n

  ended_sample : Node → Option PingMeter → Processed
  ended_sample n none = program_aborted
  ended_sample n (some meter) = processed (success tt) (record n { ping_meter = meter })

  process_pong : ℕ → Node → Option ℕ → Processed
  unfolding ended_sample end_sample
  process_pong nonce n none = processed (failure (net NetError.unsolicited_pong)) n
  process_pong nonce n (some expected) =
      if not n.ping_meter.ping_in_progress
      then processed (failure (net NetError.unsolicited_pong)) n
      else if not (nonce == expected)
      then processed (failure (net NetError.invalid_ping_pong_nonce)) n
      else ended_sample n (end_sample env.blend env.now env.now n.ping_meter)

  is_get_addr : MessageType → Bool
  is_get_addr get_addr = true
  is_get_addr other = false

  get_addr_count : List (MessageType × ℕ) → ℕ
  unfolding is_get_addr
  get_addr_count [] = 0
  get_addr_count ((type, bytes) ∷ others) =
      (if is_get_addr type then 1 else 0) + get_addr_count others

  process_get_addr : Node → Processed
  unfolding silently notify get_addr_count
  process_get_addr n =
      if n.is_inbound && ltb 1 (get_addr_count n.inbound_metrics)
      then silently n
      else notify (null_payload get_addr) n

  unfoldable pub process_inbound_message : Payload → Node → Processed
  unfolding process_version process_pong process_get_addr silently notify push_message
  process_inbound_message (version_payload remote) n = process_version remote n
  process_inbound_message (null_payload verack) n = silently n
  process_inbound_message (null_payload get_addr) n = process_get_addr n
  process_inbound_message (ping_pong_payload ping nonce) n =
      push_message (ping_pong_payload pong nonce) high n
  process_inbound_message (ping_pong_payload pong nonce) n =
      process_pong nonce n n.ping_meter.ping_nonce
  process_inbound_message other n = notify other n
