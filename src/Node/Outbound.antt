-- ===== src/Node/Outbound.antt =====
-- The write and read cycles of a node: `Node::start_write`, `Node::handle_write`, `Node::handle_read`
-- and `Node::on_ping_timer_expired` (src/node/network/node.cpp). A call whose assertion fails gives
-- `program_aborted`; the asynchronous operations of the sockets are Boost's, and their completion is
-- the call of a handler.
pub mod Bytes
pub mod Pieces
use znode.Common.{
  ℕ, zero, suc, min, Bool, true, false, not, ◌||◌, List, [], ◌∷◌, ◌++◌, length, drop, Option, some,
  none, Outcome, success, failure, if◌then◌else◌, ◌==◌,
}
use znode.Errors.{ErrorCode}
use znode.Stream.Defs.{DataStream, eof, tellg, avail, size, read}
use znode.Network.Protocol.{MessageType, ping, pong}
use znode.Network.Message.Defs.{Message, seek}
use znode.Network.Meters.{start_sample, set_nonce, update_inbound, update_outbound}
use znode.Network.Payloads.Factory.{ping_pong_payload}
use znode.Node.Handshake.{Shake, outbound, validate_message_for_protocol_handshake, Validated}
use znode.Node.Inbound.{
  Environment, Node, Priority, high, normal, low, Processed, processed, program_aborted,
  push_message, message_type_of,
}
use znode.Node.Parse.{Parsed, parsed, parse_aborted, out_of_fuel, parse_messages}

-- `kMaxBytesPerIO`.
abbrev pub max_bytes_per_io : ℕ
max_bytes_per_io = 16384

-- `MessageQueueItemComparator`: the item on top has the greatest of these.
unfoldable pub priority_value : Priority → ℕ
priority_value high = 0
priority_value normal = 1
priority_value low = 2

-- The item at an index, and the others. Which of the items with the greatest value is on top is left
-- open by the standard: it is given by the index.
unfoldable pub take_item :
    ℕ → List (Message × Priority) → Option (Message × List (Message × Priority))
take_item index [] = none
take_item zero ((m, priority) ∷ others) = some (m, others)
take_item (suc index) (item ∷ others) = elim (take_item index others) [
  | none ↦ none
  | some taken ↦ some (taken.0, item ∷ taken.1)
]

is_ping_or_pong : MessageType → Bool
is_ping_or_pong ping = true
is_ping_or_pong pong = true
is_ping_or_pong other = false

is_ping : MessageType → Bool
is_ping ping = true
is_ping other = false

module _ (env : Environment) where
  -- A message that was sent as a whole makes room.
  unfoldable pub sent : Node → Option Message → Node
  unfolding is_ping_or_pong message_type_of
  sent n none = n
  sent n (some m) =
      if eof m.ser_stream.base
      then record n {
        outbound_message = none;
        outbound_message_start_time = none;
        last_message_sent_time =
            (if is_ping_or_pong (message_type_of m) then n.last_message_sent_time else env.now);
      }
      else n

  unfoldable pub fill : Node → Message → Outcome ErrorCode (List ℕ) × DataStream → Processed
  fill n m (failure e, base) = program_aborted
  fill n m (success bytes, base) = processed (success tt) (record n {
    send_buffer = n.send_buffer ++ bytes;
    outbound_message = some (record m { ser_stream = record m.ser_stream { base = base } });
  })

  -- The next piece of the message goes into the socket's buffer.
  unfoldable pub write_some : Message → Node → Processed
  unfolding fill
  write_some m n =
      fill n m (read m.ser_stream.base (some (min max_bytes_per_io (avail m.ser_stream.base))))

  -- What is noted of a message before its first byte goes out.
  unfoldable pub measured : Message → Node → Shake → Node
  unfolding is_ping message_type_of
  measured m n shake = record n {
    shake = shake;
    outbound_metrics = n.outbound_metrics ++ (((message_type_of m), size m.ser_stream.base) ∷ []);
    ping_meter =
        (if is_ping (message_type_of m) then start_sample env.now n.ping_meter else n.ping_meter);
    outbound_message_start_time = some env.now;
  }

  -- The node stops over a message that the handshake does not allow.
  unfoldable pub begin_message : Message → Node → Validated → Processed
  unfolding write_some measured
  begin_message m n (failure e, shake) =
      processed (success tt) (record n {
        shake = shake;
        outbound_message = none;
        is_writing = false;
        stops = suc n.stops;
      })
  begin_message m n (success u, shake) = write_some m (measured m n shake)

  unfoldable pub write_message_of : Node → Message → Processed
  unfolding begin_message write_some message_type_of
  write_message_of n m =
      if tellg m.ser_stream.base == 0
      then begin_message m n
          (validate_message_for_protocol_handshake outbound (message_type_of m) n.shake)
      else write_some m n

  unfoldable pub dequeue : Node → Option (Message × List ((Message × Priority))) → Processed
  unfolding write_message_of
  dequeue n none = processed (success tt) (record n { is_writing = false })
  dequeue n (some (m, others)) =
      write_message_of (record n { outbound_messages_queue = others }) (seek m 0)

  unfoldable pub load : ℕ → Node → Option Message → Processed
  unfolding dequeue write_message_of take_item
  load index n (some m) = write_message_of n m
  load index n none = dequeue n (take_item index n.outbound_messages_queue)

  -- `index` is where the queue's top stands.
  unfoldable pub start_write : ℕ → Node → Processed
  unfolding sent load
  start_write index n =
      if not n.is_open || n.is_writing
      then processed (success tt) n
      else let n' = sent (record n { is_writing = true }) n.outbound_message in
        load index n' n'.outbound_message

  -- What is left in the buffer is written on; an empty one ends the cycle.
  unfoldable pub handle_write : Bool → ℕ → Node → Node
  handle_write error_code bytes_transferred n =
      if not n.is_running
      then record n { is_writing = false }
      else if error_code
      then record n { is_writing = false; stops = suc n.stops }
      else let n' =
          (if bytes_transferred == 0 then n else record n {
            send_buffer = drop bytes_transferred n.send_buffer;
            traffic_meter = update_outbound bytes_transferred n.traffic_meter;
          }) in
        if length n'.send_buffer == 0
        then record n' { is_writing = false; start_writes = suc n'.start_writes }
        else n'

  parsed_node : Parsed → Processed
  parsed_node parse_aborted = program_aborted
  parsed_node out_of_fuel = program_aborted
  parsed_node (parsed (failure e) n) = processed (success tt) (record n { stops = suc n.stops })
  parsed_node (parsed (success u) n) =
      processed (success tt) (record n { start_reads = suc n.start_reads })

  -- `bytes` are those transferred.
  unfoldable pub handle_read : Bool → List ℕ → Node → Processed
  unfolding parsed_node parse_messages update_inbound
  handle_read error_code bytes n =
      if not n.is_running
      then processed (success tt) n
      else if error_code
      then processed (success tt) (record n { stops = suc n.stops })
      else if length bytes == 0
      then processed (success tt) (record n { start_reads = suc n.start_reads })
      else parsed_node (
          parse_messages env
            (record n { traffic_meter = update_inbound (length bytes) n.traffic_meter }) bytes)

  pinged : ℕ → Processed → Processed
  pinged nonce program_aborted = program_aborted
  pinged nonce (processed (failure e) n) = processed (success tt) (record n { stops = suc n.stops })
  pinged nonce (processed (success u) n) =
      processed (success tt) (record n { ping_meter = set_nonce nonce n.ping_meter })

  -- `nonce` is the random number drawn; the next interval is left out.
  unfoldable pub on_ping_timer_expired : ℕ → Node → Processed
  unfolding pinged push_message set_nonce
  on_ping_timer_expired nonce n =
      if not n.is_running || n.ping_meter.ping_in_progress
      then processed (success tt) n
      else pinged nonce (push_message env (ping_pong_payload ping nonce) high n)
