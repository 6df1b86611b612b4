-- ===== src/Examples/Nodes.antt =====
-- A node that reads and writes (src/node/network/node.cpp).
use znode.Common.{◌≡◌, ◌≤◌, arith, List, refl, true, false, [], ◌∷◌, length, none, success}
use znode.Examples.Messages.{concrete, concrete-IsExternal, arriving, ping_message}
use znode.Examples.Addresses.{boost}
use znode.Network.Protocol.{version}
use znode.Network.Payloads.Addr.{fresh_service}
use znode.Network.Payloads.Version.{Version}
use znode.Node.Handshake.{
  outbound, inbound, Shake, validate_message_for_protocol_handshake, run, completed, is_version,
  status_flag, apply_flag, exchange, is_verack,
}
use znode.Node.Handshake.Reach.{
  Reachable, start, accept, Once, Reachable-Once, missing, run-missing,
}
use znode.Network.Message.Defs.{Message}
use znode.Node.Inbound.{Environment, Node, Priority, normal}
use znode.Node.Outbound.{start_write}
use znode.Node.Outbound.Bytes.{Conserved, IsBegun}
use znode.Node.Outbound.Pieces.{start_write-Conserved}
use znode.Node.Parse.{parse_messages}
use znode.Node.Parse.Ends.{Resumable, Finished, parse_messages-Finished}

-- Our version was sent, and the peer's received.
abbrev after_versions : Shake
after_versions = record { status = 3; completions = 0 }

versions_exchanged : Reachable ((inbound, version) ∷ (outbound, version) ∷ []) after_versions
unfolding validate_message_for_protocol_handshake is_version is_verack status_flag apply_flag
    exchange
versions_exchanged = accept _ _ inbound version (accept _ _ outbound version start refl) refl

Reachable-Once_example : Once ((inbound, version) ∷ (outbound, version) ∷ []) after_versions
Reachable-Once_example = Reachable-Once _ _ versions_exchanged

run-missing_example :
    (run (missing 3) after_versions ≡ (success tt, record { status = completed; completions = 1 }))
    × (length (missing 3) ≤ 4)
run-missing_example = run-missing _ after_versions versions_exchanged

abbrev environment : Environment
environment = record {
  external = concrete;
  addresses = boost;
  blend = λ a b. a;
  magic = 1 ∷ 2 ∷ 3 ∷ 4 ∷ [];
  now = 1000;
}

abbrev pub our_version : Version
our_version = record {
  protocol_version = 170002;
  services = 1;
  timestamp = 1700000000;
  recipient_service = fresh_service;
  sender_service = fresh_service;
  nonce = 77;
  user_agent = [];
  last_block_height = 0;
  relay = true;
}

-- Connected, with nothing read yet.
abbrev connected : Node
connected = record {
  is_running = true;
  is_open = true;
  is_inbound = true;
  connected_time = 0;
  version = 170002;
  shake = after_versions;
  local_version = our_version;
  remote_version = our_version;
  ping_meter = record {
    ping_in_progress = false;
    ping_start = 0;
    ping_nonce = none;
    ping_duration_ms_ema = 0;
    ping_duration_ms_min = 0;
    ping_duration_ms_max = 0;
  };
  inbound_message = none;
  inbound_message_start_time = none;
  last_message_received_time = 0;
  inbound_metrics = [];
  outbound_messages_queue = [];
  outbound_message = none;
  outbound_message_start_time = none;
  last_message_sent_time = 0;
  outbound_metrics = [];
  is_writing = false;
  send_buffer = [];
  traffic_meter = record {
    start_time = 0;
    interval_time = 0;
    cumulative_inbound_bytes = 0;
    cumulative_outbound_bytes = 0;
    interval_inbound_bytes = 0;
    interval_outbound_bytes = 0;
  };
  start_reads = 0;
  stops = 0;
  start_writes = 0;
  notified = [];
}

parse_messages_example : Finished (parse_messages environment connected arriving)
unfolding Resumable
parse_messages_example =
    parse_messages-Finished environment concrete-IsExternal connected arriving tt

-- A ping waits in the queue of a node whose handshake is complete.
abbrev queued : List (Message × Priority)
queued = (ping_message, normal) ∷ []

-- The handshake is done, and a message waits.
abbrev waiting : Node
waiting = record connected {
  shake = record { status = completed; completions = 1 };
  outbound_messages_queue = queued;
}

start_write-Conserved_example : Conserved 0 waiting (start_write environment 0 waiting)
unfolding IsBegun
start_write-Conserved_example =
    start_write-Conserved environment 0 waiting tt ((omega arith, omega arith), tt)
