-- ===== src/Node/Idle.antt =====
-- `Node::is_idle` (src/node/network/node.cpp).
use znode.Common.{
  ℕ, ◌-◌, ◌/◌, ◌%◌, Bool, false, not, ◌&&◌, ◌||◌, Option, some, none, if◌then◌else◌, ltb, leb, ◌==◌,
}
use znode.Common.Words.{u32_mod}
use znode.Network.Meters.{pending_sample_duration}
use znode.Node.Handshake.{completed}
use znode.Node.Inbound.{Node}

pub data NodeIdleResult : Type 0 where
  not_idle protocol_handshake_timeout inbound_timeout outbound_timeout : NodeIdleResult
  ping_timeout global_timeout : NodeIdleResult

-- The settings that the check reads.
pub record NetworkSettings : Type 0 where
  pub ping_timeout_milliseconds : ℕ
  pub protocol_handshake_timeout_seconds : ℕ
  pub inbound_timeout_seconds : ℕ
  pub outbound_timeout_seconds : ℕ
  pub idle_timeout_seconds : ℕ

seconds_since : ℕ → ℕ → ℕ
seconds_since now start = (now - start) / 1000000000

-- A message in progress that takes longer than `limit` seconds.
takes_too_long : ℕ → ℕ → Option ℕ → Bool
unfolding seconds_since
takes_too_long now limit none = false
takes_too_long now limit (some start) = ltb limit (seconds_since now start)

later : ℕ → ℕ → ℕ
later a b = if ltb a b then b else a

-- `now` is the reading of the steady clock; it is not before the times that the node has.
unfoldable pub is_idle : NetworkSettings → ℕ → Node → NodeIdleResult
unfolding seconds_since takes_too_long later pending_sample_duration
is_idle settings now n =
    if not n.is_running || not n.is_open
    then not_idle
    else if ltb settings.ping_timeout_milliseconds (pending_sample_duration now n.ping_meter)
    then ping_timeout
    else if not (n.shake.status == completed)
        && ltb settings.protocol_handshake_timeout_seconds (seconds_since now n.connected_time)
    then protocol_handshake_timeout
    else if takes_too_long now settings.inbound_timeout_seconds n.inbound_message_start_time
    then inbound_timeout
    else if takes_too_long now settings.outbound_timeout_seconds n.outbound_message_start_time
    then outbound_timeout
    else if leb settings.idle_timeout_seconds
        (seconds_since now (later n.last_message_received_time n.last_message_sent_time) % u32_mod)
    then global_timeout
    else not_idle
