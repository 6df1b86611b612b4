-- ===== src/Node/Outbound/Bytes.antt =====
-- What `Node::start_write` (src/node/network/node.cpp) keeps of the bytes of the messages on their way
-- to the socket.
use znode.Common.{
  ap, ◌+◌, arith, min, Bool, true, false, not, ◌||◌, ℕ, zero, suc, ◌<◌, ◌≤◌, ◌≡◌, ◌⊎◌, inl, inr,
  refl, List, [], ◌∷◌, ◌++◌, length, All, Option, some, none, success, failure,
}
use znode.Common.Words.{u64_mod}
use znode.Stream.Cursor.{IsValid, unread}
use znode.Network.Message.Defs.{Message}
use znode.Node.Handshake.{Shake, Validated, outbound, validate_message_for_protocol_handshake}
use znode.Node.Inbound.{Node, Priority, Processed, processed, program_aborted, message_type_of}
use znode.Node.Outbound.{max_bytes_per_io, take_item}

-- What is still to be written of the message in work.
unfoldable pub pending_bytes : Option Message → List ℕ
pending_bytes none = []
pending_bytes (some m) = unread m.ser_stream.base

-- The message in work was begun, and the queued ones are not empty.
unfoldable pub IsBegun : Option Message → Type 0
IsBegun none = Unit {0}
IsBegun (some m) = IsValid m.ser_stream.base × (1 ≤ m.ser_stream.base.read_position)

abbrev pub IsQueued : Message × Priority → Type 0
IsQueued (m, priority) =
    (1 ≤ length m.ser_stream.base.buffer) × (length m.ser_stream.base.buffer < u64_mod)

-- The call ends well, in a node of which `P` holds.
abbrev pub Succeeds : (Node → Type 0) → Processed → Type 0
Succeeds P program_aborted = ⊥
Succeeds P (processed (failure e) n) = ⊥
Succeeds P (processed (success u) n) = P n

pub Succeeds-map :
    (P Q : Node → Type 0) (p : Processed) → Succeeds P p → ((n : Node) → P n → Q n) → Succeeds Q p
Succeeds-map P Q program_aborted h f = h
Succeeds-map P Q (processed (failure e) n) h f = h
Succeeds-map P Q (processed (success u) n) h f = f n h

abbrev pub Queue : Type 0
Queue = List (Message × Priority)

-- A piece of `bytes`, as long as one write may be, went behind the `buffer` of the socket, the other
-- bytes are pending, and the queue is `queue`.
pub record Sends (bytes : List ℕ) (queue : Queue) (buffer : List ℕ) (stops : ℕ) (shake : Shake)
    (n : Node) : Type 0 where
  pub begun : IsBegun n.outbound_message
  pub conserved : n.send_buffer ++ pending_bytes n.outbound_message ≡ buffer ++ bytes
  pub piece : length n.send_buffer ≡ length buffer + min max_bytes_per_io (length bytes)
  pub queue_is : n.outbound_messages_queue ≡ queue
  pub writing : n.is_writing ≡ true
  pub stops_is : n.stops ≡ stops
  pub shake_is : n.shake ≡ shake

-- Nothing is in work, and the buffer is as it was.
pub record Rests (queue : Queue) (buffer : List ℕ) (stops : ℕ) (shake : Shake) (n : Node)
    : Type 0 where
  pub idle : n.outbound_message ≡ none
  pub buffer_is : n.send_buffer ≡ buffer
  pub queue_is : n.outbound_messages_queue ≡ queue
  pub resting : n.is_writing ≡ false
  pub stops_is : n.stops ≡ stops
  pub shake_is : n.shake ≡ shake

-- A message from the queue is sent if the handshake allows it; if not the node stops over it.
abbrev pub Begins : List ℕ → Queue → List ℕ → ℕ → Validated → Node → Type 0
Begins bytes queue buffer stops (success u, shake) n = Sends bytes queue buffer stops shake n
Begins bytes queue buffer stops (failure e, shake) n = Rests queue buffer (suc stops) shake n

-- The message at `index` leaves the queue. An index behind the queue stands for an empty one.
abbrev pub Dequeues : ℕ → Queue → List ℕ → ℕ → Shake → Node → Type 0
Dequeues index queue buffer stops shake n =
    ((length queue ≤ index) × Rests queue buffer stops shake n)
    ⊎ ((before : Queue) × (m : Message) × (priority : Priority) × (behind : Queue) × (queue
          ≡ before ++ (m, priority) ∷ behind)
        × (length before ≡ index)
        × Begins m.ser_stream.base.buffer (before ++ behind) buffer stops
            (validate_message_for_protocol_handshake outbound (message_type_of m) shake) n)

-- A message with bytes left goes on; otherwise the queue gives the next.
abbrev pub Continues : List ℕ → ℕ → Queue → List ℕ → ℕ → Shake → Node → Type 0
Continues [] index queue buffer stops shake n = Dequeues index queue buffer stops shake n
Continues (byte ∷ bytes) index queue buffer stops shake n =
    Sends (byte ∷ bytes) queue buffer stops shake n

pub Sends-Continues :
    (bytes : List ℕ) (index : ℕ) (queue : Queue) (buffer : List ℕ) (stops : ℕ) (shake : Shake)
    → 1 ≤ length bytes
    → (n : Node) → Sends bytes queue buffer stops shake n
    → Continues bytes index queue buffer stops shake n
Sends-Continues [] index queue buffer stops shake some_bytes n s = absurd (omega arith)
Sends-Continues (byte ∷ bytes) index queue buffer stops shake some_bytes n s = s

abbrev pub Cycles : Bool → ℕ → Node → Node → Type 0
Cycles true index n n' = n' ≡ n
Cycles false index n n' =
    Continues (pending_bytes n.outbound_message) index n.outbound_messages_queue n.send_buffer
      n.stops n.shake n'

-- Nothing changes where the socket is closed or a write is on.
unfoldable pub Conserved : ℕ → Node → Processed → Type 0
Conserved index n p = Succeeds (Cycles (not n.is_open || n.is_writing) index n) p

-- The queue ends before the index, or gives the message there.
abbrev pub Taken : ℕ → Queue → Type 0
Taken index queue =
    ((take_item index queue ≡ none) × (length queue ≤ index))
    ⊎ ((before : Queue) × (m : Message) × (priority : Priority) × (behind : Queue) × (take_item
            index queue
          ≡ some (m, before ++ behind))
        × (queue ≡ before ++ (m, priority) ∷ behind)
        × (length before ≡ index)
        × IsQueued (m, priority))

pub take_item-Taken : (index : ℕ) (queue : Queue) → All IsQueued queue → Taken index queue
unfolding take_item
take_item-Taken index [] h = inl (refl, omega arith)
take_item-Taken zero ((m, priority) ∷ others) (q, h) =
    inr ([], m, priority, others, refl, refl, refl, q)
take_item-Taken (suc index) (item ∷ others) (q, h) = elim (take_item-Taken index others h) [
  | inl (e, ends) ↦ inl (rw (e) refl, omega arith)
  | inr (before, m, priority, behind, e, split, place, queued) ↦ inr (
    item ∷ before,
    m,
    priority,
    behind,
    rw (e) refl,
    ap (λ xs. item ∷ xs) split,
    omega (arith, place),
    queued,
  )
]
