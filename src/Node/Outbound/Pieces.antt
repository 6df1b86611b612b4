-- ===== src/Node/Outbound/Pieces.antt =====
-- The bytes of the messages on their way through `Node::start_write` (src/node/network/node.cpp).
use znode.Common.{
  length-append, length-take, false, ℕ, ◌<◌, ◌≤◌, ◌≡◌, inl, inr, refl, sym, ap, ◌∙◌, arith, min,
  true, not, ◌||◌, List, [], ◌++◌, length, take, All, append_assoc, take-append-drop, Option, some,
  none, success, failure, Bool-cases, leb→le, leb-false→lt, ==-false, ==_iff, drop_all,
}
use mathlib.Core.Path.{subst}
use znode.Common.Words.{u64_mod}
use znode.Stream.Defs.{eof, tellg, avail, size}
use znode.Stream.Cursor.{
  IsValid, unread, advance, avail_lem, unread-advance, read-fits, advance-IsValid, length-unread,
}
use znode.Network.Message.Defs.{Message, seek, seek-base, header-seek}
use znode.Network.Header.{get_definition}
use znode.Network.Message.Stages.{if-true, if-false}
use znode.Node.Handshake.{Validated, outbound, validate_message_for_protocol_handshake}
use znode.Node.Inbound.{Environment, Node, message_type_of}
use znode.Node.Outbound.{
  max_bytes_per_io, sent, fill, write_some, measured, begin_message, write_message_of, dequeue,
  load, start_write,
}
use znode.Node.Outbound.Bytes.{
  pending_bytes, IsBegun, IsQueued, Conserved, Succeeds, Succeeds-map, Sends, Begins, Dequeues,
  Continues, Sends-Continues, take_item-Taken,
}

message_type_of-seek : (m : Message) → message_type_of (seek m 0) ≡ message_type_of m
unfolding message_type_of
message_type_of-seek m = ap (λ h. (get_definition h).message_type) (header-seek m 0)

module _ (env : Environment) where
  write_some-Sends :
      (m : Message) (n : Node)
      → IsValid m.ser_stream.base
      → 1 ≤ length m.ser_stream.base.buffer
      → n.is_writing ≡ true
      → Succeeds
          (Sends (unread m.ser_stream.base) n.outbound_messages_queue n.send_buffer n.stops n.shake)
          (write_some env m n)
  unfolding write_some fill IsBegun pending_bytes
  write_some-Sends m n v some_bytes writing =
      let base = m.ser_stream.base in
      let k = min max_bytes_per_io (avail base) in
      let left = length-unread base in
      let room = avail_lem base v in
      let fits : k ≤ length (unread base) = omega (arith, room) in
      rw (read-fits base k v fits) (record {
        begun = (advance-IsValid base k v fits, omega (arith, left, room, v.within));
        conserved =
            append_assoc n.send_buffer (take k (unread base)) (unread (advance base k))
            ∙ ap (λ xs. n.send_buffer ++ xs)
                (ap (λ xs. take k (unread base) ++ xs) (unread-advance base k)
                  ∙ take-append-drop k (unread base));
        piece = omega (
          arith,
          length-append n.send_buffer (take k (unread base)),
          length-take k (unread base),
          room,
          fits,
        );
        queue_is = refl;
        writing = writing;
        stops_is = refl;
        shake_is = refl;
      })

  -- A message from the queue starts at its first byte, unless the handshake refuses it.
  begin_message-Begins :
      (fresh : Message) (n : Node) (bytes : List ℕ) (v : Validated)
      → IsValid fresh.ser_stream.base
      → 1 ≤ length fresh.ser_stream.base.buffer
      → unread fresh.ser_stream.base ≡ bytes
      → n.is_writing ≡ true
      → Succeeds
          (Begins bytes n.outbound_messages_queue n.send_buffer n.stops v)
          (begin_message env fresh n v)
  unfolding begin_message measured
  begin_message-Begins fresh n bytes (failure e, shake) valid some_bytes same writing = record {
    idle = refl;
    buffer_is = refl;
    queue_is = refl;
    resting = refl;
    stops_is = refl;
    shake_is = refl;
  }
  begin_message-Begins fresh n bytes (success u, shake) valid some_bytes same writing =
      rw (← same) (write_some-Sends fresh (measured env fresh n shake) valid some_bytes writing)

  fresh-Begins :
      (m : Message) (n : Node)
      → 1 ≤ length m.ser_stream.base.buffer
      → length m.ser_stream.base.buffer < u64_mod
      → n.is_writing ≡ true
      → Succeeds
          (Begins m.ser_stream.base.buffer n.outbound_messages_queue n.send_buffer n.stops
            (validate_message_for_protocol_handshake outbound (message_type_of m) n.shake))
          (write_message_of env n (seek m 0))
  unfolding write_message_of tellg
  fresh-Begins m n some_bytes small writing =
      let fresh = seek m 0 in
      let buffer : fresh.ser_stream.base.buffer ≡ m.ser_stream.base.buffer =
        ap (λ s. s.buffer) (seek-base m) in
      let position : fresh.ser_stream.base.read_position ≡ 0 =
        ap (λ s. s.read_position) (seek-base m) in
      let same = ap length buffer in
      rw
        (
          if-true _ _ _ ((==_iff fresh.ser_stream.base.read_position 0).1 position),
          message_type_of-seek m,
        )
        (begin_message-Begins fresh n m.ser_stream.base.buffer
          (validate_message_for_protocol_handshake outbound (message_type_of m) n.shake)
          (record { within = omega (arith, position); small = omega (arith, same) })
          (omega (arith, same)) (ap unread (seek-base m)) writing)

  loading :
      (index : ℕ) (n : Node) (o : Option Message)
      → n.outbound_message ≡ o
      → IsBegun o
      → ((m : Message) → o ≡ some m → 1 ≤ length (unread m.ser_stream.base))
      → All IsQueued n.outbound_messages_queue
      → n.is_writing ≡ true
      → Succeeds
          (Continues
            (pending_bytes o)
            index
            n.outbound_messages_queue
            n.send_buffer
            n.stops
            n.shake)
          (load env index n o)
  unfolding load dequeue write_message_of IsBegun pending_bytes tellg
  loading index n (some m) same (v, begun) more h writing =
      rw (if-false _ _ _ (==-false m.ser_stream.base.read_position 0 (λ e. omega arith))) (
        Succeeds-map
          (Sends (unread m.ser_stream.base) n.outbound_messages_queue n.send_buffer n.stops n.shake)
          (Continues (unread m.ser_stream.base) index n.outbound_messages_queue n.send_buffer
            n.stops n.shake)
          (write_some env m n) (write_some-Sends m n v (omega (arith, v.within)) writing)
          (Sends-Continues (unread m.ser_stream.base) index n.outbound_messages_queue n.send_buffer
            n.stops n.shake (more m refl)))
  loading index n none same begun more h writing =
      elim (take_item-Taken index n.outbound_messages_queue h) [
        | inl (e, ends) ↦ rw (e) (
            inl (
              ends,
              record {
                idle = same;
                buffer_is = refl;
                queue_is = refl;
                resting = refl;
                stops_is = refl;
                shake_is = refl;
              },
            ))
        | inr (before, m, priority, behind, e, split, place, queued) ↦ rw (e) (
            Succeeds-map
              (Begins m.ser_stream.base.buffer (before ++ behind) n.send_buffer n.stops
                (validate_message_for_protocol_handshake outbound (message_type_of m) n.shake))
              (Dequeues index n.outbound_messages_queue n.send_buffer n.stops n.shake)
              (write_message_of env (record n { outbound_messages_queue = before ++ behind })
                (seek m 0))
              (fresh-Begins m (record n { outbound_messages_queue = before ++ behind }) queued.0
                queued.1 writing)
              (λ n' s. inr (before, m, priority, behind, split, place, s)))
      ]

  -- A message that was written as a whole leaves nothing pending.
  whole :
      (m : Message)
      → IsValid m.ser_stream.base
      → eof m.ser_stream.base ≡ true
      → unread m.ser_stream.base ≡ []
  unfolding eof size
  whole m v e = drop_all m.ser_stream.base.read_position m.ser_stream.base.buffer (leb→le _ _ e)

  -- A message that was not has bytes left.
  unfinished :
      (m : Message)
      → IsValid m.ser_stream.base
      → eof m.ser_stream.base ≡ false
      → 1 ≤ length (unread m.ser_stream.base)
  unfolding eof size
  unfinished m v e =
      let position = m.ser_stream.base.read_position in
      omega (
        arith,
        length-unread m.ser_stream.base,
        leb-false→lt (length m.ser_stream.base.buffer) position e,
      )

  sending :
      (index : ℕ) (n : Node) (o : Option Message)
      → n.outbound_message ≡ o
      → IsBegun o
      → All IsQueued n.outbound_messages_queue
      → n.is_writing ≡ true
      → Succeeds
          (Continues
            (pending_bytes o)
            index
            n.outbound_messages_queue
            n.send_buffer
            n.stops
            n.shake)
          (load env index (sent env n o) (sent env n o).outbound_message)
  unfolding sent IsBegun pending_bytes
  sending index n none same begun h writing =
      subst
        (λ o.
          Succeeds (Continues [] index n.outbound_messages_queue n.send_buffer n.stops n.shake)
            (load env index n o))
        (sym same) (loading index n none same tt (λ m e. cc e) h writing)
  sending index n (some m) same (v, begun) h writing = elim (Bool-cases (eof m.ser_stream.base)) [
    | inl e ↦ rw (e, whole m v e) (loading index _ none refl tt (λ m e. cc e) h writing)
    | inr e ↦ rw (e) (
        subst
          (λ o.
            Succeeds
              (Continues (unread m.ser_stream.base) index n.outbound_messages_queue n.send_buffer
                n.stops n.shake)
              (load env index n o))
          (sym same)
          (loading index n (some m) same (v, begun)
            (λ m' f. let same' : m ≡ m' = cc f in rw (← same') (unfinished m v e)) h writing))
  ]

  -- Where the message in work, if any, was begun and is well-formed, and the queued ones are
  -- neither empty nor larger than a size_t, start_write fails no assertion; it changes nothing
  -- where the socket is closed or a write is on; otherwise a message in work with bytes left goes
  -- on and the queue stays, and with none left the message at the index, the top of the queue, and
  -- no other leaves the queue, and is sent from its first byte if the handshake allows it, while
  -- the node stops over one that it refuses, and just rests where the queue has none there. What
  -- is sent goes behind the bytes in the buffer of the socket, 16384 bytes of it or all that is
  -- left, with its other bytes pending in order in a message that is begun and well-formed; a node
  -- that rests has nothing in work and its buffer as it was.
  pub start_write-Conserved :
      (index : ℕ) (n : Node)
      → IsBegun n.outbound_message
      → All IsQueued n.outbound_messages_queue
      → Conserved index n (start_write env index n)
  unfolding start_write Conserved
  start_write-Conserved index n begun h = elim (Bool-cases (not n.is_open || n.is_writing)) [
    | inl e ↦ rw (e) refl
    | inr e ↦
        rw (e) (sending index (record n { is_writing = true }) n.outbound_message refl begun h refl)
  ]
