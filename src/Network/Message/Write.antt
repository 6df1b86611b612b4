-- ===== src/Network/Message/Write.antt =====
-- `Message::write` and `Message::push` (src/infra/network/message.cpp).
use znode.Common.{
  ℕ, zero, suc, ◌+◌, ◌-◌, ◌%◌, true, false, not, List, [], ◌∷◌, ◌++◌, length, take, drop, min, none,
  Outcome, success, failure, if◌then◌else◌, ltb, ◌==◌,
}
use znode.Common.Words.{sub64, u32_mod}
use znode.Errors.{is_incomplete, ErrorCode, net, NetError}
use znode.Stream.Defs.{DataStream, Status, size, avail, read, write, tellg}
use znode.Serialize.Defs.{SDataStream, serialize, le_bytes, clear_all}
use znode.Serialize.Bind.{Bind}
use znode.Network.Protocol.{MessageType, is_missing}
use znode.Network.Header.{
  External, hash256, bind_header, set_type, pristine, message_header_length, checksum_length,
}
use znode.Network.Message.Defs.{
  Message, Exit, returned, aborted, Ended, assert_seek, is_complete, validate,
}

-- How `write` ends: with an exit, the message and the input that is left, or out of fuel.
pub data Written : Type 0 where
  written : Exit → Message → List ℕ → Written
  stuck : Written

-- As many bytes as complete the header, or the message.
unfoldable pub bytes_to_read : Message → List ℕ → ℕ
unfolding tellg avail
bytes_to_read m input =
    let wanted =
      if ltb (tellg m.ser_stream.base) message_header_length
      then sub64 message_header_length (avail m.ser_stream.base)
      else sub64 m.header.payload_length (avail m.ser_stream.base) in
    min wanted (length input)

-- The end of a round: on an incomplete message the loop goes on.
unfoldable pub after_validate : (Status → Message → List ℕ → Written) → List ℕ → Ended → Written
unfolding is_incomplete
after_validate again rest (aborted, m) = written aborted m rest
after_validate again rest (returned (success u), m) = written (returned (success tt)) m rest
after_validate again rest (returned (failure e), m) = elim (is_incomplete e) [
  | true ↦ again (failure e) m rest
  | false ↦ written (returned (failure e)) m rest
]

unfoldable pub after_write :
    External
    → (Status → Message → List ℕ → Written)
    → List ℕ
    → ℕ
    → Message
    → Status × DataStream
    → Written
unfolding after_validate
after_write x again input n m (failure e, base) =
    written (returned (failure e)) (record m { ser_stream = record m.ser_stream { base = base } })
      input
after_write x again input n m (success u, base) =
    after_validate again (drop n input)
      (validate x (record m { ser_stream = record m.ser_stream { base = base } }))

-- `while (not input.empty())`, with the result of the last round.
unfoldable pub write_loop : External → ℕ → Status → Message → List ℕ → Written
unfolding after_write
write_loop x fuel last m [] = written (returned last) m []
write_loop x zero last m (b ∷ bs) = stuck
write_loop x (suc fuel) last m (b ∷ bs) =
    let n = bytes_to_read m (b ∷ bs) in
    after_write x (write_loop x fuel) (b ∷ bs) n m (write m.ser_stream.base (take n (b ∷ bs)))

-- Each round of the loop takes a byte at least, so `length input` rounds are enough.
unfoldable pub write_message : External → Message → List ℕ → Written
unfolding write_loop
write_message x m [] =
    if not m.header_validated
    then written (returned (failure (net NetError.message_header_incomplete))) m []
    else if not m.payload_validated
    then written (returned (failure (net NetError.message_body_incomplete))) m []
    else written (returned (success tt)) m []
write_message x m (b ∷ bs) =
    if is_complete m
    then written (returned (failure (net NetError.message_write_not_permitted))) m (b ∷ bs)
    else write_loop x (length (b ∷ bs)) (success tt) m (b ∷ bs)

-- `memcpy` into the stream's buffer.
unfoldable pub patch : List ℕ → ℕ → List ℕ → List ℕ
patch buffer pos bytes = take pos buffer ++ (bytes ++ drop (pos + length bytes) buffer)

abbrev with_buffer : Message → List ℕ → Message
with_buffer m buffer = record m {
  ser_stream = record m.ser_stream { base = record m.ser_stream.base { buffer = buffer } };
}

-- The length and the checksum are known now: they go into the header and into the stream.
seal_header : External → Outcome ErrorCode (List ℕ) → Message → Ended
unfolding patch le_bytes hash256
seal_header x (failure e) m = (returned (failure e), m)
seal_header x (success view) m =
    let checksum = take checksum_length (hash256 x view) in
    let with_length = patch m.ser_stream.base.buffer 16 (le_bytes 4 m.header.payload_length) in
    let sealed = record m { header = record m.header { payload_checksum = checksum } } in
    assert_seek (with_buffer sealed (patch with_length 20 checksum)) 0 (validate x)

read_payload : External → Message → Ended
unfolding seal_header
read_payload x m =
    let (view, base) = read m.ser_stream.base none in
    seal_header x view (record m { ser_stream = record m.ser_stream { base = base } })

set_length : External → Status × SDataStream → Message → Ended
unfolding read_payload assert_seek
set_length x (failure e, s) m = (returned (failure e), record m { ser_stream = s })
set_length x (success u, s) m =
    let payload_length = (size s.base - message_header_length) % u32_mod in
    assert_seek
      (record m { ser_stream = s; header = record m.header { payload_length = payload_length } })
      message_header_length (read_payload x)

write_payload : {P : Type 0} → External → Bind P → P → Status → Message → Ended × P
unfolding set_length
write_payload x bind payload (failure e) m = ((returned (failure e), m), payload)
write_payload x bind payload (success u) m =
    if not (size m.ser_stream.base == message_header_length)
    then ((aborted, m), payload)
    else let (r, payload', s) = bind payload serialize m.ser_stream in
      (set_length x (r, s) m, payload')

-- A payload is its type, its data and how it is serialized.
unfoldable pub push : {P : Type 0} → External → MessageType → Bind P → P → Message → Ended × P
unfolding write_payload is_missing
push x type bind payload m =
    if not (pristine m.header)
    then ((returned (failure (net NetError.message_push_not_permitted)), m), payload)
    else if is_missing type
    then ((returned (failure (net NetError.message_unknown_command)), m), payload)
    else let typed = record (set_type m.header type) { network_magic = m.network_magic } in
      let (r, h, s) = bind_header typed serialize (clear_all m.ser_stream) in
      write_payload x bind payload r (record m { header = h; ser_stream = s })
