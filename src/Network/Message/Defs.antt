-- ===== src/Network/Message/Defs.antt =====
-- `Message` of src/infra/network/message.hpp and message.cpp. An `ASSERT` that fails aborts the
-- program, which is an exit of its own; an operation that returns has a status.
use znode.Common.{
  ℕ, ◌≡◌, ap, arith, ◌+◌, ◌*◌, Bool, true, false, not, ◌&&◌, ◌||◌, List, length, take, Option, some,
  none, Outcome, success, failure, if◌then◌else◌, ltb, ◌==◌,
}
use znode.Common.Bytes.{bytes_eq}
use znode.Errors.{ErrorCode, net, ser, NetError, SerError}
use znode.Stream.Defs.{Status, size, avail, read, seekg}
use znode.Serialize.Defs.{
  SDataStream, network, deserialize, read_compact, ser_compact_sizeof, max_serialized_compact_size,
  empty_stream, clear_all,
}
use znode.Chunks.{count_duplicate_data_chunks}
use znode.Network.Protocol.{is_get_headers}
use znode.Network.Definitions.{MessageDefinition}
use znode.Network.Header.{
  External, hash256, MessageHeader, reset_header, bind_header, get_definition, validate_magic,
  or_default, max_protocol_message_length, message_header_length,
}

pub record Message : Type 0 where
  pub header : MessageHeader
  pub ser_stream : SDataStream
  pub network_magic : List ℕ
  pub header_validated : Bool
  pub payload_validated : Bool

-- How a member ends.
pub data Exit : Type 0 where
  returned : Status → Exit
  aborted : Exit

abbrev pub Ended : Type 0
Ended = Exit × Message

-- `Message(version, magic)`.
unfoldable pub new_message : ℕ → List ℕ → MessageHeader → Message
unfolding empty_stream reset_header
new_message version magic h = record {
  header = reset_header h;
  ser_stream = empty_stream network version;
  network_magic = magic;
  header_validated = false;
  payload_validated = false;
}

unfoldable pub reset : Message → Message
unfolding reset_header clear_all
reset m = record m {
  header = reset_header m.header;
  ser_stream = clear_all m.ser_stream;
  header_validated = false;
  payload_validated = false;
}

unfoldable pub is_complete : Message → Bool
is_complete m = m.header_validated && m.payload_validated

abbrev pub seek : Message → ℕ → Message
unfolding seekg
seek m position = record m {
  ser_stream = record m.ser_stream { base = (seekg m.ser_stream.base position).1 };
}

pub header-seek : (m : Message) (position : ℕ) → (seek m position).header ≡ m.header
unfolding seekg
header-seek m position = λ i. m.header

-- Going back to the start changes the position alone.
pub seek-base :
    (m : Message) → (seek m 0).ser_stream.base ≡ record m.ser_stream.base { read_position = 0 }
unfolding seekg
seek-base m = ap (λ p. record m.ser_stream.base { read_position = p }) (omega arith)

-- `ASSERT(ser_stream_.seekg(position) == position)`, then the rest.
unfoldable pub assert_seek : Message → ℕ → (Message → Ended) → Ended
unfolding seekg
assert_seek m position rest =
    if (seekg m.ser_stream.base position).0 == position
    then rest (seek m position)
    else (aborted, seek m position)

unfoldable pub settle : Status × MessageHeader → Message → Status × Message
settle (success u, h) m = (
  success tt,
  record m { header = h; header_validated = true; payload_validated = h.payload_length == 0 },
)
settle (failure e, h) m = (failure e, record m { header = h })

-- `validate_header`, after the header's bytes were read.
unfoldable pub check_header : External → Status → Message → Status × Message
unfolding settle
check_header x (failure e) m = (failure e, m)
check_header x (success u) m =
    settle (validate_magic x m.header m.ser_stream.version m.network_magic) m

unfoldable pub validate_header : External → Message → Status × Message
unfolding check_header
validate_header x m =
    if m.header_validated
    then (success tt, m)
    else if ltb (size m.ser_stream.base) message_header_length
    then (failure (net NetError.message_header_incomplete), m)
    else let (r, h, s) = bind_header m.header deserialize m.ser_stream in
      check_header x r (record m { header = h; ser_stream = s })

-- The count of items against the definition, and the size that they take.
unfoldable pub check_vector : MessageDefinition → ℕ → ℕ → ℕ → Status
check_vector definition offset payload_length count =
    if count == 0
    then failure (net NetError.message_payload_empty_vector)
    else if ltb (or_default definition.max_vector_items max_serialized_compact_size) count
    then failure (net NetError.message_payload_oversized_vector)
    else elim definition.vector_item_size [
      | none ↦ success tt
      | some item_size ↦
          let stop = if is_get_headers definition.message_type then item_size else 0 in
          let expected = count * item_size + stop + ser_compact_sizeof count in
          if payload_length == expected + offset
          then success tt
          else failure (net NetError.message_payload_length_mismatches_vector_size)
    ]

-- A count that is cut off wants more data.
unfoldable pub counted : MessageDefinition → ℕ → ℕ → Outcome ErrorCode ℕ → Status
unfolding check_vector
counted definition offset payload_length (failure (ser SerError.read_overflow)) =
    failure (net NetError.message_body_incomplete)
counted definition offset payload_length (failure e) = failure e
counted definition offset payload_length (success count) =
    check_vector definition offset payload_length count

unfoldable pub vector_offset : MessageDefinition → ℕ
unfolding is_get_headers
vector_offset definition = if is_get_headers definition.message_type then 4 else 0

unfoldable pub validate_payload_vector : MessageDefinition → Message → Status × Message
unfolding counted vector_offset seekg
validate_payload_vector definition m =
    let offset = vector_offset definition in
    let pos = message_header_length + offset in
    let at_count = seek m pos in
    if not ((seekg m.ser_stream.base pos).0 == pos) || ltb (avail at_count.ser_stream.base) 1
    then (failure (net NetError.message_body_incomplete), at_count)
    else let (r, s) = read_compact true at_count.ser_stream in
      (counted definition offset m.header.payload_length r, record at_count { ser_stream = s })

-- `validate_payload_checksum` on the view of the payload.
unfoldable pub check_sum : External → Outcome ErrorCode (List ℕ) → Message → Ended
check_sum x (failure e) m = (returned (failure e), m)
check_sum x (success view) m =
    if not (length view == m.header.payload_length)
    then (aborted, m)
    else if not (
        bytes_eq (take (length m.header.payload_checksum) (hash256 x view))
          m.header.payload_checksum)
    then (returned (failure (net NetError.message_header_invalid_checksum)), m)
    else (returned (success tt), record m { payload_validated = true })

unfoldable pub validate_payload_checksum : External → Message → Ended
unfolding check_sum
validate_payload_checksum x m =
    let (view, base) = read m.ser_stream.base none in
    check_sum x view (record m { ser_stream = record m.ser_stream { base = base } })

unfoldable pub finish_payload : External → Bool → Message → Ended
unfolding validate_payload_checksum assert_seek
finish_payload x incomplete m =
    if incomplete
    then (returned (failure (net NetError.message_body_incomplete)), m)
    else assert_seek m message_header_length (validate_payload_checksum x)

-- The items are looked at where the count has left the stream.
unfoldable pub check_duplicates : External → ℕ → Outcome ErrorCode (List ℕ) → Message → Ended
unfolding finish_payload
check_duplicates x item_size (failure e) m = (aborted, m)
check_duplicates x item_size (success view) m =
    if ltb 0 (count_duplicate_data_chunks view item_size 1)
    then (returned (failure (net NetError.message_payload_duplicate_vector_items)), m)
    else finish_payload x false m

unfoldable pub look_for_duplicates : External → Bool → Option ℕ → Message → Ended
unfolding check_duplicates
look_for_duplicates x true item_size m = finish_payload x true m
look_for_duplicates x false none m = finish_payload x false m
look_for_duplicates x false (some item_size) m =
    let (view, base) = read m.ser_stream.base none in
    check_duplicates x item_size view
      (record m { ser_stream = record m.ser_stream { base = base } })

unfoldable pub after_vector : External → Bool → Option ℕ → Status × Message → Ended
unfolding look_for_duplicates
after_vector x incomplete item_size (failure e, m) = (returned (failure e), m)
after_vector x incomplete item_size (success u, m) = look_for_duplicates x incomplete item_size m

unfoldable pub payload_body : External → Message → Ended
unfolding after_vector
payload_body x m =
    let incomplete = not (avail m.ser_stream.base == m.header.payload_length) in
    let definition = get_definition m.header in
    if definition.is_vectorized
    then after_vector x incomplete definition.vector_item_size
        (validate_payload_vector definition m)
    else finish_payload x incomplete m

-- However the body ends, `reset_position` moves the cursor behind the header.
unfoldable pub validate_payload : External → Message → Ended
unfolding payload_body
validate_payload x m =
    if m.payload_validated
    then (returned (success tt), m)
    else if not m.header_validated
    then (returned (failure (net NetError.message_header_incomplete)), m)
    else let (e, m') = payload_body x m in (e, seek m' message_header_length)

unfoldable pub leave_validate : Ended → Ended
unfolding assert_seek
leave_validate (aborted, m) = (aborted, m)
leave_validate (returned r, m) = assert_seek m message_header_length (λ m'. (returned r, m'))

unfoldable pub after_header : External → Status × Message → Ended
unfolding leave_validate
after_header x (failure e, m) = (returned (failure e), m)
after_header x (success u, m) = leave_validate (validate_payload x m)

unfoldable pub validate : External → Message → Ended
unfolding after_header
validate x m =
    if ltb max_protocol_message_length (size m.ser_stream.base)
    then (returned (failure (net NetError.message_size_overflow)), m)
    else if is_complete m
    then (returned (success tt), m)
    else after_header x (validate_header x m)
