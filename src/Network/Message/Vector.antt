-- ===== src/Network/Message/Vector.antt =====
-- `validate_payload_vector` on a message whose header was accepted (src/infra/network/message.cpp).
use znode.Common.{
  ℕ, ◌+◌, ◌*◌, ◌<◌, ◌≤◌, ◌≡◌, refl, ap, arith, Bool, true, false, length-drop, min, Outcome,
  success, failure, if◌then◌else◌, ltb, ◌==◌, Bool-cases, Option-cases, inl, inr,
}
use znode.Errors.{is_incomplete, ErrorCode, ser, net, SerError, NetError}
use znode.Stream.Defs.{Status, size, avail}
use znode.Stream.Cursor.{IsValid, avail_lem, length-unread}
use znode.Serialize.Defs.{
  SDataStream, read_compact, max_serialized_compact_size, ser_compact_sizeof,
}
use znode.Serialize.Overflow.{Within, SerOnly, SerOnly-weaken, read_compact-Within}
use znode.Network.Protocol.{is_get_headers}
use znode.Network.Definitions.{MessageDefinition}
use znode.Network.Header.{get_definition, or_default}
use znode.Network.Message.Defs.{
  Message, validate_payload_vector, vector_offset, counted, check_vector,
}
use znode.Network.Message.Body.{at_pos, buffered, BodyReady}

-- How the check of the vector's size may end.
abbrev pub StatusEnd : Type 0 → Status → Type 0
StatusEnd P (success u) = Unit {0}
StatusEnd P (failure e) = is_incomplete e ≡ true → P

check_vector_lem :
    (P : Type 0) (d : MessageDefinition) (offset payload_length n : ℕ)
    → StatusEnd P (check_vector d offset payload_length n)
unfolding check_vector is_incomplete
check_vector_lem P d offset payload_length n = elim (Bool-cases (n == 0)) [
  | inl e ↦ rw e (λ i. cc)
  | inr e ↦
      rw e (elim (Bool-cases (ltb (or_default d.max_vector_items max_serialized_compact_size) n)) [
        | inl e2 ↦ rw e2 (λ i. cc)
        | inr e2 ↦ rw e2 (elim (Option-cases d.vector_item_size) [
          | inl none_size ↦ rw none_size tt
          | inr (size, some_size) ↦ rw some_size (check_size size)
        ])
      ])
]
  where
    check_size :
        (size : ℕ)
        → StatusEnd P (
            if payload_length
              == n * size
                + (if is_get_headers d.message_type then size else 0)
                + ser_compact_sizeof n
                + offset
            then success tt
            else failure (net NetError.message_payload_length_mismatches_vector_size))
    check_size size =
        elim (Bool-cases (
          payload_length
          == n * size
            + (if is_get_headers d.message_type then size else 0)
            + ser_compact_sizeof n
            + offset)) [ inl e ↦ rw e tt | inr e ↦ rw e (λ i. cc) ]

counted_lem :
    (P : Type 0) (d : MessageDefinition) (offset payload_length : ℕ) (r : Outcome ErrorCode ℕ)
    → SerOnly P r
    → StatusEnd P (counted d offset payload_length r)
unfolding counted is_incomplete
counted_lem P d offset payload_length (success n) h = check_vector_lem P d offset payload_length n
counted_lem P d offset payload_length (failure (net e)) h = absurd h
counted_lem P d offset payload_length (failure (ser SerError.read_overflow)) h = λ i. h refl
counted_lem P d offset payload_length (failure (ser SerError.input_too_large)) h = λ i. cc
counted_lem P d offset payload_length (failure (ser _)) h = λ i. cc

-- The vector's check moves the cursor only; it wants more data only where data is missing.
abbrev pub VectorEnd : Message → Status × Message → Type 0
VectorEnd m (r, m') =
    ((p : ℕ) × (m' ≡ at_pos m p) × (p ≤ buffered m))
    × StatusEnd (buffered m < 24 + m.header.payload_length) r

module _ (m : Message) (ready : BodyReady m) where
  vector_step :
      (pos offset : ℕ) (missing : Bool) (b : Outcome ErrorCode ℕ × SDataStream)
      → pos ≤ buffered m
      → (missing ≡ true → buffered m < 24 + m.header.payload_length)
      → Within (at_pos m pos).ser_stream 9 b
      → (buffered m < pos + 9 → buffered m < 24 + m.header.payload_length)
      → VectorEnd m (
          if missing then (failure (net NetError.message_body_incomplete), at_pos m pos) else (
            counted (get_definition m.header) offset m.header.payload_length b.0,
            record (at_pos m pos) { ser_stream = b.1 },
          ))
  unfolding is_incomplete
  vector_step pos offset true b inside short w more = ((pos, refl, inside), λ i. short refl)
  vector_step pos offset false (r, s) inside short w more =
      let left = length-drop pos m.ser_stream.base.buffer in
      (
        (
          pos + w.taken,
          ap (λ t. record m { ser_stream = t }) w.moved,
          omega (arith, w.inside, left),
        ),
        counted_lem _ (get_definition m.header) offset m.header.payload_length r
            (SerOnly-weaken r (λ h. more (omega (arith, h, left))) w.outcome),
      )

  pub vector_lem :
      (get_definition m.header).is_vectorized ≡ true
      → VectorEnd m (validate_payload_vector (get_definition m.header) m)
  unfolding validate_payload_vector avail
  vector_lem vectorized =
      let offset = vector_offset (get_definition m.header) in
      let pos = min (24 + offset) (buffered m) in
      let start : IsValid (at_pos m pos).ser_stream.base = record {
        within = omega arith;
        small = omega (arith, ready.bounded, ready.not_over);
      } in
      let room = ready.room vectorized in
      let more : buffered m < pos + 9 → buffered m < 24 + m.header.payload_length =
        λ h. omega (arith, h, room) in
      vector_step pos offset _ (read_compact true (at_pos m pos).ser_stream) (omega arith)
        (λ h. ground (
          arith,
          avail_lem (at_pos m pos).ser_stream.base start,
          length-unread (at_pos m pos).ser_stream.base,
          room,
          ready.header_read,
        ))
        (read_compact-Within (at_pos m pos).ser_stream true start) more
