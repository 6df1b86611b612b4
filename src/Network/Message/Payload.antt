-- ===== src/Network/Message/Payload.antt =====
-- How `validate_payload` ends on a message whose header was accepted
-- (src/infra/network/message.cpp).
use znode.Common.{
  ℕ, ◌+◌, ◌<◌, ◌≤◌, ◌≡◌, refl, arith, Bool, true, false, not, length, take, drop, length-drop, min,
  Option, some, none, success, failure, if◌then◌else◌, ltb, ◌==◌, ==_iff, Bool-cases, inl, inr,
}
use znode.Common.Bytes.{bytes_eq, bytes_eq→eq}
use znode.Errors.{is_incomplete}
use znode.Stream.Defs.{Status, avail}
use znode.Stream.Cursor.{IsValid, unread, read-all, avail_lem, length-unread}
use znode.Chunks.{count_duplicate_data_chunks}
use znode.Network.Header.{External, hash256, get_definition}
use znode.Network.Message.Defs.{
  Message, Ended, assert_seek, validate_payload_vector, check_sum, validate_payload_checksum,
  finish_payload, check_duplicates, look_for_duplicates, after_vector, payload_body,
}
use znode.Network.Message.Body.{at_pos, buffered, BodyReady, BodyEnd}
use znode.Network.Message.Vector.{VectorEnd, vector_lem}

module _ (x : External) (m : Message) (ready : BodyReady m) where
  check_sum_lem :
      (p : ℕ)
      → buffered m ≡ 24 + m.header.payload_length
      → BodyEnd x m (check_sum x (success (drop 24 m.ser_stream.base.buffer)) (at_pos m p))
  unfolding check_sum is_incomplete
  check_sum_lem p full =
      let view = drop 24 m.ser_stream.base.buffer in
      let whole : length view ≡ m.header.payload_length =
        omega (arith, length-drop 24 m.ser_stream.base.buffer) in
      let same = (==_iff (length view) m.header.payload_length).1 whole in
      elim (Bool-cases (
        bytes_eq (take (length m.header.payload_checksum) (hash256 x view))
          m.header.payload_checksum)) [
            | inl good ↦ rw (same, good) ((p, refl), (full, bytes_eq→eq _ _ good))
            | inr bad ↦ rw (same, bad) ((p, refl), λ h. cc)
          ]

  checksum_lem :
      buffered m ≡ 24 + m.header.payload_length
      → BodyEnd x m (validate_payload_checksum x (at_pos m 24))
  unfolding validate_payload_checksum
  checksum_lem full =
      let valid : IsValid (at_pos m 24).ser_stream.base = record {
        within = ready.header_read;
        small = omega (arith, ready.bounded, ready.not_over);
      } in
      rw (read-all (at_pos m 24).ser_stream.base valid) (check_sum_lem _ full)

  finish_lem :
      (incomplete : Bool) (p : ℕ)
      → (incomplete ≡ true → buffered m < 24 + m.header.payload_length)
      → (incomplete ≡ false → buffered m ≡ 24 + m.header.payload_length)
      → BodyEnd x m (finish_payload x incomplete (at_pos m p))
  unfolding finish_payload assert_seek is_incomplete
  finish_lem true p cut full = ((p, refl), λ h. cut refl)
  finish_lem false p cut full =
      let e : min 24 (buffered m) ≡ 24 = omega (arith, ready.header_read) in
      rw e (checksum_lem (full refl))

module _ (x : External) (m : Message) (ready : BodyReady m) where
  duplicates_lem :
      (p item_size : ℕ)
      → p ≤ buffered m
      → buffered m ≡ 24 + m.header.payload_length
      → BodyEnd x m (look_for_duplicates x false (some item_size) (at_pos m p))
  unfolding look_for_duplicates check_duplicates is_incomplete
  duplicates_lem p item_size inside full =
      let base = (at_pos m p).ser_stream.base in
      let valid : IsValid base = record {
        within = inside;
        small = omega (arith, ready.bounded, ready.not_over);
      } in
      let p' = p + length (unread base) in
      rw (read-all base valid)
        (elim (Bool-cases (ltb 0 (count_duplicate_data_chunks (unread base) item_size 1))) [
          | inl dup ↦ rw dup ((p', refl), λ h. cc)
          | inr distinct ↦ rw distinct (finish_lem x m ready false p' (λ h. cc) (λ h. full))
        ])

  look_lem :
      (incomplete : Bool) (item_size : Option ℕ) (p : ℕ)
      → p ≤ buffered m
      → (incomplete ≡ true → buffered m < 24 + m.header.payload_length)
      → (incomplete ≡ false → buffered m ≡ 24 + m.header.payload_length)
      → BodyEnd x m (look_for_duplicates x incomplete item_size (at_pos m p))
  look_lem true item_size p inside cut full =
      unfold look_for_duplicates in finish_lem x m ready true p cut full
  look_lem false none p inside cut full =
      unfold look_for_duplicates in finish_lem x m ready false p cut full
  look_lem false (some item_size) p inside cut full = duplicates_lem p item_size inside (full refl)

  after_vector_lem :
      (incomplete : Bool) (item_size : Option ℕ) (b : Status × Message)
      → (incomplete ≡ true → buffered m < 24 + m.header.payload_length)
      → (incomplete ≡ false → buffered m ≡ 24 + m.header.payload_length)
      → VectorEnd m b
      → BodyEnd x m (after_vector x incomplete item_size b)
  after_vector_lem incomplete item_size (failure e, m') cut full ((p, moved, inside), more) =
      unfold after_vector in ((p, moved), more)
  after_vector_lem incomplete item_size (success u, m') cut full ((p, moved, inside), more) =
      unfold after_vector in rw moved (look_lem incomplete item_size p inside cut full)

  either :
      (b : Bool) (yes_end no_end : Ended)
      → (b ≡ true → BodyEnd x m yes_end)
      → (b ≡ false → BodyEnd x m no_end)
      → BodyEnd x m (if b then yes_end else no_end)
  either true yes_end no_end f g = f refl
  either false yes_end no_end f g = g refl

  available : avail m.ser_stream.base + 24 ≡ buffered m
  available =
      let valid : IsValid m.ser_stream.base = record {
        within = omega (arith, ready.cursor, ready.header_read);
        small = omega (arith, ready.bounded, ready.not_over);
      } in
      omega (
        arith,
        avail_lem m.ser_stream.base valid,
        length-unread m.ser_stream.base,
        ready.cursor,
        ready.header_read,
      )

  cut :
      not (avail m.ser_stream.base == m.header.payload_length) ≡ true
      → buffered m < 24 + m.header.payload_length
  cut h = ground (arith, available, ready.not_over)

  full :
      not (avail m.ser_stream.base == m.header.payload_length) ≡ false
      → buffered m ≡ 24 + m.header.payload_length
  full h = ground (arith, available, ready.not_over)

  -- For a message whose header was accepted, the cursor behind the header and no byte beyond the
  -- message, the body of validate_payload fails no assertion and changes only the cursor and the
  -- flag; its success means a payload of the declared length with the declared checksum, and an
  -- error that asks for more data is given only while the payload is cut off.
  pub payload_body_lem : BodyEnd x m (payload_body x m)
  payload_body_lem =
      let incomplete = not (avail m.ser_stream.base == m.header.payload_length) in
      unfold payload_body in
      either (get_definition m.header).is_vectorized
        (after_vector x incomplete (get_definition m.header).vector_item_size
          (validate_payload_vector (get_definition m.header) m))
        (finish_payload x incomplete m)
        (λ vectorized.
          after_vector_lem incomplete (get_definition m.header).vector_item_size
            (validate_payload_vector (get_definition m.header) m) cut full
            (vector_lem m ready vectorized))
        (λ plain. finish_lem x m ready incomplete m.ser_stream.base.read_position cut full)
