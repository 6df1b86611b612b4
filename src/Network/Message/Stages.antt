-- ===== src/Network/Message/Stages.antt =====
-- `Message::validate` on a message that is being received: how it ends, whatever the bytes.
use znode.Common.{
  ℕ, ◌<◌, ◌≤◌, ◌≡◌, refl, ap, ◌∙◌, arith, Bool, true, false, ◌&&◌, List, length, drop_all, min,
  success, failure, if◌then◌else◌, ltb, ◌==◌, ltb-false, lt→ltb, dec_lt, inl,
}
use znode.Errors.{net, NetError, is_incomplete}
use znode.Stream.Defs.{Status, size, seekg}
use znode.Stream.Cursor.{IsValid, length-unread}
use znode.Serialize.Moves.{skip, pending}
use znode.Network.Header.{
  External, IsExternal, hash256, MessageHeader, get_definition, max_protocol_message_length,
  validate_magic,
}
use znode.Network.Header.Accept.{Accepted, Validates, validate_magic_lem}
use znode.Network.Header.Reading.{header_at, bind_header-reads}
use znode.Network.Message.Defs.{
  Message, Ended, assert_seek, is_complete, settle, check_header, validate_header, validate_payload,
  leave_validate, after_header, validate,
}
use znode.Network.Message.Body.{definition_of-room, buffered, BodyReady, Checked}
use znode.Network.Message.Progress.{Fine, body_stage}

Fine-if :
    (x : External) (bytes : List ℕ) (b : Bool) (p q : Ended)
    → (b ≡ true → Fine x bytes p)
    → (b ≡ false → Fine x bytes q)
    → Fine x bytes (if b then p else q)
Fine-if x bytes true p q f g = f refl
Fine-if x bytes false p q f g = g refl

pub if-true : {A : Type 0} (b : Bool) (p q : A) → b ≡ true → (if b then p else q) ≡ p
if-true true p q e = refl
if-true false p q e = cc

pub if-false : {A : Type 0} (b : Bool) (p q : A) → b ≡ false → (if b then p else q) ≡ q
if-false true p q e = cc
if-false false p q e = refl

-- A message with its header just read: `h` is the header that `validate` left.
module _ (x : External) (m : Message) (at_start : m.ser_stream.base.read_position ≡ 0)
    (full_header : buffered m ≡ 24) (h : MessageHeader)
    (accepted : Accepted h m.network_magic) where
  abbrev accepted_message : Bool → Message
  accepted_message empty = record m {
    header = h;
    ser_stream = skip m.ser_stream 24;
    header_validated = true;
    payload_validated = empty;
  }

  empty-Checked : h.payload_length ≡ 0 → Checked x (accepted_message true)
  unfolding hash256
  empty-Checked e = (
    omega (arith, e),
    rw (drop_all 24 m.ser_stream.base.buffer (omega arith)) (accepted.empty_checksum e),
  )

  ready_of_header : BodyReady (accepted_message false)
  unfolding get_definition
  ready_of_header = record {
    cursor = omega arith;
    header_read = omega arith;
    not_over = omega arith;
    bounded = accepted.bounded;
    room = λ vectorized.
        omega (arith, accepted.at_least, definition_of-room h.message_type vectorized);
  }

  accepted_stage :
      (empty : Bool)
      → (h.payload_length == 0) ≡ empty
      → Fine x m.ser_stream.base.buffer
          (leave_validate (validate_payload x (accepted_message empty)))
  unfolding validate_payload leave_validate assert_seek seekg is_complete
  accepted_stage true e =
      let at_header : min 24 (buffered m) ≡ 24 = omega arith in
      rw at_header (refl, refl, empty-Checked (ground (arith, e)))
  accepted_stage false e = body_stage x (accepted_message false) ready_of_header refl refl

module _ (x : External) (laws : IsExternal x) (m : Message)
    (at_start : m.ser_stream.base.read_position ≡ 0) where
  abbrev with_header : Message
  with_header = record m {
    header = header_at m.ser_stream m.header;
    ser_stream = skip m.ser_stream 24;
  }

  settled_stage :
      buffered m ≡ 24
      → (b : Status × MessageHeader) → Validates (header_at m.ser_stream m.header) m.network_magic b
      → Fine x m.ser_stream.base.buffer (after_header x (settle b with_header))
  unfolding after_header settle validate_payload is_incomplete
  settled_stage full (failure e, h) final = (refl, λ incomplete. absurd (cc (final, incomplete)))
  settled_stage full (success u, h) (typed, accepted) =
      accepted_stage x m at_start full h accepted (h.payload_length == 0) refl

  header_run :
      m.header_validated ≡ false
      → buffered m ≡ 24
      → validate_header x m
        ≡ settle
            (validate_magic x with_header.header m.ser_stream.version m.network_magic)
            with_header
  unfolding validate_header check_header size
  header_run no_header full =
      let valid : IsValid m.ser_stream.base = record {
        within = omega arith;
        small = omega arith;
      } in
      let enough : 24 ≤ length (pending m.ser_stream) =
        omega (arith, length-unread m.ser_stream.base) in
      if-false m.header_validated (success tt, m) _ no_header
      ∙ if-false (ltb (buffered m) 24) (failure (net NetError.message_header_incomplete), m) _
          (ltb-false (buffered m) 24 (omega arith))
      ∙ ap (λ b. check_header x b.0 (record m { header = b.1; ser_stream = b.2 }))
          (bind_header-reads m.header m.ser_stream valid enough)

  full_stage :
      m.header_validated ≡ false
      → buffered m ≡ 24
      → Fine x m.ser_stream.base.buffer (after_header x (validate_header x m))
  full_stage no_header full = rw (header_run no_header full) (
      settled_stage full _
        (validate_magic_lem x laws with_header.header m.ser_stream.version m.network_magic))

  short_stage :
      m.header_validated ≡ false
      → m.payload_validated ≡ false
      → buffered m < 24
      → Fine x m.ser_stream.base.buffer (after_header x (validate_header x m))
  unfolding after_header validate_header
  short_stage no_header no_payload short =
      let e : validate_header x m ≡ (failure (net NetError.message_header_incomplete), m) =
        if-false m.header_validated _ _ no_header
        ∙ if-true (ltb (buffered m) 24) _ _ (lt→ltb (buffered m) 24 short) in
      rw e (
        refl,
        λ incomplete. inl (record {
          no_header = no_header;
          no_payload = no_payload;
          at_start = at_start;
          short = short;
        }),
      )

  -- A message with its first bytes, up to the whole header.
  pub validate_starting :
      m.header_validated ≡ false
      → m.payload_validated ≡ false
      → buffered m ≤ 24
      → Fine x m.ser_stream.base.buffer (validate x m)
  unfolding validate is_complete is_incomplete
  validate_starting no_header no_payload fits =
      Fine-if x m.ser_stream.base.buffer (ltb max_protocol_message_length (buffered m)) _ _
        (λ over. (refl, λ incomplete. cc))
        λ within.
          Fine-if x m.ser_stream.base.buffer (m.header_validated && m.payload_validated) _ _
            (λ complete. absurd (cc (rw no_header at complete)))
            λ partly. elim (dec_lt (buffered m) 24) [
              | yes short ↦ short_stage no_header no_payload short
              | no full ↦ full_stage no_header (omega arith)
            ]

-- A message with its header accepted, and bytes added up to its end.
pub validate_continuing :
    (x : External) (m : Message)
    → BodyReady m
    → m.header_validated ≡ true
    → m.payload_validated ≡ false
    → Fine x m.ser_stream.base.buffer (validate x m)
unfolding validate is_complete is_incomplete after_header validate_header
validate_continuing x m ready hv pv =
    Fine-if x m.ser_stream.base.buffer (ltb max_protocol_message_length (buffered m)) _ _
      (λ over. (refl, λ incomplete. cc))
      λ within.
        Fine-if x m.ser_stream.base.buffer (m.header_validated && m.payload_validated) _ _
          (λ complete. absurd (cc (rw (hv, pv) at complete)))
          λ partly.
            let e : validate_header x m ≡ (success tt, m) = if-true m.header_validated _ _ hv in
            rw e (body_stage x m ready hv pv)
