-- ===== src/Network/Message/Progress.antt =====
-- How one call of `Message::validate` ends on a message that is being received
-- (src/infra/network/message.cpp).
use znode.Common.{
  ℕ, ◌+◌, ◌<◌, ◌≤◌, ◌≡◌, ◌⊎◌, inr, refl, ap, arith, Bool, true, false, not, List, length, min,
  success, failure, if◌then◌else◌,
}
use znode.Errors.{net, NetError, is_incomplete}
use znode.Stream.Defs.{Status, seekg}
use znode.Network.Header.{External}
use znode.Network.Message.Defs.{
  Message, returned, aborted, Ended, seek, assert_seek, is_complete, payload_body, validate_payload,
  leave_validate,
}
use znode.Network.Message.Body.{at_pos, buffered, BodyReady, Checked, BodyEnd}
use znode.Network.Message.Payload.{payload_body_lem}

-- The header is not complete yet: nothing was looked at.
pub record Heading (m : Message) : Type 0 where
  pub no_header : m.header_validated ≡ false
  pub no_payload : m.payload_validated ≡ false
  pub at_start : m.ser_stream.base.read_position ≡ 0
  pub short : buffered m < 24

-- The header was accepted, and a part of the payload is missing.
pub record InBody (m : Message) : Type 0 where
  pub has_header : m.header_validated ≡ true
  pub lacks_payload : m.payload_validated ≡ false
  pub ready : BodyReady m
  pub unfinished : buffered m < 24 + m.header.payload_length

abbrev pub InProgress : Message → Type 0
InProgress m = Heading m ⊎ InBody m

-- A call that leaves the bytes of `bytes` in place ends well: no assertion fails, success is a complete
-- and checked message, and a message that wants more data is in progress.
abbrev pub Fine : External → List ℕ → Ended → Type 0
Fine x bytes (aborted, m) = ⊥
Fine x bytes (returned (success u), m) =
    (m.ser_stream.base.buffer ≡ bytes) × (is_complete m ≡ true) × Checked x m
Fine x bytes (returned (failure e), m) =
    (m.ser_stream.base.buffer ≡ bytes) × (is_incomplete e ≡ true → InProgress m)

pick :
    (b c : Bool) (p q r : Ended)
    → b ≡ false
    → c ≡ true
    → (if b then p else if not c then q else r) ≡ r
pick true c p q r hb hc = cc
pick false true p q r hb hc = refl
pick false false p q r hb hc = cc

module _ (x : External) (m : Message) where
  -- The cursor goes back behind the header, twice.
  rest_at :
      (r : Status) (m' : Message)
      → m.ser_stream.base.buffer ≡ m'.ser_stream.base.buffer
      → 24 ≤ buffered m
      → leave_validate (returned r, seek m' 24) ≡ (returned r, at_pos m' 24)
  unfolding leave_validate assert_seek seekg
  rest_at r m' e h = let e1 : min 24 (buffered m') ≡ 24 = omega (arith, ap length e) in rw e1 refl

  module _ (ready : BodyReady m) (hv : m.header_validated ≡ true)
      (pv : m.payload_validated ≡ false) where
    body_rest :
        (b : Ended)
        → BodyEnd x m b
        → Fine x m.ser_stream.base.buffer (leave_validate (b.0, seek b.1 24))
    unfolding is_complete
    body_rest (aborted, m') end = absurd end
    body_rest (returned (failure e), m') ((p, at), more) =
        rw (at, rest_at (failure e) (at_pos m p) refl ready.header_read)
          (
            refl,
            λ incomplete. inr (record {
              has_header = hv;
              lacks_payload = pv;
              ready = record {
                cursor = refl;
                header_read = ready.header_read;
                not_over = ready.not_over;
                bounded = ready.bounded;
                room = ready.room;
              };
              unfinished = more incomplete;
            }),
          )
    body_rest (returned (success u), m') ((p, at), checked) =
        rw
          (
            at,
            rest_at (success u) (record (at_pos m p) { payload_validated = true }) refl
                ready.header_read,
          )
          (refl, rw hv refl, checked)

    payload_run : validate_payload x m ≡ ((payload_body x m).0, seek (payload_body x m).1 24)
    unfolding validate_payload
    payload_run =
        pick m.payload_validated m.header_validated (returned (success tt), m)
          (returned (failure (net NetError.message_header_incomplete)), m)
          ((payload_body x m).0, seek (payload_body x m).1 24) pv hv

    pub body_stage : Fine x m.ser_stream.base.buffer (leave_validate (validate_payload x m))
    body_stage = rw payload_run (body_rest (payload_body x m) (payload_body_lem x m ready))
