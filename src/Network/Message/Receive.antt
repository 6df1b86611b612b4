-- ===== src/Network/Message/Receive.antt =====
-- `Message::write` on whatever arrives (src/infra/network/message.cpp).
use mathlib.Core.List.{append_assoc}
use znode.Common.{
  ℕ, zero, suc, ◌+◌, ◌-◌, ◌<◌, ◌≤◌, ◌≡◌, refl, ap, ◌∙◌, arith, Bool, true, false, not, ◌&&◌, List,
  [], ◌∷◌, ◌++◌, length, length-append, length-take, length-drop, take, drop, take-append-drop, min,
  success, failure, if◌then◌else◌, inl, inr,
}
use znode.Errors.{ErrorCode, is_incomplete}
use znode.Stream.Defs.{size, avail, tellg, write, max_stream_size}
use znode.Stream.Cursor.{append, write-fits}
use znode.Network.Header.{External, IsExternal}
use znode.Network.Message.Defs.{Message, returned, aborted, Ended, is_complete, validate}
use znode.Network.Message.Write.{
  Written, written, stuck, bytes_to_read, after_validate, after_write, write_loop, write_message,
}
use znode.Network.Message.Body.{buffered, Checked}
use znode.Network.Message.Progress.{InProgress, Fine}
use znode.Network.Message.Stages.{validate_starting, validate_continuing}

-- The loop ends and no assertion fails; no byte of `all` is lost; success is a complete and checked
-- message, and a message that wants more data has taken all there was.
abbrev pub Received : External → List ℕ → Written → Type 0
Received x all stuck = ⊥
Received x all (written aborted m rest) = ⊥
Received x all (written (returned (success u)) m rest) =
    (m.ser_stream.base.buffer ++ rest ≡ all) × (is_complete m ≡ true) × Checked x m
Received x all (written (returned (failure e)) m rest) =
    (m.ser_stream.base.buffer ++ rest ≡ all) × (is_incomplete e ≡ true → InProgress m × (rest ≡ []))

abbrev grown : Message → List ℕ → Message
grown m bytes = record m {
  ser_stream = record m.ser_stream { base = append m.ser_stream.base bytes };
}

-- How many bytes the message still takes.
abbrev wanted : (m : Message) → InProgress m → ℕ
wanted m (inl heading) = 24 - buffered m
wanted m (inr body) = 24 + m.header.payload_length - buffered m

pub wanted_some : (m : Message) (p : InProgress m) → 1 ≤ wanted m p
wanted_some m (inl heading) = omega (arith, heading.short)
wanted_some m (inr body) = omega (arith, body.unfinished)

wanted_fits : (m : Message) (p : InProgress m) → buffered m + wanted m p ≤ max_stream_size
wanted_fits m (inl heading) = omega (arith, heading.short)
wanted_fits m (inr body) = omega (arith, body.ready.bounded, body.unfinished)

pub bytes_to_read-wanted :
    (m : Message) (p : InProgress m) (input : List ℕ)
    → bytes_to_read m input ≡ min (wanted m p) (length input)
unfolding bytes_to_read tellg avail size
bytes_to_read-wanted m (inl heading) input = ground (arith, heading.at_start, heading.short)
bytes_to_read-wanted m (inr body) input =
    ground (arith, body.ready.cursor, body.ready.header_read, body.ready.bounded, body.unfinished)

Received-if :
    (x : External) (all : List ℕ) (b : Bool) (p q : Written)
    → (b ≡ true → Received x all p)
    → (b ≡ false → Received x all q)
    → Received x all (if b then p else q)
Received-if x all true p q f g = f refl
Received-if x all false p q f g = g refl

incomplete_lem : (m : Message) → InProgress m → m.header_validated && m.payload_validated ≡ true → ⊥
incomplete_lem m (inl heading) h = cc (rw heading.no_header at h)
incomplete_lem m (inr body) h = cc (rw (body.has_header, body.lacks_payload) at h)

module _ (x : External) (laws : IsExternal x) where
  grown_stage :
      (m : Message) (p : InProgress m) (bytes : List ℕ)
      → length bytes ≤ wanted m p
      → Fine x (m.ser_stream.base.buffer ++ bytes) (validate x (grown m bytes))
  grown_stage m (inl heading) bytes h =
      validate_starting x laws (grown m bytes) heading.at_start heading.no_header heading.no_payload
        (omega (arith, heading.short, length-append m.ser_stream.base.buffer bytes))
  grown_stage m (inr body) bytes h =
      let n = length-append m.ser_stream.base.buffer bytes in
      let ready = body.ready in
      validate_continuing x (grown m bytes)
        (record {
          cursor = ready.cursor;
          header_read = omega (arith, n, ready.header_read);
          not_over = omega (arith, n, body.unfinished);
          bounded = ready.bounded;
          room = ready.room;
        })
        body.has_header body.lacks_payload

  failed_end :
      (fuel : ℕ) (all rest : List ℕ) (e : ErrorCode) (m : Message) (incomplete : Bool)
      → is_incomplete e ≡ incomplete
      → m.ser_stream.base.buffer ++ rest ≡ all
      → (is_incomplete e ≡ true → Received x all (write_loop x fuel (failure e) m rest))
      → Received x all (elim incomplete [
        | true ↦ write_loop x fuel (failure e) m rest
        | false ↦ written (returned (failure e)) m rest
      ])
  failed_end fuel all rest e m true same kept again = again same
  failed_end fuel all rest e m false same kept again = (kept, λ i. absurd (cc (same, i)))

  round_end :
      (fuel : ℕ) (all bytes rest : List ℕ) (ended : Ended)
      → Fine x bytes ended
      → bytes ++ rest ≡ all
      → ((e : ErrorCode) (m : Message)
          → InProgress m
          → m.ser_stream.base.buffer ++ rest ≡ all
          → Received x all (write_loop x fuel (failure e) m rest))
      → Received x all (after_validate (write_loop x fuel) rest ended)
  unfolding after_validate
  round_end fuel all bytes rest (aborted, m) fine kept again = absurd fine
  round_end fuel all bytes rest (returned (success u), m) (same, complete, checked) kept again =
      (ap (λ b. b ++ rest) same ∙ kept, complete, checked)
  round_end fuel all bytes rest (returned (failure e), m) (same, more) kept again =
      let kept' = ap (λ b. b ++ rest) same ∙ kept in
      failed_end fuel all rest e m (is_incomplete e) refl kept'
        λ yes_more. again e m (more yes_more) kept'

  round :
      (fuel : ℕ) (m : Message) (p : InProgress m) (input : List ℕ)
      → 1 ≤ length input
      → ((e : ErrorCode) (m' : Message) (rest : List ℕ)
          → InProgress m'
          → length rest < length input
          → Received x (m'.ser_stream.base.buffer ++ rest) (write_loop x fuel (failure e) m' rest))
      → Received x (m.ser_stream.base.buffer ++ input) (
          after_write x
            (write_loop x fuel)
            input
            (bytes_to_read m input)
            m
            (write m.ser_stream.base (take (bytes_to_read m input) input)))
  unfolding after_write
  round fuel m p input some_input again =
      let n = bytes_to_read m input in
      let count = bytes_to_read-wanted m p input in
      let some_wanted = wanted_some m p in
      let fits = wanted_fits m p in
      let taken = length-take n input in
      let left = length-drop n input in
      let kept : (m.ser_stream.base.buffer ++ take n input) ++ drop n input
          ≡ m.ser_stream.base.buffer ++ input =
        append_assoc m.ser_stream.base.buffer (take n input) (drop n input)
        ∙ ap (λ b. m.ser_stream.base.buffer ++ b) (take-append-drop n input) in
      rw (write-fits m.ser_stream.base (take n input) (omega (arith, fits, taken, count))) (
        round_end fuel _ _ (drop n input) (validate x (grown m (take n input)))
          (grown_stage m p (take n input) (omega (arith, taken, count))) kept
          λ e m' p' same.
            rw (← same) (again e m' (drop n input) p' (omega (arith, left, count, some_wanted))))

  pub loop_lem :
      (fuel : ℕ) (e : ErrorCode) (m : Message) (input : List ℕ)
      → InProgress m
      → length input ≤ fuel
      → Received x (m.ser_stream.base.buffer ++ input) (write_loop x fuel (failure e) m input)
  unfolding write_loop
  loop_lem fuel e m [] p h = (refl, λ i. (p, refl))
  loop_lem zero e m (b ∷ bs) p h = absurd (omega arith)
  loop_lem (suc fuel) e m (b ∷ bs) p h =
      round fuel m p (b ∷ bs) (omega arith)
        λ e' m' rest p' less. loop_lem fuel e' m' rest p' (omega arith)

  some_end :
      (m : Message) (p : InProgress m) (b : ℕ) (bs : List ℕ)
      → Received x
          (m.ser_stream.base.buffer ++ (b ∷ bs))
          (write_loop x (length (b ∷ bs)) (success tt) m (b ∷ bs))
  unfolding write_loop
  some_end m p b bs =
      round (length bs) m p (b ∷ bs) (omega arith)
        λ e' m' rest p' less. loop_lem (length bs) e' m' rest p' (omega arith)

  -- With a clamp that leaves alone just the values in its range, Message::write on a message that
  -- is being received ends within its fuel and fails no assertion whatever the input, and the
  -- bytes of the message with the input that is left are those it began with; on success the
  -- message is complete and its payload has the declared length and checksum, and an error that
  -- asks for more data leaves no input and a message that is still being received.
  pub write_message_lem :
      (m : Message) (input : List ℕ)
      → InProgress m
      → Received x (m.ser_stream.base.buffer ++ input) (write_message x m input)
  unfolding write_message is_complete is_incomplete
  write_message_lem m [] p =
      Received-if x _ (not m.header_validated) _ _ (λ t. (refl, λ i. (p, refl)))
        λ t.
          Received-if x _ (not m.payload_validated) _ _ (λ u. (refl, λ i. (p, refl)))
            λ u. absurd (incomplete_lem m p (ground arith))
  write_message_lem m (b ∷ bs) p =
      Received-if x _ (m.header_validated && m.payload_validated) _ _
        (λ complete. absurd (incomplete_lem m p complete)) λ t. some_end m p b bs
