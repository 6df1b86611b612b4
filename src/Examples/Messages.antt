-- ===== src/Examples/Messages.antt =====
-- A `ping` message as it arrives (src/infra/network/message.cpp). The digest is a stand-in.
use znode.Common.{
  ℕ, ◌≡◌, ◌≤◌, ◌↔◌, refl, arith, true, false, [], ◌∷◌, length, replicate, if◌then◌else◌, ltb,
}
use znode.Serialize.Defs.{network}
use znode.Network.Protocol.{ping, missing_or_unknown}
use znode.Network.Definitions.{definition_of}
use znode.Network.Header.{External, IsExternal, MessageHeader, validate_magic, get_definition}
use znode.Network.Header.Accept.{Validates, validate_magic_lem}
use znode.Common.{List, inl, ◌++◌, success}
use znode.Serialize.Defs.{SDataStream, deserialize}
use znode.Serialize.Moves.{skip}
use znode.Network.Header.{bind_header}
use znode.Network.Header.Reading.{header_at, bind_header-reads}
use znode.Network.Message.Write.{write_message}
use znode.Network.Message.Progress.{Heading}
use znode.Network.Message.Receive.{Received, write_message_lem}
use znode.Network.Message.Defs.{Message, payload_body, vector_offset}
use znode.Network.Message.Body.{BodyReady, BodyEnd}
use znode.Network.Message.Payload.{payload_body_lem}

abbrev clamp_to : ℕ → ℕ → ℕ → ℕ
clamp_to v lo hi = if ltb v lo then lo else if ltb hi v then hi else v

-- A digest that is 32 bytes long whatever the data.
abbrev pub concrete : External
concrete = record { sha256 = λ bytes. replicate 32 (length bytes); clamp = clamp_to }

clamp_to_iff : (v lo hi : ℕ) → (clamp_to v lo hi ≡ v) ↔ ((lo ≤ v) × (v ≤ hi))
clamp_to_iff v lo hi = (λ (h : clamp_to v lo hi ≡ v). ground arith, λ h. ground arith)

pub concrete-IsExternal : IsExternal concrete
concrete-IsExternal = record { clamp_iff = clamp_to_iff }

abbrev ping_header : MessageHeader
ping_header = record {
  network_magic = 1 ∷ 2 ∷ 3 ∷ 4 ∷ [];
  command = 112 ∷ 105 ∷ 110 ∷ 103 ∷ 0 ∷ 0 ∷ 0 ∷ 0 ∷ 0 ∷ 0 ∷ 0 ∷ 0 ∷ [];
  payload_length = 8;
  payload_checksum = replicate 4 32;
  message_type = missing_or_unknown;
}

validate_magic_example :
    Validates ping_header
      (1 ∷ 2 ∷ 3 ∷ 4 ∷ [])
      (validate_magic concrete ping_header 170002 (1 ∷ 2 ∷ 3 ∷ 4 ∷ []))
validate_magic_example =
    validate_magic_lem concrete concrete-IsExternal ping_header 170002 (1 ∷ 2 ∷ 3 ∷ 4 ∷ [])

-- The header was accepted, and all of the payload is there.
abbrev pub ping_message : Message
ping_message = record {
  header = record ping_header { message_type = ping };
  ser_stream = record {
    base = record { buffer = replicate 32 5; read_position = 24 };
    scope = network;
    version = 170002;
    computed_size = 0;
  };
  network_magic = 1 ∷ 2 ∷ 3 ∷ 4 ∷ [];
  header_validated = true;
  payload_validated = false;
}

ping_message-BodyReady : BodyReady ping_message
unfolding definition_of vector_offset get_definition
ping_message-BodyReady = record {
  cursor = refl;
  header_read = omega arith;
  not_over = omega arith;
  bounded = omega arith;
  room = λ vectorized. cc;
}

payload_body_example : BodyEnd concrete ping_message (payload_body concrete ping_message)
payload_body_example = payload_body_lem concrete ping_message ping_message-BodyReady

-- Nothing has arrived yet.
abbrev fresh_message : Message
fresh_message = record {
  header = record ping_header { network_magic = replicate 4 0; command = replicate 12 0 };
  ser_stream = record {
    base = record { buffer = []; read_position = 0 };
    scope = network;
    version = 170002;
    computed_size = 0;
  };
  network_magic = 1 ∷ 2 ∷ 3 ∷ 4 ∷ [];
  header_validated = false;
  payload_validated = false;
}

fresh_message-Heading : Heading fresh_message
fresh_message-Heading = record {
  no_header = refl;
  no_payload = refl;
  at_start = refl;
  short = omega arith;
}

-- The header, the payload and two bytes of the next message.
abbrev pub arriving : List ℕ
arriving =
    (1 ∷ 2 ∷ 3 ∷ 4 ∷ [])
    ++ (ping_header.command ++ ((8 ∷ 0 ∷ 0 ∷ 0 ∷ []) ++ (replicate 4 32 ++ replicate 10 5)))

write_message_example :
    Received concrete
      (fresh_message.ser_stream.base.buffer ++ arriving)
      (write_message concrete fresh_message arriving)
write_message_example =
    write_message_lem concrete concrete-IsExternal fresh_message arriving
      (inl fresh_message-Heading)

-- The first 24 of them, as a stream.
abbrev header_stream : SDataStream
header_stream = record {
  base = record { buffer = arriving; read_position = 0 };
  scope = network;
  version = 170002;
  computed_size = 0;
}

bind_header-reads_example :
    bind_header ping_header deserialize header_stream
    ≡ (success tt, header_at header_stream ping_header, skip header_stream 24)
bind_header-reads_example =
    bind_header-reads ping_header header_stream
      (record { within = omega arith; small = omega arith }) (omega arith)
