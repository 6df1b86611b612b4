-- ===== src/Examples/Payloads.antt =====
-- Payloads on the wire (src/infra/network/payloads.cpp, src/core/types/inventory.cpp).
use znode.Common.{
  ℕ, ◌≡◌, refl, arith, List, [], ◌∷◌, length, replicate, some, none, success, failure,
}
use znode.Common.Bytes.{codes, bytes_eq}
use znode.Errors.{net, NetError}
use znode.Serialize.Defs.{
  SDataStream, network, serialize, deserialize, ser_compact_sizeof, le_bytes,
}
use znode.Serialize.Vector.{encode_vector}
use znode.Serialize.Compact.{compact_bytes}
use znode.Serialize.Members.{string_bytes}
use znode.Serialize.Moves.{skip, put}
use znode.Network.Protocol.{is_known_command, RejectionCode}
use znode.Network.Payloads.GetHeaders.{
  GetHeaders, bind_get_headers, get_headers_bytes, bind_get_headers-reads, bind_get_headers-refuses,
}
use znode.Network.Payloads.Reject.{Reject, bind_reject, reject_bytes}
use znode.Network.Payloads.Reject.RoundTrip.{read_reject_lem, write_reject_lem, extra_after}
use znode.Network.Payloads.Reject.Code.{bind_reject-keeps_code}

abbrev pub stream_with : List ℕ → SDataStream
stream_with bytes = record {
  base = record { buffer = bytes; read_position = 0 };
  scope = network;
  version = 170002;
  computed_size = 0;
}

abbrev hash_of : ℕ → List ℕ
hash_of b = replicate 32 b

-- Two hashes and the stop hash.
abbrev two_hashes : GetHeaders
two_hashes = record {
  protocol_version = 0;
  block_locator_hashes = hash_of 1 ∷ hash_of 2 ∷ [];
  hash_stop = hash_of 3;
}

abbrev no_hashes : GetHeaders
no_hashes = record { protocol_version = 0; block_locator_hashes = []; hash_stop = hash_of 0 }

bind_get_headers-reads_example :
    bind_get_headers no_hashes deserialize (stream_with (get_headers_bytes 170002 two_hashes)) ≡ (
      success tt,
      record two_hashes { protocol_version = 170002 },
      skip
          (stream_with (get_headers_bytes 170002 two_hashes))
          (length (get_headers_bytes 170002 two_hashes)),
    )
unfolding get_headers_bytes le_bytes encode_vector compact_bytes ser_compact_sizeof
bind_get_headers-reads_example =
    bind_get_headers-reads two_hashes no_hashes 170002
      (stream_with (get_headers_bytes 170002 two_hashes)) []
      (omega arith, omega arith, (refl, (refl, tt)), refl) (omega arith)
      (record { within = omega arith; small = omega arith }) refl

-- One hash more than the reader takes.
abbrev many_hashes : GetHeaders
many_hashes = record {
  protocol_version = 0;
  block_locator_hashes = replicate 161 (hash_of 1);
  hash_stop = hash_of 3;
}

abbrev reject_block : Reject
reject_block = record {
  rejected_command = codes "inv";
  rejection_code = RejectionCode.duplicate;
  reason = codes "seen";
  extra_data = some (hash_of 7);
}

abbrev reject_none : Reject
reject_none = record {
  rejected_command = [];
  rejection_code = RejectionCode.ok;
  reason = [];
  extra_data = none;
}

bind_get_headers-refuses_example :
    (bind_get_headers no_hashes deserialize (stream_with (get_headers_bytes 170002 many_hashes))).0
    ≡ failure (net NetError.message_payload_oversized_vector)
unfolding get_headers_bytes le_bytes encode_vector compact_bytes ser_compact_sizeof
bind_get_headers-refuses_example =
    bind_get_headers-refuses many_hashes no_hashes 170002
      (stream_with (get_headers_bytes 170002 many_hashes)) [] (omega arith) (omega arith)
      (omega arith) (record { within = omega arith; small = omega arith }) refl

write_reject_example :
    bind_reject reject_block serialize (stream_with [])
    ≡ (success tt, reject_block, put (stream_with []) (reject_bytes reject_block))
unfolding reject_bytes is_known_command bytes_eq string_bytes compact_bytes le_bytes
write_reject_example =
    write_reject_lem reject_block (stream_with []) (refl, omega arith) refl (omega arith)

read_reject_example :
    bind_reject reject_none deserialize (stream_with (reject_bytes reject_block)) ≡ (
      success tt,
      record reject_block {
        rejection_code = RejectionCode.ok;
        extra_data = extra_after (some (hash_of 7)) none;
      },
      skip (stream_with (reject_bytes reject_block)) (length (reject_bytes reject_block)),
    )
unfolding reject_bytes is_known_command bytes_eq string_bytes compact_bytes le_bytes
read_reject_example =
    read_reject_lem reject_block reject_none (stream_with (reject_bytes reject_block)) []
      (refl, omega arith) refl (record { within = omega arith; small = omega arith }) refl

bind_reject-keeps_code_example :
    (bind_reject reject_none deserialize (stream_with (reject_bytes reject_block))).1.rejection_code
    ≡ RejectionCode.ok
bind_reject-keeps_code_example =
    bind_reject-keeps_code reject_none (stream_with (reject_bytes reject_block))
