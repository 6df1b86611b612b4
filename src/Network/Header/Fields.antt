-- ===== src/Network/Header/Fields.antt =====
-- The bytes of a `MessageHeader` (src/infra/network/message.cpp).
use znode.Common.{ℕ, ◌^◌, ◌<◌, ◌≡◌, refl, List, ◌++◌, length}
use znode.Serialize.Defs.{le_bytes}
use znode.Serialize.Codec.{RoundTrips, Measures, seq-RoundTrips, seq-Measures}
use znode.Serialize.Members.{
  field-RoundTrips, field-Measures, bind_int-RoundTrips, bind_int-Measures, bind_array-RoundTrips,
  bind_array-Measures,
}
use znode.Network.Header.{MessageHeader, bind_header}

-- Magic, command, payload length and checksum, one behind the other.
unfoldable pub header_bytes : MessageHeader → List ℕ
header_bytes h =
    ((h.network_magic ++ h.command) ++ le_bytes 4 h.payload_length) ++ h.payload_checksum

abbrev pub IsHeader : MessageHeader → Type 0
IsHeader h =
    (((length h.network_magic ≡ 4) × (length h.command ≡ 12)) × (h.payload_length < 256 ^ 4))
    × (length h.payload_checksum ≡ 4)

-- A header's four fields; the type is not on the wire.
abbrev pub read_into : MessageHeader → MessageHeader → MessageHeader
read_into h old = record h { message_type = old.message_type }

-- A header with fields of their widths is written as magic, command, payload length and checksum
-- where there is room, and reading from these bytes takes just them and gives the four fields
-- back, the type untouched.
pub bind_header-RoundTrips : RoundTrips bind_header IsHeader header_bytes read_into
unfolding bind_header header_bytes
bind_header-RoundTrips =
    seq-RoundTrips
      (seq-RoundTrips
        (seq-RoundTrips
          (field-RoundTrips (λ h. h.network_magic) (λ v h. record h { network_magic = v })
            (λ h. refl) (bind_array-RoundTrips 4))
          (field-RoundTrips (λ h. h.command) (λ v h. record h { command = v }) (λ h. refl)
            (bind_array-RoundTrips 12)))
        (field-RoundTrips (λ h. h.payload_length) (λ v h. record h { payload_length = v })
          (λ h. refl) (bind_int-RoundTrips 4)))
      (field-RoundTrips (λ h. h.payload_checksum) (λ v h. record h { payload_checksum = v })
        (λ h. refl) (bind_array-RoundTrips 4))

-- Computing the size of a header with fields of their widths adds the number of bytes that
-- serializing it writes, and changes nothing else.
pub bind_header-Measures : Measures bind_header IsHeader header_bytes
unfolding bind_header header_bytes
bind_header-Measures =
    seq-Measures
      (seq-Measures
        (seq-Measures
          (field-Measures (λ h. h.network_magic) (λ v h. record h { network_magic = v }) (λ h. refl)
            (bind_array-Measures 4))
          (field-Measures (λ h. h.command) (λ v h. record h { command = v }) (λ h. refl)
            (bind_array-Measures 12)))
        (field-Measures (λ h. h.payload_length) (λ v h. record h { payload_length = v }) (λ h. refl)
          (bind_int-Measures 4)))
      (field-Measures (λ h. h.payload_checksum) (λ v h. record h { payload_checksum = v })
        (λ h. refl) (bind_array-Measures 4))
