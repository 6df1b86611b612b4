-- ===== src/Errors.antt =====
-- The error codes of src/core/serialization/errors.hpp and src/infra/network/errors.hpp. A
-- `std::error_code` holds a code of either category.

use mathlib.Core.Bool.{Bool, true, false}

pub data SerError : Type 0 where
  input_too_large : SerError
  read_overflow : SerError
  non_canonical_compact_size : SerError
  compact_size_too_big : SerError
  unexpected_error : SerError
  string_too_big : SerError
  invalid_rejection_code : SerError
  invalid_inventory_type : SerError

pub data NetError : Type 0 where
  message_size_overflow : NetError
  message_header_incomplete : NetError
  message_body_incomplete : NetError
  message_header_invalid_magic : NetError
  message_header_malformed_command : NetError
  message_header_empty_command : NetError
  message_header_illegal_command : NetError
  message_header_illegal_payload_length : NetError
  message_header_invalid_checksum : NetError
  message_payload_empty_vector : NetError
  message_payload_oversized_vector : NetError
  message_payload_length_mismatches_vector_size : NetError
  message_payload_duplicate_vector_items : NetError
  message_payload_extra_data : NetError
  message_payload_unhandleable : NetError
  message_unknown_command : NetError
  message_write_not_permitted : NetError
  message_push_not_permitted : NetError
  invalid_protocol_version : NetError
  unsupported_message_type_for_protocol_version : NetError
  deprecated_message_type_for_protocol_version : NetError
  duplicate_protocol_handshake : NetError
  invalid_protocol_handshake : NetError
  message_flooding_detected : NetError
  connected_to_self : NetError
  unsolicited_pong : NetError
  invalid_ping_pong_nonce : NetError
  unknown_rejected_command : NetError
  message_payload_invalid_last_block_height : NetError
  message_payload_invalid_timestamp : NetError
  invalid_ntp_response : NetError
  invalid_system_time : NetError

pub data ErrorCode : Type 0 where
  ser : SerError → ErrorCode
  net : NetError → ErrorCode

-- The two errors on which `Message::write` goes on reading.
unfoldable pub is_incomplete : ErrorCode → Bool
is_incomplete (net NetError.message_header_incomplete) = true
is_incomplete (net NetError.message_body_incomplete) = true
is_incomplete other = false
