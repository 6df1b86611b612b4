-- ===== src/Encoding.antt =====
-- The text encodings of src/core/encoding.
pub mod Hex
