-- ===== src/Serialize.antt =====
-- The serialization templates of src/core/serialization/serialize.hpp, and `ser::SDataStream` of
-- src/core/serialization/stream.hpp with its `bind` members.
pub mod Defs
pub mod LittleEndian
pub mod Bind
pub mod Codec
pub mod Members
pub mod Vector
pub mod Moves
pub mod Compact
pub mod Canonical
pub mod Overflow
