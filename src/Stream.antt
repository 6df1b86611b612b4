-- ===== src/Stream.antt =====
-- `ser::DataStream` (src/core/serialization/stream.hpp, stream.cpp): its members, the view of it as
-- what is still to be read, and its well-formedness.
pub mod Defs
pub mod Cursor
pub mod Valid
pub mod View
pub mod Erase
