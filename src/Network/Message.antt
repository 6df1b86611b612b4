-- ===== src/Network/Message.antt =====
-- `Message` (src/infra/network/message.hpp, message.cpp): the state, its operations, and what they
-- keep.
pub mod Defs
pub mod Write
pub mod Body
pub mod Vector
pub mod Payload
pub mod Progress
pub mod Stages
pub mod Receive
pub mod Shorter
