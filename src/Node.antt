-- ===== src/Node.antt =====
-- A connection to a peer: `Node` of src/node/network/node.hpp and node.cpp.
pub mod Handshake
pub mod Inbound
pub mod Parse
pub mod Idle
pub mod Outbound
pub mod Hub
