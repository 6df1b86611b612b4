-- ===== src/Network/Payloads.antt =====
-- The message payloads of src/infra/network/payloads.hpp and payloads.cpp, one class to a module.
pub mod Version
pub mod Addr
pub mod Factory
pub mod GetHeaders
pub mod Reject
pub mod Inventory
