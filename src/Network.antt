-- ===== src/Network.antt =====
-- The peer-to-peer protocol of src/infra/network.
pub mod Protocol
pub mod AddressBook
pub mod Addresses
pub mod Payloads
pub mod Definitions
pub mod Header
pub mod Message
pub mod Meters
