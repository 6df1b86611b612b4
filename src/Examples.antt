-- ===== src/Examples.antt =====
-- The theorems at concrete inputs.
mod Streams
mod Compacts
mod Payloads
mod Messages
mod Caches
mod Encodings
mod Addresses
mod Nodes
mod Books
