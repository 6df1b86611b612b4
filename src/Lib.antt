-- ===== src/Lib.antt =====
-- The core of znode, a Bitcoin-like node: the byte streams through which everything on the wire is
-- read and written, the serialization on them, and the messages of the network protocol.
--
-- The parts, from the bottom. A `DataStream` is a buffer with a cursor. An `SDataStream` adds the
-- protocol version and the size calculator, and `bind` writes, reads or measures a value on it.
-- Structures chain the `bind` of their members. A `MessageHeader` is such a structure; its type and
-- a table of definitions bound the payload. A `Message` collects bytes from a connection, checks
-- the header as soon as it is there, then the payload as it grows, until it is complete. A `Node`
-- feeds the bytes of its connection to a message, checks each whole message against the protocol
-- handshake, deserializes its payload, answers or hands it on, and writes the messages of its queue.
-- An `AddressBook` keeps the services that peers advertise, in the slots of new and of tried buckets
-- and in a random order. A `NodeHub` counts the connections to nodes, and passes the messages about
-- addresses to the book.
--
-- Which file models which part:
--   Common: lists, Boolean tests, outcomes, machine words and bytes, shared by all parts.
--   Errors: the enumerations of src/core/serialization/errors.hpp and src/infra/network/errors.hpp.
--   Stream: `DataStream` of src/core/serialization/stream.hpp and stream.cpp, one function per
--     member in Stream/Defs; Cursor, View, Valid and Erase hold its theorems.
--   Serialize: src/core/serialization/serialize.hpp in Serialize/Defs (`write_data`, `read_as`,
--     `write_compact`, `read_compact`), the `bind` members of stream.hpp in Serialize/Bind, the
--     loops over vectors in Serialize/Vector. `RoundTrips` and `Measures` of Serialize/Codec are the
--     contract of a serializable structure; Members and Vector fill it for the parts.
--   Types: `InventoryItem` of src/core/types/inventory.cpp, and a hash as its bytes.
--   Containers: `LruSet` of src/core/common/lru_set.hpp in Lru, `CappedSet` of capped_set.hpp there
--     in Capped, `UniqueQueue` of src/infra/concurrency/unique_queue.hpp in Queue, and sequences of
--     keys in Keys.
--   Chunks: `count_duplicate_data_chunks` of src/core/common/misc.cpp.
--   Encoding: src/core/encoding/hex.cpp in Hex.
--   Network: Addresses is src/infra/network/addresses.cpp, with the `bind` of an address in
--     Addresses/Wire, the services in Addresses/Service and `IPSubNet` in Addresses/SubNet;
--     Meters is ping_meter.cpp and traffic_meter.cpp; Protocol is src/infra/network/protocol.cpp,
--     Definitions messages.hpp, Header and Message message.hpp and message.cpp, Payloads
--     payloads.cpp of the same directory.
--   Network/AddressBook: src/infra/network/addressbook.cpp. The maps are in Table, the slots in Slots,
--     the members that clear slots and erase entries in Defs, those that make an entry a tried one in
--     Tried, insertion and update in Insert, get_random_services in Select. `Consistent` of Links is
--     the state that the book keeps; Order, Erase, Clear, Steps, Good, Growth and Update follow it
--     through the members, Runs through sequences of calls.
--   Node: src/node/network/node.cpp: the handshake in Handshake (`Shake` is its state,
--     `Reachable` the states of a session), `process_inbound_message` and `push_message` in
--     Inbound, `parse_messages` in Parse, the write and read cycles in Outbound (what becomes of
--     the bytes in its Bytes and Pieces), `is_idle` in Idle.
--   Node/Hub: src/node/network/node_hub.cpp: the counters and the rounds of the workers in Hub, what
--     they count in Hub/Counts, the rounds in any order in Hub/Sessions, the demand for connections in
--     Hub/Needed, the messages about addresses in Hub/Messages.
--   Examples: the theorems at concrete inputs.
--
-- How the code is carried over. A byte is a number below 256, an integer of w bytes is its bit
-- pattern, and sums and differences of `size_t` wrap at 2^64. A member that changes its object
-- returns the new one, also on the way to an error, since the source changes members in place before
-- it fails. An outcome is `success` or `failure` with the source's error code. An assertion that
-- fails is an exit of its own, `aborted`. The loop of `Message::write` runs on fuel, a round per
-- byte of input, since every round takes a byte; so does the loop of `Node::parse_messages`.
--
-- SHA-256 is OpenSSL's and `clamp` is Boost's: the record `External` holds both, and `IsExternal`
-- states of `clamp` what is documented. So it is with `IpLibrary` and `IsIpLibrary` for Boost's
-- addresses: the bytes of a mapped address and the number of an IPv4 address. A clock reading is an
-- argument. In the address book and the hub a failed assertion is `none`. SipHash is OpenSSL's: the
-- record `Externals` holds it beside `IpLibrary`, and nothing is asked of it. The draws of `randomize`
-- and the clock of a call are its `Moment`, and `std::shuffle` is a function. The slots of the book
-- are numbers, the 32 bits of the source's union.
--
-- Not modelled: select_random of the book, whose chance is a floating-point number, its load and save
-- over libmdbx, and its sizes; the sockets, channels, timers and DNS queries of the hub; base58 and
-- base64, the object pool, amounts, the database and the wrappers over OpenSSL, libmdbx and Boost; the
-- parsers of addresses, which are regular expressions over Boost, printing, logs, and arithmetic in
-- floating point.
pub mod Common
pub mod Encoding
pub mod Errors
pub mod Stream
pub mod Serialize
pub mod Network
pub mod Node
pub mod Types
pub mod Chunks
pub mod Containers
pub mod Examples
