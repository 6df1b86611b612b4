-- ===== src/Network/AddressBook.antt =====
-- `AddressBook` (src/infra/network/addressbook.hpp, addressbook.cpp).
pub mod Table
pub mod Slots
pub mod Defs
pub mod Tried
pub mod Insert
pub mod Links
pub mod Order
pub mod Erase
pub mod Clear
pub mod Groups
pub mod Steps
pub mod Good
pub mod Growth
pub mod Update
pub mod Aborts
pub mod Runs
pub mod Select
