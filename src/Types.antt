-- ===== src/Types.antt =====
-- The chain's data types of src/core/types.
pub mod Inventory
