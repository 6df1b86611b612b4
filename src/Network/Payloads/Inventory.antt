-- ===== src/Network/Payloads/Inventory.antt =====
-- `MsgInventoryPayload::serialization` (src/infra/network/payloads.cpp), for `inv`, `getdata` and
-- `notfound`.
use znode.Common.{ℕ, ◌≤◌, arith, List, length, All}
use znode.Serialize.Defs.{compute_size, serialize, deserialize}
use znode.Serialize.Bind.{Bind}
use znode.Serialize.Codec.{RoundTrips}
use znode.Serialize.Vector.{
  write_vector, read_vector, encode_vector, write_vector_lem, read_vector_lem,
}
use znode.Types.Inventory.{
  InventoryItem, bind_item, item_bytes, IsItem, error, bind_item-RoundTrips, zero_hash,
}

abbrev pub max_inv_items : ℕ
max_inv_items = 50000

-- A value-initialised item, with which `resize` fills.
abbrev fresh_item : InventoryItem
fresh_item = record { type = error; identifier = zero_hash }

-- The payload is its `items_`.
unfoldable pub bind_inventory : Bind (List InventoryItem)
bind_inventory items serialize s = write_vector max_inv_items bind_item items s
bind_inventory items compute_size s = read_vector max_inv_items bind_item fresh_item items s
bind_inventory items deserialize s = read_vector max_inv_items bind_item fresh_item items s

abbrev pub IsInventory : List InventoryItem → Type 0
IsInventory items = (1 ≤ length items) × (length items ≤ max_inv_items) × All IsItem items

-- An inventory of 1 to 50000 items with identifiers of 32 bytes is written behind its count where
-- there is room, and reading from these bytes takes just them and gives the items back, whatever
-- the receiving payload held.
pub bind_inventory-RoundTrips :
    RoundTrips bind_inventory IsInventory (encode_vector item_bytes) (λ items old. items)
unfolding bind_inventory
bind_inventory-RoundTrips = record {
  writes = λ items s (lo, hi, h) fits.
      write_vector_lem bind_item-RoundTrips max_inv_items items s lo hi (omega arith) h fits;
  reads = λ items old s rest (lo, hi, h) v e.
      read_vector_lem bind_item-RoundTrips max_inv_items fresh_item items old s rest lo hi
        (omega arith) h v e;
}
