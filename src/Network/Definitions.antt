-- ===== src/Network/Definitions.antt =====
-- The table of message definitions (src/infra/network/messages.hpp).
use znode.Common.{ℕ, ◌+◌, ◌*◌, ◌≡◌, ◌≢◌, refl, Bool, true, false, List, Option, some, none}
use znode.Common.Bytes.{codes}
use znode.Serialize.Defs.{ser_compact_sizeof}
use znode.Network.Protocol.{
  MessageType, version, verack, inv, addr, ping, pong, get_headers, headers, get_addr, mempool,
  reject, get_data, not_found, missing_or_unknown, label,
}

pub record MessageDefinition : Type 0 where
  pub command : List ℕ
  pub message_type : MessageType
  pub is_vectorized : Bool
  pub max_vector_items : Option ℕ
  pub vector_item_size : Option ℕ
  pub min_payload_length : Option ℕ
  pub max_payload_length : Option ℕ
  pub min_protocol_version : Option ℕ
  pub max_protocol_version : Option ℕ

-- A definition whose payload is no vector, of `lo` to `hi` bytes, at any protocol version.
plain_message : List ℕ → MessageType → ℕ → ℕ → MessageDefinition
plain_message command type lo hi = record {
  command = command;
  message_type = type;
  is_vectorized = false;
  max_vector_items = none;
  vector_item_size = none;
  min_payload_length = some lo;
  max_payload_length = some hi;
  min_protocol_version = none;
  max_protocol_version = none;
}

-- A vector of at most `items` items of `size` bytes.
vector_message : List ℕ → MessageType → ℕ → ℕ → ℕ → ℕ → MessageDefinition
vector_message command type items size lo hi = record {
  command = command;
  message_type = type;
  is_vectorized = true;
  max_vector_items = some items;
  vector_item_size = some size;
  min_payload_length = some lo;
  max_payload_length = some hi;
  min_protocol_version = none;
  max_protocol_version = none;
}

abbrev max_inv_items : ℕ
max_inv_items = 50000

abbrev inv_item_size : ℕ
inv_item_size = 36

abbrev max_addr_items : ℕ
max_addr_items = 1000

abbrev addr_item_size : ℕ
addr_item_size = 30

abbrev max_get_headers_items : ℕ
max_get_headers_items = 2000

abbrev max_headers_items : ℕ
max_headers_items = 160

abbrev hash_size : ℕ
hash_size = 32

inventory_message : List ℕ → MessageType → MessageDefinition
unfolding vector_message ser_compact_sizeof
inventory_message command type =
    vector_message command type max_inv_items inv_item_size (1 + inv_item_size)
      (ser_compact_sizeof max_inv_items + max_inv_items * inv_item_size)

message_headers : MessageDefinition
message_headers = record {
  command = codes "headers";
  message_type = headers;
  is_vectorized = true;
  max_vector_items = some max_headers_items;
  vector_item_size = none;
  min_payload_length = some (1 + 140);
  max_payload_length = none;
  min_protocol_version = none;
  max_protocol_version = none;
}

message_missing_or_unknown : MessageDefinition
message_missing_or_unknown = record {
  command = codes "";
  message_type = missing_or_unknown;
  is_vectorized = false;
  max_vector_items = none;
  vector_item_size = none;
  min_payload_length = none;
  max_payload_length = none;
  min_protocol_version = none;
  max_protocol_version = none;
}

-- `kMessageDefinitions`, at the index that a type stands for.
unfoldable pub definition_of : MessageType → MessageDefinition
unfolding plain_message vector_message inventory_message message_headers message_missing_or_unknown
    ser_compact_sizeof
definition_of version = plain_message (codes "version") version 46 1024
definition_of verack = plain_message (codes "verack") verack 0 0
definition_of inv = inventory_message (codes "inv") inv
definition_of addr =
    vector_message (codes "addr") addr max_addr_items addr_item_size (1 + addr_item_size)
      (ser_compact_sizeof max_addr_items + max_addr_items * addr_item_size)
definition_of ping = plain_message (codes "ping") ping 8 8
definition_of pong = plain_message (codes "pong") pong 8 8
definition_of get_headers =
    vector_message (codes "getheaders") get_headers max_get_headers_items hash_size
      (4 + 1 + hash_size * 2)
      (4 + ser_compact_sizeof max_get_headers_items + hash_size * (max_get_headers_items + 1))
definition_of headers = message_headers
definition_of get_addr = plain_message (codes "getaddr") get_addr 0 0
definition_of mempool = plain_message (codes "mempool") mempool 0 0
definition_of reject = plain_message (codes "reject") reject 3 (12 + 1 + 256 + 32)
definition_of get_data = inventory_message (codes "getdata") get_data
definition_of not_found = inventory_message (codes "notfound") not_found
definition_of missing_or_unknown = message_missing_or_unknown

-- The table is in the order of the enumeration, and its command strings are the labels of the types.
abbrev Agrees : MessageType → Type 0
Agrees type =
    ((definition_of type).message_type ≡ type)
    × (type ≢ missing_or_unknown → (definition_of type).command ≡ label type)

-- The entry of the table of definitions at the place of a type is that of the type, and its
-- command string is the label of the type unless the type is the unknown one.
pub definition_of-agrees : (type : MessageType) → Agrees type
unfolding definition_of label
definition_of-agrees version = (refl, λ h. refl)
definition_of-agrees verack = (refl, λ h. refl)
definition_of-agrees inv = (refl, λ h. refl)
definition_of-agrees addr = (refl, λ h. refl)
definition_of-agrees ping = (refl, λ h. refl)
definition_of-agrees pong = (refl, λ h. refl)
definition_of-agrees get_headers = (refl, λ h. refl)
definition_of-agrees headers = (refl, λ h. refl)
definition_of-agrees get_addr = (refl, λ h. refl)
definition_of-agrees mempool = (refl, λ h. refl)
definition_of-agrees reject = (refl, λ h. refl)
definition_of-agrees get_data = (refl, λ h. refl)
definition_of-agrees not_found = (refl, λ h. refl)
definition_of-agrees missing_or_unknown = (refl, λ h. absurd (h refl))
