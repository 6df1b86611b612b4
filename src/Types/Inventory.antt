-- ===== src/Types/Inventory.antt =====
-- `InventoryItem` (src/core/types/inventory.hpp, inventory.cpp). Its identifier is an `h256`, a
-- `Hash<256>` of src/core/types/hash.hpp, which is bound as an array of 32 bytes.
use znode.Common.{
  ℕ, zero, suc, ◌^◌, ◌<◌, ◌≡◌, refl, ◌∙◌, arith, List, ◌++◌, length, replicate, Option, some, none,
  length-append, append_assoc, success, failure,
}
use znode.Errors.{ser, SerError}
use znode.Stream.Defs.{Status}
use znode.Serialize.Defs.{SDataStream, Action, compute_size, serialize, deserialize, le_bytes}
use znode.Serialize.Bind.{Bind, bind_int, bind_array}
use znode.Serialize.Codec.{RoundTrips}
use znode.Serialize.Members.{bind_int-RoundTrips, bind_array-RoundTrips}
use znode.Serialize.Moves.{skip, put, put-put, skip-skip, after-of_length}

-- The identifier of a `Hash<256>`, and its pristine state.
abbrev pub hash_size : ℕ
hash_size = 32

unfoldable pub bind_hash : Bind (List ℕ)
unfolding bind_array
bind_hash = bind_array hash_size

pub bind_hash-RoundTrips : RoundTrips bind_hash (λ a. length a ≡ hash_size) (λ a. a) (λ a old. a)
unfolding bind_hash
bind_hash-RoundTrips = bind_array-RoundTrips hash_size

abbrev pub zero_hash : List ℕ
zero_hash = replicate hash_size 0

pub data InventoryType : Type 0 where
  error tx block filtered_block : InventoryType

unfoldable pub type_value : InventoryType → ℕ
type_value error = 0
type_value tx = 1
type_value block = 2
type_value filtered_block = 3

-- `magic_enum::enum_cast<Type>`.
unfoldable pub enum_cast : ℕ → Option InventoryType
enum_cast zero = some error
enum_cast (suc zero) = some tx
enum_cast (suc (suc zero)) = some block
enum_cast (suc (suc (suc zero))) = some filtered_block
enum_cast (suc (suc (suc (suc n)))) = none

pub record InventoryItem : Type 0 where
  pub type : InventoryType
  pub identifier : List ℕ

unfoldable pub reset : InventoryItem → InventoryItem
reset item = record { type = error; identifier = zero_hash }

-- The identifier follows, if there was no error.
bind_identifier :
    InventoryItem → Action → Status × SDataStream → Status × InventoryItem × SDataStream
bind_identifier item action (success u, s) =
    let (r, identifier, s') = bind_hash item.identifier action s in
    (r, record item { identifier = identifier }, s')
bind_identifier item action (failure e, s) = (failure e, item, s)

cast_type :
    InventoryItem
    → Action
    → Option InventoryType
    → SDataStream
    → Status × InventoryItem × SDataStream
unfolding bind_identifier
cast_type item action none s = (failure (ser SerError.invalid_inventory_type), item, s)
cast_type item action (some type) s =
    bind_identifier (record item { type = type }) action (success tt, s)

bind_type : InventoryItem → Action → Status × ℕ × SDataStream → Status × InventoryItem × SDataStream
unfolding cast_type enum_cast
bind_type item action (success u, type, s) = cast_type item action (enum_cast type) s
bind_type item action (failure e, type, s) = (failure e, item, s)

-- The branch that is not `kSerialize` is taken to deserialize and to compute the size.
unfoldable pub bind_item : Bind InventoryItem
unfolding bind_type bind_identifier
bind_item item serialize s =
    let (r, type, s') = bind_int 4 (type_value item.type) serialize s in
    bind_identifier item serialize (r, s')
bind_item item compute_size s = bind_type item compute_size (bind_int 4 0 compute_size s)
bind_item item deserialize s = bind_type item deserialize (bind_int 4 0 deserialize s)

unfoldable pub item_bytes : InventoryItem → List ℕ
unfolding type_value
item_bytes item = le_bytes 4 (type_value item.type) ++ item.identifier

abbrev pub IsItem : InventoryItem → Type 0
IsItem item = length item.identifier ≡ hash_size

enum_cast-type_value : (t : InventoryType) → enum_cast (type_value t) ≡ some t
unfolding enum_cast type_value
enum_cast-type_value error = refl
enum_cast-type_value tx = refl
enum_cast-type_value block = refl
enum_cast-type_value filtered_block = refl

type_value-lt : (t : InventoryType) → type_value t < 256 ^ 4
unfolding type_value
type_value-lt error = omega arith
type_value-lt _ = omega arith

-- An inventory item with an identifier of 32 bytes is written as its type and its identifier where
-- there is room, and reading from these bytes takes just them and gives the item back.
pub bind_item-RoundTrips : RoundTrips bind_item IsItem item_bytes (λ item old. item)
unfolding item_bytes bind_item
bind_item-RoundTrips = record {
  writes = λ item s h fits.
      let n = length-append (le_bytes 4 (type_value item.type)) item.identifier in
      rw (
        (bind_int-RoundTrips 4).writes (type_value item.type) s (type_value-lt item.type)
            (omega (arith, n)),
        bind_hash-RoundTrips.writes item.identifier (put s (le_bytes 4 (type_value item.type))) h
            (omega (arith, n, length-append s.base.buffer (le_bytes 4 (type_value item.type)))),
        put-put s (le_bytes 4 (type_value item.type)) item.identifier,
      );
  reads = λ item old s rest h v e.
      let type_bytes = le_bytes 4 (type_value item.type) in
      let e' = e ∙ append_assoc type_bytes item.identifier rest in
      let (v', after) = after-of_length s.base _ type_bytes (item.identifier ++ rest) refl v e' in
      rw (
        (bind_int-RoundTrips 4).reads (type_value item.type) 0 s (item.identifier ++ rest)
            (type_value-lt item.type) v e',
        enum_cast-type_value item.type,
        bind_hash-RoundTrips.reads item.identifier old.identifier (skip s (length type_bytes)) rest
            h v' after,
        skip-skip s (length type_bytes) (length item.identifier)
            (length (type_bytes ++ item.identifier))
            (omega (arith, length-append type_bytes item.identifier)),
      );
}

-- Computing the size of an item resets its type.
pub compute_size-resets_type :
    (item : InventoryItem) (s : SDataStream) → (bind_item item compute_size s).1.type ≡ error
unfolding bind_item bind_int bind_array bind_hash enum_cast
compute_size-resets_type item s = refl
