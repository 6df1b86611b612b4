-- ===== src/Network/AddressBook/Defs.antt =====
-- The state of `AddressBook` and its operations on the buckets (src/infra/network/addressbook.hpp,
-- addressbook.cpp). An operation gives `none` where an assertion fails, which aborts the program. The
-- list of services and the index over it are one table by identifier: an iterator is the identifier,
-- and a write through it is `modify`. The mutex makes each public member atomic.
use znode.Common.{
  ℕ, ◌+◌, ◌-◌, ◌%◌, ◌^◌, Bool, true, false, not, ◌&&◌, ◌||◌, List, [], ◌∷◌, length, take, Option,
  some, none, ltb, ◌==◌, if◌then◌else◌,
}
use znode.Common.Bytes.{bytes_eq}
use znode.Containers.Lru.{LruSet}
use znode.Network.Addresses.{Address, v4, v6, IpEndpoint}
use znode.Network.Addresses.Service.{NodeServiceInfo}
use znode.Network.AddressBook.Table.{lookup, put, erase, modify, get_elem?, set, member, without}
use znode.Network.AddressBook.Slots.{SlotAddress, xy, bucket_size, new_buckets_count}

abbrev pub u32_mod : ℕ
u32_mod = 2 ^ 32

pub record AddressBook : Type 0 where
  pub key : List ℕ
  pub last_used_id : ℕ
  pub new_entries_size : ℕ
  pub tried_entries_size : ℕ
  pub randomly_ordered_ids : List ℕ
  pub new_buckets : List (ℕ × ℕ)
  pub tried_buckets : List (ℕ × ℕ)
  pub entries : List (ℕ × NodeServiceInfo)
  pub recently_selected : LruSet IpEndpoint

infixl 5 ◌>>=◌ ◌>>◌
abbrev pub ◌>>=◌ : {A B : Type 0} → Option A → (A → Option B) → Option B
none >>= f = none
some a >>= f = f a

abbrev pub ◌>>◌ : {B : Type 0} → Option (Unit {0}) → Option B → Option B
m >> k = m >>= λ _. k

abbrev pub assert : Bool → Option (Unit {0})
assert true = some tt
assert false = none

abbrev pub is_empty : List ℕ → Bool
is_empty [] = true
is_empty (x ∷ xs) = false

abbrev pub has_value : Option ℕ → Bool
has_value none = false
has_value (some s) = true

abbrev pub to_nat : Bool → ℕ
to_nat true = 1
to_nat false = 0

abbrev pub increment : ℕ → ℕ
increment n = (n + 1) % u32_mod

-- `n -= k` on a `uint32_t`.
abbrev pub decrease : ℕ → ℕ → ℕ
decrease n k = (n + u32_mod - k) % u32_mod

-- Where both have the same version the bytes decide.
unfoldable pub address_eq : Address → Address → Bool
address_eq (v4 a) (v4 b) = bytes_eq a b
address_eq (v6 a) (v6 b) = bytes_eq a b
address_eq (v4 a) (v6 b) = false
address_eq (v6 a) (v4 b) = false

unfoldable pub endpoint_eq : IpEndpoint → IpEndpoint → Bool
unfolding address_eq
endpoint_eq a b = address_eq a.address b.address && (a.port == b.port)

-- The index by endpoint, which gives the identifier of the entry.
unfoldable pub find_endpoint : IpEndpoint → List (ℕ × NodeServiceInfo) → Option ℕ
unfolding endpoint_eq
find_endpoint e [] = none
find_endpoint e ((id, info) ∷ entries) =
    if endpoint_eq info.service.endpoint e then some id else find_endpoint e entries

unfoldable pub at_position : ℕ → NodeServiceInfo → NodeServiceInfo
at_position i info = record info { random_pos = i }

unfoldable pub drop_ref : ℕ → NodeServiceInfo → NodeServiceInfo
drop_ref slot info = record info { new_refs = without slot info.new_refs }

unfoldable pub add_ref : ℕ → NodeServiceInfo → NodeServiceInfo
add_ref slot info = record info { new_refs = slot ∷ info.new_refs }

unfoldable pub clear_refs : NodeServiceInfo → NodeServiceInfo
clear_refs info = record info { new_refs = [] }

unfoldable pub set_tried_ref : Option ℕ → NodeServiceInfo → NodeServiceInfo
set_tried_ref slot info = record info { tried_ref = slot }

unfoldable pub swap_randomly_ordered_ids : ℕ → ℕ → AddressBook → Option AddressBook
unfolding at_position
swap_randomly_ordered_ids i j b = if i == j then some b else do
  assert (ltb i (length b.randomly_ordered_ids) && ltb j (length b.randomly_ordered_ids))
  id_at_i ← get_elem? b.randomly_ordered_ids i
  id_at_j ← get_elem? b.randomly_ordered_ids j
  info_at_i ← lookup id_at_i b.entries
  info_at_j ← lookup id_at_j b.entries
  some (record b {
    entries = modify id_at_j (at_position i) (modify id_at_i (at_position j) b.entries);
    randomly_ordered_ids = set (set b.randomly_ordered_ids i id_at_j) j id_at_i;
  })

-- The last identifier is taken off, if it is this one.
unfoldable pub remove_last : ℕ → AddressBook → Option AddressBook
remove_last entry_id b = do
  last ← get_elem? b.randomly_ordered_ids (length b.randomly_ordered_ids - 1)
  assert (last == entry_id)
  some (record b {
    randomly_ordered_ids = take (length b.randomly_ordered_ids - 1) b.randomly_ordered_ids;
    new_entries_size = decrease b.new_entries_size 1;
    entries = erase entry_id b.entries;
  })

unfoldable pub erase_new_entry : ℕ → AddressBook → Option AddressBook
erase_new_entry entry_id b = if entry_id == 0 then some b else do
  entry ← lookup entry_id b.entries
  assert (is_empty entry.new_refs)
  assert (not (has_value entry.tried_ref))
  b1 ←
      swap_randomly_ordered_ids entry.random_pos
        ((length b.randomly_ordered_ids + u32_mod - 1) % u32_mod) b
  remove_last entry_id b1

-- The reference of a slot that holds this entry.
unfoldable pub clear_held : ℕ → ℕ → Bool → AddressBook → Option AddressBook
unfolding drop_ref
clear_held slot entry_id erase_unreferenced_entry b = do
  info ← lookup entry_id b.entries
  assert (not (entry_id == 0))
  assert (member slot info.new_refs)
  let b1 = record b { entries = modify entry_id (drop_ref slot) b.entries }
  b2 ←
      if erase_unreferenced_entry
        && not (not (is_empty (without slot info.new_refs)) || has_value info.tried_ref)
      then erase_new_entry entry_id b1
      else some b1
  some (record b2 { new_buckets = erase slot b2.new_buckets })

unfoldable pub clear_new_slot : SlotAddress → Bool → AddressBook → Option AddressBook
clear_new_slot slot erase_unreferenced_entry b = do
  assert (ltb slot.x new_buckets_count && ltb slot.y bucket_size)
  elim (lookup (xy slot) b.new_buckets) [
    | none ↦ some b
    | some entry_id ↦ clear_held (xy slot) entry_id erase_unreferenced_entry b
  ]

-- `new_refs_.emplace(slot)` and `new_buckets_.emplace(slot, id)`, both of which must insert.
unfoldable pub emplace_new : ℕ → ℕ → AddressBook → Option AddressBook
unfolding add_ref
emplace_new slot entry_id b = do
  info ← lookup entry_id b.entries
  assert (not (member slot info.new_refs))
  assert (not (has_value (lookup slot b.new_buckets)))
  some (record b {
    entries = modify entry_id (add_ref slot) b.entries;
    new_buckets = put slot entry_id b.new_buckets;
  })
