-- ===== src/Network/AddressBook/Tried.antt =====
-- `AddressBook::make_entry_tried` and its callers `set_good`, `set_failed` and `set_tried`
-- (src/infra/network/addressbook.cpp). An endpoint that is not known leaves the book as it is.
use znode.Common.{ℕ, Bool, true, false, not, Option, some, none, ◌==◌, if◌then◌else◌}
use znode.Network.Addresses.{IpEndpoint}
use znode.Network.Addresses.Service.{NodeServiceInfo}
use znode.Network.Payloads.Version.{Version}
use znode.Network.AddressBook.Table.{lookup, put, erase, modify, erase_each}
use znode.Network.AddressBook.Slots.{Externals, xy, get_new_slot, get_tried_slot}
use znode.Network.AddressBook.Defs.{
  AddressBook, ◌>>=◌, ◌>>◌, assert, is_empty, has_value, to_nat, increment, decrease, find_endpoint,
  clear_refs, set_tried_ref, clear_new_slot, emplace_new,
}

-- `tried_ref_.has_value() && tried_ref_.value() == slot`.
abbrev pub is_at : Option ℕ → ℕ → Bool
is_at none slot = false
is_at (some s) slot = s == slot

-- The new references of an entry are erased.
unfoldable pub unlink_new : ℕ → NodeServiceInfo → AddressBook → AddressBook
unfolding clear_refs
unlink_new entry_id info b = record b {
  new_entries_size = decrease b.new_entries_size (to_nat (not (is_empty info.new_refs)));
  new_buckets = erase_each info.new_refs b.new_buckets;
  entries = modify entry_id clear_refs b.entries;
}

unfoldable pub unlink_tried : ℕ → ℕ → AddressBook → AddressBook
unfolding set_tried_ref
unlink_tried slot entry_id b = record b {
  entries = modify entry_id (set_tried_ref none) b.entries;
  tried_buckets = erase slot b.tried_buckets;
  tried_entries_size = decrease b.tried_entries_size 1;
}

unfoldable pub place_tried : ℕ → ℕ → AddressBook → Option AddressBook
unfolding set_tried_ref
place_tried slot entry_id b = do
  assert (not (has_value (lookup slot b.tried_buckets)))
  some (record b {
    tried_buckets = put slot entry_id b.tried_buckets;
    entries = modify entry_id (set_tried_ref (some slot)) b.entries;
    tried_entries_size = increment b.tried_entries_size;
  })

-- What a `time` of contact leaves in an entry.
abbrev pub touch_good : Version → ℕ → NodeServiceInfo → NodeServiceInfo
touch_good version_info time info = record info {
  user_agent = version_info.user_agent;
  service = record info.service { services = version_info.services; time = time };
  last_connection_attempt = time;
  last_connection_success = time;
  connection_attempts = 0;
}

abbrev pub touch_failed : ℕ → NodeServiceInfo → NodeServiceInfo
touch_failed time info = record info {
  last_connection_attempt = time;
  connection_attempts = increment info.connection_attempts;
}

abbrev pub touch_tried : ℕ → NodeServiceInfo → NodeServiceInfo
touch_tried time info = record info { last_connection_attempt = time }

module _ (ext : Externals) where
  -- The entry in a slot of the tried buckets goes back to the new ones.
  unfoldable pub evict : ℕ → ℕ → AddressBook → Option AddressBook
  evict slot entry_id b = do
    info ← lookup entry_id b.entries
    assert (is_at info.tried_ref slot)
    assert (is_empty info.new_refs)
    slot_address ← get_new_slot ext b.key info info.origin
    b1 ← clear_new_slot slot_address true (unlink_tried slot entry_id b)
    b2 ← emplace_new (xy slot_address) entry_id b1
    some (record b2 { new_entries_size = increment b2.new_entries_size })

  unfoldable pub make_room : ℕ → AddressBook → Option AddressBook
  make_room slot b = elim (lookup slot b.tried_buckets) [
    | none ↦ some b
    | some entry_id ↦ evict slot entry_id b
  ]

  unfoldable pub make_entry_tried : ℕ → AddressBook → Option AddressBook
  make_entry_tried entry_id b = do
    info ← lookup entry_id b.entries
    if has_value info.tried_ref then some b else do
      slot ← get_tried_slot ext b.key info
      b1 ← make_room (xy slot) (unlink_new entry_id info b)
      place_tried (xy slot) entry_id b1

  -- The common steps of the three: find the endpoint, write, make the entry a tried one.
  unfoldable pub record_attempt :
      (NodeServiceInfo → NodeServiceInfo) → IpEndpoint → AddressBook → Option (Bool × AddressBook)
  record_attempt touch remote b = elim (find_endpoint remote b.entries) [
    | none ↦ some (false, b)
    | some entry_id ↦ do
      info ← lookup entry_id b.entries
      let b1 = record b { entries = modify entry_id touch b.entries }
      b2 ← if not (has_value info.tried_ref) then make_entry_tried entry_id b1 else some b1
      some (true, b2)
  ]

  unfoldable pub set_good : IpEndpoint → Version → ℕ → AddressBook → Option (Bool × AddressBook)
  unfolding record_attempt
  set_good remote version_info time = record_attempt (touch_good version_info time) remote

  unfoldable pub set_failed : IpEndpoint → ℕ → AddressBook → Option (Bool × AddressBook)
  unfolding record_attempt
  set_failed remote time = record_attempt (touch_failed time) remote

  unfoldable pub set_tried : IpEndpoint → ℕ → AddressBook → Option (Bool × AddressBook)
  unfolding record_attempt
  set_tried remote time = record_attempt (touch_tried time) remote
