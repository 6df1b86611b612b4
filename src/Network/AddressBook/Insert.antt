-- ===== src/Network/AddressBook/Insert.antt =====
-- `AddressBook::insert_entry`, `update_entry`, `insert_or_update_impl` and the two `insert_or_update`
-- (src/infra/network/addressbook.cpp). A draw of `randomize` is a parameter, by its number in the call.
use Prim.Native.Nat.{bit_and, bit_or}
use znode.Common.{
  ℕ, suc, ◌+◌, ◌-◌, ◌*◌, ◌%◌, ◌^◌, Bool, true, false, not, ◌||◌, List, [], ◌∷◌, ◌++◌, length,
  Option, some, none, ltb, ◌==◌, if◌then◌else◌,
}
use znode.Network.Addresses.{Address, IpEndpoint}
use znode.Network.Addresses.Service.{NodeService, NodeServiceInfo}
use znode.Network.AddressBook.Table.{lookup, put, modify, member}
use znode.Network.AddressBook.Slots.{
  Externals, SlotAddress, xy, get_new_slot, max_new_bucket_references,
}
use znode.Network.AddressBook.Defs.{
  AddressBook, u32_mod, ◌>>=◌, ◌>>◌, assert, is_empty, has_value, increment, endpoint_eq,
  find_endpoint, at_position, add_ref, clear_new_slot, emplace_new,
}

-- `NodeService::kTimeInit`.
abbrev pub time_init : ℕ
time_init = 100000000

abbrev pub max : ℕ → ℕ → ℕ
max a b = if ltb a b then b else a

pub record Moment : Type 0 where
  pub now : ℕ
  pub randomize : ℕ → ℕ → ℕ → ℕ

-- `NodeServiceInfo{service, source}`, with the time after the penalty.
unfoldable pub new_info : NodeService → Address → ℕ → NodeServiceInfo
new_info service source time_penalty = record {
  service = record service { time = service.time - time_penalty };
  user_agent = [];
  origin = source;
  last_connection_attempt = 0;
  last_connection_success = 0;
  connection_attempts = 0;
  random_pos = 0;
  tried_ref = none;
  new_refs = [];
}

-- `list_index_.insert`, which inserts nothing where the identifier or the endpoint is there.
unfoldable pub index_entry :
    ℕ → NodeServiceInfo → List (ℕ × NodeServiceInfo) → List (ℕ × NodeServiceInfo)
index_entry id info entries = elim (lookup id entries) [
  | some other ↦ entries
  | none ↦ elim (find_endpoint info.service.endpoint entries) [
    | some other ↦ entries
    | none ↦ put id info entries
  ]
]

-- The book with a new entry in a slot that is free.
unfoldable pub add_entry : ℕ → ℕ → NodeServiceInfo → AddressBook → AddressBook
unfolding add_ref at_position
add_entry slot new_id info b = record b {
  new_buckets = put slot new_id b.new_buckets;
  randomly_ordered_ids = b.randomly_ordered_ids ++ new_id ∷ [];
  entries =
      index_entry new_id (at_position (length b.randomly_ordered_ids % u32_mod) (add_ref slot info))
        b.entries;
  new_entries_size = increment b.new_entries_size;
}

abbrev pub set_time : ℕ → NodeServiceInfo → NodeServiceInfo
set_time time info = record info { service = record info.service { time = time } }

-- The time and the services that an update leaves in an entry. The source's signed seconds are
-- compared after moving what it subtracts to the other side.
unfoldable pub seen : ℕ → NodeService → ℕ → NodeServiceInfo → NodeServiceInfo
seen now service time_penalty info =
    let interval = if ltb now (service.time + 86400) then 3600 else 86400 in
    record info {
      service = record info.service {
        time =
            (if ltb (info.service.time + interval + time_penalty) service.time
              then max time_init (service.time - time_penalty)
              else info.service.time);
        services = bit_or info.service.services service.services;
      };
    }

-- `!entry.new_refs_.empty() xor entry.tried_ref_.has_value()`.
abbrev pub is_placed_once : NodeServiceInfo → Bool
is_placed_once info =
    if has_value info.tried_ref then is_empty info.new_refs else not (is_empty info.new_refs)

-- The slot for another reference, once the slot's holder is found.
unfoldable pub vacate : SlotAddress → ℕ → AddressBook → Option AddressBook
vacate slot entry_id b = elim (lookup (xy slot) b.new_buckets) [
  | none ↦ some b
  | some holder ↦ do assert (not (holder == entry_id)); clear_new_slot slot true b
]

-- `if (entry.new_refs_.size() == 1U) ++new_entries_size_`.
unfoldable pub count_first : ℕ → AddressBook → Option AddressBook
count_first entry_id b = do
  info ← lookup entry_id b.entries
  let counted = record b { new_entries_size = increment b.new_entries_size }
  some (if length info.new_refs == 1 then counted else b)

unfoldable pub add_reference : SlotAddress → ℕ → NodeServiceInfo → AddressBook → Option AddressBook
add_reference slot entry_id info b =
    if member (xy slot) info.new_refs
    then (do assert (has_value (lookup (xy slot) b.new_buckets)); some b)
    else do
      b1 ← vacate slot entry_id b
      b2 ← emplace_new (xy slot) entry_id b1
      count_first entry_id b2

unfoldable pub is_known : IpEndpoint → List IpEndpoint → Bool
unfolding endpoint_eq
is_known e [] = false
is_known e (x ∷ xs) = endpoint_eq x e || is_known e xs

-- Dates before `kTimeInit` or too far ahead become five days ago.
unfoldable pub adjust : ℕ → NodeService → NodeService
adjust now service =
    if ltb service.time time_init || ltb (now + 600) service.time
    then record service { time = now - 5 * 86400 }
    else service

-- `source == service.endpoint_.address_`. `IPAddress` declares no `==`: it is that of `Serializable`,
-- defaulted with its `<=>`, which compares no member.
abbrev pub address_same : Address → Address → Bool
address_same source address = true

module _ (ext : Externals) where
  unfoldable pub insert_entry : NodeService → Address → ℕ → AddressBook → Option (ℕ × AddressBook)
  unfolding new_info
  insert_entry service source time_penalty b = do
    let info = new_info service source time_penalty
    slot ← get_new_slot ext b.key info source
    b1 ← clear_new_slot slot true (record b { last_used_id = increment b.last_used_id })
    assert (not (has_value (lookup (xy slot) b1.new_buckets)))
    some (b.last_used_id, add_entry (xy slot) b.last_used_id info b1)

  module _ (moment : Moment) where
    -- What follows the sanity check.
    unfoldable pub refer_again :
        ℕ → ℕ → NodeServiceInfo → NodeService → Address → AddressBook → Option AddressBook
    refer_again draw entry_id info service source b =
        if ltb info.service.time service.time
          || (has_value info.tried_ref || (length info.new_refs == max_new_bucket_references))
        then some b
        else if not (moment.randomize draw 0 (2 ^ length info.new_refs - 1) == 0)
        then some b
        else (get_new_slot ext b.key info source >>= λ slot. add_reference slot entry_id info b)

    unfoldable pub update_entry :
        ℕ → ℕ → NodeServiceInfo → NodeService → Address → ℕ → AddressBook → Option AddressBook
    update_entry draw entry_id entry service source time_penalty b = do
      let info = seen moment.now service time_penalty entry
      let b1 = record b {
        entries = modify entry_id (seen moment.now service time_penalty) b.entries;
      }
      assert (is_placed_once info)
      refer_again draw entry_id info service source b1

    unfoldable pub insert_or_update_impl :
        ℕ → NodeService → Address → ℕ → AddressBook → Option (Bool × AddressBook)
    insert_or_update_impl draw service source time_penalty b =
        let penalty = if address_same source service.endpoint.address then 0 else time_penalty in
        elim (find_endpoint service.endpoint b.entries) [
          | some entry_id ↦ do
            entry ← lookup entry_id b.entries
            b1 ← update_entry draw entry_id entry service source penalty b
            some (false, b1)
          | none ↦ do
            r ← insert_entry service source penalty b
            some (
              true,
              record r.1 {
                entries =
                    modify r.0 (set_time (max time_init (service.time - penalty))) r.1.entries;
              },
            )
        ]

    unfoldable pub insert_or_update :
        NodeService → Address → ℕ → AddressBook → Option (Bool × AddressBook)
    insert_or_update service source time_penalty b =
        insert_or_update_impl 0 service source time_penalty b

    -- The services that stay in the list are those inserted; `draw` numbers the calls.
    unfoldable pub insert_each :
        ℕ
        → List NodeService
        → List IpEndpoint
        → Address
        → ℕ
        → AddressBook
        → Option (List NodeService × AddressBook)
    unfolding is_known adjust
    insert_each draw [] unique source time_penalty b = some ([], b)
    insert_each draw (service ∷ services) unique source time_penalty b =
        elim (bit_and service.services 1 == 0) [
          | true ↦ insert_each (suc draw) services unique source time_penalty b
          | false ↦ elim (is_known service.endpoint unique) [
            | true ↦ insert_each (suc draw) services unique source time_penalty b
            | false ↦ do
              r ← insert_or_update_impl draw (adjust moment.now service) source time_penalty b
              rest ←
                  insert_each (suc draw) services (service.endpoint ∷ unique) source time_penalty
                    r.1
              some (if r.0 then adjust moment.now service ∷ rest.0 else rest.0, rest.1)
          ]
        ]

    unfoldable pub insert_or_update_services :
        List NodeService
        → Address
        → ℕ
        → AddressBook
        → Option (Bool × List NodeService × AddressBook)
    insert_or_update_services services source time_penalty b = do
      r ← insert_each 0 services [] source time_penalty b
      some (ltb 0 (length r.0), r.0, r.1)
