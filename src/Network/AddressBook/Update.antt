-- ===== src/Network/AddressBook/Update.antt =====
-- `AddressBook::update_entry` and `insert_or_update_impl` on a consistent address book
-- (src/infra/network/addressbook.cpp).
use znode.Common.{
  ℕ, ◌+◌, ◌-◌, ◌^◌, ◌<◌, ◌≤◌, ◌≡◌, ◌⊎◌, inl, inr, refl, ap, ◌∙◌, arith, Bool, true, false, ◌||◌,
  List, [], ◌∷◌, length, Option, some, none, ltb, ◌==◌, if◌then◌else◌, Bool-cases, Option-cases,
  ==_iff, ==-false,
}
use znode.Network.Addresses.{Address, IpEndpoint, is_routable}
use znode.Network.Addresses.Service.{NodeService, NodeServiceInfo}
use znode.Network.AddressBook.Table.{lookup, modify, member, lookup-modify_self}
use znode.Network.AddressBook.Slots.{
  Externals, SlotAddress, xy, max_new_bucket_references, new_buckets_count,
}
use znode.Network.AddressBook.Defs.{
  AddressBook, ◌>>=◌, u32_mod, increment, has_value, is_empty, at_position, endpoint_eq,
  find_endpoint, emplace_new,
}
use znode.Network.AddressBook.Insert.{
  Moment, time_init, max, set_time, seen, is_placed_once, vacate, count_first, add_reference,
  refer_again, update_entry, insert_or_update_impl, insert_entry, address_same,
}
use znode.Network.AddressBook.Links.{Consistent, Nobody, is_placed}
use znode.Network.AddressBook.Erase.{Ensures, Ensures_bind, Ensures_map}
use znode.Network.AddressBook.Clear.{Cleared, clear_new_slot-Cleared, entry_of}
use znode.Network.AddressBook.Groups.{IsSlot, get_new_slot-IsSlot}
use znode.Network.AddressBook.Steps.{
  entry, refs, entry-Fits, touched, emplace_new-Consistent, resized,
}
use znode.Network.AddressBook.Growth.{Inserted, insert_entry-Inserted}

-- A call that adds no entry.
abbrev pub Keeps : Externals → AddressBook → AddressBook → Type 0
Keeps ext b b' = Consistent ext.lib Nobody b' × (b'.last_used_id ≡ b.last_used_id)

-- The sanity check holds of an entry in one kind of buckets.
placed_once :
    (info : NodeServiceInfo)
    → (is_empty info.new_refs ≡ true) ⊎ (info.tried_ref ≡ none)
    → (is_placed info ≡ true) ⊎ ⊥
    → is_placed_once info ≡ true
placed_once info apart placed = ground arith

count_first-Keeps :
    (ext : Externals) (id : ℕ) (b : AddressBook) (v : NodeServiceInfo)
    → Consistent ext.lib Nobody b
    → lookup id b.entries ≡ some v
    → Ensures (count_first id b) (Keeps ext b)
unfolding count_first
count_first-Keeps ext id b v c found = elim (Bool-cases (length v.new_refs == 1)) [
  | inl e ↦ rw (found, e) (resized b (increment b.new_entries_size) b.tried_entries_size c, refl)
  | inr e ↦ rw (found, e) (c, refl)
]

not_tried :
    (old : Bool) (tried : Option ℕ) (many : Bool)
    → (old || (has_value tried || many)) ≡ false
    → tried ≡ none
not_tried true tried many h = cc
not_tried false none many h = refl
not_tried false (some t) many h = cc

-- A call that adds one entry at most.
pub record Grows (ext : Externals) (b : AddressBook) (r : Bool × AddressBook) : Type 0 where
  pub consistent : Consistent ext.lib Nobody r.1
  pub last_ge : b.last_used_id ≤ r.1.last_used_id
  pub last_le : r.1.last_used_id ≤ b.last_used_id + 1

pub find_endpoint-entry :
    (e : IpEndpoint) (m : List (ℕ × NodeServiceInfo)) (id : ℕ)
    → find_endpoint e m ≡ some id
    → (info : NodeServiceInfo) × (lookup id m ≡ some info)
unfolding find_endpoint lookup
find_endpoint-entry e [] id h = cc
find_endpoint-entry e ((j, info) ∷ m) id h = elim (Bool-cases (j == id)) [
  | inl same ↦ (info, rw (same) refl)
  | inr differ ↦ elim (Bool-cases (endpoint_eq info.service.endpoint e)) [
    | inl found ↦ let same : j ≡ id = cc (rw (found) at h) in cc ((==_iff j id).1 same, differ)
    | inr missing ↦
        let (v, is_v) = find_endpoint-entry e m id (rw (missing) at h) in (v, rw (differ) is_v)
  ]
]

module _ (ext : Externals) (s : SlotAddress) (inside : IsSlot new_buckets_count s) (id : ℕ)
    (info : NodeServiceInfo) (b : AddressBook) (c : Consistent ext.lib Nobody b)
    (found : lookup id b.entries ≡ some info) (room : b.last_used_id ≤ u32_mod)
    (fresh : member (xy s) info.new_refs ≡ false) (untried : info.tried_ref ≡ none) where
  -- The slot is made free, and the entry is as it was.
  vacate-Cleared : Ensures (vacate s id b) (Cleared ext.lib Nobody (xy s) b)
  unfolding vacate
  vacate-Cleared = elim (Option-cases (lookup (xy s) b.new_buckets)) [
    | inl e ↦
        rw (e, vacate)
          (record {
            consistent = c;
            vacant = e;
            kept = λ k h. refl;
            key_is = refl;
            last_is = refl;
            tried_is = refl;
            absent = λ x h. h;
            shorter = omega arith;
          })
    | inr (holder, e) ↦
        let other : (holder == id) ≡ false =
          ==-false holder id (λ h. cc (fresh, (refs c id info found (xy s)).0 (e ∙ ap some h))) in
        rw (e, vacate, other) (clear_new_slot-Cleared ext.lib Nobody s b inside.0 inside.1 c room)
  ]

  refer :
      (b1 : AddressBook)
      → Cleared ext.lib Nobody (xy s) b b1
      → Ensures (emplace_new (xy s) id b1 >>= count_first id) (Keeps ext b)
  unfolding at_position
  refer b1 cleared =
      let e = entry c id info found in
      let (v, is_v, same) =
        entry_of b1 id (at_position 0 info) (cleared.kept id (rw (e) fresh) ∙ e) in
      let none_yet : v.tried_ref ≡ none =
        ap (λ (v : NodeServiceInfo). v.tried_ref) same ∙ untried in
      Ensures_bind _ (Keeps ext b) (emplace_new (xy s) id b1) (count_first id)
        (emplace_new-Consistent cleared.consistent id v is_v Nobody (xy s) cleared.vacant none_yet
          (λ j e x. x))
        (λ b2 done.
          Ensures_map (Keeps ext b2) (Keeps ext b) (count_first id b2)
            (count_first-Keeps ext id b2 done.5.0 done.0 done.5.1)
            (λ b3 k. (k.0, k.1 ∙ done.4 ∙ cleared.last_is)))

module _ (ext : Externals) (id : ℕ) (info : NodeServiceInfo) (b : AddressBook)
    (c : Consistent ext.lib Nobody b) (found : lookup id b.entries ≡ some info)
    (room : b.last_used_id ≤ u32_mod) where
  add_reference-Keeps :
      (s : SlotAddress)
      → IsSlot new_buckets_count s
      → info.tried_ref ≡ none
      → Ensures (add_reference s id info b) (Keeps ext b)
  unfolding add_reference
  add_reference-Keeps s inside untried = elim (Bool-cases (member (xy s) info.new_refs)) [
    | inl e ↦ let h = (refs c id info found (xy s)).1 e in rw (e, h) (c, refl)
    | inr e ↦ rw (e) (
        Ensures_bind (Cleared ext.lib Nobody (xy s) b) (Keeps ext b) (vacate s id b) _
          (vacate-Cleared ext s inside id info b c found room e untried)
          (refer ext s inside id info b c found room e untried))
  ]

  refer_again-Keeps :
      (moment : Moment) (draw : ℕ) (service : NodeService) (source : Address)
      → is_routable ext.lib source ≡ true
      → Ensures (refer_again ext moment draw id info service source b) (Keeps ext b)
  unfolding refer_again
  refer_again-Keeps moment draw service source sourced =
      let old = ltb info.service.time service.time in
      let many = length info.new_refs == max_new_bucket_references in
      elim (Bool-cases (old || (has_value info.tried_ref || many))) [
        | inl e ↦ rw (e) (c, refl)
        | inr e ↦ elim (Bool-cases (moment.randomize draw 0 (2 ^ length info.new_refs - 1) == 0)) [
          | inr unlucky ↦ rw (e, unlucky) (c, refl)
          | inl lucky ↦
              let (s, is_s, inside) =
                get_new_slot-IsSlot ext b.key info source (entry-Fits c id info found).0.0
                  sourced in
              rw (e, lucky, is_s)
                (add_reference-Keeps s inside (not_tried old info.tried_ref many e))
        ]
      ]

module _ (ext : Externals) (moment : Moment) (b : AddressBook) (c : Consistent ext.lib Nobody b)
    (service : NodeService) (source : Address) (sourced : is_routable ext.lib source ≡ true) where
  update_entry-Keeps :
      (time_penalty draw id : ℕ) (info : NodeServiceInfo)
      → lookup id b.entries ≡ some info
      → b.last_used_id ≤ u32_mod
      → Ensures (update_entry ext moment draw id info service source time_penalty b) (Keeps ext b)
  unfolding update_entry seen
  update_entry-Keeps time_penalty draw id info found room =
      let f = entry-Fits c id info found in
      let again = seen moment.now service time_penalty in
      rw (placed_once info f.1 f.2) (
        Ensures_map _ (Keeps ext b) _
          (refer_again-Keeps ext id (again info) (record b { entries = modify id again b.entries })
            (touched c id info found again (λ v. refl) refl refl refl refl)
            (lookup-modify_self id again b.entries info found) room moment draw service source
            sourced)
          (λ b1 k. k))

  -- A service that is known is updated, another one gets an entry; no assertion fails.
  pub insert_or_update_impl-Grows :
      (time_penalty draw : ℕ)
      → 1 ≤ b.last_used_id
      → b.last_used_id + 1 < u32_mod
      → is_routable ext.lib service.endpoint.address ≡ true
      → Ensures (insert_or_update_impl ext moment draw service source time_penalty b) (Grows ext b)
  unfolding insert_or_update_impl
  insert_or_update_impl-Grows time_penalty draw real room routed =
      let penalty = if address_same source service.endpoint.address then 0 else time_penalty in
      elim (Option-cases (find_endpoint service.endpoint b.entries)) [
        | inl e ↦
            rw (e, insert_or_update_impl)
              (Ensures_bind (Inserted ext.lib b) (Grows ext b)
                (insert_entry ext service source penalty b) _
                (insert_entry-Inserted ext service source penalty b c real room routed sourced e)
                (λ r ins. record {
                  consistent =
                      touched ins.consistent r.0 ins.found.0 ins.found.1
                        (set_time (max time_init (service.time - penalty))) (λ v. refl) refl refl
                        refl refl;
                  last_ge = omega (arith, ins.last_is);
                  last_le = omega (arith, ins.last_is);
                }))
        | inr (id, e) ↦
            let (info, found) = find_endpoint-entry service.endpoint b.entries id e in
            rw (e, insert_or_update_impl, found)
              (Ensures_bind (Keeps ext b) (Grows ext b)
                (update_entry ext moment draw id info service source penalty b) _
                (update_entry-Keeps penalty draw id info found (omega (arith, room)))
                (λ b1 k. record {
                  consistent = k.0;
                  last_ge = omega (arith, k.1);
                  last_le = omega (arith, k.1);
                }))
      ]
