-- ===== src/Network/AddressBook/Good.antt =====
-- `AddressBook::make_entry_tried` on a consistent address book (src/infra/network/addressbook.cpp).
use znode.Common.{
  ℕ, ◌≤◌, ◌≡◌, ◌≢◌, ◌⊎◌, inl, inr, refl, sym, ap, ◌∙◌, arith, true, false, Option, some, none,
  Option-cases, ==_iff,
}
use znode.Network.Addresses.Service.{NodeServiceInfo}
use znode.Network.AddressBook.Table.{lookup, lookup-erase, lookup-modify_self}
use znode.Network.AddressBook.Slots.{Externals, xy}
use znode.Network.AddressBook.Defs.{
  AddressBook, ◌>>=◌, u32_mod, is_empty, has_value, increment, at_position, clear_refs,
  set_tried_ref, clear_new_slot, emplace_new,
}
use znode.Network.AddressBook.Tried.{
  is_at, unlink_new, unlink_tried, evict, make_room, make_entry_tried,
}
use znode.Network.AddressBook.Links.{still, refers, tried_at, Consistent}
use znode.Network.AddressBook.Erase.{Ensures, Ensures_bind, Ensures_map}
use znode.Network.AddressBook.Clear.{Cleared, clear_new_slot-Cleared, entry_of, empty-member}
use znode.Network.AddressBook.Groups.{get_new_slot-IsSlot, get_tried_slot-IsSlot}
use znode.Network.AddressBook.Steps.{
  tried, entry-Fits, unlink_new-Consistent, unlink_tried-Consistent, place_tried-Consistent,
  emplace_new-Consistent, resized, unlink_tried-others,
}

-- An entry that refers to no bucket.
abbrev IsLoose : Option NodeServiceInfo → Type 0
IsLoose none = ⊥
IsLoose (some v) = (is_empty v.new_refs ≡ true) × (v.tried_ref ≡ none)

empty-refers : (o : Option NodeServiceInfo) (slot : ℕ) → IsLoose o → refers o slot ≡ false
empty-refers none slot h = absurd h
empty-refers (some v) slot h = empty-member slot v.new_refs h.0

-- A loose entry, as the table has it.
loose_entry :
    (b : AddressBook) (id : ℕ) (o : Option NodeServiceInfo)
    → still b id ≡ o
    → IsLoose o
    → (info : NodeServiceInfo) × (lookup id b.entries ≡ some info)
      × (is_empty info.new_refs ≡ true)
      × (info.tried_ref ≡ none)
unfolding at_position
loose_entry b id none e h = absurd h
loose_entry b id (some v) e h =
    let (info, found, same) = entry_of b id v e in
    (
      info,
      found,
      ap (λ (v : NodeServiceInfo). is_empty v.new_refs) same ∙ h.0,
      ap (λ (v : NodeServiceInfo). v.tried_ref) same ∙ h.1,
    )

-- The tried slot is free, an entry that referred to no bucket is as it was, and so is the rest.
record Roomy (ext : Externals) (X : ℕ → Type 0) (slot : ℕ) (b b' : AddressBook) : Type 0 where
  consistent : Consistent ext.lib X b'
  free : lookup slot b'.tried_buckets ≡ none
  last_is : b'.last_used_id ≡ b.last_used_id
  kept : (k : ℕ) → IsLoose (still b k) → still b' k ≡ still b k

tried-some :
    (o : Option NodeServiceInfo) (slot : ℕ)
    → tried_at o ≡ some slot
    → (v : NodeServiceInfo) × (o ≡ some v) × (v.tried_ref ≡ some slot)
tried-some none slot h = cc
tried-some (some v) slot h = (v, refl, h)

module _ (ext : Externals) (X : ℕ → Type 0) where
  module _ (slot id : ℕ) (b : AddressBook) (info : NodeServiceInfo) (c : Consistent ext.lib X b)
      (found : lookup id b.entries ≡ some info) (held : lookup slot b.tried_buckets ≡ some id)
      (room : b.last_used_id ≤ u32_mod) where
    at_slot : info.tried_ref ≡ some slot
    at_slot = (tried c id info found slot).0 held

    alone : is_empty info.new_refs ≡ true
    alone = elim (entry-Fits c id info found).1 [ inl e ↦ e | inr e ↦ cc (e, at_slot) ]

    freed : AddressBook
    freed = unlink_tried slot id b

    Freed : ℕ → Type 0
    Freed k = X k ⊎ (k ≡ id)

    freed-IsLoose : IsLoose (still freed id)
    unfolding freed unlink_tried still set_tried_ref at_position
    freed-IsLoose =
        rw (lookup-modify_self id (set_tried_ref none) b.entries info found) (alone, refl)

    apart : (k : ℕ) → IsLoose (still b k) → id ≢ k
    unfolding at_position
    apart k h e =
        let (v, is_v, empty, untried) = loose_entry b k (still b k) refl h in
        cc (found, is_v, e, at_slot, untried)

    freed_free : lookup slot freed.tried_buckets ≡ none
    unfolding freed unlink_tried
    freed_free = rw (lookup-erase slot slot b.tried_buckets, (==_iff slot slot).1 refl) refl

    last_room : freed.last_used_id ≤ u32_mod
    unfolding freed unlink_tried
    last_room = room

    -- Once a new slot is free, the evicted entry takes it.
    settled :
        (s : ℕ) (b1 : AddressBook)
        → Cleared ext.lib Freed s freed b1
        → Ensures
            (emplace_new s id b1 >>= λ b2.
              some (record b2 { new_entries_size = increment b2.new_entries_size }))
            (Roomy ext X slot b)
    unfolding Freed still freed unlink_tried
    settled s b1 cleared =
        let same = λ (k : ℕ) (h : IsLoose (still freed k)). cleared.kept k (empty-refers _ s h) in
        let (v, is_v, empty, untried) = loose_entry b1 id _ (same id freed-IsLoose) freed-IsLoose in
        Ensures_bind _ (Roomy ext X slot b) (emplace_new s id b1) _
          (emplace_new-Consistent cleared.consistent id v is_v X s cleared.vacant untried
            (λ j e x. elim x [ inl y ↦ y | inr y ↦ absurd (e (sym y)) ]))
          (λ b2 done. record {
            consistent = resized b2 _ b2.tried_entries_size done.0;
            free = ap (lookup slot) (done.2 ∙ cleared.tried_is) ∙ freed_free;
            last_is = done.4 ∙ cleared.last_is;
            kept = λ k h.
                let e = apart k h in
                let o = unlink_tried-others id b slot k e in done.1 k e ∙ same k (rw (o) h) ∙ o;
          })

    evict-Roomy : Ensures (evict ext slot id b) (Roomy ext X slot b)
    unfolding evict Freed freed
    evict-Roomy =
        let f = entry-Fits c id info found in
        let (s, is_s, inside) = get_new_slot-IsSlot ext b.key info info.origin f.0.0 f.0.1 in
        let held_here : is_at info.tried_ref slot ≡ true =
          ap (λ o. is_at o slot) at_slot ∙ (==_iff slot slot).1 refl in
        rw (found, held_here, alone, is_s)
          (Ensures_bind (Cleared ext.lib Freed (xy s) freed) (Roomy ext X slot b)
            (clear_new_slot s true freed) _
            (clear_new_slot-Cleared ext.lib Freed s freed inside.0 inside.1
              (unlink_tried-Consistent c id info found slot at_slot alone) last_room)
            (settled (xy s)))

  make_room-Roomy :
      (slot : ℕ) (b : AddressBook)
      → Consistent ext.lib X b
      → b.last_used_id ≤ u32_mod
      → Ensures (make_room ext slot b) (Roomy ext X slot b)
  unfolding make_room
  make_room-Roomy slot b c room = elim (Option-cases (lookup slot b.tried_buckets)) [
    | inl e ↦
        rw (e, make_room) (record { consistent = c; free = e; last_is = refl; kept = λ k h. refl })
    | inr (id, e) ↦
        let (v, is_v, at) = tried-some (still b id) slot ((c.linked.tried_iff slot id).0 e) in
        let (info, found, same) = entry_of b id v is_v in
        rw (e, make_room) (evict-Roomy slot id b info c found e room)
  ]

module _ (ext : Externals) (X : ℕ → Type 0) (id : ℕ) (b : AddressBook)
    (info : NodeServiceInfo) where
  loosened :
      lookup id b.entries ≡ some info
      → info.tried_ref ≡ none
      → IsLoose (still (unlink_new id info b) id)
  unfolding unlink_new still clear_refs at_position
  loosened found untried =
      rw (lookup-modify_self id clear_refs b.entries info found) (refl, untried)

  last_after : (unlink_new id info b).last_used_id ≡ b.last_used_id
  unfolding unlink_new
  last_after = refl

  -- An entry that is not a tried one becomes one.
  pub make_entry_tried-Consistent :
      Consistent ext.lib X b
      → lookup id b.entries ≡ some info
      → info.tried_ref ≡ none
      → b.last_used_id ≤ u32_mod
      → Ensures
          (make_entry_tried ext id b)
          λ b'. Consistent ext.lib X b' × (b'.last_used_id ≡ b.last_used_id)
  unfolding make_entry_tried
  make_entry_tried-Consistent c found untried room =
      let (s, is_s, inside) =
        get_tried_slot-IsSlot ext b.key info (entry-Fits c id info found).0.0 in
      let loose = loosened found untried in
      let P = λ (b' : AddressBook). Consistent ext.lib X b' × (b'.last_used_id ≡ b.last_used_id) in
      let no_slot : has_value info.tried_ref ≡ false = ap has_value untried in
      rw (found, no_slot, is_s)
        (Ensures_bind (Roomy ext (λ k. X k ⊎ (k ≡ id)) (xy s) (unlink_new id info b)) P _ _
          (make_room-Roomy ext _ (xy s) (unlink_new id info b)
            (unlink_new-Consistent c id info found untried) (omega (arith, room, last_after)))
          (λ b1 roomy.
            let (v, is_v, empty, none_yet) = loose_entry b1 id _ (roomy.kept id loose) loose in
            Ensures_map _ P _
              (place_tried-Consistent roomy.consistent id v is_v X (xy s) empty roomy.free none_yet
                (λ j e x. elim x [ inl y ↦ y | inr y ↦ absurd (e (sym y)) ]))
              (λ b2 done. (done.0, done.1 ∙ roomy.last_is ∙ last_after))))
