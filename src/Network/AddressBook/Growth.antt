-- ===== src/Network/AddressBook/Growth.antt =====
-- `AddressBook::insert_entry` on a consistent address book (src/infra/network/addressbook.cpp).
use znode.Common.{
  ℕ, ◌+◌, ◌%◌, ◌<◌, ◌≤◌, ◌≡◌, ◌≢◌, ◌↔◌, inl, inr, refl, sym, ap, ◌∙◌, arith, true, List, [], ◌∷◌,
  ◌++◌, length, length-append, some, none, ◌==◌, if◌then◌else◌, Bool-cases, Option-cases, ==_iff,
  ==-false,
}
use znode.Network.Addresses.{Address, IpLibrary, is_routable}
use znode.Network.Addresses.Service.{NodeService, NodeServiceInfo}
use znode.Network.AddressBook.Table.{
  lookup, put, member, lookup-put, get_elem?-append, get_elem?-below,
}
use znode.Network.AddressBook.Slots.{Externals, xy}
use znode.Network.AddressBook.Defs.{
  AddressBook, u32_mod, increment, at_position, add_ref, find_endpoint, clear_new_slot,
}
use znode.Network.AddressBook.Insert.{new_info, index_entry, add_entry, insert_entry}
use znode.Network.AddressBook.Links.{
  still, position, tried_at, Fits, Changes-Linked, Consistent, Nobody,
}
use znode.Network.AddressBook.Order.{push-Inverse}
use znode.Network.AddressBook.Erase.{Ensures, Ensures_bind}
use znode.Network.AddressBook.Clear.{Cleared, clear_new_slot-Cleared}
use znode.Network.AddressBook.Groups.{get_new_slot-IsSlot}

index_entry-new :
    (id : ℕ) (info : NodeServiceInfo) (m : List (ℕ × NodeServiceInfo))
    → lookup id m ≡ none
    → find_endpoint info.service.endpoint m ≡ none
    → index_entry id info m ≡ put id info m
unfolding index_entry
index_entry-new id info m h k = ground arith

still-none : (b : AddressBook) (id : ℕ) → still b id ≡ none → lookup id b.entries ≡ none
unfolding still
still-none b id h = elim (Option-cases (lookup id b.entries)) [ inl e ↦ e | inr (v, e) ↦ cc (h, e) ]

-- An entry came in under the identifier that was next.
pub record Inserted (lib : IpLibrary) (b : AddressBook) (r : ℕ × AddressBook) : Type 0 where
  pub consistent : Consistent lib Nobody r.1
  pub found : (info : NodeServiceInfo) × (lookup r.0 r.1.entries ≡ some info)
  pub last_is : r.1.last_used_id ≡ b.last_used_id + 1

module _ (lib : IpLibrary) (b : AddressBook) (c : Consistent lib Nobody b) where
  -- The next identifier is free.
  unused : still b b.last_used_id ≡ none
  unused = elim (Option-cases (still b b.last_used_id)) [
    | inl e ↦ e
    | inr (v, e) ↦ absurd (omega (arith, (c.linked.fits b.last_used_id v e).4))
  ]

  advanced : Consistent lib Nobody (record b { last_used_id = b.last_used_id + 1 })
  unfolding still position
  advanced = record {
    linked = record {
      new_iff = c.linked.new_iff;
      tried_iff = c.linked.tried_iff;
      fits =
          λ id info h. let f = c.linked.fits id info h in (f.0, f.1, f.2, f.3, omega (arith, f.4));
    };
    ordered = c.ordered;
    few = omega (arith, c.few);
  }

  next : AddressBook
  next = record b { last_used_id = b.last_used_id + 1 }

  module _ (slot : ℕ) (info : NodeServiceInfo) (b1 : AddressBook)
      (cleared : Cleared lib Nobody slot next b1) (real : 1 ≤ b.last_used_id)
      (room : b.last_used_id < u32_mod) (bare : info.new_refs ≡ [])
      (untried : info.tried_ref ≡ none)
      (routed : is_routable lib info.service.endpoint.address ≡ true)
      (sourced : is_routable lib info.origin ≡ true)
      (unknown : find_endpoint info.service.endpoint b.entries ≡ none) where
    id : ℕ
    id = b.last_used_id

    free_id : lookup id b1.entries ≡ none
    unfolding id next still
    free_id =
        let e : still next b.last_used_id ≡ none = unused in
        still-none b1 b.last_used_id (cleared.kept b.last_used_id (rw (e) refl) ∙ e)

    full : NodeServiceInfo
    unfolding add_ref at_position
    full = at_position (length b1.randomly_ordered_ids % u32_mod) (add_ref slot info)

    entries_are : (add_entry slot id info b1).entries ≡ put id full b1.entries
    unfolding add_entry full add_ref at_position next
    entries_are =
        let absent : find_endpoint info.service.endpoint b1.entries ≡ none =
          cleared.absent info.service.endpoint unknown in
        index_entry-new id full b1.entries free_id absent

    place_is : length b1.randomly_ordered_ids % u32_mod ≡ length b1.randomly_ordered_ids
    unfolding next
    place_is = omega (arith, cleared.shorter, c.few, room)

    nowhere : still b1 id ≡ none
    unfolding still
    nowhere = rw (free_id) refl

    last_before : b1.last_used_id ≡ b.last_used_id + 1
    unfolding next
    last_before = cleared.last_is

    few_next : length b1.randomly_ordered_ids < b.last_used_id
    unfolding next
    few_next = omega (arith, cleared.shorter, c.few)

    own_slot :
        (t : ℕ) → (lookup t (put slot id b1.new_buckets) ≡ some id) ↔ (member t (slot ∷ []) ≡ true)
    unfolding member
    own_slot t = ground (
      arith,
      lookup-put slot t id b1.new_buckets cleared.vacant,
      cleared.consistent.linked.new_iff t id,
      cleared.kept id,
      nowhere,
    )

    grown : AddressBook
    grown = add_entry slot id info b1

    parts :
        (grown.new_buckets ≡ put slot id b1.new_buckets)
        × (grown.tried_buckets ≡ b1.tried_buckets)
        × (grown.randomly_ordered_ids ≡ b1.randomly_ordered_ids ++ id ∷ [])
        × (grown.last_used_id ≡ b.last_used_id + 1)
        × (full.new_refs ≡ slot ∷ [])
        × (full.random_pos ≡ length b1.randomly_ordered_ids)
    unfolding grown add_entry full add_ref at_position next
    parts = (refl, refl, refl, cleared.last_is, ap (λ xs. slot ∷ xs) bare, place_is)

    looked : (k : ℕ) → lookup k grown.entries ≡ (if id == k then some full else lookup k b1.entries)
    unfolding grown
    looked k = rw (entries_are) (lookup-put id k full b1.entries free_id)

    grown-own : still grown id ≡ some (at_position 0 full)
    unfolding still
    grown-own = rw (looked id, (==_iff id id).1 refl) refl

    grown-others : (k : ℕ) → id ≢ k → still grown k ≡ still b1 k
    unfolding still
    grown-others k e = rw (looked k, ==-false id k e) refl

    grown-position :
        (k : ℕ)
        → position grown k
          ≡ (if id == k then some (length b1.randomly_ordered_ids) else position b1 k)
    unfolding position
    grown-position k = elim (Bool-cases (id == k)) [
      | inl e ↦ rw (looked k, e) (ap some parts.5)
      | inr e ↦ rw (looked k, e) refl
    ]

    placeless : position b1 id ≡ none
    unfolding position
    placeless = rw (free_id) refl

    never_tried : (t : ℕ) → (lookup t b1.tried_buckets ≡ some id) ↔ (tried_at none ≡ some t)
    never_tried t =
        let i = cleared.consistent.linked.tried_iff t id in
        let e = ap tried_at nowhere in (λ h. sym e ∙ i.0 h, λ h. cc)

    full-Fits : Fits lib Nobody (b.last_used_id + 1) id (at_position 0 full)
    unfolding full add_ref at_position id
    full-Fits = ((routed, sourced), inr untried, inl refl, real, omega arith)

    full-tried : (at_position 0 full).tried_ref ≡ none
    unfolding full add_ref at_position
    full-tried = untried

    -- The entry, its slot and its place come in together.
    added : Consistent lib Nobody grown
    unfolding at_position
    added = record {
      linked =
          Changes-Linked {S = still b1} {id = id} {v = some (at_position 0 full)}
            (record {
              own = grown-own;
              others = grown-others;
              new_own = λ t. rw (parts.0, parts.4) (own_slot t);
              new_others = λ t j e. rw (parts.0) (
                  ground
                    (arith, lookup-put slot t id b1.new_buckets cleared.vacant, cleared.vacant));
              tried_own = λ t. rw (parts.1, full-tried) (never_tried t);
              tried_others = λ t j e. rw (parts.1) (λ h. h, λ h. h);
              fits = rw (parts.3) full-Fits;
              exempt = λ j e x. x;
              grows = omega (arith, parts.3, last_before);
            })
            cleared.consistent.linked;
      ordered =
          push-Inverse cleared.consistent.ordered (length b1.randomly_ordered_ids) id placeless
            (λ k. rw (parts.2) (get_elem?-append b1.randomly_ordered_ids id k)) grown-position
            (λ i k h. get_elem?-below b1.randomly_ordered_ids i h);
      few = omega (
        arith,
        parts.3,
        ap length parts.2,
        length-append {0} b1.randomly_ordered_ids (id ∷ []),
        few_next,
      );
    }

    grown-Inserted : Inserted lib b (id, grown)
    grown-Inserted = record {
      consistent = added;
      found = (full, rw (looked id, (==_iff id id).1 refl) refl);
      last_is = parts.3;
    }

-- A new service whose addresses can be reached gets an entry, and no assertion fails.
pub insert_entry-Inserted :
    (ext : Externals) (service : NodeService) (source : Address) (time_penalty : ℕ)
    (b : AddressBook)
    → Consistent ext.lib Nobody b
    → 1 ≤ b.last_used_id
    → b.last_used_id + 1 < u32_mod
    → is_routable ext.lib service.endpoint.address ≡ true
    → is_routable ext.lib source ≡ true
    → find_endpoint service.endpoint b.entries ≡ none
    → Ensures (insert_entry ext service source time_penalty b) (Inserted ext.lib b)
unfolding insert_entry new_info next id grown
insert_entry-Inserted ext service source time_penalty b c real room routed sourced unknown =
    let info = new_info service source time_penalty in
    let (s, is_s, inside) = get_new_slot-IsSlot ext b.key info source routed sourced in
    let plain : increment b.last_used_id ≡ b.last_used_id + 1 = omega (arith, room) in
    rw (is_s, plain)
      (Ensures_bind (Cleared ext.lib Nobody (xy s) (next ext.lib b c)) (Inserted ext.lib b)
        (clear_new_slot s true (next ext.lib b c)) _
        (clear_new_slot-Cleared ext.lib Nobody s (next ext.lib b c) inside.0 inside.1
          (advanced ext.lib b c) (omega (arith, room)))
        (λ b1 cleared. rw (cleared.vacant) (
          grown-Inserted ext.lib b c (xy s) info b1 cleared real (omega (arith, room)) refl refl
            routed sourced unknown)))
