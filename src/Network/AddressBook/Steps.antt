-- ===== src/Network/AddressBook/Steps.antt =====
-- What the writes to one entry and to the buckets do to a consistent address book
-- (src/infra/network/addressbook.cpp).
use znode.Common.{
  ℕ, ◌≡◌, ◌≢◌, ◌↔◌, ◌⊎◌, inl, inr, refl, sym, ap, ◌∙◌, arith, true, false, List, some, none,
}
use znode.Network.Addresses.{IpLibrary}
use znode.Network.Addresses.Service.{NodeServiceInfo}
use znode.Network.AddressBook.Table.{
  lookup, put, erase, modify, member, erase_each, lookup-put, lookup-erase, lookup-erase_each,
  lookup-modify_self, lookup-modify_ne, lookup-modify_same,
}
use znode.Network.AddressBook.Defs.{
  AddressBook, is_empty, at_position, add_ref, clear_refs, set_tried_ref, emplace_new,
}
use znode.Network.AddressBook.Tried.{unlink_new, unlink_tried, place_tried}
use znode.Network.AddressBook.Links.{
  still, position, refers, tried_at, Fits, Changes-Linked, Consistent,
}
use znode.Network.AddressBook.Erase.{Ensures}

module _ {lib : IpLibrary} {X : ℕ → Type 0} {b : AddressBook} (c : Consistent lib X b) (id : ℕ)
    (info : NodeServiceInfo) (found : lookup id b.entries ≡ some info) where
  pub entry : still b id ≡ some (at_position 0 info)
  unfolding still
  entry = rw (found) refl

  pub refs : (t : ℕ) → (lookup t b.new_buckets ≡ some id) ↔ (member t info.new_refs ≡ true)
  unfolding at_position
  refs t =
      let e = ap (λ o. refers o t) entry in
      (λ h. sym e ∙ (c.linked.new_iff t id).0 h, λ h. (c.linked.new_iff t id).1 (e ∙ h))

  pub tried : (t : ℕ) → (lookup t b.tried_buckets ≡ some id) ↔ (info.tried_ref ≡ some t)
  unfolding at_position
  tried t =
      let e = ap tried_at entry in
      (λ h. sym e ∙ (c.linked.tried_iff t id).0 h, λ h. (c.linked.tried_iff t id).1 (e ∙ h))

  pub entry-Fits : Fits lib X b.last_used_id id info
  unfolding at_position
  entry-Fits = c.linked.fits id (at_position 0 info) entry

  -- A write that leaves the position alone, with the buckets that go with it.
  pub modified :
      (f : NodeServiceInfo → NodeServiceInfo) (news trieds : List (ℕ × ℕ)) (n t : ℕ)
      (X' : ℕ → Type 0)
      → ((v : NodeServiceInfo) → (f v).random_pos ≡ v.random_pos)
      → ((slot : ℕ) → (lookup slot news ≡ some id) ↔ (member slot (f info).new_refs ≡ true))
      → ((slot j : ℕ) → id ≢ j → (lookup slot news ≡ some j) ↔ (lookup slot b.new_buckets ≡ some j))
      → ((slot : ℕ) → (lookup slot trieds ≡ some id) ↔ ((f info).tried_ref ≡ some slot))
      → ((slot j : ℕ)
          → id ≢ j
          → (lookup slot trieds ≡ some j) ↔ (lookup slot b.tried_buckets ≡ some j))
      → Fits lib X' b.last_used_id id (f info)
      → ((j : ℕ) → id ≢ j → X j → X' j)
      → Consistent lib X' (record b {
        entries = modify id f b.entries;
        new_buckets = news;
        tried_buckets = trieds;
        new_entries_size = n;
        tried_entries_size = t;
      })
  unfolding still at_position position
  modified f news trieds n t X' keeps new_own new_others tried_own tried_others fits exempt =
      record {
        linked =
            Changes-Linked {S = still b} {v = some (at_position 0 (f info))}
              (record {
                own = rw (lookup-modify_self id f b.entries info found) refl;
                others = λ j e. rw (lookup-modify_ne id j f b.entries e) refl;
                new_own = new_own;
                new_others = new_others;
                tried_own = tried_own;
                tried_others = tried_others;
                fits = fits;
                exempt = exempt;
                grows = omega arith;
              })
              c.linked;
        ordered = λ i k.
            rw (lookup-modify_same (λ info. info.random_pos) id k f b.entries keeps)
              (c.ordered i k);
        few = c.few;
      }

  -- A write that touches neither the addresses nor the references.
  pub touched :
      (f : NodeServiceInfo → NodeServiceInfo)
      → ((v : NodeServiceInfo) → (f v).random_pos ≡ v.random_pos)
      → (f info).new_refs ≡ info.new_refs
      → (f info).tried_ref ≡ info.tried_ref
      → (f info).service.endpoint ≡ info.service.endpoint
      → (f info).origin ≡ info.origin
      → Consistent lib X (record b { entries = modify id f b.entries })
  touched f keeps same_refs same_tried same_endpoint same_origin =
      modified f b.new_buckets b.tried_buckets b.new_entries_size b.tried_entries_size X keeps
        (λ slot. rw (same_refs) (refs slot)) (λ slot j e. (λ h. h, λ h. h))
        (λ slot. rw (same_tried) (tried slot)) (λ slot j e. (λ h. h, λ h. h))
        (rw (same_refs, same_tried, same_endpoint, same_origin) entry-Fits) (λ j e x. x)

  -- The new references of an entry go, which leaves it in no bucket.
  pub unlink_new-Consistent :
      info.tried_ref ≡ none → Consistent lib (λ k. X k ⊎ (k ≡ id)) (unlink_new id info b)
  unfolding unlink_new clear_refs member
  unlink_new-Consistent untried =
      let f = entry-Fits in
      modified clear_refs (erase_each info.new_refs b.new_buckets) b.tried_buckets _ _ _ (λ v. refl)
        (λ slot. ground (arith, lookup-erase_each info.new_refs b.new_buckets slot, refs slot))
        (λ slot j e. ground (
          arith,
          lookup-erase_each info.new_refs b.new_buckets slot,
          refs slot,
          c.linked.new_iff slot j,
        ))
        tried (λ slot j e. (λ h. h, λ h. h)) (f.0, inl refl, inr (inr refl), f.3, f.4)
        (λ j e x. inl x)

  -- A tried entry leaves its slot, and is in no bucket.
  pub unlink_tried-Consistent :
      (slot : ℕ)
      → info.tried_ref ≡ some slot
      → is_empty info.new_refs ≡ true
      → Consistent lib (λ k. X k ⊎ (k ≡ id)) (unlink_tried slot id b)
  unfolding unlink_tried set_tried_ref
  unlink_tried-Consistent slot at_slot empty =
      let f = entry-Fits in
      modified (set_tried_ref none) b.new_buckets (erase slot b.tried_buckets) _ _ _ (λ v. refl)
        refs (λ s j e. (λ h. h, λ h. h))
        (λ s. ground (arith, lookup-erase slot s b.tried_buckets, tried s))
        (λ s j e. ground (arith, lookup-erase slot s b.tried_buckets, tried slot))
        (f.0, inl empty, inr (inr refl), f.3, f.4) (λ j e x. inl x)

  -- An entry in no bucket takes a free tried slot.
  pub place_tried-Consistent :
      (X' : ℕ → Type 0) (slot : ℕ)
      → is_empty info.new_refs ≡ true
      → lookup slot b.tried_buckets ≡ none
      → info.tried_ref ≡ none
      → ((j : ℕ) → id ≢ j → X j → X' j)
      → Ensures
          (place_tried slot id b)
          λ b'. Consistent lib X' b' × (b'.last_used_id ≡ b.last_used_id)
  unfolding place_tried set_tried_ref
  place_tried-Consistent X' slot empty free untried exempt =
      let f = entry-Fits in
      rw (free) (
        modified (set_tried_ref (some slot)) b.new_buckets (put slot id b.tried_buckets) _ _ X'
            (λ v. refl) refs (λ s j e. (λ h. h, λ h. h))
            (λ s. ground (arith, lookup-put slot s id b.tried_buckets free, tried s))
            (λ s j e. ground (arith, lookup-put slot s id b.tried_buckets free, free))
            (f.0, inl empty, inl (rw (empty) refl), f.3, f.4) exempt,
        refl,
      )

  -- An entry that is not a tried one takes a free new slot.
  pub emplace_new-Consistent :
      (X' : ℕ → Type 0) (slot : ℕ)
      → lookup slot b.new_buckets ≡ none
      → info.tried_ref ≡ none
      → ((j : ℕ) → id ≢ j → X j → X' j)
      → Ensures (emplace_new slot id b) λ b'.
        Consistent lib X' b'
        × ((k : ℕ) → id ≢ k → still b' k ≡ still b k)
        × (b'.tried_buckets ≡ b.tried_buckets)
        × (b'.key ≡ b.key)
        × (b'.last_used_id ≡ b.last_used_id)
        × ((v : NodeServiceInfo) × (lookup id b'.entries ≡ some v))
  unfolding emplace_new add_ref still member
  emplace_new-Consistent X' slot free untried exempt =
      let f = entry-Fits in
      let absent : member slot info.new_refs ≡ false = ground (arith, refs slot, free) in
      rw (found, absent, free)
        (
          modified (add_ref slot) (put slot id b.new_buckets) b.tried_buckets _ _ X' (λ v. refl)
              (λ s. ground (arith, lookup-put slot s id b.new_buckets free, refs s))
              (λ s j e. ground (arith, lookup-put slot s id b.new_buckets free, free)) tried
              (λ s j e. (λ h. h, λ h. h)) (f.0, inr untried, inl refl, f.3, f.4) exempt,
          λ k e. rw (lookup-modify_ne id k (add_ref slot) b.entries e) refl,
          refl,
          refl,
          refl,
          (_, lookup-modify_self id (add_ref slot) b.entries info found),
        )

-- The counters of a book do not matter to it.
pub resized :
    {lib : IpLibrary} {X : ℕ → Type 0} (b : AddressBook) (n t : ℕ)
    → Consistent lib X b
    → Consistent lib X (record b { new_entries_size = n; tried_entries_size = t })
unfolding still position
resized b n t c = record {
  linked = record {
    new_iff = c.linked.new_iff;
    tried_iff = c.linked.tried_iff;
    fits = c.linked.fits;
  };
  ordered = c.ordered;
  few = c.few;
}

module _ (id : ℕ) (b : AddressBook) where
  pub unlink_tried-others : (slot k : ℕ) → id ≢ k → still (unlink_tried slot id b) k ≡ still b k
  unfolding still unlink_tried
  unlink_tried-others slot k e = rw (lookup-modify_ne id k (set_tried_ref none) b.entries e) refl

  pub unlink_new-others :
      (info : NodeServiceInfo) (k : ℕ) → id ≢ k → still (unlink_new id info b) k ≡ still b k
  unfolding still unlink_new
  unlink_new-others info k e = rw (lookup-modify_ne id k clear_refs b.entries e) refl
