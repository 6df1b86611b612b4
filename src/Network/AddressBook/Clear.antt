-- ===== src/Network/AddressBook/Clear.antt =====
-- `AddressBook::clear_new_slot` (src/infra/network/addressbook.cpp).
use znode.Common.{
  ℕ, ◌<◌, ◌≤◌, ◌≡◌, ◌≢◌, ◌↔◌, inl, inr, refl, sym, ap, ◌∙◌, arith, true, false, not, ◌||◌, List, [],
  ◌∷◌, length, Option, some, none, Bool-cases, Option-cases, ==_iff, ==-false, lt→ltb,
}
use znode.Network.Addresses.{IpLibrary}
use znode.Network.Addresses.Service.{NodeServiceInfo}
use znode.Network.AddressBook.Table.{
  lookup, erase, modify, member, without, lookup-erase, lookup-modify_self, lookup-modify_ne,
  lookup-modify_same, member-without,
}
use znode.Network.AddressBook.Slots.{SlotAddress, xy, new_buckets_count, bucket_size}
use znode.Network.AddressBook.Defs.{
  AddressBook, u32_mod, is_empty, has_value, at_position, drop_ref, erase_new_entry, clear_held,
  clear_new_slot,
}
use znode.Network.AddressBook.Links.{
  still, position, refers, tried_at, is_placed, Changes-Linked, Ordered, Consistent,
}
use znode.Network.AddressBook.Erase.{
  Ensures, Ensures_bind, Absent, Absent-modify, map-some, Erased, erase_new_entry-Erased,
}

-- The entry of an identifier, from what is known of it but for its position.
pub entry_of :
    (b : AddressBook) (id : ℕ) (v : NodeServiceInfo)
    → still b id ≡ some v
    → (info : NodeServiceInfo) × (lookup id b.entries ≡ some info) × (at_position 0 info ≡ v)
unfolding still
entry_of b id v h = map-some (at_position 0) (lookup id b.entries) h

pub refers-some :
    (o : Option NodeServiceInfo) (slot : ℕ)
    → refers o slot ≡ true
    → (v : NodeServiceInfo) × (o ≡ some v) × (member slot v.new_refs ≡ true)
refers-some none slot h = cc
refers-some (some v) slot h = (v, refl, h)

unplaced :
    (refs : List ℕ) (tried : Option ℕ)
    → (not (is_empty refs) || has_value tried) ≡ false
    → (is_empty refs ≡ true) × (tried ≡ none)
unplaced [] none h = (refl, refl)
unplaced [] (some t) h = cc
unplaced (x ∷ xs) tried h = cc

-- The slot is free, the entries that did not refer to it are as they were, and so is the rest.
pub record Cleared (lib : IpLibrary) (X : ℕ → Type 0) (slot : ℕ) (b b' : AddressBook) : Type 0 where
  pub consistent : Consistent lib X b'
  pub vacant : lookup slot b'.new_buckets ≡ none
  pub kept : (id : ℕ) → refers (still b id) slot ≡ false → still b' id ≡ still b id
  pub key_is : b'.key ≡ b.key
  pub last_is : b'.last_used_id ≡ b.last_used_id
  pub tried_is : b'.tried_buckets ≡ b.tried_buckets
  pub absent : Absent b.entries b'.entries
  pub shorter : length b'.randomly_ordered_ids ≤ length b.randomly_ordered_ids

pub empty-member : (t : ℕ) (xs : List ℕ) → is_empty xs ≡ true → member t xs ≡ false
unfolding member
empty-member t [] h = refl
empty-member t (x ∷ xs) h = cc

module _ (lib : IpLibrary) (X : ℕ → Type 0) (slot : ℕ) (b : AddressBook) (c : Consistent lib X b)
    (id : ℕ) (info : NodeServiceInfo) (held : lookup slot b.new_buckets ≡ some id)
    (found : lookup id b.entries ≡ some info) where
  here : still b id ≡ some (at_position 0 info)
  unfolding still
  here = rw (found) refl

  refs : (t : ℕ) → (lookup t b.new_buckets ≡ some id) ↔ (member t info.new_refs ≡ true)
  unfolding at_position
  refs t =
      let e = ap (λ o. refers o t) here in
      (λ h. sym e ∙ (c.linked.new_iff t id).0 h, λ h. (c.linked.new_iff t id).1 (e ∙ h))

  member_here : member slot info.new_refs ≡ true
  member_here = (refs slot).0 held

  -- The buckets without the slot.
  own_emptied :
      (t : ℕ)
      → (lookup t (erase slot b.new_buckets) ≡ some id)
        ↔ (member t (without slot info.new_refs) ≡ true)
  own_emptied t =
      ground (arith, lookup-erase slot t b.new_buckets, member-without slot t info.new_refs, refs t)

  others_emptied :
      (t j : ℕ)
      → id ≢ j
      → (lookup t (erase slot b.new_buckets) ≡ some j) ↔ (lookup t b.new_buckets ≡ some j)
  others_emptied t j e = ground (arith, lookup-erase slot t b.new_buckets, held)

  vacated : lookup slot (erase slot b.new_buckets) ≡ none
  vacated = rw (lookup-erase slot slot b.new_buckets, (==_iff slot slot).1 refl) refl

  apart : (k : ℕ) → refers (still b k) slot ≡ false → id ≢ k
  apart k h e = cc (h, e, (c.linked.new_iff slot id).0 held)

  dropped : AddressBook
  dropped = record b { entries = modify id (drop_ref slot) b.entries }

  dropped-others : (k : ℕ) → id ≢ k → still dropped k ≡ still b k
  unfolding still dropped
  dropped-others k e = rw (lookup-modify_ne id k (drop_ref slot) b.entries e) refl

  dropped-Ordered : Ordered dropped
  unfolding dropped position drop_ref
  dropped-Ordered i k =
      rw (lookup-modify_same (λ info. info.random_pos) id k (drop_ref slot) b.entries (λ v. refl))
        (c.ordered i k)

  -- Another reference is left, or a tried one.
  referenced :
      is_placed (drop_ref slot info) ≡ true
      → Cleared lib X slot b (record dropped { new_buckets = erase slot b.new_buckets })
  unfolding dropped still drop_ref at_position position erase
  referenced left =
      let f = c.linked.fits id (at_position 0 info) here in
      record {
        consistent = record {
          linked =
              Changes-Linked {v = some (at_position 0 (drop_ref slot info))}
                (record {
                  own = rw (lookup-modify_self id (drop_ref slot) b.entries info found) refl;
                  others = dropped-others;
                  new_own = own_emptied;
                  new_others = others_emptied;
                  tried_own = λ t.
                      let e = ap tried_at here in
                      (
                        λ h. sym e ∙ (c.linked.tried_iff t id).0 h,
                        λ h. (c.linked.tried_iff t id).1 (e ∙ h),
                      );
                  tried_others = λ t j e. (λ h. h, λ h. h);
                  fits = (
                    f.0,
                    inr (elim f.1 [
                      | inl e ↦ cc (empty-member slot info.new_refs e, member_here)
                      | inr e ↦ e
                    ]),
                    inl left,
                    f.3,
                    f.4,
                  );
                  exempt = λ j e x. x;
                  grows = omega arith;
                })
                c.linked;
          ordered = dropped-Ordered;
          few = c.few;
        };
        vacant = vacated;
        kept = λ k h. dropped-others k (apart k h);
        key_is = refl;
        last_is = refl;
        tried_is = refl;
        absent = Absent-modify id (drop_ref slot) b.entries (λ v. refl);
        shorter = omega arith;
      }

  -- The last reference has gone, and the entry with it.
  unreferenced :
      (b2 : AddressBook)
      → is_empty (without slot info.new_refs) ≡ true
      → info.tried_ref ≡ none
      → Erased id dropped b2
      → Cleared lib X slot b (record b2 { new_buckets = erase slot b2.new_buckets })
  unfolding dropped still at_position position erase drop_ref
  unreferenced b2 none_left untried erased =
      let new_is : b2.new_buckets ≡ b.new_buckets = ap (λ x. x.new_buckets) erased.rest_is in
      let tried_is : b2.tried_buckets ≡ b.tried_buckets =
        ap (λ x. x.tried_buckets) erased.rest_is in
      let last_is : b2.last_used_id ≡ b.last_used_id = ap (λ x. x.last_used_id) erased.rest_is in
      let same = λ (k : ℕ) (e : id ≢ k). erased.others k e ∙ dropped-others k e in
      record {
        consistent = record {
          linked =
              Changes-Linked {v = none}
                (record {
                  own = erased.gone;
                  others = same;
                  new_own = λ t.
                      rw (new_is)
                        (λ h. cc ((own_emptied t).0 h, empty-member t _ none_left), λ h. cc);
                  new_others = λ t j e. rw (new_is) (others_emptied t j e);
                  tried_own = λ t. (
                    λ h. cc (
                      ap tried_at here,
                      untried,
                      (c.linked.tried_iff t id).0 (rw (← tried_is) h),
                    ),
                    λ h. cc,
                  );
                  tried_others = λ t j e. rw (tried_is) (λ h. h, λ h. h);
                  fits = tt;
                  exempt = λ j e x. x;
                  grows = omega (arith, last_is);
                })
                c.linked;
          ordered = erased.ordered;
          few = omega (arith, c.few, erased.shorter, last_is);
        };
        vacant = rw (new_is) vacated;
        kept = λ k h. same k (apart k h);
        key_is = ap (λ x. x.key) erased.rest_is;
        last_is = last_is;
        tried_is = tried_is;
        absent =
            λ e h. erased.absent e (Absent-modify id (drop_ref slot) b.entries (λ v. refl) e h);
        shorter = erased.shorter;
      }

  clear_held-Cleared :
      b.last_used_id ≤ u32_mod → Ensures (clear_held slot id true b) (Cleared lib X slot b)
  unfolding clear_held dropped at_position drop_ref
  clear_held-Cleared room =
      let f = c.linked.fits id (at_position 0 info) here in
      rw (found, member_here, ==-false id 0 (λ e. omega arith))
        (elim (Bool-cases
          (not (is_empty (without slot info.new_refs)) || has_value info.tried_ref)) [
            | inl e ↦ rw (e) (referenced e)
            | inr e ↦
                let (none_left, untried) = unplaced (without slot info.new_refs) info.tried_ref e in
                rw (e) (
                  Ensures_bind (Erased id dropped) (Cleared lib X slot b)
                    (erase_new_entry id dropped) _
                    (erase_new_entry-Erased id dropped (drop_ref slot info) dropped-Ordered
                      (lookup-modify_self id (drop_ref slot) b.entries info found) f.3 none_left
                      untried (omega (arith, c.few)))
                    (λ b2 gone. unreferenced b2 none_left untried gone))
          ])

-- For a slot that exists, clear_new_slot fails no assertion.
pub clear_new_slot-Cleared :
    (lib : IpLibrary) (X : ℕ → Type 0) (slot : SlotAddress) (b : AddressBook)
    → slot.x < new_buckets_count
    → slot.y < bucket_size
    → Consistent lib X b
    → b.last_used_id ≤ u32_mod
    → Ensures (clear_new_slot slot true b) (Cleared lib X (xy slot) b)
unfolding clear_new_slot
clear_new_slot-Cleared lib X slot b x_lt y_lt c room =
    rw (lt→ltb slot.x _ x_lt, lt→ltb slot.y _ y_lt)
      (elim (Option-cases (lookup (xy slot) b.new_buckets)) [
        | inl e ↦ rw (e) (record {
          consistent = c;
          vacant = e;
          kept = λ k h. refl;
          key_is = refl;
          last_is = refl;
          tried_is = refl;
          absent = λ x h. h;
          shorter = omega arith;
        })
        | inr (id, e) ↦
            let (v, is_v, has) =
              refers-some (still b id) (xy slot) ((c.linked.new_iff (xy slot) id).0 e) in
            let (info, found, same) = entry_of b id v is_v in
            rw (e) (clear_held-Cleared lib X (xy slot) b c id info e found room)
      ])
