-- ===== src/Network/AddressBook/Select/Picks.antt =====
-- What `AddressBook::get_random_services` (src/infra/network/addressbook.cpp) picks.
use znode.Common.{
  ℕ, zero, suc, ◌+◌, ◌-◌, ◌<◌, ◌≤◌, ◌≡◌, ◌↔◌, inl, inr, refl, sym, ap, ◌∙◌, arith, Bool, true,
  false, not, ◌&&◌, List, [], ◌∷◌, ◌++◌, length, length-append, All, All-append, Option, some, ltb,
  ◌==◌, Bool-cases, ltb→lt,
}
use mathlib.Core.List.{map, reverse, reverse-append}
use znode.Network.Addresses.{IpAddressType, IpEndpoint, IpLibrary}
use znode.Network.Addresses.Service.{NodeService, NodeServiceInfo, is_bad}
use znode.Network.AddressBook.Table.{lookup, get_elem?}
use znode.Network.AddressBook.Defs.{AddressBook, at_position, swap_randomly_ordered_ids}
use znode.Network.AddressBook.Insert.{Moment, is_known}
use znode.Network.AddressBook.Links.{still, position, Ordered, Nobody, Consistent}
use znode.Network.AddressBook.Erase.{
  Ensures, Ensures_bind, Ensures_map, Shuffled, swap_randomly_ordered_ids-Shuffled, entry_at,
  get_elem?-some,
}
use znode.Network.AddressBook.Select.{
  is_wanted, limit, pick, is_taken, pick_each, get_random_services,
}

-- `randomize` draws from its range.
abbrev pub IsRandom : Moment → Type 0
IsRandom moment =
    (draw lo hi : ℕ)
    → lo ≤ hi
    → (lo ≤ moment.randomize draw lo hi) × (moment.randomize draw lo hi ≤ hi)

-- A service of an entry of the book that is of the wanted type and not bad.
abbrev pub IsOffered : Moment → Option IpAddressType → AddressBook → NodeService → Type 0
IsOffered moment type b service =
    (id : ℕ) × (info : NodeServiceInfo) × (still b id ≡ some (at_position 0 info))
    × (info.service ≡ service)
    × (is_wanted type info ≡ true)
    × (is_bad info moment.now ≡ false)

-- The book, shuffled.
pub record Same (b b' : AddressBook) : Type 0 where
  pub same : (k : ℕ) → still b' k ≡ still b k
  pub ordered :
      (i id : ℕ) → (get_elem? b'.randomly_ordered_ids i ≡ some id) ↔ (position b' id ≡ some i)
  pub length_is : length b'.randomly_ordered_ids ≡ length b.randomly_ordered_ids
  pub new_is : b'.new_buckets ≡ b.new_buckets
  pub tried_is : b'.tried_buckets ≡ b.tried_buckets
  pub last_is : b'.last_used_id ≡ b.last_used_id

Same-trans : {a b c : AddressBook} → Same a b → Same b c → Same a c
Same-trans s t = record {
  same = λ k. t.same k ∙ s.same k;
  ordered = t.ordered;
  length_is = t.length_is ∙ s.length_is;
  new_is = t.new_is ∙ s.new_is;
  tried_is = t.tried_is ∙ s.tried_is;
  last_is = t.last_is ∙ s.last_is;
}

pub Same-Consistent :
    {lib : IpLibrary} {X : ℕ → Type 0} (b b' : AddressBook)
    → Consistent lib X b
    → Same b b'
    → Consistent lib X b'
Same-Consistent b b' c s = record {
  linked = record {
    new_iff = λ slot id. rw (s.same id, s.new_is) (c.linked.new_iff slot id);
    tried_iff = λ slot id. rw (s.same id, s.tried_is) (c.linked.tried_iff slot id);
    fits = λ id info h. rw (s.last_is) (c.linked.fits id info (sym (s.same id) ∙ h));
  };
  ordered = s.ordered;
  few = omega (arith, c.few, s.length_is, s.last_is);
}

Shuffled-Same : (b b' : AddressBook) → Shuffled b b' → Same b b'
Shuffled-Same b b' s = record {
  same = s.same;
  ordered = s.ordered;
  length_is = s.length_is;
  new_is = ap (λ x. x.new_buckets) s.rest_is;
  tried_is = ap (λ x. x.tried_buckets) s.rest_is;
  last_is = ap (λ x. x.last_used_id) s.rest_is;
}

-- No endpoint stands twice.
abbrev pub Distinct : List IpEndpoint → Type 0
Distinct [] = Unit {0}
Distinct (e ∷ es) = (is_known e es ≡ false) × Distinct es

abbrev pub endpoints : List NodeService → List IpEndpoint
endpoints services = map (λ service. service.endpoint) (reverse services)

three : (a b c : Bool) → (a && (not b && not c)) ≡ true → (a ≡ true) × (b ≡ false) × (c ≡ false)
three true false false h = (refl, refl, refl)
three true false true h = cc
three true true c h = cc
three false b c h = cc

module _ (moment : Moment) (random : IsRandom moment) (type : Option IpAddressType)
    (count : ℕ) where
  -- A step of the loop finds an entry of the book.
  picked :
      (i : ℕ) (b b0 : AddressBook)
      → Same b0 b
      → i < length b.randomly_ordered_ids
      → Ensures
          (pick moment type count i b)
          λ r. Same b0 r.1 × ((id : ℕ) × (lookup id r.1.entries ≡ some r.0))
  unfolding pick
  picked i b b0 s i_lt =
      let n = length b.randomly_ordered_ids in
      let j = moment.randomize i 0 (n - i - 1) + i in
      let j_lt : j < n = omega (arith, i_lt, (random i 0 (n - i - 1) (omega arith)).1) in
      let (id, at) = get_elem?-some b.randomly_ordered_ids i i_lt in
      Ensures_bind (λ b1. Shuffled b b1 × (position b1 id ≡ some j)) _
        (swap_randomly_ordered_ids i j b) _
        (swap_randomly_ordered_ids-Shuffled b s.ordered i j id ((s.ordered i id).0 at) j_lt)
        (λ b1 shuffled.
          let t = shuffled.0 in
          let (q, at_i) =
            get_elem?-some b1.randomly_ordered_ids i (omega (arith, i_lt, t.length_is)) in
          let (info, found, _) = entry_at b1 q i ((t.ordered i q).0 at_i) in
          rw (at_i, found) (Same-trans s (Shuffled-Same b b1 t), (q, found)))

  -- What the loop keeps.
  pub record Picked (b0 : AddressBook) (r : List NodeService × AddressBook) : Type 0 where
    pub offered : All (IsOffered moment type b0) r.0
    pub fewer : length r.0 ≤ count
    pub distinct : Distinct (endpoints r.0)
    pub same : Same b0 r.1

  taken_parts :
      (info : NodeServiceInfo) (selected : List IpEndpoint)
      → is_taken moment type count info selected ≡ true
      → (is_wanted type info ≡ true)
        × (is_bad info moment.now ≡ false)
        × (is_known info.service.endpoint selected ≡ false)
  unfolding is_taken
  taken_parts info selected h =
      three (is_wanted type info) (is_bad info moment.now) (is_known info.service.endpoint selected)
        h

  start : (b : AddressBook) → Ordered b → Picked b ([], b)
  start b o = record {
    offered = tt;
    fewer = omega arith;
    distinct = tt;
    same = record {
      same = λ k. refl;
      ordered = o;
      length_is = refl;
      new_is = refl;
      tried_is = refl;
      last_is = refl;
    };
  }

  pushed :
      (ret : List NodeService) (selected : List IpEndpoint) (service : NodeService)
      → selected ≡ endpoints ret
      → service.endpoint ∷ selected ≡ endpoints (ret ++ service ∷ [])
  pushed ret selected service e = rw (reverse-append ret (service ∷ []), e) refl

  added :
      (b0 b : AddressBook) (ret : List NodeService) (selected : List IpEndpoint)
      (r : NodeServiceInfo × AddressBook)
      → Picked b0 (ret, b)
      → selected ≡ endpoints ret
      → Same b0 r.1 × ((id : ℕ) × (lookup id r.1.entries ≡ some r.0))
      → is_taken moment type count r.0 selected ≡ true
      → length ret < count
      → Picked b0 (ret ++ r.0.service ∷ [], r.1)
  unfolding still
  added b0 b ret selected r p e (s, (id, found)) t room =
      let (wanted, fine, new) = taken_parts r.0 selected t in
      let here : still b0 id ≡ some (at_position 0 r.0) = sym (s.same id) ∙ rw (found) refl in
      record {
        offered =
            All-append (IsOffered moment type b0) ret (r.0.service ∷ []) p.offered
              ((id, r.0, here, refl, wanted, fine), tt);
        fewer = omega (arith, room, length-append {0} ret (r.0.service ∷ []));
        distinct = rw (← pushed ret selected r.0.service e) (new, rw (e) p.distinct);
        same = s;
      }

  pick_each-Picked :
      (rounds i : ℕ) (ret : List NodeService) (selected : List IpEndpoint) (b0 b : AddressBook)
      → Picked b0 (ret, b)
      → selected ≡ endpoints ret
      → i + rounds ≡ length b.randomly_ordered_ids
      → Ensures (pick_each moment type count rounds i ret selected b) (Picked b0)
  unfolding pick_each
  pick_each-Picked zero i ret selected b0 b p e n = p
  pick_each-Picked (suc rounds) i ret selected b0 b p e n =
      elim (Bool-cases (ltb (length ret) count)) [
        | inr full ↦ rw (full, pick_each) p
        | inl more ↦
            rw (more, pick_each)
              (Ensures_bind _ (Picked b0) (pick moment type count i b) _
                (picked i b b0 p.same (omega (arith, n)))
                (λ r at. elim (Bool-cases (is_taken moment type count r.0 selected)) [
                  | inr skipped ↦
                      rw (skipped, pick_each)
                        (pick_each-Picked rounds (suc i) ret selected b0 r.1
                          (record {
                            offered = p.offered;
                            fewer = p.fewer;
                            distinct = p.distinct;
                            same = at.0;
                          })
                          e (omega (arith, n, at.0.length_is, p.same.length_is)))
                  | inl t ↦
                      rw (t, pick_each)
                        (pick_each-Picked rounds (suc i) (ret ++ r.0.service ∷ [])
                          (r.0.service.endpoint ∷ selected) b0 r.1
                          (added b0 b ret selected r p e at t (ltb→lt _ _ more))
                          (pushed ret selected r.0.service e)
                          (omega (arith, n, at.0.length_is, p.same.length_is)))
                ]))
      ]

-- With draws within their ranges, on a consistent book get_random_services passes its assertion
-- and gives services of entries of the book that are of the wanted type and not bad, no endpoint
-- twice and no more than the limits allow, and it leaves a consistent book with the same entries
-- and buckets, of which only the random order may differ.
pub get_random_services-Picked :
    (moment : Moment) (random : IsRandom moment) (lib : IpLibrary) (max_count max_percentage : ℕ)
    (type : Option IpAddressType) (b : AddressBook)
    → Consistent lib Nobody b
    → Ensures (get_random_services moment max_count max_percentage type b) λ r.
      Picked moment random type (limit (length b.randomly_ordered_ids) max_count max_percentage) b r
      × Consistent lib Nobody r.1
unfolding get_random_services
get_random_services-Picked moment random lib max_count max_percentage type b c =
    let n = length b.randomly_ordered_ids in
    let none_yet = start moment random type (limit n max_count max_percentage) b c.ordered in
    elim (Bool-cases (n == 0)) [
      | inl e ↦ rw (e) (none_yet, c)
      | inr e ↦ rw (e) (
          Ensures_map (Picked moment random type (limit n max_count max_percentage) b)
            (λ r.
              Picked moment random type (limit n max_count max_percentage) b r
              × Consistent lib Nobody r.1)
            (pick_each moment type (limit n max_count max_percentage) n 0 [] [] b)
            (pick_each-Picked moment random type (limit n max_count max_percentage) n 0 [] [] b b
              none_yet refl (omega arith))
            (λ r p. (p, Same-Consistent b r.1 c p.same)))
    ]
