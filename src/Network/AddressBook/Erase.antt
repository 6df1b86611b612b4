-- ===== src/Network/AddressBook/Erase.antt =====
-- `AddressBook::swap_randomly_ordered_ids` and `erase_new_entry` (src/infra/network/addressbook.cpp).
use mathlib.Core.Option
use znode.Common.{
  ℕ, zero, suc, ◌+◌, ◌-◌, ◌%◌, ◌<◌, ◌≤◌, ◌≡◌, ◌≢◌, inl, inr, refl, ap, ◌∙◌, arith, Bool, true,
  false, List, [], ◌∷◌, length, take, length-take, Option, some, none, ◌==◌, if◌then◌else◌, ==_iff,
  ==-false, lt→ltb,
}
use znode.Network.Addresses.{IpEndpoint}
use znode.Network.Addresses.Service.{NodeServiceInfo}
use znode.Network.AddressBook.Table.{
  lookup, erase, modify, get_elem?, set, lookup-erase, lookup-modify_self, lookup-modify_ne,
  lookup-modify_same, get_elem?-set, length-set, get_elem?-take, get_elem?-below,
}
use znode.Network.AddressBook.Defs.{
  AddressBook, ◌>>=◌, u32_mod, is_empty, at_position, find_endpoint, swap_randomly_ordered_ids,
  remove_last, erase_new_entry, decrease,
}
use znode.Network.AddressBook.Links.{still, position, ℕ-cases, Ordered}
use znode.Network.AddressBook.Order.{swap-Inverse, pop-Inverse}

-- The call fails no assertion, and its result is as stated.
abbrev pub Ensures : {A : Type 0} → Option A → (A → Type 0) → Type 0
Ensures none P = ⊥
Ensures (some a) P = P a

pub Ensures_map :
    {A : Type 0} (P Q : A → Type 0) (r : Option A)
    → Ensures r P
    → ((a : A) → P a → Q a)
    → Ensures r Q
Ensures_map P Q none h f = h
Ensures_map P Q (some a) h f = f a h

pub Ensures_bind :
    {A B : Type 0} (P : A → Type 0) (Q : B → Type 0) (m : Option A) (f : A → Option B)
    → Ensures m P
    → ((a : A) → P a → Ensures (f a) Q)
    → Ensures (m >>= f) Q
Ensures_bind P Q none f h k = h
Ensures_bind P Q (some a) f h k = k a h

-- An endpoint that was not in the table is not there after.
abbrev pub Absent : List (ℕ × NodeServiceInfo) → List (ℕ × NodeServiceInfo) → Type 0
Absent m m' = (e : IpEndpoint) → find_endpoint e m ≡ none → find_endpoint e m' ≡ none

pub Absent-modify :
    (k : ℕ) (f : NodeServiceInfo → NodeServiceInfo) (m : List (ℕ × NodeServiceInfo))
    → ((info : NodeServiceInfo) → (f info).service.endpoint ≡ info.service.endpoint)
    → Absent m (modify k f m)
unfolding modify find_endpoint
Absent-modify k f [] same e h = refl
Absent-modify k f ((j, info) ∷ m) same e h = ground (arith, same info, Absent-modify k f m same e)

pub Absent-erase : (k : ℕ) (m : List (ℕ × NodeServiceInfo)) → Absent m (erase k m)
unfolding erase find_endpoint
Absent-erase k [] e h = refl
Absent-erase k ((j, info) ∷ m) e h = ground (arith, Absent-erase k m e)

pub get_elem?-some :
    {A : Type 0} (xs : List A) (i : ℕ) → i < length xs → (v : A) × (get_elem? xs i ≡ some v)
unfolding get_elem?
get_elem?-some [] i h = absurd (omega arith)
get_elem?-some (x ∷ xs) zero h = (x, refl)
get_elem?-some (x ∷ xs) (suc i) h = get_elem?-some xs i (omega arith)

pub map-some :
    {A B : Type 0} (f : A → B) (o : Option A) {v : B}
    → Option.map f o ≡ some v
    → (a : A) × (o ≡ some a) × (f a ≡ v)
map-some f none h = cc
map-some f (some a) h = (a, refl, cc)

abbrev place_in : List (ℕ × NodeServiceInfo) → ℕ → Option ℕ
place_in m id = Option.map (λ info. info.random_pos) (lookup id m)

place_in-modify :
    (k i j : ℕ) (m : List (ℕ × NodeServiceInfo)) (v : NodeServiceInfo)
    → lookup k m ≡ some v
    → place_in (modify k (at_position i) m) j ≡ (if k == j then some i else place_in m j)
unfolding at_position
place_in-modify k i j m v h = elim (ℕ-cases k j) [
  | inl e ↦ rw (← e, lookup-modify_self k (at_position i) m v h, (==_iff k k).1 refl) refl
  | inr e ↦ rw (lookup-modify_ne k j (at_position i) m e, ==-false k j e) refl
]

still-at :
    (k i j : ℕ) (m : List (ℕ × NodeServiceInfo))
    → Option.map (at_position 0) (lookup j (modify k (at_position i) m))
      ≡ Option.map (at_position 0) (lookup j m)
unfolding at_position
still-at k i j m = lookup-modify_same (at_position 0) k j (at_position i) m (λ info. refl)

pub entry_at :
    (b : AddressBook) (id i : ℕ)
    → position b id ≡ some i
    → (info : NodeServiceInfo) × (lookup id b.entries ≡ some info) × (info.random_pos ≡ i)
unfolding position
entry_at b id i h = map-some (λ (info : NodeServiceInfo). info.random_pos) (lookup id b.entries) h

-- Nothing but the random order changed.
pub record Shuffled (b b' : AddressBook) : Type 0 where
  pub same : (k : ℕ) → still b' k ≡ still b k
  pub ordered : Ordered b'
  pub length_is : length b'.randomly_ordered_ids ≡ length b.randomly_ordered_ids
  pub rest_is :
      b' ≡ record b { randomly_ordered_ids = b'.randomly_ordered_ids; entries = b'.entries }
  pub absent : Absent b.entries b'.entries

module _ (b : AddressBook) (o : Ordered b) where
  exchanged :
      (i j p q : ℕ) (u v : NodeServiceInfo)
      → i ≢ j
      → get_elem? b.randomly_ordered_ids i ≡ some p
      → get_elem? b.randomly_ordered_ids j ≡ some q
      → lookup p b.entries ≡ some u
      → lookup q b.entries ≡ some v
      → Shuffled b (record b {
        entries = modify q (at_position i) (modify p (at_position j) b.entries);
        randomly_ordered_ids = set (set b.randomly_ordered_ids i q) j p;
      })
  unfolding still position at_position
  exchanged i j p q u v apart at_i at_j is_u is_v =
      let ids = b.randomly_ordered_ids in
      let m = modify p (at_position j) b.entries in
      let p_ne_q : p ≢ q = λ e. apart (cc ((o i p).0 at_i, (o j q).0 at_j, e)) in
      let i_lt : i < length ids = get_elem?-below ids i at_i in
      let j_lt : j < length (set ids i q) =
        omega (arith, length-set ids i q, get_elem?-below ids j at_j) in
      let is_v' : lookup q m ≡ some v =
        lookup-modify_ne p q (at_position j) b.entries p_ne_q ∙ is_v in
      record {
        same = λ k. still-at q i k m ∙ still-at p j k b.entries;
        ordered =
            swap-Inverse o i j p q apart at_i at_j
              (λ k. get_elem?-set (set ids i q) j k p j_lt ∙ rw (get_elem?-set ids i k q i_lt) refl)
              (λ k.
                place_in-modify q i k m v is_v' ∙ rw (place_in-modify p j k b.entries u is_u) refl);
        length_is = length-set (set ids i q) j p ∙ length-set ids i q;
        rest_is = refl;
        absent = λ e h.
            Absent-modify q (at_position i) m (λ info. refl) e
              (Absent-modify p (at_position j) b.entries (λ info. refl) e h);
      }

  pub swap_randomly_ordered_ids-Shuffled :
      (i j id : ℕ)
      → position b id ≡ some i
      → j < length b.randomly_ordered_ids
      → Ensures (swap_randomly_ordered_ids i j b) λ b'. Shuffled b b' × (position b' id ≡ some j)
  unfolding swap_randomly_ordered_ids
  swap_randomly_ordered_ids-Shuffled i j id at_i j_lt = elim (ℕ-cases i j) [
    | inl e ↦ rw ((==_iff i j).1 e) (
      record { same = λ k. refl; ordered = o; length_is = refl; rest_is = refl; absent = λ e h. h },
      at_i ∙ ap some e,
    )
    | inr e ↦
        let r_i = (o i id).1 at_i in
        let (q, r_j) = get_elem?-some b.randomly_ordered_ids j j_lt in
        let (u, is_u, u_i) = entry_at b id i at_i in
        let (v, is_v, v_j) = entry_at b q j ((o j q).0 r_j) in
        let s = exchanged i j id q u v e r_i r_j is_u is_v in
        rw
          (
            ==-false i j e,
            lt→ltb i _ (get_elem?-below b.randomly_ordered_ids i r_i),
            lt→ltb j _ j_lt,
            r_i,
            r_j,
            is_u,
            is_v,
          )
          (
            s,
            (s.ordered j id).0 (
                get_elem?-set (set b.randomly_ordered_ids i q) j j id
                  (omega (arith, length-set b.randomly_ordered_ids i q))
                ∙ rw ((==_iff j j).1 refl) refl),
          )
  ]

-- An entry has gone, and the random order with it.
pub record Erased (id : ℕ) (b b' : AddressBook) : Type 0 where
  pub gone : still b' id ≡ none
  pub others : (k : ℕ) → id ≢ k → still b' k ≡ still b k
  pub ordered : Ordered b'
  pub shorter : length b'.randomly_ordered_ids ≤ length b.randomly_ordered_ids
  pub rest_is : b' ≡ record b {
    randomly_ordered_ids = b'.randomly_ordered_ids;
    entries = b'.entries;
    new_entries_size = decrease b.new_entries_size 1;
  }
  pub absent : Absent b.entries b'.entries

popped :
    (id : ℕ) (b : AddressBook)
    → Ordered b
    → get_elem? b.randomly_ordered_ids (length b.randomly_ordered_ids - 1) ≡ some id
    → Erased id b (record b {
      randomly_ordered_ids = take (length b.randomly_ordered_ids - 1) b.randomly_ordered_ids;
      new_entries_size = decrease b.new_entries_size 1;
      entries = erase id b.entries;
    })
unfolding still position
popped id b o last =
    let ids = b.randomly_ordered_ids in
    let some_ids = get_elem?-below ids (length ids - 1) last in
    record {
      gone = rw (lookup-erase id id b.entries, (==_iff id id).1 refl) refl;
      others = λ k e. rw (lookup-erase id k b.entries, ==-false id k e) refl;
      ordered =
          pop-Inverse o (length ids - 1) id last (λ k. get_elem?-take (length ids - 1) ids k)
            (λ k. rw (lookup-erase id k b.entries) (through (id == k) _ _))
            (λ k j h. omega (arith, get_elem?-below ids k h));
      shorter = omega (arith, length-take (length ids - 1) ids);
      rest_is = refl;
      absent = Absent-erase id b.entries;
    }
  where
    through :
        {A B : Type 0} (t : Bool) (f : A → B) (o : Option A)
        → Option.map f (if t then none else o) ≡ (if t then none else Option.map f o)
    through true f o = refl
    through false f o = refl

Erased-after : (id : ℕ) (b b1 b2 : AddressBook) → Shuffled b b1 → Erased id b1 b2 → Erased id b b2
Erased-after id b b1 b2 s e = record {
  gone = e.gone;
  others = λ k h. e.others k h ∙ s.same k;
  ordered = e.ordered;
  shorter = omega (arith, e.shorter, s.length_is);
  rest_is =
      e.rest_is
      ∙ ap
          (λ (x : AddressBook). record x {
            randomly_ordered_ids = b2.randomly_ordered_ids;
            entries = b2.entries;
            new_entries_size = decrease x.new_entries_size 1;
          })
          s.rest_is;
  absent = λ x h. e.absent x (s.absent x h);
}

removed :
    (id : ℕ) (b b1 : AddressBook)
    → Shuffled b b1
    → position b1 id ≡ some (length b.randomly_ordered_ids - 1)
    → Ensures (remove_last id b1) (Erased id b)
unfolding remove_last
removed id b b1 s at_end =
    let last = (s.ordered (length b1.randomly_ordered_ids - 1) id).1 (rw (s.length_is) at_end) in
    rw (last, (==_iff id id).1 refl) (Erased-after id b b1 _ s (popped id b1 s.ordered last))

-- The entry that no bucket refers to goes without a failed assertion.
pub erase_new_entry-Erased :
    (id : ℕ) (b : AddressBook) (info : NodeServiceInfo)
    → Ordered b
    → lookup id b.entries ≡ some info
    → 1 ≤ id
    → is_empty info.new_refs ≡ true
    → info.tried_ref ≡ none
    → length b.randomly_ordered_ids < u32_mod
    → Ensures (erase_new_entry id b) (Erased id b)
unfolding erase_new_entry position
erase_new_entry-Erased id b info o found real empty untried few =
    let ids = b.randomly_ordered_ids in
    let at = info.random_pos in
    let here : position b id ≡ some at = rw (found) refl in
    let some_ids = get_elem?-below ids at ((o at id).1 here) in
    let last_is : (length ids + u32_mod - 1) % u32_mod ≡ length ids - 1 =
      omega (arith, some_ids, few) in
    rw (==-false id 0 (λ e. omega arith), found, empty, untried, last_is)
      (Ensures_bind
        (λ b1. Shuffled b b1 × (position b1 id ≡ some (length b.randomly_ordered_ids - 1)))
        (Erased id b) _ (remove_last id)
        (swap_randomly_ordered_ids-Shuffled b o at (length ids - 1) id here
          (omega (arith, some_ids)))
        (λ b1 s. removed id b b1 s.0 s.1))
