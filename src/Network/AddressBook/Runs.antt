-- ===== src/Network/AddressBook/Runs.antt =====
-- Sequences of calls of `AddressBook` (src/infra/network/addressbook.cpp): what they keep. The mutex
-- makes the calls of several threads such a sequence.
use znode.Common.{
  ℕ, suc, ◌+◌, ◌<◌, ◌≤◌, ◌≡◌, inl, inr, refl, ap, ◌∙◌, arith, Bool, true, false, ◌||◌, ltb, List,
  [], ◌∷◌, length, All, Option, some, none, ◌==◌, Bool-cases, Option-cases,
}
use Prim.Native.Nat.{bit_and}
use znode.Network.Addresses.{Address, IpEndpoint, is_routable}
use znode.Network.Addresses.Service.{NodeService, NodeServiceInfo}
use znode.Network.Payloads.Version.{Version}
use znode.Network.AddressBook.Table.{lookup, modify, get_elem?, lookup-modify_self}
use znode.Network.AddressBook.Slots.{Externals}
use znode.Network.AddressBook.Defs.{AddressBook, ◌>>=◌, u32_mod, has_value, find_endpoint}
use znode.Network.AddressBook.Tried.{record_attempt, set_good, set_failed, set_tried}
use znode.Network.AddressBook.Insert.{
  Moment, time_init, adjust, is_known, insert_or_update_impl, insert_or_update, insert_each,
  insert_or_update_services,
}
use znode.Network.AddressBook.Links.{still, position, Consistent, Nobody}
use znode.Network.AddressBook.Erase.{Ensures, Ensures_bind, Ensures_map}
use znode.Network.AddressBook.Steps.{touched}
use znode.Network.AddressBook.Good.{make_entry_tried-Consistent}
use znode.Network.AddressBook.Update.{Grows, find_endpoint-entry, insert_or_update_impl-Grows}

-- A call of a public member that changes the book.
pub data Call : Type 0 where
  inserts : Moment → NodeService → Address → ℕ → Call
  inserts_services : Moment → List NodeService → Address → ℕ → Call
  good : IpEndpoint → Version → ℕ → Call
  failed tried : IpEndpoint → ℕ → Call

abbrev pub second : {A : Type 0} → Option (A × AddressBook) → Option AddressBook
second r = r >>= λ p. some p.1

abbrev pub third : {A B : Type 0} → Option (A × B × AddressBook) → Option AddressBook
third r = r >>= λ p. some p.2

module _ (ext : Externals) where
  unfoldable pub step : Call → AddressBook → Option AddressBook
  unfolding insert_or_update insert_or_update_services set_good set_failed set_tried
  step (inserts moment service source penalty) b =
      second (insert_or_update ext moment service source penalty b)
  step (inserts_services moment services source penalty) b =
      third (insert_or_update_services ext moment services source penalty b)
  step (good remote version time) b = second (set_good ext remote version time b)
  step (failed remote time) b = second (set_failed ext remote time b)
  step (tried remote time) b = second (set_tried ext remote time b)

  unfoldable pub run : List Call → AddressBook → Option AddressBook
  run [] b = some b
  run (call ∷ calls) b = step call b >>= λ b1. run calls b1

  abbrev pub IsReachable : NodeService → Type 0
  IsReachable service = is_routable ext.lib service.endpoint.address ≡ true

  -- The addresses that a call brings can be reached from outside.
  abbrev pub IsRoutedCall : Call → Type 0
  IsRoutedCall (inserts moment service source penalty) =
      IsReachable service × (is_routable ext.lib source ≡ true)
  IsRoutedCall (inserts_services moment services source penalty) =
      All IsReachable services × (is_routable ext.lib source ≡ true)
  IsRoutedCall other = Unit {0}

-- The services that a call brings.
abbrev pub brings : Call → ℕ
brings (inserts moment service source penalty) = 1
brings (inserts_services moment services source penalty) = length services
brings other = 0

abbrev pub brings_all : List Call → ℕ
brings_all [] = 0
brings_all (call ∷ calls) = brings call + brings_all calls

no_value : (o : Option ℕ) → has_value o ≡ false → o ≡ none
no_value none h = refl
no_value (some n) h = cc

adjust-endpoint :
    (now : ℕ) (service : NodeService) → (adjust now service).endpoint ≡ service.endpoint
unfolding adjust
adjust-endpoint now service =
    elim (Bool-cases (ltb service.time time_init || ltb (now + 600) service.time)) [
      | inl e ↦ rw (e) refl
      | inr e ↦ rw (e) refl
    ]

answered :
    (t : Bool) (m : Option AddressBook) (P : AddressBook → Type 0)
    → Ensures m P
    → Ensures (second (m >>= λ b. some (t, b))) P
answered t none P h = h
answered t (some b) P h = h

counted :
    (m : Option (List NodeService × AddressBook)) (P : AddressBook → Type 0)
    → Ensures m (λ r. P r.1)
    → Ensures (third (m >>= λ r. some (ltb 0 (length r.0), r.0, r.1))) P
counted none P h = h
counted (some r) P h = h

-- A book that is consistent, with at most `n` identifiers more in use.
abbrev pub After : Externals → ℕ → AddressBook → AddressBook → Type 0
After ext n b b' =
    Consistent ext.lib Nobody b'
    × (b.last_used_id ≤ b'.last_used_id)
    × (b'.last_used_id ≤ b.last_used_id + n)

module _ (ext : Externals) where
  attempt-After :
      (touch : NodeServiceInfo → NodeServiceInfo) (remote : IpEndpoint) (b : AddressBook)
      → ((v : NodeServiceInfo)
          → ((touch v).random_pos ≡ v.random_pos)
            × ((touch v).new_refs ≡ v.new_refs)
            × ((touch v).tried_ref ≡ v.tried_ref)
            × ((touch v).service.endpoint ≡ v.service.endpoint)
            × ((touch v).origin ≡ v.origin))
      → Consistent ext.lib Nobody b
      → b.last_used_id ≤ u32_mod
      → Ensures (second (record_attempt ext touch remote b)) (After ext 0 b)
  unfolding record_attempt
  attempt-After touch remote b same c room = elim (Option-cases (find_endpoint remote b.entries)) [
    | inl e ↦ rw (e, record_attempt) (c, omega arith, omega arith)
    | inr (id, e) ↦
        let (info, found) = find_endpoint-entry remote b.entries id e in
        let s = same info in
        let c1 = touched c id info found touch (λ v. (same v).0) s.1 s.2 s.3 s.4 in
        elim (Bool-cases (has_value info.tried_ref)) [
          | inl h ↦ rw (e, record_attempt, found, h) (c1, omega arith, omega arith)
          | inr h ↦
              rw (e, record_attempt, found, h)
                (answered true _ (After ext 0 b) (
                  Ensures_map _ (After ext 0 b) _
                    (make_entry_tried-Consistent ext Nobody id
                      (record b { entries = modify id touch b.entries }) (touch info) c1
                      (lookup-modify_self id touch b.entries info found)
                      (s.2 ∙ no_value info.tried_ref h) room)
                    (λ b2 done. (done.0, omega (arith, done.1), omega (arith, done.1)))))
        ]
  ]

  module _ (moment : Moment) (source : Address) (sourced : is_routable ext.lib source ≡ true) where
    abbrev EachAfter : ℕ → AddressBook → List NodeService × AddressBook → Type 0
    EachAfter n b r = After ext n b r.1

    insert_each-After :
        (draw : ℕ) (services : List NodeService) (unique : List IpEndpoint) (penalty : ℕ)
        (b : AddressBook)
        → Consistent ext.lib Nobody b
        → 1 ≤ b.last_used_id
        → b.last_used_id + length services < u32_mod
        → All (IsReachable ext) services
        → Ensures
            (insert_each ext moment draw services unique source penalty b)
            (EachAfter (length services) b)
    unfolding insert_each
    insert_each-After draw [] unique penalty b c real room routed = (c, omega arith, omega arith)
    insert_each-After draw (service ∷ services) unique penalty b c real room routed =
        let skip =
          Ensures_map (EachAfter (length services) b) (EachAfter (suc (length services)) b) _
            (insert_each-After (suc draw) services unique penalty b c real (omega (arith, room))
              routed.1)
            (λ r a. (a.0, a.1, omega (arith, a.2))) in
        elim (Bool-cases (bit_and service.services 1 == 0)) [
          | inl e ↦ rw (e, insert_each) skip
          | inr e ↦ elim (Bool-cases (is_known service.endpoint unique)) [
            | inl k ↦ rw (e, insert_each, k) skip
            | inr k ↦
                rw (e, insert_each, k)
                  (Ensures_bind (Grows ext b) (EachAfter (suc (length services)) b)
                    (insert_or_update_impl ext moment draw (adjust moment.now service) source
                      penalty b)
                    _
                    (insert_or_update_impl-Grows ext moment b c (adjust moment.now service) source
                      sourced penalty draw real (omega (arith, room))
                      (ap (λ e. is_routable ext.lib e.address) (adjust-endpoint moment.now service)
                        ∙ routed.0))
                    (λ r g.
                      Ensures_bind (EachAfter (length services) r.1)
                        (EachAfter (suc (length services)) b)
                        (insert_each ext moment (suc draw) services (service.endpoint ∷ unique)
                          source penalty r.1)
                        _
                        (insert_each-After (suc draw) services (service.endpoint ∷ unique) penalty
                          r.1 g.consistent (omega (arith, real, g.last_ge))
                          (omega (arith, room, g.last_le)) routed.1)
                        (λ rest a.
                          (a.0, omega (arith, a.1, g.last_ge), omega (arith, a.2, g.last_le)))))
          ]
        ]

module _ (ext : Externals) where
  pub step-After :
      (call : Call) (b : AddressBook)
      → Consistent ext.lib Nobody b
      → 1 ≤ b.last_used_id
      → b.last_used_id + brings call < u32_mod
      → IsRoutedCall ext call
      → Ensures (step ext call b) (After ext (brings call) b)
  unfolding step insert_or_update insert_or_update_services set_good set_failed set_tried
  step-After (inserts moment service source penalty) b c real room routed =
      Ensures_bind (Grows ext b) (After ext 1 b)
        (insert_or_update_impl ext moment 0 service source penalty b) _
        (insert_or_update_impl-Grows ext moment b c service source routed.1 penalty 0 real
          (omega (arith, room)) routed.0)
        (λ r g. (g.consistent, g.last_ge, g.last_le))
  step-After (inserts_services moment services source penalty) b c real room routed =
      counted _ (After ext (length services) b)
        (insert_each-After ext moment source routed.1 0 services [] penalty b c real room routed.0)
  step-After (good remote version time) b c real room routed =
      attempt-After ext _ remote b (λ v. (refl, refl, refl, refl, refl)) c (omega (arith, room))
  step-After (failed remote time) b c real room routed =
      attempt-After ext _ remote b (λ v. (refl, refl, refl, refl, refl)) c (omega (arith, room))
  step-After (tried remote time) b c real room routed =
      attempt-After ext _ remote b (λ v. (refl, refl, refl, refl, refl)) c (omega (arith, room))

  -- On a consistent address book whose next identifier is one at least, with fewer than 2^32
  -- identifiers used at the end, any sequence of insertions, of one service or of many, and of
  -- good, failed or tried contacts, whose services and sources are routable, passes every
  -- assertion and leaves a consistent book: the slots of the new and of the tried buckets name
  -- just the entries that refer to them, every entry is in the buckets of one kind, is routable
  -- and has an identifier below the next, and the random order and the positions in the entries
  -- are inverse to each other.
  pub run-Consistent :
      (calls : List Call) (b : AddressBook)
      → Consistent ext.lib Nobody b
      → 1 ≤ b.last_used_id
      → b.last_used_id + brings_all calls < u32_mod
      → All (IsRoutedCall ext) calls
      → Ensures (run ext calls b) (Consistent ext.lib Nobody)
  unfolding run
  run-Consistent [] b c real room routed = c
  run-Consistent (call ∷ calls) b c real room routed =
      Ensures_bind (After ext (brings call) b) (Consistent ext.lib Nobody) (step ext call b)
        (run ext calls) (step-After call b c real (omega (arith, room)) routed.0)
        (λ b1 a.
          run-Consistent calls b1 a.0 (omega (arith, real, a.1)) (omega (arith, room, a.2))
            routed.1)

-- A new book.
unfoldable pub fresh_book : List ℕ → AddressBook
fresh_book key = record {
  key = key;
  last_used_id = 1;
  new_entries_size = 0;
  tried_entries_size = 0;
  randomly_ordered_ids = [];
  new_buckets = [];
  tried_buckets = [];
  entries = [];
  recently_selected = record { max_size = 64; list = []; map_keys = [] };
}

pub fresh_book-Consistent :
    (ext : Externals) (key : List ℕ) → Consistent ext.lib Nobody (fresh_book key)
unfolding fresh_book still position lookup get_elem?
fresh_book-Consistent ext key = record {
  linked = record {
    new_iff = λ slot id. (λ h. cc, λ h. cc);
    tried_iff = λ slot id. (λ h. cc, λ h. cc);
    fits = λ id info h. cc;
  };
  ordered = λ i id. (λ h. cc, λ h. cc);
  few = omega arith;
}
