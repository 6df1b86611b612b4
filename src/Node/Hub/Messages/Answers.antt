-- ===== src/Node/Hub/Messages/Answers.antt =====
-- What the messages that a `NodeHub` handles do to the address book, and how they are answered
-- (src/node/network/node_hub.cpp).
use znode.Common.{
  ℕ, ◌+◌, ◌*◌, ◌<◌, ◌≤◌, ◌≡◌, ◌≢◌, ◌⊎◌, inl, inr, refl, ap, ◌∙◌, arith, Bool, true, not, ◌||◌, List,
  [], ◌∷◌, length, All, Option, some, none, Bool-cases, false,
}
use mathlib.Core.List.{Permᴰ}
use znode.Network.Addresses.{Address, IpEndpoint, is_routable}
use znode.Network.Addresses.Service.{NodeService}
use znode.Network.Protocol.{MessageType, version, addr, get_addr}
use znode.Network.Payloads.Factory.{Payload, null_payload, addr_payload, payload_type}
use znode.Network.AddressBook.Slots.{Externals}
use znode.Network.AddressBook.Defs.{AddressBook, ◌>>=◌, u32_mod}
use znode.Network.AddressBook.Insert.{Moment}
use znode.Network.AddressBook.Links.{Consistent, Nobody}
use znode.Network.AddressBook.Erase.{Ensures, Ensures_map}
use znode.Network.AddressBook.Runs.{
  Call, IsReachable, good, inserts_services, step, After, step-After, second, third,
}
use znode.Network.AddressBook.Select.{limit, get_random_services}
use znode.Network.AddressBook.Select.Picks.{
  IsRandom, IsOffered, Distinct, endpoints, Picked, get_random_services-Picked,
}
use znode.Node.Hub.{is_inbound, Attempt, discarded, failed, forwarded, record_dial}
use znode.Node.Hub.Messages.{
  Sender, Handled, ignored, queued, answered, get_local_service, handle_type,
  on_node_received_message, answer_services, address_book_processor_round, respond, made,
}

-- What the connector tells the address book leaves it consistent.
record_dial-Consistent :
    (ext : Externals) (attempt : Attempt) (remote : IpEndpoint) (time : ℕ) (b : AddressBook)
    → Consistent ext.lib Nobody b
    → 1 ≤ b.last_used_id
    → b.last_used_id < u32_mod
    → Ensures (second (record_dial ext attempt remote time b)) (After ext 0 b)
unfolding record_dial step
record_dial-Consistent ext discarded remote time b c real room = (c, omega arith, omega arith)
record_dial-Consistent ext failed remote time b c real room =
    step-After ext (Call.failed remote time) b c real (omega (arith, room)) tt
record_dial-Consistent ext forwarded remote time b c real room =
    step-After ext (Call.tried remote time) b c real (omega (arith, room)) tt

permuted : (P : NodeService → Type 0) (xs ys : List NodeService) → Permᴰ xs ys → All P xs → All P ys
permuted P [] [] Permᴰ.nil h = h
permuted P (x ∷ xs) (y ∷ ys) (Permᴰ.cons e p) h = (rw (← e) h.0, permuted P xs ys p h.1)
permuted P _ _ (Permᴰ.swap e f) h = (rw (← f) h.1.0, (rw (← e) h.0, h.1.1))
permuted P xs zs (Permᴰ.trans {l₂ = ys} p q) h = permuted P ys zs q (permuted P xs ys p h)

length-permuted : (xs ys : List NodeService) → Permᴰ xs ys → length ys ≡ length xs
length-permuted [] [] Permᴰ.nil = refl
length-permuted (x ∷ xs) (y ∷ ys) (Permᴰ.cons e p) = omega (arith, length-permuted xs ys p)
length-permuted _ _ (Permᴰ.swap e f) = refl
length-permuted xs zs (Permᴰ.trans {l₂ = ys} p q) =
    length-permuted ys zs q ∙ length-permuted xs ys p

-- The services that a message brings, and whether they and its sender can be reached.
abbrev pub brings_services : Payload → List NodeService
brings_services (addr_payload services) = services
brings_services other = []

-- A payload of the class of its type, for the types that are queued.
abbrev pub IsClassed : Payload → Type 0
IsClassed payload =
    (payload_type payload ≡ addr
      → (services : List NodeService) × (payload ≡ addr_payload services))
    × (payload_type payload ≡ get_addr → payload ≡ null_payload get_addr)

-- To `version` our own service, to `getaddr` services of the book.
-- A `getaddr` goes without an answer only where the hub or the node has stopped.
abbrev pub IsAnswer :
    Moment → NodeService → AddressBook → Bool → MessageType → Option Payload → Type 0
IsAnswer moment local b stopped type none = (type ≢ get_addr) ⊎ (stopped ≡ true)
IsAnswer moment local b stopped type (some payload) =
    ((type ≡ version) × (payload ≡ addr_payload (local ∷ [])))
    ⊎ ((type ≡ get_addr)
        × ((services : List NodeService) × (payload ≡ addr_payload services)
            × (1 ≤ length services)
            × (length services ≤ 1000)
            × (4 * length services ≤ length b.randomly_ordered_ids)
            × All (IsOffered moment none b) services
            × Distinct (endpoints services)))

abbrev Answers :
    Externals
    → Moment
    → NodeService
    → AddressBook
    → Bool
    → MessageType
    → Option Payload × AddressBook
    → Type 0
Answers ext moment local b stopped type r =
    Consistent ext.lib Nobody r.1 × IsAnswer moment local b stopped type r.0

-- No service is picked for a `getaddr`.
abbrev pub FindsNone : Moment → Payload → AddressBook → Type 0
FindsNone moment payload b =
    (payload ≡ null_payload get_addr)
    × ((b' : AddressBook) × (get_random_services moment 1000 25 none b ≡ some ([], b')))

-- The handling ends as stated, or at an assertion for that reason.
abbrev Ends : {A : Type 0} → (A → Type 0) → Type 0 → Option A → Type 0
Ends P Because m = Ensures m P ⊎ (Because × (m ≡ none))

Ends-bind :
    {A B : Type 0} (P : A → Type 0) (Q : B → Type 0) (Because : Type 0) (m : Option A)
    (k : A → Option B)
    → Ensures m P
    → ((a : A) → P a → Ends Q Because (k a))
    → Ends Q Because (m >>= k)
Ends-bind P Q Because none k h f = absurd h
Ends-bind P Q Because (some a) k h f = f a h

because :
    {A : Type 0} (P : A → Type 0) (Because And : Type 0) (m : Option A)
    → And
    → Ends P Because m
    → Ends P (Because × And) m
because P Because And m live (inl h) = inl h
because P Because And m live (inr (h, e)) = inr ((h, live), e)

kept :
    (stopped : Bool) (ext : Externals) (moment : Moment) (local : NodeService) (b : AddressBook)
    (A : Type 0) (m : Option (A × List NodeService × AddressBook))
    → Ensures (third m) (λ b'. Consistent ext.lib Nobody b')
    → Ensures (m >>= λ r. some (none, r.2)) (Answers ext moment local b stopped addr)
kept stopped ext moment local b A none h = h
kept stopped ext moment local b A (some r) h = (h, inl (λ e. cc e))

limit_le : (n : ℕ) → (limit n 1000 25 ≤ 1000) × (4 * limit n 1000 25 ≤ n)
unfolding limit
limit_le n = (omega arith, omega arith)

module _ (ext : Externals) (moment : Moment) (random : IsRandom moment) (advertised : IpEndpoint)
    (shuffle : List NodeService → List NodeService)
    (permutes : (services : List NodeService) → Permᴰ services (shuffle services)) (b : AddressBook)
    (c : Consistent ext.lib Nobody b) where
  abbrev local : NodeService
  local = get_local_service advertised moment.now

  picks :
      (stopped : Bool) (r : List NodeService × AddressBook)
      → get_random_services moment 1000 25 none b ≡ some r
      → Picked moment random none (limit (length b.randomly_ordered_ids) 1000 25) b r
      → Consistent ext.lib Nobody r.1
      → Ends
          (Answers ext moment local b stopped get_addr)
          (FindsNone moment (null_payload get_addr) b)
          (answer_services ext moment advertised shuffle r.0 >>= λ reply. some (some reply, r.1))
  unfolding answer_services made
  picks stopped ([], b') e p c' = inr ((refl, (b', e)), refl)
  picks stopped (service ∷ services, b') e p c' =
      let (few, quarter) = limit_le (length b.randomly_ordered_ids) in
      inl (
        c',
        inr (
          refl,
          (
            service ∷ services,
            refl,
            omega arith,
            omega (arith, p.fewer, few),
            omega (arith, p.fewer, quarter),
            p.offered,
            p.distinct,
          ),
        ),
      )

  replies :
      (stopped : Bool) (m : Option (List NodeService × AddressBook))
      → get_random_services moment 1000 25 none b ≡ m
      → Ensures m (λ r.
        Picked moment random none (limit (length b.randomly_ordered_ids) 1000 25) b r
        × Consistent ext.lib Nobody r.1)
      → Ends
          (Answers ext moment local b stopped get_addr)
          (FindsNone moment (null_payload get_addr) b)
          (m >>= λ r.
            answer_services ext moment advertised shuffle r.0 >>= λ reply. some (some reply, r.1))
  replies stopped none e h = absurd h
  replies stopped (some r) e h = picks stopped r e h.0 h.1

  get_addr-Ends :
      (stopped : Bool) (source : Address)
      → Ends
          (Answers ext moment local b stopped get_addr)
          (FindsNone moment (null_payload get_addr) b)
          (address_book_processor_round ext moment advertised shuffle source
            (null_payload get_addr)
            b)
  unfolding address_book_processor_round
  get_addr-Ends stopped source =
      replies stopped (get_random_services moment 1000 25 none b) refl
        (get_random_services-Picked moment random ext.lib 1000 25 none b c)

  module _ (real : 1 ≤ b.last_used_id) where
    addr-Answers :
        (stopped : Bool) (source : Address) (services : List NodeService)
        → b.last_used_id + length services < u32_mod
        → All (IsReachable ext) services
        → is_routable ext.lib source ≡ true
        → Ensures
            (address_book_processor_round ext moment advertised shuffle source
              (addr_payload services)
              b)
            (Answers ext moment local b stopped addr)
    unfolding address_book_processor_round step
    addr-Answers stopped source services room routed sourced =
        let permutation = permutes services in
        kept stopped ext moment local b _ _ (
          Ensures_map (After ext (length (shuffle services)) b) _ _
            (step-After ext (inserts_services moment (shuffle services) source 7200) b c real
              (omega (arith, room, length-permuted services (shuffle services) permutation))
              (permuted (IsReachable ext) services (shuffle services) permutation routed, sourced))
            (λ b' a. a.0))

    -- What is expected of the handling of a message.
    abbrev IsHandled : Bool → MessageType → Handled × AddressBook → Type 0
    IsHandled stopped type (ignored, b') =
        Consistent ext.lib Nobody b' × ((type ≢ get_addr) ⊎ (stopped ≡ true))
    IsHandled stopped type (answered reply, b') =
        (type ≡ version) × (reply ≡ addr_payload (local ∷ [])) × Consistent ext.lib Nobody b'
    IsHandled stopped type (queued, b') =
        (b' ≡ b) × (stopped ≡ false) × ((type ≡ addr) ⊎ (type ≡ get_addr))

    advertises :
        (stopped : Bool) (m : Option (Bool × AddressBook)) (n : ℕ)
        → Ensures (second m) (After ext n b)
        → Ensures
            (m >>= λ r. some (answered (addr_payload (local ∷ [])), r.1))
            (IsHandled stopped version)
    advertises stopped none n h = h
    advertises stopped (some r) n h = (refl, refl, h.0)

    handle_type-IsHandled :
        (stopped : Bool) (sender : Sender) (type : MessageType)
        → stopped ≡ false
        → b.last_used_id < u32_mod
        → Ensures (handle_type ext moment advertised sender type b) (IsHandled stopped type)
    unfolding handle_type step
    handle_type-IsHandled stopped sender version live room =
        elim (Bool-cases (is_inbound sender.type)) [
          | inl e ↦ rw (e, handle_type) (c, inl (λ f. cc f))
          | inr e ↦
              rw (e, handle_type)
                (advertises stopped _ 0 (
                  step-After ext (good sender.endpoint sender.version_info moment.now) b c real
                    (omega (arith, room)) tt))
        ]
    handle_type-IsHandled stopped sender addr live room = (refl, live, inl refl)
    handle_type-IsHandled stopped sender get_addr live room = (refl, live, inr refl)
    handle_type-IsHandled stopped sender other live room = (c, inl (λ f. cc f))

    on_node_received_message-IsHandled :
        (is_running : Bool) (sender : Sender) (payload : Payload)
        → b.last_used_id < u32_mod
        → Ensures
            (on_node_received_message ext moment advertised is_running sender payload b)
            (IsHandled (not is_running || not sender.is_running) (payload_type payload))
    unfolding on_node_received_message
    on_node_received_message-IsHandled is_running sender payload room =
        elim (Bool-cases (not is_running || not sender.is_running)) [
          | inl e ↦ rw (e) (c, inr refl)
          | inr e ↦ rw (e) (handle_type-IsHandled false sender (payload_type payload) refl room)
        ]

    -- With draws within their ranges, a shuffle that permutes, a consistent book with room for the
    -- services of the payload, these services and the sender routable, and addr and getaddr
    -- payloads of their own classes, the handling of a message, with the round of the address book
    -- processor if it is queued, either passes every assertion, leaves a consistent book, sends to
    -- version nothing or our own service, to getaddr an addr payload of 1 to 1000 services, at
    -- most a quarter of the book, each of an entry of the book that is not bad, no endpoint twice,
    -- or nothing if the hub or the node has stopped, and nothing to other messages; or the message
    -- is a getaddr, both run, no service is picked for it, and an assertion fails.
    pub respond-Answers :
        (is_running : Bool) (sender : Sender) (payload : Payload)
        → b.last_used_id + length (brings_services payload) < u32_mod
        → All (IsReachable ext) (brings_services payload)
        → is_routable ext.lib sender.endpoint.address ≡ true
        → IsClassed payload
        → Ensures (respond ext moment advertised shuffle is_running sender payload b) (λ r.
          Consistent ext.lib Nobody r.1
          × IsAnswer moment
              (get_local_service advertised moment.now)
              b
              (not is_running || not sender.is_running)
              (payload_type payload)
              r.0)
          ⊎ ((FindsNone moment payload b × ((not is_running || not sender.is_running) ≡ false))
              × (respond ext moment advertised shuffle is_running sender payload b ≡ none))
    unfolding respond payload_type
    respond-Answers is_running sender payload room routed sourced classed =
        Ends-bind (IsHandled stopped (payload_type payload))
          (Answers ext moment local b stopped (payload_type payload)) Because
          (on_node_received_message ext moment advertised is_running sender payload b) _
          (on_node_received_message-IsHandled is_running sender payload (omega (arith, room)))
          finish
      where
        stopped : Bool
        stopped = not is_running || not sender.is_running

        Because : Type 0
        Because = FindsNone moment payload b × (stopped ≡ false)

        finish :
            (r : Handled × AddressBook)
            → IsHandled stopped (payload_type payload) r
            → Ends (Answers ext moment local b stopped (payload_type payload)) Because (elim r.0 [
              | ignored ↦ some (none, r.1)
              | answered reply ↦ some (some reply, r.1)
              | queued ↦
                  address_book_processor_round ext moment advertised shuffle sender.endpoint.address
                    payload r.1
            ])
        finish (ignored, b') h = inl h
        finish (answered reply, b') (type, same, h) = inl (h, inl (type, same))
        finish (queued, b') (same, live, inl t) =
            let (services, e) = classed.0 t in
            let brought = ap brings_services e in
            rw (same, e)
              (inl (
                addr-Answers stopped sender.endpoint.address services (rw (← brought) room)
                  (rw (← brought) routed) sourced))
        finish (queued, b') (same, live, inr t) =
            rw (same, classed.1 t)
              (because _ _ _ _ live (get_addr-Ends stopped sender.endpoint.address))
