-- ===== src/Node/Parse/Ends.antt =====
-- The loop of `Node::parse_messages` (src/node/network/node.cpp).
use znode.Common.{
  ℕ, zero, suc, ◌≤◌, ◌≡◌, ◌⊎◌, inl, inr, refl, arith, Bool, true, false, List, [], ◌∷◌, length,
  Option, some, none, success, failure,
}
use znode.Errors.{ErrorCode, is_incomplete}
use znode.Network.Header.{IsExternal}
use znode.Network.Message.Defs.{Message, returned, aborted, is_complete, new_message}
use znode.Network.Message.Write.{Written, written, stuck, write_message}
use znode.Network.Message.Progress.{InProgress, Heading}
use znode.Network.Message.Receive.{Received, write_message_lem}
use znode.Network.Message.Shorter.{Leaves, write_message-Leaves}
use znode.Node.Inbound.{Environment, Node, fresh_message}
use znode.Node.Parse.{
  Parsed, parsed, parse_aborted, out_of_fuel, Tried, tried, try_aborted, try_message, caught,
  after_try, after_message, current_message, parse_loop, parse_messages,
}

-- The message in work: none, one that is being received, or a whole one.
unfoldable pub Resumable : Option Message → Type 0
Resumable none = Unit {0}
Resumable (some m) = InProgress m ⊎ (is_complete m ≡ true)

-- The loop comes to an end; on success a message can be gone on with, and on an error none is left.
unfoldable pub Finished : Parsed → Type 0
unfolding Resumable
Finished out_of_fuel = ⊥
Finished parse_aborted = Unit {0}
Finished (parsed (success u) n) = Resumable n.inbound_message
Finished (parsed (failure e) n) = n.inbound_message ≡ none

-- What is left of the input, and the message that the loop goes on with.
abbrev Goes : (ℕ → Node → List ℕ → Parsed) → ℕ → Type 0
Goes again most =
    (count : ℕ) (n : Node) (rest : List ℕ)
    → Resumable n.inbound_message
    → length rest ≤ most
    → Finished (again count n rest)

module _ (env : Environment) (laws : IsExternal env.external) where
  fresh_message-Heading : (n : Node) → Heading (fresh_message env n)
  unfolding fresh_message new_message
  fresh_message-Heading n = record {
    no_header = refl;
    no_payload = refl;
    at_start = refl;
    short = omega arith;
  }

  Finished-elim :
      (p q : Parsed) (b c : Bool)
      → b ≡ c
      → (b ≡ true → Finished p)
      → (b ≡ false → Finished q)
      → Finished (elim c [ true ↦ p | false ↦ q ])
  Finished-elim p q b true e f g = f e
  Finished-elim p q b false e f g = g e

  Finished-caught :
      (again : ℕ → Node → List ℕ → Parsed) (most count : ℕ) (e : ErrorCode) (m : Message) (n : Node)
      (rest : List ℕ)
      → Goes again most
      → (is_incomplete e ≡ true → Resumable (some m) × (length rest ≤ most))
      → Finished (caught env again count e m n rest)
  unfolding caught Finished Resumable
  Finished-caught again most count e m n rest goes h =
      Finished-elim _ _ (is_incomplete e) (is_incomplete e) refl
        (λ i. goes count (record n { inbound_message = some m }) rest (h i).0 (h i).1) λ i. refl

  Finished-after_try :
      (again : ℕ → Node → List ℕ → Parsed) (most : ℕ) (m : Message) (rest : List ℕ) (t : Tried)
      → Goes again most
      → is_complete m ≡ true
      → length rest ≤ most
      → Finished (after_try env again m rest t)
  unfolding after_try Resumable is_complete Finished
  Finished-after_try again most m rest try_aborted goes whole h = tt
  Finished-after_try again most m rest (tried (failure e) count s n) goes whole h =
      Finished-caught again most count e (record m { ser_stream = s }) n rest goes
        λ i. (inr whole, h)
  Finished-after_try again most m rest (tried (success u) count s n) goes whole h =
      goes count (record n { inbound_message = none; inbound_message_start_time = none }) rest tt h

  Finished-after_message :
      (again : ℕ → Node → List ℕ → Parsed) (most count : ℕ) (n : Node) (all : List ℕ) (w : Written)
      → Goes again most
      → Received env.external all w
      → Leaves most w
      → Finished (after_message env again count n w)
  unfolding after_message Resumable Finished
  Finished-after_message again most count n all stuck goes r l = absurd r
  Finished-after_message again most count n all (written aborted m rest) goes r l = absurd r
  Finished-after_message again most count n all (written (returned (failure e)) m rest) goes r l =
      Finished-caught again most count e m n rest goes
        λ i. let (p, none_left) = r.1 i in (inl p, rw (none_left) (omega arith))
  Finished-after_message again most count n all (written (returned (success u)) m rest) goes r l =
      Finished-after_try again most m rest (try_message env count m n) goes r.1 l

  -- A message that is being received takes a byte at least.
  Finished-receiving :
      (again : ℕ → Node → List ℕ → Parsed) (count : ℕ) (n : Node) (m : Message) (b : ℕ)
      (bs : List ℕ)
      → Goes again (length bs)
      → InProgress m
      → Finished (after_message env again count n (write_message env.external m (b ∷ bs)))
  Finished-receiving again count n m b bs goes p =
      Finished-after_message again (length bs) count n _ _ goes
        (write_message_lem env.external laws m (b ∷ bs) p)
        (write_message-Leaves env.external m p b bs)

  -- A whole message takes no input: `write` refuses it.
  Finished-whole :
      (again : ℕ → Node → List ℕ → Parsed) (count : ℕ) (n : Node) (m : Message) (b : ℕ)
      (bs : List ℕ)
      → is_complete m ≡ true
      → Finished (after_message env again count n (write_message env.external m (b ∷ bs)))
  unfolding after_message caught Finished write_message is_incomplete
  Finished-whole again count n m b bs whole = rw (whole) refl

  Finished-current :
      (again : ℕ → Node → List ℕ → Parsed) (count : ℕ) (n : Node) (o : Option Message) (b : ℕ)
      (bs : List ℕ)
      → Resumable o
      → Goes again (length bs)
      → Finished (
          after_message env again count
            ((current_message env n o).1)
            (write_message env.external ((current_message env n o).0) (b ∷ bs)))
  unfolding current_message Resumable
  Finished-current again count n none b bs r goes =
      Finished-receiving again count _ (fresh_message env n) b bs goes
        (inl (fresh_message-Heading n))
  Finished-current again count n (some m) b bs (inl p) goes =
      Finished-receiving again count n m b bs goes p
  Finished-current again count n (some m) b bs (inr whole) goes =
      Finished-whole again count n m b bs whole

  Finished-loop :
      (fuel count : ℕ) (n : Node) (input : List ℕ)
      → Resumable n.inbound_message
      → length input ≤ fuel
      → Finished (parse_loop env fuel count n input)
  unfolding parse_loop Finished
  Finished-loop fuel count n [] r h = r
  Finished-loop zero count n (b ∷ bs) r h = absurd (omega arith)
  Finished-loop (suc fuel) count n (b ∷ bs) r h =
      Finished-current (parse_loop env fuel) count n n.inbound_message b bs r
        λ count' n' rest r' l. Finished-loop fuel count' n' rest r' (omega arith)

  -- With a clamp that leaves alone just the values in its range, and a message in work that is
  -- absent, being received or whole, parse_messages ends within its fuel on any input; when it
  -- succeeds the message in work is such a one again, and when it fails there is none.
  pub parse_messages-Finished :
      (n : Node) (input : List ℕ)
      → Resumable n.inbound_message
      → Finished (parse_messages env n input)
  unfolding parse_messages
  parse_messages-Finished n input r = Finished-loop (length input) 0 n input r (omega arith)
