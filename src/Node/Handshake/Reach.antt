-- ===== src/Node/Handshake/Reach.antt =====
-- Sessions of `validate_message_for_protocol_handshake` (src/node/network/node.cpp).
use znode.Common.{
  ℕ, suc, ◌+◌, ◌*◌, ◌/◌, ◌%◌, ◌<◌, ◌≤◌, ◌≡◌, inl, inr, refl, arith, Bool, true, false, List, [],
  ◌∷◌, ◌++◌, ◌&&◌, length, success, failure, if◌then◌else◌, ◌==◌, ==_iff, leb, leb→le, ap, ◌∙◌,
}
use znode.Common.Bytes.{and_true}
use znode.Common.Ranges.{each_under, each_under-holds}
use znode.Network.Protocol.{MessageType, version, verack}
use znode.Node.Handshake.{
  Direction, outbound, inbound, Shake, start_shake, status_flag, exchange, completed, Validated,
  validate_message_for_protocol_handshake, run,
}
use znode.Node.Handshake.Flags.{IsFlag, Accepted, Accepted-validate}

-- The states that a session reaches, with its accepted messages, the last one first.
pub data Reachable : List (Direction × MessageType) → Shake → Type 0 where
  start : Reachable [] start_shake
  accept :
      (trace : List (Direction × MessageType)) (s : Shake) (d : Direction) (type : MessageType)
      → Reachable trace s
      → (validate_message_for_protocol_handshake d type s).0 ≡ success tt
      → Reachable ((d, type) ∷ trace) (validate_message_for_protocol_handshake d type s).1

-- How many messages of a session have a flag.
unfoldable pub times : ℕ → List (Direction × MessageType) → ℕ
unfolding status_flag
times flag [] = 0
times flag ((d, type) ∷ trace) = (if status_flag d type == flag then 1 else 0) + times flag trace

-- A sum of digits, and a count that is one for the full sum.
abbrev Digits : ℕ → ℕ → ℕ → ℕ → ℕ → ℕ → Type 0
Digits n a b c d k =
    (n ≡ a + 2 * b + 4 * c + 8 * d)
    × (a ≤ 1)
    × (b ≤ 1)
    × (c ≤ 1)
    × (d ≤ 1)
    × (k ≡ (if n == 15 then 1 else 0))

sum :
    (f n a b c d k : ℕ)
    → IsFlag f
    → Digits n a b c d k
    → n / f % 2 ≡ 0
    → Digits
        (n + f)
        ((if f == 1 then 1 else 0) + a)
        ((if f == 2 then 1 else 0) + b)
        ((if f == 4 then 1 else 0) + c)
        ((if f == 8 then 1 else 0) + d)
        (if n + f == 15 then suc k else k)
sum f n a b c d k (inl e) o digit =
    let digit' : n / 1 % 2 ≡ 0 = rw (e) at digit in
    rw (e) (
      omega (arith, o.0, digit'),
      omega (arith, o.0, digit'),
      omega (arith, o.0, digit'),
      omega (arith, o.0, digit'),
      omega (arith, o.0, digit'),
      ground (arith, o.0, digit'),
    )
sum f n a b c d k (inr (inl e)) o digit =
    let digit' : n / 2 % 2 ≡ 0 = rw (e) at digit in
    rw (e) (
      omega (arith, o.0, digit'),
      omega (arith, o.0, digit'),
      omega (arith, o.0, digit'),
      omega (arith, o.0, digit'),
      omega (arith, o.0, digit'),
      ground (arith, o.0, digit'),
    )
sum f n a b c d k (inr (inr (inl e))) o digit =
    let digit' : n / 4 % 2 ≡ 0 = rw (e) at digit in
    rw (e) (
      omega (arith, o.0, digit'),
      omega (arith, o.0, digit'),
      omega (arith, o.0, digit'),
      omega (arith, o.0, digit'),
      omega (arith, o.0, digit'),
      ground (arith, o.0, digit'),
    )
sum f n a b c d k (inr (inr (inr e))) o digit =
    let digit' : n / 8 % 2 ≡ 0 = rw (e) at digit in
    rw (e) (
      omega (arith, o.0, digit'),
      omega (arith, o.0, digit'),
      omega (arith, o.0, digit'),
      omega (arith, o.0, digit'),
      omega (arith, o.0, digit'),
      ground (arith, o.0, digit'),
    )

-- A handshake message is accepted once at most in each direction, and its flag tells of it.
abbrev pub Once : List (Direction × MessageType) → Shake → Type 0
Once trace s =
    Digits s.status (times 1 trace) (times 2 trace) (times 4 trace) (times 8 trace) s.completions

Once-step :
    (trace : List (Direction × MessageType)) (s s' : Shake) (d : Direction) (type : MessageType)
    → Once trace s
    → Accepted (status_flag d type) s s'
    → Once ((d, type) ∷ trace) s'
unfolding times exchange
Once-step trace s s' d type o (inl (e, same)) =
    rw (same, e)
      (
        omega (arith, o.0),
        omega (arith, o.1),
        omega (arith, o.2),
        omega (arith, o.3),
        omega (arith, o.4),
        o.5,
      )
Once-step trace s s' d type o (inr (flag, digit, same)) =
    rw (same) (sum (status_flag d type) s.status _ _ _ _ s.completions flag o digit)

-- In a session from the start, each of the four handshake messages is accepted at most once, the
-- status is the sum of the flags of those accepted, and the completion was posted once if the
-- status is the completed one and never otherwise.
pub Reachable-Once :
    (trace : List (Direction × MessageType)) (s : Shake) → Reachable trace s → Once trace s
unfolding times
Reachable-Once _ _ start = (refl, omega arith, omega arith, omega arith, omega arith, refl)
Reachable-Once _ _ (accept trace s d type r e) =
    let o = Reachable-Once trace s r in
    Once-step trace s _ d type o
      (Accepted-validate d type s (omega (arith, o.0, o.1, o.2, o.3, o.4)) e)

-- The messages of the handshake that a status lacks, versions first.
lacking : ℕ → Direction → MessageType → ℕ → List (Direction × MessageType)
lacking flag d type status = if status / flag % 2 == 0 then (d, type) ∷ [] else []

unfoldable pub missing : ℕ → List (Direction × MessageType)
unfolding lacking
missing status =
    lacking 1 outbound version status
    ++ (lacking 2 inbound version status
        ++ (lacking 4 outbound verack status ++ lacking 8 inbound verack status))

is_done : Validated → Bool
is_done (success u, s) = (s.status == 15) && (s.completions == 1)
is_done (failure e, s) = false

done_test : ℕ → Bool
unfolding missing run is_done
done_test n =
    is_done (run (missing n) (record { status = n; completions = if n == 15 then 1 else 0 }))
    && leb (length (missing n)) 4

done_tests : each_under done_test 16 ≡ true
unfolding each_under done_test validate_message_for_protocol_handshake
done_tests = refl

is_done_sound :
    (r : Validated) → is_done r ≡ true → r ≡ (success tt, record { status = 15; completions = 1 })
unfolding is_done
is_done_sound (success u, s) h =
    let (a, b) = and_true (s.status == 15) (s.completions == 1) h in
    ap (λ n. (success tt, record { status = n; completions = s.completions })) ((==_iff _ _).0 a)
    ∙ ap (λ c. (success tt, record { status = 15; completions = c })) ((==_iff _ _).0 b)
is_done_sound (failure e, s) h = cc

-- From every state that a session reaches, the messages of the handshake that its status lacks, at
-- most four, are accepted one after the other, and complete the handshake.
pub run-missing :
    (trace : List (Direction × MessageType)) (s : Shake)
    → Reachable trace s
    → (run (missing s.status) s ≡ (success tt, record { status = completed; completions = 1 }))
      × (length (missing s.status) ≤ 4)
unfolding done_test
run-missing trace s r =
    let o = Reachable-Once trace s r in
    let small : s.status < 16 = omega (arith, o.0, o.1, o.2, o.3, o.4) in
    let (done, short) = and_true _ _ (each_under-holds done_test 16 s.status done_tests small) in
    (
      ap (λ c. run (missing s.status) (record { status = s.status; completions = c })) o.5
          ∙ is_done_sound _ done,
      leb→le _ _ short,
    )
