-- ===== src/Network/Payloads/Reject/Code.antt =====
-- The rejection code of a payload that is read.
use znode.Common.{ℕ, ◌≡◌, refl, ◌∙◌, arith, success, failure, List}
use znode.Stream.Defs.{Status}
use znode.Serialize.Defs.{SDataStream, Action, deserialize}
use znode.Serialize.Bind.{and_then, bind_int}
use znode.Types.Inventory.{bind_hash, zero_hash}
use znode.Network.Payloads.Reject.{
  Reject, Bound, bind_reject, read_reject, check_code, check_command, emplace, read_extra,
  bind_command, bind_reason,
}

-- A step that leaves the code of the payload alone.
abbrev Keeps : Reject → Bound → Type 0
Keeps p b = b.1.rejection_code ≡ p.rejection_code

and_then-Keeps :
    (p : Reject) (b : Bound) (k : Reject → SDataStream → Bound)
    → Keeps p b
    → ((q : Reject) (s : SDataStream) → Keeps q (k q s))
    → Keeps p (and_then b k)
and_then-Keeps p (success u, q, s) k h keep = keep q s ∙ h
and_then-Keeps p (failure e, q, s) k h keep = h

check_code-Keeps : (p : Reject) (b : Status × ℕ × SDataStream) → Keeps p (check_code p b)
unfolding check_code
check_code-Keeps p (success u, code, s) = ground arith
check_code-Keeps p (failure e, code, s) = refl

check_command-Keeps : (p : Reject) (s : SDataStream) → Keeps p (check_command p s)
unfolding check_command
check_command-Keeps p s = ground arith

emplace-Keeps : (p : Reject) (b : Status × List ℕ × SDataStream) → Keeps p (emplace p b)
unfolding emplace
emplace-Keeps p (success u, hash, s) = refl
emplace-Keeps p (failure e, hash, s) = refl

read_extra-Keeps :
    (action : Action) (p : Reject) (s : SDataStream) → Keeps p (read_extra action p s)
unfolding read_extra
read_extra-Keeps action p s = ground (arith, emplace-Keeps p (bind_hash zero_hash action s))

-- Reading a payload leaves its code as it was: the code on the wire is checked and dropped.
pub read_reject-Keeps :
    (action : Action) (p : Reject) (s : SDataStream) → Keeps p (read_reject action p s)
unfolding read_reject
read_reject-Keeps action p s =
    let check : Reject → SDataStream → Bound = λ q t. check_code q (bind_int 1 0 action t) in
    let b1 = and_then (bind_command action p s) check_command in
    let b2 = and_then b1 check in
    let b3 = and_then b2 (bind_reason action) in
    let k1 = and_then-Keeps p (bind_command action p s) check_command refl check_command-Keeps in
    let k2 = and_then-Keeps p b1 check k1 (λ q t. check_code-Keeps q (bind_int 1 0 action t)) in
    let k3 = and_then-Keeps p b2 (bind_reason action) k2 (λ q t. refl) in
    and_then-Keeps p b3 (read_extra action) k3 (read_extra-Keeps action)

-- Deserializing leaves the rejection code of the payload as it was, whatever the stream holds and
-- whatever the outcome.
pub bind_reject-keeps_code :
    (p : Reject) (s : SDataStream)
    → (bind_reject p deserialize s).1.rejection_code ≡ p.rejection_code
unfolding bind_reject
bind_reject-keeps_code p s = read_reject-Keeps deserialize p s
