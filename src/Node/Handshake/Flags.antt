-- ===== src/Node/Handshake/Flags.antt =====
-- The four flags of the handshake (src/node/network/node.hpp) as binary digits.
use Prim.Native.Nat.{bit_and, bit_or}
use znode.Common.{
  ℕ, ◌+◌, ◌/◌, ◌%◌, ◌<◌, ◌≡◌, ◌⊎◌, not, ◌||◌, ltb, inl, inr, refl, Bool, true, false, ◌&&◌, success,
  failure, if◌then◌else◌, ◌==◌, ==_iff, Bool-cases,
}
use znode.Common.Bytes.{and_true}
use znode.Common.Ranges.{each_under, each_under-holds}
use znode.Errors.{ErrorCode}
use znode.Network.Protocol.{MessageType, version, verack}
use znode.Node.Handshake.{
  Direction, outbound, inbound, Shake, Validated, status_flag, exchange, is_version, is_verack,
  apply_flag, validate_message_for_protocol_handshake,
}

-- A flag that is not set is a zero digit, and setting it adds it.
flag_test : ℕ → ℕ → Bool
flag_test flag status =
    if bit_and status flag == flag
    then true
    else (bit_or status flag == status + flag) && (status / flag % 2 == 0)

abbrev pub IsFlag : ℕ → Type 0
IsFlag flag = (flag ≡ 1) ⊎ ((flag ≡ 2) ⊎ ((flag ≡ 4) ⊎ (flag ≡ 8)))

test1 : each_under (flag_test 1) 16 ≡ true
unfolding each_under flag_test
test1 = refl

test2 : each_under (flag_test 2) 16 ≡ true
unfolding each_under flag_test
test2 = refl

test4 : each_under (flag_test 4) 16 ≡ true
unfolding each_under flag_test
test4 = refl

test8 : each_under (flag_test 8) 16 ≡ true
unfolding each_under flag_test
test8 = refl

test_at : (flag status : ℕ) → IsFlag flag → status < 16 → flag_test flag status ≡ true
test_at flag status (inl e) h = rw (e) (each_under-holds (flag_test 1) 16 status test1 h)
test_at flag status (inr (inl e)) h = rw (e) (each_under-holds (flag_test 2) 16 status test2 h)
test_at flag status (inr (inr (inl e))) h =
    rw (e) (each_under-holds (flag_test 4) 16 status test4 h)
test_at flag status (inr (inr (inr e))) h =
    rw (e) (each_under-holds (flag_test 8) 16 status test8 h)

pub unset :
    (flag status : ℕ)
    → IsFlag flag
    → status < 16
    → (bit_and status flag == flag) ≡ false
    → (bit_or status flag ≡ status + flag) × (status / flag % 2 ≡ 0)
unfolding flag_test
unset flag status f h e =
    let t = test_at flag status f h in
    let (a, b) =
      and_true (bit_or status flag == status + flag) (status / flag % 2 == 0) (rw (e) at t) in
    ((==_iff _ _).0 a, (==_iff _ _).0 b)

pub status_flag-cases :
    (d : Direction) (type : MessageType) → (status_flag d type ≡ 0) ⊎ IsFlag (status_flag d type)
unfolding status_flag
status_flag-cases outbound version = inr (inl refl)
status_flag-cases inbound version = inr (inr (inl refl))
status_flag-cases outbound verack = inr (inr (inr (inl refl)))
status_flag-cases inbound verack = inr (inr (inr (inr refl)))
status_flag-cases outbound other = inl refl
status_flag-cases inbound other = inl refl

-- An accepted message: one of the handshake sets its digit, any other one changes nothing.
abbrev pub Accepted : ℕ → Shake → Shake → Type 0
Accepted flag s s' =
    ((flag ≡ 0) × (s' ≡ s))
    ⊎ (IsFlag flag × (s.status / flag % 2 ≡ 0) × (s' ≡ exchange (s.status + flag) s))

pub positive : (flag : ℕ) → IsFlag flag → (flag == 0) ≡ false
positive flag (inl e) = rw (e) refl
positive flag (inr (inl e)) = rw (e) refl
positive flag (inr (inr (inl e))) = rw (e) refl
positive flag (inr (inr (inr e))) = rw (e) refl

-- A check that returns an error.
passed :
    (b : Bool) (e : ErrorCode) (s : Shake) (others : Validated)
    → (if b then (failure e, s) else others).0 ≡ success tt
    → (b ≡ false) × (others.0 ≡ success tt)
passed true e s others h = cc
passed false e s others h = (refl, h)

Accepted-apply_flag :
    (flag : ℕ) (s : Shake)
    → (flag ≡ 0) ⊎ IsFlag flag
    → s.status < 16
    → (apply_flag flag s).0 ≡ success tt
    → Accepted flag s (apply_flag flag s).1
unfolding apply_flag
Accepted-apply_flag flag s (inl none) h e =
    let (late, u) = passed (ltb s.status 3) _ s _ (rw (none) at e) in
    inl (none, rw (none, late) refl)
Accepted-apply_flag flag s (inr some) h e =
    let (fresh, u) = passed (bit_and s.status flag == flag) _ s _ (rw (positive flag some) at e) in
    let (sum, digit) = unset flag s.status some h fresh in
    inr (some, digit, rw (positive flag some, fresh, sum) refl)

-- A completed handshake takes no message of the handshake.
finished :
    (d : Direction) (type : MessageType)
    → is_version type || is_verack type ≡ false
    → status_flag d type ≡ 0
unfolding status_flag is_version is_verack
finished d version h = cc
finished d verack h = cc
finished d other h = refl

pub Accepted-validate :
    (d : Direction) (type : MessageType) (s : Shake)
    → s.status < 16
    → (validate_message_for_protocol_handshake d type s).0 ≡ success tt
    → Accepted (status_flag d type) s (validate_message_for_protocol_handshake d type s).1
unfolding validate_message_for_protocol_handshake
Accepted-validate d type s h e =
    let (begun, e') = passed ((s.status == 0) && not (is_version type)) _ s _ e in
    elim (Bool-cases (s.status == 15)) [
      | inl done ↦
          let (other, u) = passed (is_version type || is_verack type) _ s _ (rw (done) at e') in
          inl (finished d type other, rw (begun, done, other) refl)
      | inr ongoing ↦
          rw (begun, ongoing)
            (Accepted-apply_flag (status_flag d type) s (status_flag-cases d type) h
              (rw (ongoing) at e'))
    ]
