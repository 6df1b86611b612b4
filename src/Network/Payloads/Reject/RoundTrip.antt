-- ===== src/Network/Payloads/Reject/RoundTrip.antt =====
-- What `MsgRejectPayload` writes, and what it reads back.
use znode.Common.{
  ℕ, ◌^◌, ◌<◌, ◌≤◌, ◌≡◌, refl, ap, ◌∙◌, arith, true, List, [], ◌++◌, length, length-append,
  append_assoc, Option, some, none, success, ltb-false, leb-false, le→leb,
}
use znode.Stream.Cursor.{IsValid, avail_lem}
use znode.Stream.Defs.{avail}
use znode.Serialize.Defs.{SDataStream, serialize, deserialize, le_bytes}
use znode.Serialize.Members.{bind_int-RoundTrips, bind_string-RoundTrips, string_bytes}
use znode.Serialize.Moves.{
  skip, put, pending, Fits, put-put, skip-skip, after-of_length, put-nil, skip-zero,
}
use znode.Network.Protocol.{RejectionCode, rejection_value, is_rejection_code_lem, is_known_command}
use znode.Types.Inventory.{bind_hash-RoundTrips, zero_hash, hash_size}
use znode.Network.Payloads.Reject.{
  Reject, bind_reject, read_reject, check_code, check_command, read_extra, write_reject,
  write_extra, write_code, bind_command, bind_reason, reject_bytes, extra_bytes, max_reason,
}

-- The optional hash is read wherever 32 bytes are left.
abbrev pub ExtraOk : Option (List ℕ) → List ℕ → Type 0
ExtraOk none rest = length rest < hash_size
ExtraOk (some hash) rest = length hash ≡ hash_size

abbrev pub IsReject : Reject → Type 0
IsReject p = (is_known_command p.rejected_command ≡ true) × (length p.reason ≤ max_reason)

known-length : (command : List ℕ) → is_known_command command ≡ true → length command ≤ 12
unfolding is_known_command
known-length command h = ground arith

rejection_value-lt : (r : RejectionCode) → rejection_value r < 256 ^ 1
unfolding rejection_value
rejection_value-lt RejectionCode.ok = omega arith
rejection_value-lt _ = omega arith

-- The extra data of a payload that is read.
abbrev pub extra_after : Option (List ℕ) → Option (List ℕ) → Option (List ℕ)
extra_after none old = old
extra_after (some hash) old = some hash

read_extra_lem :
    (p : Reject) (extra : Option (List ℕ)) (s : SDataStream) (rest : List ℕ)
    → length p.reason ≤ max_reason
    → ExtraOk extra rest
    → IsValid s.base
    → pending s ≡ extra_bytes extra ++ rest
    → read_extra deserialize p s ≡ (
      success tt,
      record p { extra_data = extra_after extra p.extra_data },
      skip s (length (extra_bytes extra)),
    )
unfolding read_extra extra_bytes
read_extra_lem p none s rest hr ok v e = rw (
  ltb-false max_reason (length p.reason) hr,
  leb-false hash_size (avail s.base) (omega (arith, avail_lem s.base v, ap length e)),
  skip-zero s,
)
read_extra_lem p (some hash) s rest hr ok v e =
    let n = ap length e ∙ length-append hash rest in
    rw (
      ltb-false max_reason (length p.reason) hr,
      le→leb hash_size (avail s.base) (omega (arith, avail_lem s.base v, n)),
      bind_hash-RoundTrips.reads hash zero_hash s rest ok v e,
    )

extra_after_self : (extra : Option (List ℕ)) → extra_after extra extra ≡ extra
extra_after_self none = refl
extra_after_self (some hash) = refl

write_extra_lem :
    (p : Reject) (extra : Option (List ℕ)) (s : SDataStream)
    → ExtraOk extra []
    → Fits s (length (extra_bytes extra))
    → write_extra extra p s ≡ (
      success tt,
      record p { extra_data = extra_after extra p.extra_data },
      put s (extra_bytes extra),
    )
unfolding write_extra extra_bytes
write_extra_lem p none s ok fits = rw (put-nil s)
write_extra_lem p (some hash) s ok fits = rw (bind_hash-RoundTrips.writes hash s ok fits)

-- On a well-formed stream that starts with the wire form of a payload with a known command and a
-- reason of at most 256 bytes, its extra data of 32 bytes or, if it has none, fewer than 32 bytes
-- behind it, deserializing takes just that form and gives the payload back, but the code, and
-- extra data where there is none on the wire, stay those of the receiving payload.
pub read_reject_lem :
    (p old : Reject) (s : SDataStream) (rest : List ℕ)
    → IsReject p
    → ExtraOk p.extra_data rest
    → IsValid s.base
    → pending s ≡ reject_bytes p ++ rest
    → bind_reject old deserialize s ≡ (
      success tt,
      record p {
        rejection_code = old.rejection_code;
        extra_data = extra_after p.extra_data old.extra_data;
      },
      skip s (length (reject_bytes p)),
    )
unfolding bind_reject read_reject check_command check_code bind_command bind_reason reject_bytes
read_reject_lem p old s rest (known, short) extra v e =
    let command = string_bytes p.rejected_command in
    let code = le_bytes 1 (rejection_value p.rejection_code) in
    let reason = string_bytes p.reason in
    let more = extra_bytes p.extra_data in
    let e1 = e ∙ append_assoc command (code ++ (reason ++ more)) rest in
    let (v1, after1) =
      after-of_length s.base _ command ((code ++ (reason ++ more)) ++ rest) refl v e1 in
    let e2 = after1 ∙ append_assoc code (reason ++ more) rest in
    let s1 = skip s (length command) in
    let (v2, after2) = after-of_length s1.base _ code ((reason ++ more) ++ rest) refl v1 e2 in
    let e3 = after2 ∙ append_assoc reason more rest in
    let s2 = skip s1 (length code) in
    let (v3, after3) = after-of_length s2.base _ reason (more ++ rest) refl v2 e3 in
    let s3 = skip s2 (length reason) in
    let short_command = known-length p.rejected_command known in
    let kept : Reject = record p {
      rejection_code = old.rejection_code;
      extra_data = old.extra_data;
    } in
    rw (
      bind_string-RoundTrips.reads p.rejected_command old.rejected_command s
          ((code ++ (reason ++ more)) ++ rest) (omega (arith, short_command)) v e1,
      known,
      (bind_int-RoundTrips 1).reads (rejection_value p.rejection_code) 0 s1
          ((reason ++ more) ++ rest) (rejection_value-lt p.rejection_code) v1 e2,
      is_rejection_code_lem p.rejection_code,
      bind_string-RoundTrips.reads p.reason old.reason s2 (more ++ rest) (omega arith) v2 e3,
      read_extra_lem kept p.extra_data s3 rest short extra v3 after3,
      skip-skip s2 (length reason) (length more) (length (reason ++ more))
          (omega (arith, length-append reason more)),
      skip-skip s1 (length code) (length (reason ++ more)) (length (code ++ (reason ++ more)))
          (omega (arith, length-append code (reason ++ more))),
      skip-skip s (length command) (length (code ++ (reason ++ more)))
          (length (command ++ (code ++ (reason ++ more))))
          (omega (arith, length-append command (code ++ (reason ++ more)))),
    )

-- A payload with a known command, a reason of at most 256 bytes and extra data of 32 bytes if any
-- is serialized, where there is room, as the command, the code, the reason and the extra data, in
-- this order.
pub write_reject_lem :
    (p : Reject) (s : SDataStream)
    → IsReject p
    → ExtraOk p.extra_data []
    → Fits s (length (reject_bytes p))
    → bind_reject p serialize s ≡ (success tt, p, put s (reject_bytes p))
unfolding bind_reject write_reject write_code bind_command bind_reason reject_bytes
write_reject_lem p s (known, short) extra fits =
    let command = string_bytes p.rejected_command in
    let code = le_bytes 1 (rejection_value p.rejection_code) in
    let reason = string_bytes p.reason in
    let more = extra_bytes p.extra_data in
    let n1 = length-append command (code ++ (reason ++ more)) in
    let n2 = length-append code (reason ++ more) in
    let n3 = length-append reason more in
    let m1 = length-append s.base.buffer command in
    let m2 = length-append (s.base.buffer ++ command) code in
    let m3 = length-append ((s.base.buffer ++ command) ++ code) reason in
    let s1 = put s command in
    let s2 = put s1 code in
    let short_command = known-length p.rejected_command known in
    rw (
      known,
      ltb-false max_reason (length p.reason) short,
      bind_string-RoundTrips.writes p.rejected_command s (omega (arith, short_command))
          (omega (arith, n1)),
      (bind_int-RoundTrips 1).writes (rejection_value p.rejection_code) s1
          (rejection_value-lt p.rejection_code) (omega (arith, n1, n2, m1)),
      bind_string-RoundTrips.writes p.reason s2 (omega arith) (omega (arith, n1, n2, n3, m1, m2)),
      write_extra_lem p p.extra_data (put s2 reason) extra (omega (arith, n1, n2, n3, m1, m2, m3)),
      extra_after_self p.extra_data,
      put-put s2 reason more,
      put-put s1 code (reason ++ more),
      put-put s command (code ++ (reason ++ more)),
    )
