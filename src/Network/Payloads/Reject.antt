-- ===== src/Network/Payloads/Reject.antt =====
-- `MsgRejectPayload::serialization` (src/infra/network/payloads.cpp).
pub mod RoundTrip
pub mod Code
use znode.Common.{
  ℕ, ◌+◌, ◌-◌, ◌^◌, ◌<◌, ◌≤◌, ◌≡◌, refl, ap, ◌∙◌, arith, Bool, true, false, not, List, [], ◌++◌,
  length, length-append, append_assoc, append-nil, Option, some, none, success, failure,
  if◌then◌else◌, ltb, leb, ltb-false,
}
use znode.Errors.{ErrorCode, ser, net, NetError, SerError}
use znode.Stream.Cursor.{IsValid, avail_lem}
use znode.Stream.Defs.{Status, avail}
use znode.Serialize.Defs.{
  SDataStream, Action, compute_size, serialize, deserialize, le_bytes, max_serialized_compact_size,
}
use znode.Serialize.LittleEndian.{length-le_bytes}
use znode.Serialize.Bind.{Bind, bind_int, bind_string, and_then, into}
use znode.Serialize.Codec.{RoundTrips}
use znode.Serialize.Members.{bind_int-RoundTrips, bind_string-RoundTrips, string_bytes}
use znode.Serialize.Moves.{skip, put, pending, Fits, put-put, skip-skip, after-of_length, put-nil}
use znode.Network.Protocol.{
  RejectionCode, rejection_value, is_rejection_code, is_rejection_code_lem, is_known_command,
}
use znode.Types.Inventory.{bind_hash, bind_hash-RoundTrips, zero_hash, hash_size}

abbrev pub max_reason : ℕ
max_reason = 256

pub record Reject : Type 0 where
  pub rejected_command : List ℕ
  pub rejection_code : RejectionCode
  pub reason : List ℕ
  pub extra_data : Option (List ℕ)

abbrev pub Bound : Type 0
Bound = Status × Reject × SDataStream

unfoldable pub bind_command : Action → Reject → SDataStream → Bound
bind_command action p s =
    into (λ command. record p { rejected_command = command })
      (bind_string p.rejected_command action s)

unfoldable pub bind_reason : Action → Reject → SDataStream → Bound
bind_reason action p s =
    into (λ reason. record p { reason = reason }) (bind_string p.reason action s)

-- The code is bound as a local; the object keeps its own.
unfoldable pub write_code : Reject → SDataStream → Bound
write_code p s = into (λ code. p) (bind_int 1 (rejection_value p.rejection_code) serialize s)

unfoldable pub write_extra : Option (List ℕ) → Reject → SDataStream → Bound
write_extra none p s = (success tt, p, s)
write_extra (some hash) p s =
    into (λ hash'. record p { extra_data = some hash' }) (bind_hash hash serialize s)

unfoldable pub write_reject : Reject → SDataStream → Bound
unfolding bind_command bind_reason write_code write_extra
write_reject p s =
    if not (is_known_command p.rejected_command)
    then (failure (net NetError.unknown_rejected_command), p, s)
    else if ltb max_reason (length p.reason)
    then (failure (ser SerError.string_too_big), p, s)
    else and_then
        (and_then (and_then (bind_command serialize p s) write_code) (bind_reason serialize))
        (λ p' s'. write_extra p'.extra_data p' s')

unfoldable pub check_command : Reject → SDataStream → Bound
check_command p s =
    if not (is_known_command p.rejected_command)
    then (failure (net NetError.unknown_rejected_command), p, s)
    else (success tt, p, s)

unfoldable pub check_code : Reject → Status × ℕ × SDataStream → Bound
check_code p (success u, code, s) =
    if is_rejection_code code
    then (success tt, p, s)
    else (failure (ser SerError.invalid_rejection_code), p, s)
check_code p (failure e, code, s) = (failure e, p, s)

-- The hash is put in place only if it was read.
unfoldable pub emplace : Reject → Status × List ℕ × SDataStream → Bound
emplace p (success u, hash, s) = (success tt, record p { extra_data = some hash }, s)
emplace p (failure e, hash, s) = (failure e, p, s)

unfoldable pub read_extra : Action → Reject → SDataStream → Bound
unfolding emplace
read_extra action p s =
    if ltb max_reason (length p.reason)
    then (failure (ser SerError.string_too_big), p, s)
    else if leb hash_size (avail s.base)
    then emplace p (bind_hash zero_hash action s)
    else (success tt, p, s)

unfoldable pub read_reject : Action → Reject → SDataStream → Bound
unfolding bind_command bind_reason check_command check_code read_extra
read_reject action p s =
    and_then
      (and_then
        (and_then (and_then (bind_command action p s) check_command)
          (λ p' s'. check_code p' (bind_int 1 0 action s')))
        (bind_reason action))
      (read_extra action)

unfoldable pub bind_reject : Bind Reject
unfolding write_reject read_reject
bind_reject p serialize s = write_reject p s
bind_reject p compute_size s = read_reject compute_size p s
bind_reject p deserialize s = read_reject deserialize p s

unfoldable pub extra_bytes : Option (List ℕ) → List ℕ
extra_bytes none = []
extra_bytes (some hash) = hash

unfoldable pub reject_bytes : Reject → List ℕ
unfolding extra_bytes
reject_bytes p =
    string_bytes p.rejected_command
    ++ (le_bytes 1 (rejection_value p.rejection_code)
        ++ (string_bytes p.reason ++ extra_bytes p.extra_data))
