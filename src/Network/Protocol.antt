-- ===== src/Network/Protocol.antt =====
-- Message types and their command labels (src/infra/network/protocol.hpp, protocol.cpp). The label
-- of an enumerator is its name without the `k`, in lower case.
use znode.Common.{
  ℕ, ◌≡◌, ◌≢◌, refl, ap, sym, ◌∙◌, Bool, true, false, not, ◌||◌, ◌&&◌, leb, ◌↔◌, List, [], ◌∷◌,
  length, ltb, ◌==◌, if◌then◌else◌, pad_to, Bool-cases, inl, inr,
}
use znode.Common.Bytes.{codes, bytes_eq, bytes_eq→eq}

pub data MessageType : Type 0 where
  version verack inv addr ping pong get_headers headers get_addr mempool : MessageType
  reject get_data not_found missing_or_unknown : MessageType

abbrev pub message_header_command_length : ℕ
message_header_command_length = 12

-- `magic_enum::enum_name` without its first letter, in lower case.
unfoldable pub label : MessageType → List ℕ
label version = codes "version"
label verack = codes "verack"
label inv = codes "inv"
label addr = codes "addr"
label ping = codes "ping"
label pong = codes "pong"
label get_headers = codes "getheaders"
label headers = codes "headers"
label get_addr = codes "getaddr"
label mempool = codes "mempool"
label reject = codes "reject"
label get_data = codes "getdata"
label not_found = codes "notfound"
label missing_or_unknown = codes "missingorunknown"

-- `get_command_from_message_type`: the label, padded with zeroes or cut to 12 bytes.
unfoldable pub command_from_message_type : MessageType → List ℕ
unfolding label
command_from_message_type type = pad_to message_header_command_length 0 (label type)

-- The enumerators of `get_commands`, in their order.
abbrev commands : List MessageType
commands =
    version ∷ verack ∷ inv ∷ addr ∷ ping ∷ pong ∷ get_headers ∷ headers ∷ get_addr ∷ mempool
    ∷ reject ∷ get_data ∷ not_found ∷ []

unfoldable pub find_command : List MessageType → List ℕ → MessageType
unfolding command_from_message_type
find_command [] command = missing_or_unknown
find_command (type ∷ types) command =
    if bytes_eq (command_from_message_type type) command then type else find_command types command

unfoldable pub message_type_from_command : List ℕ → MessageType
unfolding find_command
message_type_from_command command = find_command commands command

unfoldable pub is_missing : MessageType → Bool
is_missing missing_or_unknown = true
is_missing other = false

unfoldable pub is_get_headers : MessageType → Bool
is_get_headers get_headers = true
is_get_headers other = false

unfoldable pub is_known_command : List ℕ → Bool
unfolding message_type_from_command is_missing
is_known_command command =
    if (length command == 0) || ltb message_header_command_length (length command)
    then false
    else not
        (is_missing (message_type_from_command (pad_to message_header_command_length 0 command)))

-- Each type but the unknown one is found by its own command.
pub message_type_from_command_lem :
    (type : MessageType) → message_type_from_command (command_from_message_type type) ≡ type
unfolding message_type_from_command bytes_eq
message_type_from_command_lem version = refl
message_type_from_command_lem verack = refl
message_type_from_command_lem inv = refl
message_type_from_command_lem addr = refl
message_type_from_command_lem ping = refl
message_type_from_command_lem pong = refl
message_type_from_command_lem get_headers = refl
message_type_from_command_lem headers = refl
message_type_from_command_lem get_addr = refl
message_type_from_command_lem mempool = refl
message_type_from_command_lem reject = refl
message_type_from_command_lem get_data = refl
message_type_from_command_lem not_found = refl
message_type_from_command_lem missing_or_unknown = refl

find_command-found :
    (types : List MessageType) (command : List ℕ)
    → find_command types command ≢ missing_or_unknown
    → command ≡ command_from_message_type (find_command types command)
unfolding find_command
find_command-found [] command h = absurd (h refl)
find_command-found (type ∷ types) command h =
    elim (Bool-cases (bytes_eq (command_from_message_type type) command)) [
      | inl hit ↦ rw hit (sym (bytes_eq→eq (command_from_message_type type) command hit))
      | inr miss ↦ rw miss (find_command-found types command (rw miss at h))
    ]

-- A command that is not unknown is the padded label of its type, byte for byte.
pub message_type_from_command-found :
    (command : List ℕ)
    → message_type_from_command command ≢ missing_or_unknown
    → command ≡ command_from_message_type (message_type_from_command command)
unfolding message_type_from_command
message_type_from_command-found command h = find_command-found commands command h

-- For a type that is not the unknown one, message_type_from_command gives the type exactly for its
-- label padded to twelve bytes.
pub message_type_from_command_iff :
    (command : List ℕ) (type : MessageType)
    → type ≢ missing_or_unknown
    → (message_type_from_command command ≡ type) ↔ (command ≡ command_from_message_type type)
message_type_from_command_iff command type h = (
  λ e.
      message_type_from_command-found command (λ m. h (sym e ∙ m)) ∙ ap command_from_message_type e,
  λ e. ap message_type_from_command e ∙ message_type_from_command_lem type,
)

-- `RejectionCode`, in declaration order.
pub data RejectionCode : Type 0 where
  ok malformed invalid obsolete duplicate nonstandard dust insufficient_fee checkpoint :
      RejectionCode
  check_block_at_height_not_found side_chain_id_not_found insufficient_side_chain_funds :
      RejectionCode
  absurdly_high_fee has_conflicts no_coins_for_input invalid_proof : RejectionCode
  side_chain_cumulative_comm_tree active_cert_data_hash : RejectionCode
  too_many_csw_inputs_for_side_chain : RejectionCode

unfoldable pub rejection_value : RejectionCode → ℕ
rejection_value ok = 0x00
rejection_value malformed = 0x01
rejection_value invalid = 0x10
rejection_value obsolete = 0x11
rejection_value duplicate = 0x12
rejection_value nonstandard = 0x40
rejection_value dust = 0x41
rejection_value insufficient_fee = 0x42
rejection_value checkpoint = 0x43
rejection_value check_block_at_height_not_found = 0x44
rejection_value side_chain_id_not_found = 0x45
rejection_value insufficient_side_chain_funds = 0x46
rejection_value absurdly_high_fee = 0x47
rejection_value has_conflicts = 0x48
rejection_value no_coins_for_input = 0x49
rejection_value invalid_proof = 0x4a
rejection_value side_chain_cumulative_comm_tree = 0x4b
rejection_value active_cert_data_hash = 0x4c
rejection_value too_many_csw_inputs_for_side_chain = 0x4d

-- `magic_enum::enum_cast<RejectionCode>(code).has_value()`: whether some enumerator has the value.
unfoldable pub is_rejection_code : ℕ → Bool
is_rejection_code code =
    ltb code 2 || ((leb 0x10 code && leb code 0x12) || (leb 0x40 code && leb code 0x4d))

pub is_rejection_code_lem : (r : RejectionCode) → is_rejection_code (rejection_value r) ≡ true
unfolding is_rejection_code rejection_value
is_rejection_code_lem ok = refl
is_rejection_code_lem malformed = refl
is_rejection_code_lem _ = refl
