-- ===== src/Network/Payloads/GetHeaders.antt =====
-- `MsgGetHeadersPayload::serialization` (src/infra/network/payloads.cpp).
use znode.Common.{
  ℕ, ◌^◌, ◌<◌, ◌≤◌, ◌≡◌, refl, ◌∙◌, arith, List, ◌++◌, length, length-append, append_assoc, All,
  success, failure,
}
use znode.Errors.{net, NetError}
use znode.Stream.Cursor.{IsValid}
use znode.Stream.Defs.{Status}
use znode.Serialize.Defs.{SDataStream, Action, serialize, deserialize, le_bytes}
use znode.Serialize.Bind.{Bind, bind_int, and_then, into}
use znode.Serialize.Members.{bind_int-RoundTrips}
use znode.Serialize.Vector.{
  write_vector, read_vector, encode_vector, write_vector_lem, read_vector_lem,
  read_vector_oversized,
}
use znode.Serialize.Moves.{skip, put, pending, Fits, put-put, skip-skip, after-of_length}
use znode.Types.Inventory.{bind_hash, bind_hash-RoundTrips, zero_hash, hash_size}

abbrev pub max_get_headers_items : ℕ
max_get_headers_items = 2000

abbrev pub max_headers_items : ℕ
max_headers_items = 160

pub record GetHeaders : Type 0 where
  pub protocol_version : ℕ
  pub block_locator_hashes : List (List ℕ)
  pub hash_stop : List ℕ

-- The version that is bound: the stream's when writing.
version_to_bind : Action → SDataStream → ℕ
version_to_bind serialize s = s.version
version_to_bind other s = 0

-- The hashes, then the stop hash. Reading goes up to `kMaxHeadersItems`.
bind_hashes : GetHeaders → Action → SDataStream → Status × GetHeaders × SDataStream
bind_hashes p serialize s =
    into (λ hashes. record p { block_locator_hashes = hashes })
      (write_vector max_get_headers_items bind_hash p.block_locator_hashes s)
bind_hashes p other s =
    into (λ hashes. record p { block_locator_hashes = hashes })
      (read_vector max_headers_items bind_hash zero_hash p.block_locator_hashes s)

stop_action : Action → Action
stop_action serialize = serialize
stop_action other = deserialize

bind_stop : Action → GetHeaders → SDataStream → Status × GetHeaders × SDataStream
unfolding stop_action
bind_stop action p s =
    into (λ stop. record p { hash_stop = stop }) (bind_hash p.hash_stop (stop_action action) s)

unfoldable pub bind_get_headers : Bind GetHeaders
unfolding version_to_bind bind_hashes bind_stop
bind_get_headers p action s =
    and_then
      (and_then
        (into (λ version. record p { protocol_version = version })
          (bind_int 4 (version_to_bind action s) action s))
        (λ p' s'. bind_hashes p' action s'))
      (bind_stop action)

-- The wire form, for a stream of version `version`.
unfoldable pub get_headers_bytes : ℕ → GetHeaders → List ℕ
get_headers_bytes version p =
    le_bytes 4 version ++ (encode_vector (λ hash. hash) p.block_locator_hashes ++ p.hash_stop)

abbrev pub HashesOk : GetHeaders → ℕ → Type 0
HashesOk p limit =
    (1 ≤ length p.block_locator_hashes)
    × (length p.block_locator_hashes ≤ limit)
    × All (λ hash. length hash ≡ hash_size) p.block_locator_hashes
    × (length p.hash_stop ≡ hash_size)

-- With 1 to 2000 hashes of 32 bytes, a version of four bytes and enough room, serializing appends
-- the version of the stream, the hashes behind their count and the stop hash, and leaves that
-- version in the payload.
pub bind_get_headers-writes :
    (p : GetHeaders) (s : SDataStream)
    → HashesOk p max_get_headers_items
    → s.version < 256 ^ 4
    → Fits s (length (get_headers_bytes s.version p))
    → bind_get_headers p serialize s ≡ (
      success tt,
      record p { protocol_version = s.version },
      put s (get_headers_bytes s.version p),
    )
unfolding bind_get_headers get_headers_bytes
bind_get_headers-writes p s (lo, hi, hashes, stop) small fits =
    let vs = le_bytes 4 s.version in
    let hs = encode_vector (λ hash. hash) p.block_locator_hashes in
    let n1 = length-append vs (hs ++ p.hash_stop) in
    let n2 = length-append hs p.hash_stop in
    let n3 = length-append s.base.buffer vs in
    rw (
      (bind_int-RoundTrips 4).writes s.version s small (omega (arith, n1)),
      write_vector_lem bind_hash-RoundTrips max_get_headers_items p.block_locator_hashes (put s vs)
          lo hi (omega arith) hashes (omega (arith, n1, n2, n3)),
      bind_hash-RoundTrips.writes p.hash_stop (put (put s vs) hs) stop
          (omega (arith, n1, n2, n3, length-append (s.base.buffer ++ vs) hs)),
      put-put (put s vs) hs p.hash_stop,
      put-put s vs (hs ++ p.hash_stop),
    )

-- From a well-formed stream that starts with the wire form of a payload of 1 to 160 hashes of 32
-- bytes, deserializing takes just these bytes and gives the payload with the version on the wire.
pub bind_get_headers-reads :
    (p old : GetHeaders) (version : ℕ) (s : SDataStream) (rest : List ℕ)
    → HashesOk p max_headers_items
    → version < 256 ^ 4
    → IsValid s.base
    → pending s ≡ get_headers_bytes version p ++ rest
    → bind_get_headers old deserialize s ≡ (
      success tt,
      record p { protocol_version = version },
      skip s (length (get_headers_bytes version p)),
    )
unfolding bind_get_headers get_headers_bytes
bind_get_headers-reads p old version s rest (lo, hi, hashes, stop) small v e =
    let vs = le_bytes 4 version in
    let hs = encode_vector (λ hash. hash) p.block_locator_hashes in
    let e1 = e ∙ append_assoc vs (hs ++ p.hash_stop) rest in
    let (v1, after1) = after-of_length s.base _ vs ((hs ++ p.hash_stop) ++ rest) refl v e1 in
    let e2 = after1 ∙ append_assoc hs p.hash_stop rest in
    let (v2, after2) =
      after-of_length (skip s (length vs)).base _ hs (p.hash_stop ++ rest) refl v1 e2 in
    rw (
      (bind_int-RoundTrips 4).reads version 0 s ((hs ++ p.hash_stop) ++ rest) small v e1,
      read_vector_lem bind_hash-RoundTrips max_headers_items zero_hash p.block_locator_hashes
          old.block_locator_hashes (skip s (length vs)) (p.hash_stop ++ rest) lo hi (omega arith)
          hashes v1 e2,
      bind_hash-RoundTrips.reads p.hash_stop old.hash_stop (skip (skip s (length vs)) (length hs))
          rest stop v2 after2,
      skip-skip (skip s (length vs)) (length hs) (length p.hash_stop) (length (hs ++ p.hash_stop))
          (omega (arith, length-append hs p.hash_stop)),
      skip-skip s (length vs) (length (hs ++ p.hash_stop)) (length (vs ++ (hs ++ p.hash_stop)))
          (omega (arith, length-append vs (hs ++ p.hash_stop))),
    )

-- The wire form of a payload of 161 to 2000 hashes, which the writer allows, is refused as
-- oversized on deserializing from a well-formed stream.
pub bind_get_headers-refuses :
    (p old : GetHeaders) (version : ℕ) (s : SDataStream) (rest : List ℕ)
    → max_headers_items < length p.block_locator_hashes
    → length p.block_locator_hashes ≤ max_get_headers_items
    → version < 256 ^ 4
    → IsValid s.base
    → pending s ≡ get_headers_bytes version p ++ rest
    → (bind_get_headers old deserialize s).0
      ≡ failure (net NetError.message_payload_oversized_vector)
unfolding bind_get_headers get_headers_bytes
bind_get_headers-refuses p old version s rest lo hi small v e =
    let vs = le_bytes 4 version in
    let hs = encode_vector (λ hash. hash) p.block_locator_hashes in
    let e1 = e ∙ append_assoc vs (hs ++ p.hash_stop) rest in
    let (v1, after1) = after-of_length s.base _ vs ((hs ++ p.hash_stop) ++ rest) refl v e1 in
    rw (
      (bind_int-RoundTrips 4).reads version 0 s ((hs ++ p.hash_stop) ++ rest) small v e1,
      read_vector_oversized bind_hash (λ hash. hash) max_headers_items zero_hash
          p.block_locator_hashes old.block_locator_hashes (skip s (length vs)) (p.hash_stop ++ rest)
          lo (omega arith) v1 (after1 ∙ append_assoc hs p.hash_stop rest),
    )
