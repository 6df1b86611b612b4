-- ===== src/Serialize/Compact.antt =====
-- `write_compact` and `read_compact` on the encoding of a number (src/core/serialization/serialize.hpp).
use znode.Common.{
  ℕ, ◌+◌, ◌<◌, ◌≤◌, ◌≡◌, refl, ap, ◌∙◌, arith, Bool, ◌&&◌, List, [], ◌∷◌, ◌++◌, length, success,
  failure, length-append, ltb, leb, if◌then◌else◌, dec_lt, lt→ltb, ltb-false, ◌⊎◌, inl, inr, ◌^◌,
  ◌%◌,
}
use znode.Common.Words.{u64_mod}
use znode.Errors.{ser, SerError}
use znode.Stream.Cursor.{IsValid}
use znode.Serialize.Defs.{
  SDataStream, le_bytes, ser_compact_sizeof, write_compact, read_compact, write_prefixed,
  read_at_least, read_tail, check_range, max_serialized_compact_size,
}
use znode.Serialize.LittleEndian.{length-le_bytes}
use znode.Serialize.Moves.{
  skip, put, pending, Fits, read_as-le_bytes, read_as-byte, skip-skip, write_le, put-put,
  after-of_length,
}

-- The encoding: one byte below 253, or a prefix and 2, 4 or 8 bytes.
unfoldable pub compact_bytes : ℕ → List ℕ
compact_bytes v =
    if ltb v 253
    then v ∷ []
    else if leb v 0xffff
    then 253 ∷ le_bytes 2 v
    else if leb v 0xffff_ffff
    then 254 ∷ le_bytes 4 v
    else 255 ∷ le_bytes 8 v

-- `ser_compact_sizeof` is the length of the encoding.
pub length-compact_bytes : (v : ℕ) → length (compact_bytes v) ≡ ser_compact_sizeof v
unfolding compact_bytes ser_compact_sizeof
length-compact_bytes v =
    ground (arith, length-le_bytes 2 v, length-le_bytes 4 v, length-le_bytes 8 v)

write_prefixed_lem :
    (s : SDataStream) (prefix count v : ℕ)
    → count ≤ 8
    → Fits s (count + 1)
    → write_prefixed prefix count v s ≡ (success tt, put s (prefix ∷ le_bytes count v))
unfolding write_prefixed
write_prefixed_lem s prefix count v h fits =
    write_le (put s (prefix ∷ [])) 8 count v h
      (omega (arith, length-append s.base.buffer (prefix ∷ [])))
    ∙ ap (λ t. (success tt, t)) (put-put s (prefix ∷ []) (le_bytes count v))

-- A value of two or more bytes behind a prefix.
record Wide (v prefix width least : ℕ) : Type 0 where
  above : least ≤ v
  below : v < 256 ^ width
  byte : prefix < 256
  width_le : width ≤ 8
  bytes : compact_bytes v ≡ prefix ∷ le_bytes width v
  sizeof : ser_compact_sizeof v ≡ width + 1
  tail : read_tail prefix ≡ read_at_least width least

Wide-cases :
    (v : ℕ)
    → v < u64_mod
    → (v < 253) ⊎ (Wide v 253 2 253 ⊎ (Wide v 254 4 0x1_0000 ⊎ Wide v 255 8 0x1_0000_0000))
unfolding compact_bytes ser_compact_sizeof read_tail
Wide-cases v h = elim (dec_lt v 253) [
  | yes small ↦ inl small
  | no n1 ↦ elim (dec_lt v 0x1_0000) [
    | yes two ↦ inr (
        inl (record {
          above = omega arith;
          below = omega arith;
          byte = omega arith;
          width_le = omega arith;
          bytes = ground arith;
          sizeof = ground arith;
          tail = refl;
        }))
    | no n2 ↦ elim (dec_lt v 0x1_0000_0000) [
      | yes four ↦ inr (
          inr (
            inl (record {
              above = omega arith;
              below = omega arith;
              byte = omega arith;
              width_le = omega arith;
              bytes = ground arith;
              sizeof = ground arith;
              tail = refl;
            })))
      | no n3 ↦ inr (
          inr (
            inr (record {
              above = omega arith;
              below = omega arith;
              byte = omega arith;
              width_le = omega arith;
              bytes = ground arith;
              sizeof = ground arith;
              tail = refl;
            })))
    ]
  ]
]

small_bytes : (v : ℕ) → v < 253 → (compact_bytes v ≡ v ∷ []) × (ser_compact_sizeof v ≡ 1)
unfolding compact_bytes ser_compact_sizeof
small_bytes v h = rw (lt→ltb v 253 h) (refl, refl)

-- Where the stream has room for it, write_compact of a 64-bit integer succeeds and appends the
-- encoding of that integer.
pub write_compact_lem :
    (s : SDataStream) (v : ℕ)
    → v < u64_mod
    → Fits s (ser_compact_sizeof v)
    → write_compact v s ≡ (success tt, put s (compact_bytes v))
unfolding write_compact
write_compact_lem s v h fits = elim (Wide-cases v h) [
  | inl small ↦
      let (bytes, sizeof) = small_bytes v small in
      let low : v % 256 ≡ v = omega arith in rw (sizeof, bytes, low)
  | inr (inl w) ↦
      rw (w.sizeof, w.bytes) (write_prefixed_lem s 253 2 v (omega arith) (omega (arith, w.sizeof)))
  | inr (inr (inl w)) ↦
      rw (w.sizeof, w.bytes) (write_prefixed_lem s 254 4 v (omega arith) (omega (arith, w.sizeof)))
  | inr (inr (inr w)) ↦
      rw (w.sizeof, w.bytes) (write_prefixed_lem s 255 8 v (omega arith) (omega (arith, w.sizeof)))
]

read_at_least_lem :
    (s : SDataStream) (width least v : ℕ) (rest : List ℕ)
    → least ≤ v
    → v < 256 ^ width
    → IsValid s.base
    → pending s ≡ le_bytes width v ++ rest
    → read_at_least width least s ≡ (success v, skip s width)
unfolding read_at_least
read_at_least_lem s width least v rest lo hi valid e =
    rw (read_as-le_bytes s width v rest hi valid e, ltb-false v least lo)

-- The prefix, then the rest of the encoding.
read-Wide :
    (s : SDataStream) (range_check : Bool) (v prefix width least : ℕ) (rest : List ℕ)
    → Wide v prefix width least
    → IsValid s.base
    → pending s ≡ compact_bytes v ++ rest
    → read_compact range_check s ≡ check_range range_check v (skip s (ser_compact_sizeof v))
unfolding read_compact
read-Wide s range_check v prefix width least rest w valid e =
    let e' : pending s ≡ prefix ∷ (le_bytes width v ++ rest) = e ∙ ap (λ t. t ++ rest) w.bytes in
    let (valid', after) =
      after-of_length s.base 1 (prefix ∷ []) (le_bytes width v ++ rest) refl valid e' in
    rw (
      read_as-byte s prefix (le_bytes width v ++ rest) w.byte valid e',
      w.tail,
      read_at_least_lem (skip s 1) width least v rest w.above w.below valid' after,
      skip-skip s 1 width (ser_compact_sizeof v) (omega (arith, w.sizeof)),
    )

read_small :
    (s : SDataStream) (range_check : Bool) (v : ℕ) (rest : List ℕ)
    → v < 253
    → IsValid s.base
    → pending s ≡ compact_bytes v ++ rest
    → read_compact range_check s ≡ check_range range_check v (skip s (ser_compact_sizeof v))
unfolding read_compact read_tail
read_small s range_check v rest small valid e =
    let (bytes, sizeof) = small_bytes v small in
    rw (
      read_as-byte s v rest (omega arith) valid (e ∙ ap (λ t. t ++ rest) bytes),
      lt→ltb v 253 small,
      sizeof,
    )

check_range-if :
    (range_check : Bool) (v : ℕ) (s : SDataStream)
    → check_range range_check v s ≡ (
      if range_check && ltb max_serialized_compact_size v
          then failure (ser SerError.compact_size_too_big)
          else success v,
      s,
    )
unfolding check_range
check_range-if range_check v s = ground arith

-- On a well-formed stream whose unread bytes start with the encoding of a 64-bit integer,
-- read_compact takes just that encoding and returns the integer, or refuses it as too big when the
-- range check is on and it is above the limit.
pub read_compact-compact_bytes :
    (s : SDataStream) (range_check : Bool) (v : ℕ) (rest : List ℕ)
    → v < u64_mod
    → IsValid s.base
    → pending s ≡ compact_bytes v ++ rest
    → read_compact range_check s ≡ (
      if range_check && ltb max_serialized_compact_size v
          then failure (ser SerError.compact_size_too_big)
          else success v,
      skip s (ser_compact_sizeof v),
    )
read_compact-compact_bytes s range_check v rest h valid e =
    elim (Wide-cases v h) [
      | inl small ↦ read_small s range_check v rest small valid e
      | inr (inl w) ↦ read-Wide s range_check v 253 2 253 rest w valid e
      | inr (inr (inl w)) ↦ read-Wide s range_check v 254 4 0x1_0000 rest w valid e
      | inr (inr (inr w)) ↦ read-Wide s range_check v 255 8 0x1_0000_0000 rest w valid e
    ]
    ∙ check_range-if range_check v (skip s (ser_compact_sizeof v))
