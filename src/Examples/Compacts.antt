-- ===== src/Examples/Compacts.antt =====
-- Compact sizes and strings on a short stream (src/core/serialization/serialize.hpp).
use znode.Common.{
  ℕ, ◌≡◌, ◌≤◌, ◌<◌, ◌^◌, ◌++◌, ◌&&◌, refl, arith, true, List, [], ◌∷◌, success, failure,
  if◌then◌else◌, ltb,
}
use znode.Common.Words.{u64_mod}
use znode.Errors.{ser, SerError}
use znode.Stream.Defs.{read}
use znode.Stream.Cursor.{IsValid}
use znode.Serialize.Defs.{
  SDataStream, network, write_compact, read_compact, max_serialized_compact_size,
  ser_compact_sizeof, le_bytes,
}
use znode.Serialize.Bind.{bind_int}
use znode.Serialize.Codec.{RoundTrips}
use znode.Serialize.Members.{bind_int-RoundTrips}
use znode.Serialize.Moves.{skip, put, pending}
use znode.Serialize.Compact.{compact_bytes, write_compact_lem, read_compact-compact_bytes}
use znode.Serialize.Canonical.{read_compact_canonical}
use znode.Serialize.Overflow.{Within, read_compact-Within}

abbrev stream_of : List ℕ → SDataStream
stream_of bytes = record {
  base = record { buffer = bytes; read_position = 0 };
  scope = network;
  version = 170002;
  computed_size = 0;
}

-- 300 behind the prefix 253, and one byte more.
abbrev wide : SDataStream
wide = stream_of (253 ∷ 44 ∷ 1 ∷ 7 ∷ [])

wide-IsValid : IsValid wide.base
wide-IsValid = record { within = omega arith; small = omega arith }

wide_bytes : pending wide ≡ compact_bytes 300 ++ 7 ∷ []
unfolding compact_bytes le_bytes
wide_bytes = refl

wide_read : read_compact true wide ≡ (success 300, skip wide 3)
unfolding read_compact read
wide_read = refl

read_compact_canonical_example :
    (pending wide ≡ compact_bytes 300 ++ pending (skip wide 3))
    × (300 < u64_mod)
    × ((true ≡ true) → 300 ≤ max_serialized_compact_size)
read_compact_canonical_example =
    read_compact_canonical wide true 300 (skip wide 3) wide-IsValid
      (omega arith, (omega arith, (omega arith, (omega arith, tt)))) wide_read

read_compact-compact_bytes_example : read_compact true wide ≡ (
  if true && ltb max_serialized_compact_size 300
      then failure (ser SerError.compact_size_too_big)
      else success 300,
  skip wide (ser_compact_sizeof 300),
)
read_compact-compact_bytes_example =
    read_compact-compact_bytes wide true 300 (7 ∷ []) (omega arith) wide-IsValid wide_bytes

write_compact_example :
    write_compact 70000 (stream_of []) ≡ (success tt, put (stream_of []) (compact_bytes 70000))
unfolding ser_compact_sizeof
write_compact_example = write_compact_lem (stream_of []) 70000 (omega arith) (omega arith)

-- The prefix wants two bytes and there is one.
abbrev cut : SDataStream
cut = stream_of (253 ∷ 44 ∷ [])

read_compact-Within_example : Within cut 9 (read_compact true cut)
read_compact-Within_example =
    read_compact-Within cut true (record { within = omega arith; small = omega arith })

bind_int-RoundTrips_example : RoundTrips (bind_int 4) (λ n. n < 256 ^ 4) (le_bytes 4) (λ n old. n)
bind_int-RoundTrips_example = bind_int-RoundTrips 4
