-- ===== src/Serialize/Defs.antt =====
-- src/core/serialization/serialize.hpp over `SDataStream`. An integer of w bytes is its bit pattern,
-- a number below 256 ^ w; the host is little-endian, as the source's `bit_cast` and `memcpy` take it.
use znode.Common.{
  ℕ, zero, suc, ◌+◌, ◌*◌, ◌/◌, ◌%◌, Bool, ◌&&◌, if◌then◌else◌, ltb, leb, ◌==◌, List, [], ◌∷◌, some,
  Outcome, success, failure,
}
use znode.Errors.{SerError, ErrorCode, ser}
use znode.Stream.Defs.{DataStream, of_view, write_count, push_back, read, clear}

-- `ser::Scope` and `ser::Action`.
pub data Scope : Type 0 where
  network storage hash : Scope

pub data Action : Type 0 where
  compute_size serialize deserialize : Action

pub record SDataStream : Type 0 where
  pub base : DataStream
  pub scope : Scope
  pub version : ℕ
  pub computed_size : ℕ

unfoldable pub empty_stream : Scope → ℕ → SDataStream
unfolding of_view
empty_stream scope version = record {
  base = of_view [];
  scope = scope;
  version = version;
  computed_size = 0;
}

unfoldable pub set_version : SDataStream → ℕ → SDataStream
set_version s version = record s { version = version }

unfoldable pub clear_all : SDataStream → SDataStream
unfolding clear
clear_all s = record s { base = clear s.base; computed_size = 0 }

-- A member or a template over the stream: an outcome, and the stream that it leaves.
abbrev pub M : Type 0 → Type 0
M A = SDataStream → Outcome ErrorCode A × SDataStream

abbrev pub chain : {A B : Type 0} → Outcome ErrorCode A → (A → M B) → M B
chain (success a) f s = f a s
chain (failure e) f s = (failure e, s)

infixl 5 ◌>>=◌
abbrev pub ◌>>=◌ : {A B : Type 0} → M A → (A → M B) → M B
◌>>=◌ m f s = chain (m s).0 f (m s).1

abbrev pub pure : {A : Type 0} → A → M A
pure a s = (success a, s)

abbrev pub fail : {A : Type 0} → ErrorCode → M A
fail e s = (failure e, s)

abbrev pub on_base : {A : Type 0} → (DataStream → Outcome ErrorCode A × DataStream) → M A
on_base f s = ((f s.base).0, record s { base = (f s.base).1 })

-- The first w bytes of a number, lowest first, and the number of a string of bytes.
unfoldable pub le_bytes : ℕ → ℕ → List ℕ
le_bytes zero n = []
le_bytes (suc w) n = n % 256 ∷ le_bytes w (n / 256)

unfoldable pub le_value : List ℕ → ℕ
le_value [] = 0
le_value (b ∷ bs) = b + 256 * le_value bs

-- `write_data` of an integer of `width` bytes, and of a bool.
unfoldable pub write_data : ℕ → ℕ → M (Unit {0})
unfolding le_bytes write_count
write_data width obj = on_base (λ s. write_count s (le_bytes width obj) width)

unfoldable pub write_bool : Bool → M (Unit {0})
unfolding push_back
write_bool obj s = (success tt, record s { base = push_back s.base (if obj then 1 else 0) })

-- `read_data` and `read_as`.
unfoldable pub read_as : ℕ → M ℕ
unfolding le_value
read_as width = do bytes ← on_base (λ s. read s (some width)); pure (le_value bytes)

-- The first byte of a view, whose data the source reads.
abbrev first_byte : List ℕ → ℕ
first_byte [] = 0
first_byte (b ∷ bs) = b

unfoldable pub read_bool : M Bool
read_bool = do bytes ← on_base (λ s. read s (some 1)); pure (first_byte bytes == 1)

abbrev pub max_serialized_compact_size : ℕ
max_serialized_compact_size = 0x0200_0000

unfoldable pub ser_compact_sizeof : ℕ → ℕ
ser_compact_sizeof value =
    if ltb value 253
    then 1
    else if leb value 0xffff
    then 3
    else if leb value 0xffff_ffff
    then 5
    else 9

unfoldable pub push_byte : ℕ → M (Unit {0})
unfolding push_back
push_byte byte s = (success tt, record s { base = push_back s.base byte })

-- A prefix, and the low `count` bytes of the value. The prefix stays where the write fails.
unfoldable pub write_prefixed : ℕ → ℕ → ℕ → M (Unit {0})
unfolding le_bytes push_byte write_count
write_prefixed prefix count obj = do
  u ← push_byte prefix
  on_base (λ s. write_count s (le_bytes 8 obj) count)

unfoldable pub write_compact : ℕ → M (Unit {0})
unfolding ser_compact_sizeof write_prefixed push_byte
write_compact obj =
    let size = ser_compact_sizeof obj in
    if size == 1
    then push_byte (obj % 256)
    else if size == 3
    then write_prefixed 253 2 obj
    else if size == 5
    then write_prefixed 254 4 obj
    else write_prefixed 255 8 obj

-- An integer of `width` bytes that must not be below `least`.
unfoldable pub read_at_least : ℕ → ℕ → M ℕ
unfolding read_as
read_at_least width least = do
  value ← read_as width
  if ltb value least then fail (ser SerError.non_canonical_compact_size) else pure value

unfoldable pub read_tail : ℕ → M ℕ
unfolding read_at_least
read_tail prefix =
    if ltb prefix 253
    then pure prefix
    else if prefix == 253
    then read_at_least 2 253
    else if prefix == 254
    then read_at_least 4 0x1_0000
    else if prefix == 255
    then read_at_least 8 0x1_0000_0000
    else pure 0

unfoldable pub check_range : Bool → ℕ → M ℕ
check_range range_check value =
    if range_check && ltb max_serialized_compact_size value
    then fail (ser SerError.compact_size_too_big)
    else pure value

unfoldable pub read_compact : Bool → M ℕ
unfolding read_as read_tail check_range
read_compact range_check = do
  prefix ← read_as 1
  value ← read_tail prefix
  check_range range_check value
