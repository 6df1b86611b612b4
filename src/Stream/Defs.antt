-- ===== src/Stream/Defs.antt =====
-- `ser::DataStream` of src/core/serialization/stream.hpp and stream.cpp: a byte buffer with a read
-- position. A byte is a number below 256, an iterator is its distance from the buffer's first byte,
-- and `size_type` sums and differences wrap at 2^64.
use znode.Common.{
  ℕ, ◌+◌, ◌-◌, min, Bool, true, false, ◌&&◌, ◌||◌, if◌then◌else◌, ltb, leb, ◌==◌, List, [], ◌∷◌,
  ◌++◌, length, take, drop, replicate, Option, none, some, Outcome, success, failure,
}
use znode.Common.Words.{add64, sub64, u64_mod}
use znode.Errors.{SerError, ErrorCode, ser}

-- 512_MiB.
abbrev pub max_stream_size : ℕ
max_stream_size = 0x2000_0000

pub record DataStream : Type 0 where
  pub buffer : List ℕ
  pub read_position : ℕ

abbrev pub Status : Type 0
Status = Outcome ErrorCode (Unit {0})

-- `DataStream(ByteView)` and `DataStream(std::span)`.
unfoldable pub of_view : List ℕ → DataStream
of_view bytes = record { buffer = bytes; read_position = 0 }

unfoldable pub size : DataStream → ℕ
size s = length s.buffer

unfoldable pub is_empty : DataStream → Bool
is_empty s = elim s.buffer [ [] ↦ true | _ ↦ false ]

unfoldable pub avail : DataStream → ℕ
unfolding size
avail s = sub64 (size s) s.read_position

unfoldable pub eof : DataStream → Bool
unfolding size
eof s = leb (size s) s.read_position

unfoldable pub tellg : DataStream → ℕ
tellg s = s.read_position

-- Capacity is no part of the state, so only the guard is left.
unfoldable pub reserve : ℕ → Status
reserve count =
    if ltb max_stream_size count then failure (ser SerError.input_too_large) else success tt

-- `basic_string::resize` cuts the string or pads it with `item`.
unfoldable pub resize_bytes : List ℕ → ℕ → ℕ → List ℕ
resize_bytes bytes new_size item = take new_size bytes ++ replicate (new_size - length bytes) item

unfoldable pub resize : DataStream → ℕ → ℕ → Status × DataStream
unfolding resize_bytes
resize s new_size item =
    if ltb max_stream_size new_size
    then (failure (ser SerError.input_too_large), s)
    else (success tt, record s { buffer = resize_bytes s.buffer new_size item })

unfoldable pub write : DataStream → List ℕ → Status × DataStream
unfolding size
write s bytes =
    if ltb max_stream_size (add64 (size s) (length bytes))
    then (failure (ser SerError.input_too_large), s)
    else (success tt, record s { buffer = s.buffer ++ bytes })

-- `write(ptr, count)`.
unfoldable pub write_count : DataStream → List ℕ → ℕ → Status × DataStream
unfolding write
write_count s bytes count = write s (take count bytes)

unfoldable pub push_back : DataStream → ℕ → DataStream
push_back s byte = record s { buffer = s.buffer ++ byte ∷ [] }

unfoldable pub rewind : DataStream → Option ℕ → DataStream
rewind s none = record s { read_position = 0 }
rewind s (some count) =
    if leb count s.read_position then record s { read_position = s.read_position - count } else s

-- `basic_string::insert` before an iterator.
unfoldable pub insert : DataStream → ℕ → ℕ → DataStream
insert s where_at item = record s {
  buffer = take where_at s.buffer ++ item ∷ drop where_at s.buffer;
}

-- `basic_string::erase(pos, count)`.
abbrev pub erase_bytes : List ℕ → ℕ → ℕ → List ℕ
erase_bytes bytes pos count = take pos bytes ++ drop (pos + count) bytes

-- `erase(iterator)`: the buffer's end is left alone.
unfoldable pub erase_at : DataStream → ℕ → DataStream
unfolding size
erase_at s where_at =
    if where_at == size s
    then s
    else let rest = erase_bytes s.buffer where_at 1 in
      let moved =
        if ltb 0 s.read_position && ltb where_at s.read_position
        then s.read_position - 1
        else s.read_position in
      record { buffer = rest; read_position = min moved (length rest) }

-- `erase(pos, count)`; no count stands for the largest `size_type`.
abbrev pub count_or_max : Option ℕ → ℕ
count_or_max none = u64_mod - 1
count_or_max (some count) = count

unfoldable pub erase : DataStream → ℕ → Option ℕ → DataStream
unfolding size
erase s pos count =
    if (count_or_max count == 0) || leb (size s) pos
    then s
    else let erased = min (count_or_max count) (size s - pos) in
      let moved =
        if ltb 0 s.read_position && ltb pos s.read_position
        then s.read_position - min (s.read_position - pos) erased
        else s.read_position in
      record { buffer = erase_bytes s.buffer pos erased; read_position = moved }

-- The view of the next `count` bytes, or of all that are left.
abbrev pub requested : DataStream → Option ℕ → ℕ
unfolding avail
requested s none = avail s
requested s (some count) = count

unfoldable pub read : DataStream → Option ℕ → Outcome ErrorCode (List ℕ) × DataStream
unfolding avail
read s count =
    if ltb (avail s) (requested s count) then (failure (ser SerError.read_overflow), s) else (
      success (take (requested s count) (drop s.read_position s.buffer)),
      record s { read_position = add64 s.read_position (requested s count) },
    )

unfoldable pub ignore : DataStream → ℕ → DataStream
unfolding avail
ignore s count = record s { read_position = add64 s.read_position (min count (avail s)) }

unfoldable pub seekg : DataStream → ℕ → ℕ × DataStream
unfolding size
seekg s position = (min position (size s), record s { read_position = min position (size s) })

unfoldable pub consume : DataStream → Option ℕ → DataStream
consume s pos =
    let count = min s.read_position (count_or_max pos) in
    record { buffer = drop count s.buffer; read_position = s.read_position - count }

unfoldable pub clear : DataStream → DataStream
clear s = record { buffer = []; read_position = 0 }

-- Writes what is unread behind `dst`; on failure both streams stay as they were.
unfoldable pub get_clear : DataStream → DataStream → Status × DataStream × DataStream
unfolding write clear avail
get_clear s dst =
    let (written, dst') = write dst (take (avail s) (drop s.read_position s.buffer)) in
    elim written [ success u ↦ (success tt, clear s, dst') | failure e ↦ (failure e, s, dst') ]
