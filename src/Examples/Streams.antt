-- ===== src/Examples/Streams.antt =====
-- Uses of a short stream (src/core/serialization/stream.cpp).
use znode.Common.{
  ◌≡◌, ◌≤◌, ◌↔◌, ◌-◌, ◌+◌, ◌++◌, refl, arith, List, [], ◌∷◌, length, take, drop, some, none,
  success, failure, if◌then◌else◌, leb,
}
use znode.Errors.{ser, SerError}
use znode.Stream.Defs.{
  DataStream, erase, get_clear, resize, clear, write, read, ignore, consume, count_or_max,
  max_stream_size,
}
use znode.Stream.Cursor.{IsValid, unread, append}
use znode.Stream.View.{
  Use, puts, gets, gets_all, skips, compacts, replies, queue_replies, replies-queue,
}
use znode.Stream.Valid.{Call, writes, reads, erases, consumes, run, run-IsValid, resize-IsValid}
use znode.Stream.Erase.{unread-erase, get_clear_lem}

-- Two bytes are read, three are not.
abbrev half_read : DataStream
half_read = record { buffer = 1 ∷ 2 ∷ 3 ∷ 4 ∷ 5 ∷ []; read_position = 2 }

half_read-IsValid : IsValid half_read
half_read-IsValid = record { within = omega arith; small = omega arith }

abbrev uses : List Use
uses = puts (6 ∷ 7 ∷ []) ∷ gets 2 ∷ compacts none ∷ skips 1 ∷ gets 9 ∷ gets_all ∷ []

replies-queue_example : replies half_read uses ≡ queue_replies (unread half_read) uses
replies-queue_example = replies-queue half_read uses half_read-IsValid (omega arith)

-- The same replies, written out.
replies_test : replies half_read uses ≡ (
  success []
      ∷ success (3 ∷ 4 ∷ [])
      ∷ success []
      ∷ success []
      ∷ failure (ser SerError.read_overflow)
      ∷ success (6 ∷ 7 ∷ [])
      ∷ [],
  [],
)
unfolding replies write read ignore consume
replies_test = refl

abbrev calls : List Call
calls = writes (6 ∷ []) ∷ reads (some 2) ∷ erases 1 (some 2) ∷ consumes none ∷ []

run-IsValid_example : IsValid (run half_read calls)
run-IsValid_example = run-IsValid half_read calls half_read-IsValid (omega arith)

resize-IsValid_example : IsValid (resize half_read 1 0).1 ↔ (2 ≤ 1)
resize-IsValid_example = resize-IsValid half_read 1 0 half_read-IsValid (omega arith)

unread-erase_example :
    unread (erase half_read 1 (some 3))
    ≡ take (1 - 2) (unread half_read) ++ drop (1 + count_or_max (some 3) - 2) (unread half_read)
unread-erase_example = unread-erase half_read 1 (some 3) half_read-IsValid

abbrev other_stream : DataStream
other_stream = record { buffer = 9 ∷ []; read_position = 0 }

get_clear_example : get_clear half_read other_stream ≡ (
    if leb (length other_stream.buffer + length (unread half_read)) max_stream_size
    then (success tt, clear half_read, append other_stream (unread half_read))
    else (failure (ser SerError.input_too_large), half_read, other_stream))
get_clear_example = get_clear_lem half_read other_stream half_read-IsValid (omega arith)
