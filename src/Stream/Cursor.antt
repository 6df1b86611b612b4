-- ===== src/Stream/Cursor.antt =====
-- The part of a stream that is still to be read, and the well-formedness of the cursor.
use znode.Common.{
  ℕ, ◌+◌, ◌-◌, ◌<◌, ◌≤◌, ◌≡◌, ap, sym, ◌∙◌, arith, List, ◌++◌, length, take, drop, length-append,
  length-drop, drop-append, take-append, drop-drop, drop-append_le, take_all, some, none, success,
  failure,
}
use znode.Common.Words.{u64_mod}
use znode.Errors.{ser, SerError}
use znode.Stream.Defs.{DataStream, avail, read, write, max_stream_size}

-- What the stream's members rely on: the cursor is in the buffer, whose size is a `size_type`.
pub record IsValid (s : DataStream) : Type 0 where
  pub within : s.read_position ≤ length s.buffer
  pub small : length s.buffer < u64_mod

abbrev pub unread : DataStream → List ℕ
unread s = drop s.read_position s.buffer

-- The cursor moved by `n`, and bytes added behind the buffer.
abbrev pub advance : DataStream → ℕ → DataStream
advance s n = record s { read_position = s.read_position + n }

abbrev pub append : DataStream → List ℕ → DataStream
append s bytes = record s { buffer = s.buffer ++ bytes }

pub avail_lem : (s : DataStream) → IsValid s → avail s ≡ length (unread s)
unfolding avail
avail_lem s v = omega (arith, length-drop s.read_position s.buffer, v.within, v.small)

pub take-avail : (s : DataStream) → IsValid s → take (avail s) (unread s) ≡ unread s
take-avail s v = ap (λ n. take n (unread s)) (avail_lem s v) ∙ take_all _ (unread s) (omega arith)

pub length-unread : (s : DataStream) → length (unread s) ≡ length s.buffer - s.read_position
length-unread s = length-drop s.read_position s.buffer

pub unread-advance : (s : DataStream) (n : ℕ) → unread (advance s n) ≡ drop n (unread s)
unread-advance s n = sym (drop-drop s.read_position n s.buffer)

pub unread-append :
    (s : DataStream) (bytes : List ℕ) → IsValid s → unread (append s bytes) ≡ unread s ++ bytes
unread-append s bytes v = drop-append_le s.read_position s.buffer bytes v.within

pub advance-IsValid :
    (s : DataStream) (n : ℕ) → IsValid s → n ≤ length (unread s) → IsValid (advance s n)
advance-IsValid s n v h = record {
  within = omega (arith, length-unread s, v.within);
  small = v.small;
}

-- A read of as many bytes as the next chunk has returns it and leaves the rest.
pub read-chunk :
    (s : DataStream) (chunk rest : List ℕ)
    → IsValid s
    → unread s ≡ chunk ++ rest
    → read s (some (length chunk)) ≡ (success chunk, advance s (length chunk))
unfolding read
read-chunk s chunk rest v e = ground (
  arith,
  avail_lem s v,
  length-unread s,
  ap length e ∙ length-append chunk rest,
  ap (take (length chunk)) e ∙ take-append chunk rest,
)

-- It fails, and moves nothing, where fewer are left.
pub read-short :
    (s : DataStream) (n : ℕ)
    → IsValid s
    → length (unread s) < n
    → read s (some n) ≡ (failure (ser SerError.read_overflow), s)
unfolding read
read-short s n v h = ground (arith, avail_lem s v)

pub read-fits :
    (s : DataStream) (n : ℕ)
    → IsValid s
    → n ≤ length (unread s)
    → read s (some n) ≡ (success (take n (unread s)), advance s n)
unfolding read
read-fits s n v h = ground (arith, avail_lem s v, length-unread s)

pub read-all :
    (s : DataStream) → IsValid s → read s none ≡ (success (unread s), advance s (length (unread s)))
unfolding read
read-all s v = ground (
  arith,
  avail_lem s v,
  length-unread s,
  ap (λ n. take n (unread s)) (avail_lem s v),
  take_all (length (unread s)) (unread s),
)

pub after-chunk :
    (s : DataStream) (chunk rest : List ℕ)
    → unread s ≡ chunk ++ rest
    → unread (advance s (length chunk)) ≡ rest
after-chunk s chunk rest e =
    unread-advance s (length chunk) ∙ ap (drop (length chunk)) e ∙ drop-append chunk rest

pub write-fits :
    (s : DataStream) (bytes : List ℕ)
    → length s.buffer + length bytes ≤ max_stream_size
    → write s bytes ≡ (success tt, append s bytes)
unfolding write
write-fits s bytes h = ground arith

pub write-overflow :
    (s : DataStream) (bytes : List ℕ)
    → max_stream_size < length s.buffer + length bytes
    → length s.buffer + length bytes < u64_mod
    → write s bytes ≡ (failure (ser SerError.input_too_large), s)
unfolding write
write-overflow s bytes h k = ground arith
