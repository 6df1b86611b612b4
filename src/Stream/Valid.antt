-- ===== src/Stream/Valid.antt =====
-- The well-formedness of a `DataStream` under its members (src/core/serialization/stream.cpp).
use znode.Common.{
  ℕ, ◌+◌, ◌-◌, ◌<◌, ◌≤◌, ◌≡◌, arith, List, [], ◌∷◌, ◌++◌, length, take, drop, length-append,
  length-take, length-drop, Option, some, none, min, ◌↔◌, replicate, length-replicate,
}
use znode.Common.Words.{u64_mod}
use znode.Stream.Defs.{
  DataStream, read, write, max_stream_size, rewind, insert, erase_at, erase, push_back, ignore,
  seekg, consume, clear, resize, resize_bytes, erase_bytes, count_or_max,
}
use znode.Stream.Cursor.{IsValid}

-- The calls that change a stream. `resize` is not among them: see `resize-IsValid`.
pub data Call : Type 0 where
  writes : List ℕ → Call
  pushes : ℕ → Call
  rewinds : Option ℕ → Call
  inserts : ℕ → ℕ → Call
  erases_at : ℕ → Call
  erases : ℕ → Option ℕ → Call
  reads : Option ℕ → Call
  ignores : ℕ → Call
  seeks : ℕ → Call
  consumes : Option ℕ → Call
  clears : Call

unfoldable pub step : DataStream → Call → DataStream
step s (writes bytes) = (write s bytes).1
step s (pushes byte) = push_back s byte
step s (rewinds count) = rewind s count
step s (inserts where_at item) = insert s where_at item
step s (erases_at where_at) = erase_at s where_at
step s (erases pos count) = erase s pos count
step s (reads count) = (read s count).1
step s (ignores count) = ignore s count
step s (seeks position) = (seekg s position).1
step s (consumes pos) = consume s pos
step s clears = clear s

unfoldable pub run : DataStream → List Call → DataStream
unfolding step
run s [] = s
run s (c ∷ cs) = run (step s c) cs

-- What a call may add to the buffer.
abbrev pub growth : Call → ℕ
growth (writes bytes) = length bytes
growth (pushes byte) = 1
growth (inserts where_at item) = 1
growth other = 0

abbrev pub total_growth : List Call → ℕ
total_growth [] = 0
total_growth (c ∷ cs) = growth c + total_growth cs

length-insert :
    (n item : ℕ) (bytes : List ℕ) → length (take n bytes ++ item ∷ drop n bytes) ≡ length bytes + 1
length-insert n item bytes = omega (
  arith,
  length-append (take n bytes) (item ∷ drop n bytes),
  length-take n bytes,
  length-drop n bytes,
)

length-erase_bytes :
    (bytes : List ℕ) (pos count : ℕ)
    → pos + count ≤ length bytes
    → length (erase_bytes bytes pos count) + count ≡ length bytes
length-erase_bytes bytes pos count h = omega (
  arith,
  length-append (take pos bytes) (drop (pos + count) bytes),
  length-take pos bytes,
  length-drop (pos + count) bytes,
)

abbrev Kept : DataStream → Call → Type 0
Kept s c =
    ((step s c).read_position ≤ length (step s c).buffer)
    × (length (step s c).buffer ≤ length s.buffer + growth c)

erase-Kept : (s : DataStream) (pos : ℕ) (count : Option ℕ) → IsValid s → Kept s (erases pos count)
unfolding step erase
erase-Kept s pos count v =
    ground
      (arith, length-erase_bytes s.buffer pos (min (count_or_max count) (length s.buffer - pos)))

erase_at-Kept : (s : DataStream) (where_at : ℕ) → IsValid s → Kept s (erases_at where_at)
unfolding step erase_at
erase_at-Kept s where_at v = ground (
  arith,
  length-append (take where_at s.buffer) (drop (where_at + 1) s.buffer),
  length-take where_at s.buffer,
  length-drop (where_at + 1) s.buffer,
)

step-Kept : (s : DataStream) (c : Call) → IsValid s → Kept s c
unfolding step write push_back rewind insert read ignore seekg consume clear
step-Kept s (writes bytes) v = ground (arith, length-append s.buffer bytes)
step-Kept s (pushes byte) v = ground (arith, length-append s.buffer (byte ∷ []))
step-Kept s (rewinds count) v = ground arith
step-Kept s (inserts where_at item) v = ground (arith, length-insert where_at item s.buffer)
step-Kept s (erases_at where_at) v = erase_at-Kept s where_at v
step-Kept s (erases pos count) v = erase-Kept s pos count v
step-Kept s (reads none) v = ground arith
step-Kept s (reads (some n)) v = ground arith
step-Kept s (ignores count) v = ground arith
step-Kept s (seeks position) v = ground arith
step-Kept s (consumes pos) v =
    ground (arith, length-drop (min s.read_position (count_or_max pos)) s.buffer)
step-Kept s clears v = ground arith

pub step-IsValid :
    (s : DataStream) (c : Call)
    → IsValid s
    → length s.buffer + growth c < u64_mod
    → IsValid (step s c)
step-IsValid s c v h =
    let (within, grown) = step-Kept s c v in record { within = within; small = omega arith }

-- Any sequence of calls of the changing members of DataStream but resize keeps a well-formed
-- stream well formed, with the cursor in the buffer, while the sizes fit in 64 bits.
pub run-IsValid :
    (s : DataStream) (cs : List Call)
    → IsValid s
    → length s.buffer + total_growth cs < u64_mod
    → IsValid (run s cs)
unfolding run
run-IsValid s [] v h = v
run-IsValid s (c ∷ cs) v h =
    run-IsValid (step s c) cs (step-IsValid s c v (omega arith))
      (omega (arith, (step-Kept s c v).1))

length-resize_bytes :
    (bytes : List ℕ) (new_size item : ℕ) → length (resize_bytes bytes new_size item) ≡ new_size
unfolding resize_bytes
length-resize_bytes bytes new_size item = omega (
  arith,
  length-append (take new_size bytes) (replicate (new_size - length bytes) item),
  length-take new_size bytes,
  length-replicate (new_size - length bytes) item,
)

-- On a well-formed stream and for a size within the limit, resize leaves a well-formed stream
-- exactly when the new size is not below the cursor.
pub resize-IsValid :
    (s : DataStream) (new_size item : ℕ)
    → IsValid s
    → new_size ≤ max_stream_size
    → IsValid (resize s new_size item).1 ↔ (s.read_position ≤ new_size)
unfolding resize
resize-IsValid s new_size item v h =
    let sized = length-resize_bytes s.buffer new_size item in
    (
      λ (w : IsValid (resize s new_size item).1). ground (arith, sized, w.within),
      λ within. record { within = ground (arith, sized); small = ground (arith, sized) },
    )
