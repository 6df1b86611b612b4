-- ===== src/Stream/Erase.antt =====
-- `erase`, `consume` and `get_clear` seen through what is still to be read.
use mathlib.Core.Path.{ap₂}
use znode.Common.{
  lt→ltb, ℕ_discrete, ◌⊎◌, inl, inr, take-append-drop, ltb-false, ℕ, ◌+◌, ◌-◌, ◌<◌, ◌≤◌, ◌≡◌, ap,
  sym, ◌∙◌, arith, List, ◌++◌, length, take, drop, length-append, length-take, length-drop,
  drop-drop, drop-append_any, drop-take, drop_all, Option, some, success, failure, min, leb, ltb,
  if◌then◌else◌, dec_lt, take_all, append-nil,
}
use znode.Common.Words.{u64_mod}
use znode.Errors.{ser, SerError}
use znode.Stream.Defs.{
  DataStream, max_stream_size, erase, erase_at, erase_bytes, count_or_max, clear, get_clear,
}
use znode.Stream.Cursor.{IsValid, unread, append, take-avail, length-unread}

-- The cursor after `c` bytes at `p` are erased.
cursor_after : ℕ → ℕ → ℕ → ℕ
cursor_after r p c = if ltb p r then r - min (r - p) c else r

kept_before :
    (r p c : ℕ) (bytes : List ℕ)
    → take (p - cursor_after r p c) (drop (cursor_after r p c) bytes) ≡ take (p - r) (drop r bytes)
unfolding cursor_after
kept_before r p c bytes = elim (dec_lt p r) [
  | yes h ↦ rw (lt→ltb p r h) (
      let e : p - (r - min (r - p) c) ≡ 0 = omega arith in
      let e' : p - r ≡ 0 = omega arith in rw (e, e'))
  | no h ↦ rw (ltb-false p r (omega arith))
]

cursor_sum : (r p c : ℕ) → p + c + (cursor_after r p c - p) ≡ r + (p + c - r)
unfolding cursor_after
cursor_sum r p c = ground arith

drop-erase_bytes_at :
    (q p c : ℕ) (bytes : List ℕ)
    → p + c ≤ length bytes
    → drop q (erase_bytes bytes p c) ≡ take (p - q) (drop q bytes) ++ drop (p + c + (q - p)) bytes
drop-erase_bytes_at q p c bytes h =
    let e : length (take p bytes) ≡ p = omega (arith, length-take p bytes) in
    drop-append_any q (take p bytes) (drop (p + c) bytes)
    ∙ ap₂ ◌++◌ (drop-take q p bytes)
        (drop-drop (p + c) _ bytes ∙ ap (λ n. drop (p + c + (q - n)) bytes) e)

-- Of what is still to be read, the erased bytes go and the others stay in order.
drop-erase_bytes :
    (r p c : ℕ) (bytes : List ℕ)
    → p + c ≤ length bytes
    → drop (cursor_after r p c) (erase_bytes bytes p c)
      ≡ take (p - r) (drop r bytes) ++ drop (p + c - r) (drop r bytes)
drop-erase_bytes r p c bytes h =
    drop-erase_bytes_at (cursor_after r p c) p c bytes h
    ∙ ap₂ ◌++◌ (kept_before r p c bytes)
        (ap (λ n. drop n bytes) (cursor_sum r p c) ∙ sym (drop-drop r (p + c - r) bytes))

abbrev erased_count : DataStream → ℕ → Option ℕ → ℕ
erased_count s pos count = min (count_or_max count) (length s.buffer - pos)

erase-lem :
    (s : DataStream) (pos : ℕ) (count : Option ℕ)
    → 0 < count_or_max count
    → pos < length s.buffer
    → erase s pos count ≡ record {
      buffer = erase_bytes s.buffer pos (erased_count s pos count);
      read_position = cursor_after s.read_position pos (erased_count s pos count);
    }
unfolding erase cursor_after
erase-lem s pos count h k = ground arith

erase_none :
    (s : DataStream) (pos : ℕ) (count : Option ℕ)
    → (count_or_max count ≡ 0) ⊎ (length s.buffer ≤ pos)
    → erase s pos count ≡ s
unfolding erase
erase_none s pos count h = ground arith

-- The count is cut at the buffer's end, which no later byte notices.
drop-erased_count :
    (s : DataStream) (pos : ℕ) (count : Option ℕ)
    → pos < length s.buffer
    → drop (pos + erased_count s pos count - s.read_position) (unread s)
      ≡ drop (pos + count_or_max count - s.read_position) (unread s)
drop-erased_count s pos count h = elim (dec_lt (length s.buffer - pos) (count_or_max count)) [
  | yes over ↦
      drop_all _ (unread s) (omega (arith, length-unread s))
      ∙ sym (drop_all _ (unread s) (omega (arith, length-unread s)))
  | no within ↦
      let e : pos + erased_count s pos count ≡ pos + count_or_max count = omega arith in
      ap (λ n. drop (n - s.read_position) (unread s)) e
]

-- On a well-formed stream, erase of a range takes from the unread bytes those in the range and no
-- other.
pub unread-erase :
    (s : DataStream) (pos : ℕ) (count : Option ℕ)
    → IsValid s
    → unread (erase s pos count)
      ≡ take (pos - s.read_position) (unread s)
        ++ drop (pos + count_or_max count - s.read_position) (unread s)
unread-erase s pos count v = elim (ℕ_discrete (count_or_max count) 0) [
  | yes nothing ↦
      ap unread (erase_none s pos count (inl nothing))
      ∙ sym (take-append-drop (pos - s.read_position) (unread s))
      ∙ (let e : pos ≡ pos + count_or_max count = omega arith in
          ap (λ n. take (pos - s.read_position) (unread s) ++ drop (n - s.read_position) (unread s))
            e)
  | no some_count ↦ elim (dec_lt pos (length s.buffer)) [
    | yes inside ↦
        ap unread (erase-lem s pos count (omega arith) inside)
        ∙ drop-erase_bytes s.read_position pos (erased_count s pos count) s.buffer (omega arith)
        ∙ ap (◌++◌ (take (pos - s.read_position) (unread s))) (drop-erased_count s pos count inside)
    | no outside ↦
        ap unread (erase_none s pos count (inr (omega arith)))
        ∙ sym (
            ap₂ ◌++◌ (take_all _ (unread s) (omega (arith, length-unread s)))
              (drop_all _ (unread s) (omega (arith, length-unread s)))
            ∙ append-nil (unread s))
  ]
]

-- On a well-formed stream, erasing at an iterator within the buffer or at its end is erasing one
-- byte at its position.
pub erase_at-erase :
    (s : DataStream) (where_at : ℕ)
    → IsValid s
    → where_at ≤ length s.buffer
    → erase_at s where_at ≡ erase s where_at (some 1)
unfolding erase_at erase
erase_at-erase s where_at v h = ground (
  arith,
  length-append (take where_at s.buffer) (drop (where_at + 1) s.buffer),
  length-take where_at s.buffer,
  length-drop (where_at + 1) s.buffer,
)

-- On a well-formed stream, the sizes fitting in 64 bits, get_clear moves what is unread to the end
-- of the destination and empties the source where it fits, and otherwise fails and changes neither
-- stream.
pub get_clear_lem :
    (s dst : DataStream)
    → IsValid s
    → length dst.buffer + length (unread s) < u64_mod
    → get_clear s dst ≡ (
        if leb (length dst.buffer + length (unread s)) max_stream_size
        then (success tt, clear s, append dst (unread s))
        else (failure (ser SerError.input_too_large), s, dst))
unfolding get_clear
get_clear_lem s dst v h = ground (arith, take-avail s v)
