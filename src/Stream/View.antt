-- ===== src/Stream/View.antt =====
-- A stream seen as the queue of the bytes that are still to be read.
use znode.Common.{
  ℕ, ◌+◌, ◌-◌, ◌≤◌, ◌≡◌, refl, ap, ◌∙◌, arith, List, [], ◌∷◌, ◌++◌, length, take, drop,
  length-append, length-drop, drop-drop, drop_all, drop-min-length, Option, some, none, Outcome,
  success, failure, min, ltb, if◌then◌else◌,
}
use znode.Errors.{ErrorCode, ser, SerError}
use znode.Stream.Defs.{DataStream, read, write, max_stream_size, ignore, consume, count_or_max}
use znode.Stream.Valid.{step, step-IsValid, ignores, consumes}
use znode.Stream.Cursor.{
  IsValid, read-short, read-fits, read-all, unread, advance, append, avail_lem, length-unread,
  unread-advance, unread-append, write-fits, advance-IsValid,
}

-- A use of a stream as a queue: bytes in at the back, views and skips at the front. `compacts` is
-- `consume`, which frees the part that was read.
pub data Use : Type 0 where
  puts : List ℕ → Use
  gets : ℕ → Use
  gets_all : Use
  skips : ℕ → Use
  compacts : Option ℕ → Use

abbrev pub Reply : Type 0
Reply = Outcome ErrorCode (List ℕ)

reply_write : Outcome ErrorCode (Unit {0}) → Reply
reply_write (success u) = success []
reply_write (failure e) = failure e

unfoldable pub apply : DataStream → Use → Reply × DataStream
unfolding reply_write
apply s (puts bytes) = let (r, t) = write s bytes in (reply_write r, t)
apply s (gets n) = read s (some n)
apply s gets_all = read s none
apply s (skips n) = (success [], ignore s n)
apply s (compacts pos) = (success [], consume s pos)

-- The same calls on a plain queue.
unfoldable pub queue_step : List ℕ → Use → Reply × List ℕ
queue_step q (puts bytes) = (success [], q ++ bytes)
queue_step q (gets n) =
    if ltb (length q) n
    then (failure (ser SerError.read_overflow), q)
    else (success (take n q), drop n q)
queue_step q gets_all = (success q, [])
queue_step q (skips n) = (success [], drop n q)
queue_step q (compacts pos) = (success [], q)

unfoldable pub replies : DataStream → List Use → List Reply × List ℕ
unfolding apply
replies s [] = ([], unread s)
replies s (u ∷ us) = let (rs, q) = replies (apply s u).1 us in ((apply s u).0 ∷ rs, q)

unfoldable pub queue_replies : List ℕ → List Use → List Reply × List ℕ
unfolding queue_step
queue_replies q [] = ([], q)
queue_replies q (u ∷ us) =
    let (rs, q') = queue_replies (queue_step q u).1 us in ((queue_step q u).0 ∷ rs, q')

abbrev pub put_size : Use → ℕ
put_size (puts bytes) = length bytes
put_size other = 0

abbrev pub total_put : List Use → ℕ
total_put [] = 0
total_put (u ∷ us) = put_size u + total_put us

-- One call answers as the queue does, leaves what the queue keeps, and adds what it puts at most.
abbrev Simulates : DataStream → Use → Type 0
Simulates s u =
    ((apply s u).0 ≡ (queue_step (unread s) u).0)
    × (unread (apply s u).1 ≡ (queue_step (unread s) u).1)
    × IsValid (apply s u).1
    × (length (apply s u).1.buffer ≤ length s.buffer + put_size u)

ignore-advance :
    (s : DataStream) (n : ℕ) → IsValid s → ignore s n ≡ advance s (min n (length (unread s)))
unfolding ignore
ignore-advance s n v = ground (arith, avail_lem s v, length-unread s)

consumed : (p c : ℕ) → min p c + (p - min p c) ≡ p
consumed p c = omega arith

simulates :
    (s : DataStream) (u : Use)
    → IsValid s
    → length s.buffer + put_size u ≤ max_stream_size
    → Simulates s u
unfolding apply queue_step ignore consume
simulates s (puts bytes) v h =
    rw (write-fits s bytes h)
      (refl, unread-append s bytes v, append-IsValid, omega (arith, length-append s.buffer bytes))
  where
    append-IsValid : IsValid (append s bytes)
    append-IsValid = record {
      within = omega (arith, length-append s.buffer bytes, v.within);
      small = omega (arith, length-append s.buffer bytes);
    }
simulates s (gets n) v h =
    ground (arith, read-short s n v, read-fits s n v, unread-advance s n, advance-IsValid s n v)
simulates s gets_all v h = rw (read-all s v) (
  refl,
  unread-advance s (length (unread s)) ∙ drop_all _ (unread s) (omega arith),
  advance-IsValid s (length (unread s)) v (omega arith),
  omega arith,
)
simulates s (skips n) v h = (
  refl,
  ap unread (ignore-advance s n v)
      ∙ unread-advance s (min n (length (unread s)))
      ∙ drop-min-length n (unread s),
  unfold step in step-IsValid s (ignores n) v (omega arith),
  omega arith,
)
simulates s (compacts pos) v h = (
  refl,
  drop-drop (min s.read_position (count_or_max pos)) _ s.buffer
      ∙ ap (λ n. drop n s.buffer) (consumed s.read_position (count_or_max pos)),
  unfold step in step-IsValid s (consumes pos) v (omega arith),
  omega (arith, length-drop (min s.read_position (count_or_max pos)) s.buffer),
)

-- From a well-formed stream with room for all that is put, any sequence of writes, reads, skips
-- and compactions gets the replies that a plain queue of the unread bytes gives, and leaves the
-- bytes that the queue keeps.
pub replies-queue :
    (s : DataStream) (us : List Use)
    → IsValid s
    → length s.buffer + total_put us ≤ max_stream_size
    → replies s us ≡ queue_replies (unread s) us
unfolding replies queue_replies
replies-queue s [] v h = refl
replies-queue s (u ∷ us) v h =
    let (reply, rest, w, grown) = simulates s u v (omega arith) in
    cc (reply, rest, replies-queue (apply s u).1 us w (omega arith))
