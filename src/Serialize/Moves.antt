-- ===== src/Serialize/Moves.antt =====
-- How the primitive readers and writers of an `SDataStream` move it.
use znode.Common.{
  ℕ, ◌+◌, ◌^◌, ◌%◌, ◌<◌, ◌≤◌, ◌≡◌, ap, sym, ◌∙◌, arith, List, [], ◌∷◌, ◌++◌, length, some, success,
  failure, length-append, append_assoc, append-nil,
}
use znode.Errors.{ser, SerError}
use znode.Stream.Defs.{DataStream, read, write_count, max_stream_size}
use znode.Stream.Cursor.{
  IsValid, unread, advance, append, read-chunk, read-short, after-chunk, write-fits,
  advance-IsValid,
}
use znode.Serialize.Defs.{SDataStream, le_bytes, write_data, read_as, on_base}
use znode.Serialize.LittleEndian.{length-le_bytes, le_value-le_bytes, take-le_bytes}

abbrev pub skip : SDataStream → ℕ → SDataStream
skip s n = record s { base = advance s.base n }

abbrev pub put : SDataStream → List ℕ → SDataStream
put s bytes = record s { base = append s.base bytes }

abbrev pub pending : SDataStream → List ℕ
pending s = unread s.base

-- There is room for `n` more bytes.
abbrev pub Fits : SDataStream → ℕ → Type 0
Fits s n = length s.base.buffer + n ≤ max_stream_size

pub read-of_length :
    (s : DataStream) (n : ℕ) (chunk rest : List ℕ)
    → length chunk ≡ n
    → IsValid s
    → unread s ≡ chunk ++ rest
    → read s (some n) ≡ (success chunk, advance s n)
read-of_length s n chunk rest e v h = rw (← e) (read-chunk s chunk rest v h)

pub after-of_length :
    (s : DataStream) (n : ℕ) (chunk rest : List ℕ)
    → length chunk ≡ n
    → IsValid s
    → unread s ≡ chunk ++ rest
    → IsValid (advance s n) × (unread (advance s n) ≡ rest)
after-of_length s n chunk rest e v h =
    let fits : n ≤ length (unread s) = omega (arith, ap length h ∙ length-append chunk rest, e) in
    (advance-IsValid s n v fits, rw (← e) (after-chunk s chunk rest h))

pub read_as-le_bytes :
    (s : SDataStream) (w n : ℕ) (rest : List ℕ)
    → n < 256 ^ w
    → IsValid s.base
    → pending s ≡ le_bytes w n ++ rest
    → read_as w s ≡ (success n, skip s w)
unfolding read_as
read_as-le_bytes s w n rest h v e =
    rw (
      read-of_length s.base w (le_bytes w n) rest (length-le_bytes w n) v e,
      le_value-le_bytes w n h,
    )

pub read_as-byte :
    (s : SDataStream) (b : ℕ) (rest : List ℕ)
    → b < 256
    → IsValid s.base
    → pending s ≡ b ∷ rest
    → read_as 1 s ≡ (success b, skip s 1)
unfolding le_bytes
read_as-byte s b rest h v e =
    let low : b % 256 ≡ b = omega arith in
    read_as-le_bytes s 1 b rest h v (e ∙ ap (λ t. t ∷ rest) (sym low))

pub skip-skip : (s : SDataStream) (m n k : ℕ) → m + n ≡ k → skip (skip s m) n ≡ skip s k
skip-skip s m n k e =
    let e' : s.base.read_position + m + n ≡ s.base.read_position + k = omega arith in
    ap (λ p. record s { base = record s.base { read_position = p } }) e'

pub read_as-short :
    (s : SDataStream) (w : ℕ)
    → IsValid s.base
    → length (pending s) < w
    → read_as w s ≡ (failure (ser SerError.read_overflow), s)
unfolding read_as
read_as-short s w v h = rw (read-short s.base w v h)

pub write_le :
    (s : SDataStream) (w v n : ℕ)
    → v ≤ w
    → Fits s v
    → on_base (λ t. write_count t (le_bytes w n) v) s ≡ (success tt, put s (le_bytes v n))
unfolding write_count
write_le s w v n h fits =
    rw
      (take-le_bytes v w n h, write-fits s.base (le_bytes v n) (omega (arith, length-le_bytes v n)))

pub write_data_lem :
    (s : SDataStream) (w n : ℕ) → Fits s w → write_data w n s ≡ (success tt, put s (le_bytes w n))
unfolding write_data
write_data_lem s w n fits = write_le s w w n (omega arith) fits

pub put-put : (s : SDataStream) (xs ys : List ℕ) → put (put s xs) ys ≡ put s (xs ++ ys)
put-put s xs ys =
    ap (λ b. record s { base = record s.base { buffer = b } }) (append_assoc s.base.buffer xs ys)

pub put-nil : (s : SDataStream) → put s [] ≡ s
put-nil s = ap (λ b. record s { base = record s.base { buffer = b } }) (append-nil s.base.buffer)

pub skip-zero : (s : SDataStream) → skip s 0 ≡ s
skip-zero s =
    let e : s.base.read_position + 0 ≡ s.base.read_position = omega arith in
    ap (λ p. record s { base = record s.base { read_position = p } }) e
