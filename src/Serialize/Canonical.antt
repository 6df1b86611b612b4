-- ===== src/Serialize/Canonical.antt =====
-- The encodings that `read_compact` takes (src/core/serialization/serialize.hpp).
use mathlib.Core.Path.{ap₂}
use znode.Common.{
  ℕ, zero, suc, ◌^◌, ◌%◌, ◌<◌, ◌≤◌, ◌≡◌, ap, sym, ◌∙◌, arith, Bool, true, List, [], ◌∷◌, ◌++◌,
  length, take, drop, success, Outcome-cases, length-take, take-append-drop, ltb, if◌then◌else◌,
  dec_lt, lt→ltb, All, ℕ_discrete, inl, inr,
}
use znode.Common.Words.{u64_mod, IsByte}
use znode.Errors.{ser, SerError}
use znode.Stream.Cursor.{IsValid, read-fits, unread-advance, advance-IsValid}
use znode.Serialize.Defs.{
  M, ◌>>=◌, fail, pure, SDataStream, le_bytes, le_value, read_as, read_compact, read_at_least,
  read_tail, check_range, max_serialized_compact_size,
}
use znode.Serialize.LittleEndian.{le_bytes-le_value, le_value-lt}
use znode.Serialize.Moves.{skip, pending, read_as-short}
use znode.Serialize.Compact.{compact_bytes}

>>=-success :
    {A B : Type 0} (m : M A) (f : A → M B) (s t : SDataStream) (b : B)
    → (m >>= f) s ≡ (success b, t)
    → (a : A) × (u : SDataStream) × (m s ≡ (success a, u)) × (f a u ≡ (success b, t))
>>=-success m f s t b e = elim (Outcome-cases (m s).0) [
  | inl (a, ea) ↦ (a, (m s).1, λ i. (ea i, (m s).1), rw ea at e)
  | inr (x, ex) ↦ absurd (cc (rw ex at e))
]

All-take : (n : ℕ) (bytes : List ℕ) → All IsByte bytes → All IsByte (take n bytes)
All-take zero bytes h = tt
All-take (suc n) [] h = tt
All-take (suc n) (b ∷ bs) h = (h.0, All-take n bs h.1)

All-drop : (n : ℕ) (bytes : List ℕ) → All IsByte bytes → All IsByte (drop n bytes)
All-drop zero bytes h = h
All-drop (suc n) [] h = tt
All-drop (suc n) (b ∷ bs) h = All-drop n bs h.1

-- What a successful read of `w` bytes took.
record Took (s : SDataStream) (w n : ℕ) (t : SDataStream) : Type 0 where
  bytes : pending s ≡ le_bytes w n ++ pending t
  moved : t ≡ skip s w
  fits : n < 256 ^ w
  valid : IsValid t.base
  clean : All IsByte (pending t)

pub read_as-fits :
    (s : SDataStream) (w : ℕ)
    → IsValid s.base
    → w ≤ length (pending s)
    → read_as w s ≡ (success (le_value (take w (pending s))), skip s w)
unfolding read_as
read_as-fits s w v h = rw (read-fits s.base w v h)

Took-chunk :
    (s : SDataStream) (w : ℕ) {n : ℕ} {t : SDataStream}
    → n ≡ le_value (take w (pending s))
    → t ≡ skip s w
    → IsValid s.base
    → All IsByte (pending s)
    → w ≤ length (pending s)
    → Took s w n t
Took-chunk s w {n} {t} en et v clean fits = record {
  bytes = rw (chunk, rest) (sym (take-append-drop w (pending s)));
  moved = et;
  fits = rw en (rw width at (le_value-lt (take w (pending s)) (All-take w (pending s) clean)));
  valid = rw et (advance-IsValid s.base w v fits);
  clean = rw (et, unread-advance s.base w) (All-drop w (pending s) clean);
}
  where
    width : length (take w (pending s)) ≡ w
    width = omega (arith, length-take w (pending s))

    rest : pending t ≡ drop w (pending s)
    rest = ap pending et ∙ unread-advance s.base w

    chunk : le_bytes w n ≡ take w (pending s)
    chunk =
        ap (λ k. le_bytes k n) (sym width)
        ∙ ap (le_bytes (length (take w (pending s)))) en
        ∙ le_bytes-le_value (take w (pending s)) (All-take w (pending s) clean)

read_as-Took :
    (s : SDataStream) (w n : ℕ) (t : SDataStream)
    → IsValid s.base
    → All IsByte (pending s)
    → read_as w s ≡ (success n, t)
    → Took s w n t
read_as-Took s w n t v clean e = elim (dec_lt (length (pending s)) w) [
  | yes short ↦ absurd (cc (read_as-short s w v short, e))
  | no fits ↦
      let fitting : w ≤ length (pending s) = omega arith in
      Took-chunk s w (cc (read_as-fits s w v fitting, e)) (cc (read_as-fits s w v fitting, e)) v
        clean fitting
]

least_kept :
    (k least n : ℕ) (u t : SDataStream)
    → (if ltb k least then fail (ser SerError.non_canonical_compact_size) else pure k) u
      ≡ (success n, t)
    → (k ≡ n) × (u ≡ t) × (least ≤ n)
least_kept k least n u t h = ground arith

read_at_least-Took :
    (s : SDataStream) (width least n : ℕ) (t : SDataStream)
    → IsValid s.base
    → All IsByte (pending s)
    → read_at_least width least s ≡ (success n, t)
    → Took s width n t × (least ≤ n)
unfolding read_at_least
read_at_least-Took s width least n t v clean e =
    let (k, u, e1, e2) = >>=-success (read_as width) _ s t n e in
    let (en, et, h) = least_kept k least n u t e2 in
    (read_as-Took s width n t v clean (cc (e1, en, et)), h)

-- After the prefix `p`, `read_tail` has taken a canonical encoding.
Tail : ℕ → ℕ → SDataStream → SDataStream → Type 0
Tail p v s t = (p ∷ pending s ≡ compact_bytes v ++ pending t) × (v < u64_mod)

small-Tail :
    (s : SDataStream) (p v : ℕ) (t : SDataStream)
    → p < 253
    → pure p s ≡ (success v, t)
    → Tail p v s t
unfolding Tail compact_bytes
small-Tail s p v t h e =
    let ev : p ≡ v = cc e in let et : s ≡ t = cc e in (rw (← ev, ← et, lt→ltb p 253 h), omega arith)

wide-Tail :
    (s : SDataStream) (p width least v : ℕ) (t : SDataStream)
    → IsValid s.base
    → All IsByte (pending s)
    → ((least ≤ v) → (v < 256 ^ width) → (compact_bytes v ≡ p ∷ le_bytes width v) × (v < u64_mod))
    → read_at_least width least s ≡ (success v, t)
    → Tail p v s t
unfolding Tail
wide-Tail s p width least v t valid clean shape e =
    let (took, h) = read_at_least-Took s width least v t valid clean e in
    let (bytes, small) = shape h took.fits in (rw (bytes, ← took.bytes), small)

read_tail-Tail :
    (s : SDataStream) (p v : ℕ) (t : SDataStream)
    → IsValid s.base
    → All IsByte (pending s)
    → p < 256
    → read_tail p s ≡ (success v, t)
    → Tail p v s t
unfolding read_tail compact_bytes
read_tail-Tail s p v t valid clean hp e = elim (dec_lt p 253) [
  | yes small ↦ small-Tail s p v t small (rw (lt→ltb p 253 small) at e)
  | no wide ↦ elim (ℕ_discrete p 253) [
    | yes two ↦ rw two (wide-Tail s 253 2 253 v t valid clean (ground arith) (rw two at e))
    | no n2 ↦ elim (ℕ_discrete p 254) [
      | yes four ↦
          rw four (wide-Tail s 254 4 0x1_0000 v t valid clean (ground arith) (rw four at e))
      | no n4 ↦
          let eight : p ≡ 255 = omega arith in
          rw eight (wide-Tail s 255 8 0x1_0000_0000 v t valid clean (ground arith) (rw eight at e))
    ]
  ]
]

check_range-success :
    (range_check : Bool) (w v : ℕ) (s t : SDataStream)
    → check_range range_check w s ≡ (success v, t)
    → (w ≡ v) × (s ≡ t) × ((range_check ≡ true) → v ≤ max_serialized_compact_size)
unfolding check_range
check_range-success range_check w v s t e = ground arith

-- A read_compact that succeeds on a well-formed stream of bytes took just the canonical encoding
-- of the value that it returns; the value is a 64-bit integer, and with the range check it is
-- within the limit.
pub read_compact_canonical :
    (s : SDataStream) (range_check : Bool) (v : ℕ) (t : SDataStream)
    → IsValid s.base
    → All IsByte (pending s)
    → read_compact range_check s ≡ (success v, t)
    → (pending s ≡ compact_bytes v ++ pending t)
      × (v < u64_mod)
      × ((range_check ≡ true) → v ≤ max_serialized_compact_size)
unfolding read_compact Tail le_bytes
read_compact_canonical s range_check v t valid clean e =
    let (p, s1, e1, rest) = >>=-success (read_as 1) _ s t v e in
    let (w, s2, e2, e3) = >>=-success (read_tail p) (check_range range_check) s1 t v rest in
    let took = read_as-Took s 1 p s1 valid clean e1 in
    let (ew, et, limit) = check_range-success range_check w v s2 t e3 in
    let low : p % 256 ≡ p = omega (arith, took.fits) in
    let (bytes, small) =
      read_tail-Tail s1 p w s2 took.valid took.clean (omega (arith, took.fits)) e2 in
    (
      took.bytes
          ∙ ap (λ b. b ∷ pending s1) low
          ∙ bytes
          ∙ ap₂ (λ k u. compact_bytes k ++ pending u) ew et,
      rw (← ew) small,
      limit,
    )
