-- ===== src/Serialize/Overflow.antt =====
-- How far `read_compact` moves a stream (src/core/serialization/serialize.hpp).
use znode.Common.{
  ℕ, ◌+◌, ◌-◌, ◌<◌, ◌≤◌, ◌≡◌, ◌≢◌, refl, ap, sym, ◌∙◌, arith, Bool, ◌&&◌, length, length-drop,
  Outcome, success, failure, ltb, ◌==◌, if◌then◌else◌, dec_lt, Bool-cases, inl, inr,
}
use znode.Errors.{ErrorCode, ser, net, SerError}
use znode.Stream.Cursor.{IsValid, advance-IsValid, unread-advance}
use znode.Serialize.Defs.{
  M, chain, fail, pure, SDataStream, read_as, read_compact, read_at_least, read_tail, check_range,
  max_serialized_compact_size,
}
use znode.Serialize.Canonical.{read_as-fits}
use znode.Serialize.Moves.{skip, pending, read_as-short, skip-skip, skip-zero}

-- An error of the serialization category, which says `read_overflow` only under `P`.
abbrev pub SerCode : Type 0 → ErrorCode → Type 0
SerCode P (net e) = ⊥
SerCode P (ser e) = e ≡ SerError.read_overflow → P

abbrev pub SerOnly : {A : Type 0} → Type 0 → Outcome ErrorCode A → Type 0
SerOnly P (success a) = Unit {0}
SerOnly P (failure e) = SerCode P e

-- At most `n` bytes are taken, and all of them unless fewer than `n` are left.
pub record Within {A : Type 0} (s : SDataStream) (n : ℕ) (b : Outcome ErrorCode A × SDataStream)
    : Type 0 where
  pub taken : ℕ
  pub moved : b.1 ≡ skip s taken
  pub at_most : taken ≤ n
  pub inside : taken ≤ length (pending s)
  pub outcome : SerOnly (length (pending s) < n) b.0

Within-pure : {A : Type 0} (s : SDataStream) (n : ℕ) (a : A) → Within s n (success a, s)
Within-pure s n a = record {
  taken = 0;
  moved = sym (skip-zero s);
  at_most = omega arith;
  inside = omega arith;
  outcome = tt;
}

Within-fail :
    (s : SDataStream) (n : ℕ) (e : SerError)
    → (e ≢ SerError.read_overflow)
    → Within {A = ℕ} s n (failure (ser e), s)
Within-fail s n e h = record {
  taken = 0;
  moved = sym (skip-zero s);
  at_most = omega arith;
  inside = omega arith;
  outcome = λ o. absurd (h o);
}

read_as-Within : (s : SDataStream) (w : ℕ) → IsValid s.base → Within s w (read_as w s)
read_as-Within s w v = elim (dec_lt (length (pending s)) w) [
  | yes short ↦ rw (read_as-short s w v short) (record {
    taken = 0;
    moved = sym (skip-zero s);
    at_most = omega arith;
    inside = omega arith;
    outcome = λ o. short;
  })
  | no fits ↦ rw (read_as-fits s w v (omega arith)) (record {
    taken = w;
    moved = refl;
    at_most = omega arith;
    inside = omega arith;
    outcome = tt;
  })
]

SerCode-weaken : {P Q : Type 0} (e : ErrorCode) → (P → Q) → SerCode P e → SerCode Q e
SerCode-weaken (net e) f h = h
SerCode-weaken (ser e) f h = λ o. f (h o)

pub SerOnly-weaken :
    {A : Type 0} {P Q : Type 0} (r : Outcome ErrorCode A) → (P → Q) → SerOnly P r → SerOnly Q r
SerOnly-weaken (success a) f h = tt
SerOnly-weaken (failure e) f h = SerCode-weaken e f h

Within-chain :
    {A B : Type 0} (s : SDataStream) (m n : ℕ) (b : Outcome ErrorCode A × SDataStream) (f : A → M B)
    → IsValid s.base
    → Within s m b
    → ((a : A) (t : SDataStream) → IsValid t.base → Within t n (f a t))
    → Within s (m + n) (chain b.0 f b.1)
Within-chain s m n (failure e, t) f v w k = record {
  taken = w.taken;
  moved = w.moved;
  at_most = omega (arith, w.at_most);
  inside = w.inside;
  outcome = SerCode-weaken e (λ h. omega arith) w.outcome;
}
Within-chain s m n (success a, t) f v w k =
    let vt : IsValid t.base = rw w.moved (advance-IsValid s.base w.taken v w.inside) in
    let q = k a t vt in
    let left : length (pending t) ≡ length (pending s) - w.taken =
      ap (λ u. length (pending u)) w.moved
      ∙ ap length (unread-advance s.base w.taken)
      ∙ length-drop w.taken (pending s) in
    record {
      taken = w.taken + q.taken;
      moved =
          q.moved
          ∙ ap (λ u. skip u q.taken) w.moved
          ∙ skip-skip s w.taken q.taken (w.taken + q.taken) refl;
      at_most = omega (arith, w.at_most, q.at_most);
      inside = omega (arith, w.inside, q.inside, left);
      outcome =
          SerOnly-weaken (f a t).0 (λ h. omega (arith, h, left, w.inside, w.at_most)) q.outcome;
    }

Within-widen :
    {A : Type 0} (s : SDataStream) (m n : ℕ) (b : Outcome ErrorCode A × SDataStream)
    → m ≤ n
    → Within s m b
    → Within s n b
Within-widen s m n b h w = record {
  taken = w.taken;
  moved = w.moved;
  at_most = omega (arith, w.at_most);
  inside = w.inside;
  outcome = SerOnly-weaken b.0 (λ k. omega (arith, k)) w.outcome;
}

read_at_least-Within :
    (s : SDataStream) (w least : ℕ) → w ≤ 8 → IsValid s.base → Within s 8 (read_at_least w least s)
unfolding read_at_least
read_at_least-Within s w least h v =
    Within-widen s (w + 0) 8 _ (omega arith)
      (Within-chain s w 0 (read_as w s) _ v (read_as-Within s w v) at_least)
  where
    at_least :
        (a : ℕ) (t : SDataStream)
        → IsValid t.base
        → Within t 0
            ((if ltb a least then fail (ser SerError.non_canonical_compact_size) else pure a) t)
    at_least a t vt = elim (Bool-cases (ltb a least)) [
      | inl low ↦ rw low (Within-fail t 0 SerError.non_canonical_compact_size (λ e. cc))
      | inr high ↦ rw high (Within-pure t 0 a)
    ]

read_tail-Within : (p : ℕ) (s : SDataStream) → IsValid s.base → Within s 8 (read_tail p s)
unfolding read_tail
read_tail-Within p s v = elim (Bool-cases (ltb p 253)) [
  | inl e ↦ rw e (Within-pure s 8 p)
  | inr e ↦ rw e (elim (Bool-cases (p == 253)) [
    | inl e2 ↦ rw e2 (read_at_least-Within s 2 253 (omega arith) v)
    | inr e2 ↦ rw e2 (elim (Bool-cases (p == 254)) [
      | inl e3 ↦ rw e3 (read_at_least-Within s 4 0x1_0000 (omega arith) v)
      | inr e3 ↦ rw e3 (elim (Bool-cases (p == 255)) [
        | inl e4 ↦ rw e4 (read_at_least-Within s 8 0x1_0000_0000 (omega arith) v)
        | inr e4 ↦ rw e4 (Within-pure s 8 0)
      ])
    ])
  ])
]

check_range-Within :
    (range_check : Bool) (a : ℕ) (s : SDataStream) → Within s 0 (check_range range_check a s)
unfolding check_range
check_range-Within range_check a s =
    elim (Bool-cases (range_check && ltb max_serialized_compact_size a)) [
      | inl e ↦ rw e (Within-fail s 0 SerError.compact_size_too_big (λ o. cc))
      | inr e ↦ rw e (Within-pure s 0 a)
    ]

-- On a well-formed stream read_compact takes at most nine bytes, no more than are unread, fails
-- only with serialization errors, and reports an overflow only where fewer than nine bytes are
-- unread.
pub read_compact-Within :
    (s : SDataStream) (range_check : Bool)
    → IsValid s.base
    → Within s 9 (read_compact range_check s)
unfolding read_compact
read_compact-Within s range_check v =
    Within-chain s 1 8 (read_as 1 s) _ v (read_as-Within s 1 v) λ p t vt.
      Within-chain t 8 0 (read_tail p t) (check_range range_check) vt (read_tail-Within p t vt)
        λ a u vu. check_range-Within range_check a u
