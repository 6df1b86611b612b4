-- ===== src/Serialize/Codec.antt =====
-- What a serializable structure promises: its members are written one behind the other, read back
-- from there, and measured without being changed.
use znode.Common.{
  ℕ, ◌+◌, ◌<◌, ◌≡◌, refl, ap, ◌∙◌, arith, List, ◌++◌, length, length-append, append_assoc, success,
}
use znode.Common.Words.{u64_mod}
use znode.Stream.Cursor.{IsValid}
use znode.Serialize.Defs.{SDataStream, compute_size, serialize, deserialize}
use znode.Serialize.Bind.{Bind, ◌⨾◌}
use znode.Serialize.Moves.{skip, put, pending, Fits, put-put, skip-skip, after-of_length}

module _ {T : Type 0} (m : Bind T) (IsOk : T → Type 0) (encode : T → List ℕ) where
  -- `fill t old` is `old` with the members that `m` binds taken from `t`.
  pub record RoundTrips (fill : T → T → T) : Type 0 where
    pub writes :
        (t : T) (s : SDataStream)
        → IsOk t
        → Fits s (length (encode t))
        → m t serialize s ≡ (success tt, t, put s (encode t))
    pub reads :
        (t old : T) (s : SDataStream) (rest : List ℕ)
        → IsOk t
        → IsValid s.base
        → pending s ≡ encode t ++ rest
        → m old deserialize s ≡ (success tt, fill t old, skip s (length (encode t)))

  pub record Measures : Type 0 where
    pub measures :
        (t : T) (s : SDataStream)
        → IsOk t
        → s.computed_size + length (encode t) < u64_mod
        → m t compute_size s
          ≡ (success tt, t, record s { computed_size = s.computed_size + length (encode t) })

module _ {T : Type 0} {m k : Bind T} {IsOkM IsOkK : T → Type 0}
    {encode_m encode_k : T → List ℕ} where
  -- Two members in a row.
  pub seq-RoundTrips :
      {fill_m fill_k : T → T → T}
      → RoundTrips m IsOkM encode_m fill_m
      → RoundTrips k IsOkK encode_k fill_k
      → RoundTrips
          (m ⨾ k)
          (λ t. IsOkM t × IsOkK t)
          (λ t. encode_m t ++ encode_k t)
          (λ t old. fill_k t (fill_m t old))
  unfolding ◌⨾◌
  seq-RoundTrips {fill_m} {fill_k} a b = record {
    writes = λ t s h fits.
        let n = length-append (encode_m t) (encode_k t) in
        rw (
          a.writes t s h.0 (omega (arith, n)),
          b.writes t (put s (encode_m t)) h.1
              (omega (arith, n, length-append s.base.buffer (encode_m t))),
          put-put s (encode_m t) (encode_k t),
        );
    reads = λ t old s rest h v e.
        let e' = e ∙ append_assoc (encode_m t) (encode_k t) rest in
        let (v', after) = after-of_length s.base _ (encode_m t) (encode_k t ++ rest) refl v e' in
        rw (
          a.reads t old s (encode_k t ++ rest) h.0 v e',
          b.reads t (fill_m t old) (skip s (length (encode_m t))) rest h.1 v' after,
          skip-skip s (length (encode_m t)) (length (encode_k t))
              (length (encode_m t ++ encode_k t))
              (omega (arith, length-append (encode_m t) (encode_k t))),
        );
  }

  pub seq-Measures :
      Measures m IsOkM encode_m
      → Measures k IsOkK encode_k
      → Measures (m ⨾ k) (λ t. IsOkM t × IsOkK t) (λ t. encode_m t ++ encode_k t)
  unfolding ◌⨾◌
  seq-Measures a b = record {
    measures = λ t s h small.
        let n = length-append (encode_m t) (encode_k t) in
        let grown : SDataStream = record s {
          computed_size = s.computed_size + length (encode_m t);
        } in
        rw (a.measures t s h.0 (omega (arith, n)), b.measures t grown h.1 (omega (arith, n)))
          (ap (λ c. (success tt, t, record s { computed_size = c })) (omega (arith, n)));
  }
