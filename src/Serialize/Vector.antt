-- ===== src/Serialize/Vector.antt =====
-- Vectors of serializable items behind a compact size, as the payloads of
-- src/infra/network/payloads.cpp write and read them.
use znode.Common.{
  ℕ, ◌-◌, ◌<◌, ◌≤◌, ◌≡◌, refl, ap, sym, ◌∙◌, arith, true, List, [], ◌∷◌, ◌++◌, length, take,
  replicate, length-append, length-take, length-replicate, append_assoc, success, failure, Outcome,
  ltb, ltb-false, lt→ltb, ==-false, ◌==◌, if◌then◌else◌, All,
}
use znode.Errors.{ErrorCode, net, NetError}
use znode.Stream.Cursor.{IsValid}
use znode.Stream.Defs.{Status}
use znode.Serialize.Defs.{
  SDataStream, serialize, deserialize, ser_compact_sizeof, max_serialized_compact_size,
  read_compact, write_compact,
}
use znode.Serialize.Bind.{Bind}
use znode.Serialize.Codec.{RoundTrips}
use znode.Serialize.Compact.{
  compact_bytes, length-compact_bytes, write_compact_lem, read_compact-compact_bytes,
}
use znode.Serialize.Moves.{
  skip, put, pending, Fits, put-put, put-nil, skip-zero, skip-skip, after-of_length,
}

module _ {A : Type 0} where
  -- The first item is bound; the loop goes on with the others, or stops at its error.
  next_item :
      (SDataStream → Status × List A × SDataStream)
      → List A
      → Status × A × SDataStream
      → Status × List A × SDataStream
  next_item loop xs (success u, x, s) = let (r, ys, s') = loop s in (r, x ∷ ys, s')
  next_item loop xs (failure e, x, s) = (failure e, x ∷ xs, s)

  unfoldable pub bind_each : Bind A → Bind (List A)
  unfolding next_item
  bind_each item [] action s = (success tt, [], s)
  bind_each item (x ∷ xs) action s = next_item (bind_each item xs action) xs (item x action s)

  -- `vector::resize`: items that are there stay.
  unfoldable pub resize_items : A → List A → ℕ → List A
  resize_items fresh items n = take n items ++ replicate (n - length items) fresh

  write_items : Bind A → List A → Status × SDataStream → Status × List A × SDataStream
  write_items item items (success u, s) = bind_each item items serialize s
  write_items item items (failure e, s) = (failure e, items, s)

  unfoldable pub write_vector : ℕ → Bind A → List A → SDataStream → Status × List A × SDataStream
  unfolding write_items
  write_vector limit item items s =
      if length items == 0
      then (failure (net NetError.message_payload_empty_vector), items, s)
      else if ltb limit (length items)
      then (failure (net NetError.message_payload_oversized_vector), items, s)
      else write_items item items (write_compact (length items) s)

  read_items :
      ℕ → Bind A → A → List A → Outcome ErrorCode ℕ × SDataStream → Status × List A × SDataStream
  unfolding resize_items
  read_items limit item fresh items (failure e, s) = (failure e, items, s)
  read_items limit item fresh items (success expected, s) =
      if expected == 0
      then (failure (net NetError.message_payload_empty_vector), items, s)
      else if ltb limit expected
      then (failure (net NetError.message_payload_oversized_vector), items, s)
      else bind_each item (resize_items fresh items expected) deserialize s

  unfoldable pub read_vector : ℕ → Bind A → A → List A → SDataStream → Status × List A × SDataStream
  unfolding read_items
  read_vector limit item fresh items s = read_items limit item fresh items (read_compact true s)

module _ {A : Type 0} (encode : A → List ℕ) where
  unfoldable pub encode_each : List A → List ℕ
  encode_each [] = []
  encode_each (x ∷ xs) = encode x ++ encode_each xs

  unfoldable pub encode_vector : List A → List ℕ
  unfolding encode_each
  encode_vector xs = compact_bytes (length xs) ++ encode_each xs

module _ {A : Type 0} {item : Bind A} {IsOk : A → Type 0} {encode : A → List ℕ}
    (codec : RoundTrips item IsOk encode (λ a old. a)) where
  write_each :
      (xs : List A) (s : SDataStream)
      → All IsOk xs
      → Fits s (length (encode_each encode xs))
      → bind_each item xs serialize s ≡ (success tt, xs, put s (encode_each encode xs))
  unfolding bind_each encode_each
  write_each [] s h fits = ap (λ t. (success tt, [], t)) (sym (put-nil s))
  write_each (x ∷ xs) s h fits =
      let n = length-append (encode x) (encode_each encode xs) in
      rw (
        codec.writes x s h.0 (omega (arith, n)),
        write_each xs (put s (encode x)) h.1
            (omega (arith, n, length-append s.base.buffer (encode x))),
        put-put s (encode x) (encode_each encode xs),
      )

  -- However the slots were filled before, as many items are read as there are slots.
  read_each :
      (xs olds : List A) (s : SDataStream) (rest : List ℕ)
      → length olds ≡ length xs
      → All IsOk xs
      → IsValid s.base
      → pending s ≡ encode_each encode xs ++ rest
      → bind_each item olds deserialize s
        ≡ (success tt, xs, skip s (length (encode_each encode xs)))
  unfolding bind_each encode_each
  read_each [] [] s rest hl h v e = ap (λ t. (success tt, [], t)) (sym (skip-zero s))
  read_each [] (o ∷ olds) s rest hl h v e = absurd (omega arith)
  read_each (x ∷ xs) [] s rest hl h v e = absurd (omega arith)
  read_each (x ∷ xs) (o ∷ olds) s rest hl h v e =
      let e' = e ∙ append_assoc (encode x) (encode_each encode xs) rest in
      let (v', after) =
        after-of_length s.base _ (encode x) (encode_each encode xs ++ rest) refl v e' in
      rw (
        codec.reads x o s (encode_each encode xs ++ rest) h.0 v e',
        read_each xs olds (skip s (length (encode x))) rest (omega arith) h.1 v' after,
        skip-skip s (length (encode x)) (length (encode_each encode xs))
            (length (encode x ++ encode_each encode xs))
            (omega (arith, length-append (encode x) (encode_each encode xs))),
      )

  -- `length (resize_items fresh olds n)` slots are filled.
  length-resize_items :
      (fresh : A) (items : List A) (n : ℕ) → length (resize_items fresh items n) ≡ n
  unfolding resize_items
  length-resize_items fresh items n = omega (
    arith,
    length-append (take n items) (replicate (n - length items) fresh),
    length-take n items,
    length-replicate (n - length items) fresh,
  )

  -- A vector of 1 to `limit` good items is written behind its size.
  pub write_vector_lem :
      (limit : ℕ) (xs : List A) (s : SDataStream)
      → 1 ≤ length xs
      → length xs ≤ limit
      → limit ≤ max_serialized_compact_size
      → All IsOk xs
      → Fits s (length (encode_vector encode xs))
      → write_vector limit item xs s ≡ (success tt, xs, put s (encode_vector encode xs))
  unfolding write_vector encode_vector
  write_vector_lem limit xs s lo hi small h fits =
      let n = length-append (compact_bytes (length xs)) (encode_each encode xs) in
      let size = length-compact_bytes (length xs) in
      rw (
        ==-false (length xs) 0 (λ e. omega arith),
        ltb-false limit (length xs) hi,
        write_compact_lem s (length xs) (omega arith) (omega (arith, n, size)),
        write_each xs (put s (compact_bytes (length xs))) h
            (omega (arith, n, length-append s.base.buffer (compact_bytes (length xs)))),
        put-put s (compact_bytes (length xs)) (encode_each encode xs),
      )

  -- It is read back whatever the vector held before.
  pub read_vector_lem :
      (limit : ℕ) (fresh : A) (xs olds : List A) (s : SDataStream) (rest : List ℕ)
      → 1 ≤ length xs
      → length xs ≤ limit
      → limit ≤ max_serialized_compact_size
      → All IsOk xs
      → IsValid s.base
      → pending s ≡ encode_vector encode xs ++ rest
      → read_vector limit item fresh olds s
        ≡ (success tt, xs, skip s (length (encode_vector encode xs)))
  unfolding read_vector encode_vector
  read_vector_lem limit fresh xs olds s rest lo hi small h v e =
      let e' = e ∙ append_assoc (compact_bytes (length xs)) (encode_each encode xs) rest in
      let size = length-compact_bytes (length xs) in
      let (v', after) =
        after-of_length s.base _ (compact_bytes (length xs)) (encode_each encode xs ++ rest) size v
          e' in
      rw (
        read_compact-compact_bytes s true (length xs) (encode_each encode xs ++ rest) (omega arith)
            v e',
        ltb-false max_serialized_compact_size (length xs) (omega arith),
        ==-false (length xs) 0 (λ z. omega arith),
        ltb-false limit (length xs) hi,
        read_each xs (resize_items fresh olds (length xs)) (skip s (ser_compact_sizeof (length xs)))
            rest (length-resize_items fresh olds (length xs)) h v' after,
        skip-skip s (ser_compact_sizeof (length xs)) (length (encode_each encode xs))
            (length (compact_bytes (length xs) ++ encode_each encode xs))
            (omega
              (arith, size, length-append (compact_bytes (length xs)) (encode_each encode xs))),
      )

module _ {A : Type 0} (item : Bind A) (encode : A → List ℕ) where
  -- A size above the reader's limit is refused, its bytes taken.
  pub read_vector_oversized :
      (limit : ℕ) (fresh : A) (xs olds : List A) (s : SDataStream) (rest : List ℕ)
      → limit < length xs
      → length xs ≤ max_serialized_compact_size
      → IsValid s.base
      → pending s ≡ encode_vector encode xs ++ rest
      → read_vector limit item fresh olds s ≡ (
        failure (net NetError.message_payload_oversized_vector),
        olds,
        skip s (ser_compact_sizeof (length xs)),
      )
  unfolding read_vector encode_vector
  read_vector_oversized limit fresh xs olds s rest hi small v e =
      let e' = e ∙ append_assoc (compact_bytes (length xs)) (encode_each encode xs) rest in
      rw (
        read_compact-compact_bytes s true (length xs) (encode_each encode xs ++ rest) (omega arith)
            v e',
        ltb-false max_serialized_compact_size (length xs) small,
        ==-false (length xs) 0 (λ z. omega arith),
        lt→ltb limit (length xs) hi,
      )
