-- ===== src/Serialize/Members.antt =====
-- `RoundTrips` and `Measures` for the `bind` members (src/core/serialization/stream.hpp).
use znode.Common.{
  ℕ, ◌+◌, ◌^◌, ◌<◌, ◌≤◌, ◌≡◌, refl, ap, sym, ◌∙◌, arith, Bool, true, List, [], ◌∷◌, ◌++◌, length,
  length-append, append_assoc, take_all, success, ltb-false, if◌then◌else◌,
}
use znode.Common.Words.{u64_mod, add64}
use znode.Stream.Cursor.{write-fits}
use znode.Stream.Defs.{write_count}
use znode.Serialize.Defs.{
  SDataStream, le_bytes, read_bool, write_bool, ser_compact_sizeof, max_serialized_compact_size,
}
use znode.Serialize.LittleEndian.{length-le_bytes}
use znode.Serialize.Bind.{Bind, field, via, count, bind_int, bind_bool, bind_array, bind_string}
use znode.Serialize.Codec.{RoundTrips, Measures}
use znode.Serialize.Compact.{
  compact_bytes, length-compact_bytes, write_compact_lem, read_compact-compact_bytes,
}
use znode.Serialize.Moves.{
  skip, put, skip-skip, read-of_length, after-of_length, write_data_lem, read_as-le_bytes,
}

-- A structure's member is as good as the `bind` member that it is given to.
module _ {T A : Type 0} (get : T → A) (put_back : A → T → T) {member : Bind A} {IsOk : A → Type 0}
    {encode : A → List ℕ} (put_get : (t : T) → put_back (get t) t ≡ t) where
  pub field-RoundTrips :
      {fill : A → A → A}
      → RoundTrips member IsOk encode fill
      → RoundTrips
          (field get put_back member)
          (λ t. IsOk (get t))
          (λ t. encode (get t))
          (λ t old. put_back (fill (get t) (get old)) old)
  unfolding field
  field-RoundTrips {fill} m = record {
    writes = λ t s h fits. rw (m.writes (get t) s h fits, put_get t);
    reads = λ t old s rest h v e. rw (m.reads (get t) (get old) s rest h v e);
  }

  pub field-Measures :
      Measures member IsOk encode
      → Measures (field get put_back member) (λ t. IsOk (get t)) (λ t. encode (get t))
  unfolding field
  field-Measures m = record {
    measures = λ t s h small. rw (m.measures (get t) s h small, put_get t);
  }

-- So is a variable bound by way of a local that it can be told from.
module _ {A B : Type 0} (to : A → B) (back : B → A) {m : Bind B} {IsOk : B → Type 0}
    {encode : B → List ℕ} (IsOkA : A → Type 0) (ok : (a : A) → IsOkA a → IsOk (to a))
    (same : (a : A) → IsOkA a → back (to a) ≡ a) where
  pub via-RoundTrips :
      RoundTrips m IsOk encode (λ b old. b)
      → RoundTrips (via to back m) IsOkA (λ a. encode (to a)) (λ a old. a)
  unfolding via
  via-RoundTrips c = record {
    writes = λ a s h fits. rw (c.writes (to a) s (ok a h) fits, same a h);
    reads = λ a old s rest h v e. rw (c.reads (to a) (to old) s rest (ok a h) v e, same a h);
  }

  pub via-Measures : Measures m IsOk encode → Measures (via to back m) IsOkA (λ a. encode (to a))
  unfolding via
  via-Measures c = record {
    measures = λ a s h small. rw (c.measures (to a) s (ok a h) small, same a h);
  }

counted :
    (s : SDataStream) (n k : ℕ)
    → k ≡ n
    → s.computed_size + n < u64_mod
    → count k s ≡ record s { computed_size = s.computed_size + n }
unfolding count
counted s n k e h =
    let e' : add64 s.computed_size k ≡ s.computed_size + n = omega arith in
    ap (λ c. record s { computed_size = c }) e'

pub bind_int-RoundTrips :
    (w : ℕ) → RoundTrips (bind_int w) (λ n. n < 256 ^ w) (le_bytes w) (λ n old. n)
unfolding bind_int
bind_int-RoundTrips w = record {
  writes = λ n s h fits. rw (write_data_lem s w n (omega (arith, length-le_bytes w n)));
  reads = λ n old s rest h v e. rw (read_as-le_bytes s w n rest h v e, length-le_bytes w n);
}

pub bind_int-Measures : (w : ℕ) → Measures (bind_int w) (λ n. n < 256 ^ w) (le_bytes w)
unfolding bind_int
bind_int-Measures w = record {
  measures = λ n s h small.
      ap (λ t. (success tt, n, t))
        (counted s (length (le_bytes w n)) w (sym (length-le_bytes w n)) small);
}

unfoldable pub bool_bytes : Bool → List ℕ
bool_bytes b = (if b then 1 else 0) ∷ []

pub bind_bool-RoundTrips : RoundTrips bind_bool (λ b. Unit {0}) bool_bytes (λ b old. b)
unfolding bind_bool bool_bytes read_bool write_bool
bind_bool-RoundTrips = record {
  writes = λ b s h fits. refl;
  reads = λ b old s rest h v e.
      rw (read-of_length s.base 1 (bool_bytes b) rest refl v e) (ground arith);
}

pub bind_bool-Measures : Measures bind_bool (λ b. Unit {0}) bool_bytes
unfolding bind_bool bool_bytes
bind_bool-Measures = record {
  measures = λ b s h small. ap (λ t. (success tt, b, t)) (counted s 1 1 refl small);
}

pub bind_array-RoundTrips :
    (size : ℕ) → RoundTrips (bind_array size) (λ a. length a ≡ size) (λ a. a) (λ a old. a)
unfolding bind_array write_count
bind_array-RoundTrips size = record {
  writes = λ a s h fits. rw (take_all size a (omega arith), write-fits s.base a fits);
  reads = λ a old s rest h v e. rw (read-of_length s.base size a rest h v e, h);
}

pub bind_array-Measures : (size : ℕ) → Measures (bind_array size) (λ a. length a ≡ size) (λ a. a)
unfolding bind_array
bind_array-Measures size = record {
  measures = λ a s h small. ap (λ t. (success tt, a, t)) (counted s (length a) size (sym h) small);
}

-- A string behind its size.
unfoldable pub string_bytes : List ℕ → List ℕ
string_bytes text = compact_bytes (length text) ++ text

abbrev pub IsShort : List ℕ → Type 0
IsShort text = length text ≤ max_serialized_compact_size

-- A string no longer than the compact size limit is written behind its size where there is room,
-- and reading from these bytes takes just them and gives the string back.
pub bind_string-RoundTrips : RoundTrips bind_string IsShort string_bytes (λ a old. a)
unfolding bind_string string_bytes
bind_string-RoundTrips = record {
  writes = λ a s h fits.
      let n = length-append (compact_bytes (length a)) a in
      let size = length-compact_bytes (length a) in
      rw (
        write_compact_lem s (length a) (omega arith) (omega (arith, n, size)),
        write-fits (put s (compact_bytes (length a))).base a
            (omega (arith, n, length-append s.base.buffer (compact_bytes (length a)))),
        append_assoc s.base.buffer (compact_bytes (length a)) a,
      );
  reads = λ a old s rest h v e.
      let e' = e ∙ append_assoc (compact_bytes (length a)) a rest in
      let size = length-compact_bytes (length a) in
      let (v', after) = after-of_length s.base _ (compact_bytes (length a)) (a ++ rest) size v e' in
      rw (
        read_compact-compact_bytes s true (length a) (a ++ rest) (omega arith) v e',
        ltb-false max_serialized_compact_size (length a) h,
        read-of_length (skip s (ser_compact_sizeof (length a))).base (length a) a rest refl v'
            after,
        skip-skip s (ser_compact_sizeof (length a)) (length a) (length (string_bytes a))
            (omega (arith, size, length-append (compact_bytes (length a)) a)),
      );
}

-- Computing the size of a string no longer than the compact size limit adds the number of bytes
-- that serializing it writes, and changes nothing else.
pub bind_string-Measures : Measures bind_string IsShort string_bytes
unfolding bind_string string_bytes
bind_string-Measures = record {
  measures = λ a s h small.
      ap (λ t. (success tt, a, t))
        (counted s _ _
          (sym (
            length-append (compact_bytes (length a)) a
            ∙ ap (λ n. n + length a) (length-compact_bytes (length a))))
          small);
}
