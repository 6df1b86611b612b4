-- ===== src/Encoding/Hex/RoundTrip.antt =====
-- Bytes through `encode` and `decode` (src/core/encoding/hex.cpp).
use Prim.Native.Nat.{bit_or}
use znode.Common.{
  ℕ, ◌+◌, ◌*◌, ◌/◌, ◌%◌, ◌<◌, ◌≡◌, refl, ap, arith, Bool, true, false, ◌&&◌, ◌||◌, not, All, List,
  [], ◌∷◌, length, ◌==◌, ==_iff, success,
}
use znode.Common.Bytes.{and_true}
use znode.Encoding.Hex.{
  unhex, unhex4, hex_digit, hex_digits, unhex_table, unhex_table4, has_prefix, remove_prefix,
  encode_bytes, encode, decode_pairs, decode_digits, decode, put_byte,
}
use znode.Common.Ranges.{each_under, each_under-holds}
use znode.Encoding.Hex.Unrolled.{decode_rounds-decode_pairs}

digit_test : ℕ → Bool
digit_test n =
    ((unhex (hex_digit n) == n) && (unhex4 (hex_digit n) == 16 * n))
    && not ((hex_digit n == 0x78) || (hex_digit n == 0x58))

digit_tests : each_under digit_test 16 ≡ true
unfolding each_under digit_test unhex unhex4 hex_digit hex_digits unhex_table unhex_table4
digit_tests = refl

module _ (n : ℕ) (h : n < 16) where
  unhex-hex_digit : unhex (hex_digit n) ≡ n
  unfolding digit_test
  unhex-hex_digit =
      (==_iff _ _).0
        (and_true _ _ (and_true _ _ (each_under-holds digit_test 16 n digit_tests h)).0).0

  unhex4-hex_digit : unhex4 (hex_digit n) ≡ 16 * n
  unfolding digit_test
  unhex4-hex_digit =
      (==_iff _ _).0
        (and_true _ _ (and_true _ _ (each_under-holds digit_test 16 n digit_tests h)).0).1

  no_x : not ((hex_digit n == 0x78) || (hex_digit n == 0x58)) ≡ true
  unfolding digit_test
  no_x = (and_true _ _ (each_under-holds digit_test 16 n digit_tests h)).1

or_test : ℕ → ℕ → Bool
or_test i j = bit_or (16 * i) j == 16 * i + j

or_tests : each_under (λ i. each_under (or_test i) 16) 16 ≡ true
unfolding each_under or_test
or_tests = refl

nibbles : (i j : ℕ) → i < 16 → j < 16 → bit_or (16 * i) j ≡ 16 * i + j
unfolding or_test
nibbles i j p q = (==_iff _ _).0 (
    each_under-holds (or_test i) 16 j
      (each_under-holds (λ n. each_under (or_test n) 16) 16 i or_tests p) q)

abbrev pub AreBytes : List ℕ → Type 0
AreBytes = All (λ b. b < 256)

not_bad_pair : (h l : ℕ) → h < 16 → l < 16 → ((16 * h == 0xff) || (l == 0xff)) ≡ false
not_bad_pair h l p q = ground arith

decode_pairs-encode_bytes :
    (bytes : List ℕ) → AreBytes bytes → decode_pairs (encode_bytes bytes) ≡ success bytes
unfolding decode_pairs encode_bytes put_byte
decode_pairs-encode_bytes [] h = refl
decode_pairs-encode_bytes (b ∷ bs) (small, h) =
    let high : b / 16 < 16 = omega arith in
    let low : b % 16 < 16 = omega arith in
    let whole : 16 * (b / 16) + b % 16 ≡ b = omega arith in
    rw
      (
        unhex-hex_digit (b % 16) low,
        unhex4-hex_digit (b / 16) high,
        decode_pairs-encode_bytes bs h,
        nibbles (b / 16) (b % 16) high low,
        not_bad_pair (b / 16) (b % 16) high low,
      )
      (ap (λ x. success (x ∷ bs)) whole)

even : (bytes : List ℕ) → length (encode_bytes bytes) % 2 ≡ 0
unfolding encode_bytes
even [] = refl
even (b ∷ bs) = omega (arith, even bs)

decode_digits-encode_bytes :
    (bytes : List ℕ) → AreBytes bytes → decode_digits (encode_bytes bytes) ≡ success bytes
unfolding decode_digits
decode_digits-encode_bytes bytes h =
    rw
      (
        even bytes,
        decode_rounds-decode_pairs (length (encode_bytes bytes) / 8) (encode_bytes bytes),
      )
      (decode_pairs-encode_bytes bytes h)

no_prefix : (bytes : List ℕ) → AreBytes bytes → has_prefix (encode_bytes bytes) ≡ false
unfolding has_prefix encode_bytes
no_prefix [] h = refl
no_prefix (b ∷ bs) (small, h) = ground (arith, no_x (b % 16) (omega arith))

-- Encoding bytes, with the prefix or without, and decoding the text gives the bytes back.
pub decode-encode :
    (bytes : List ℕ) (with_prefix : Bool)
    → AreBytes bytes
    → decode (encode bytes with_prefix) ≡ success bytes
unfolding decode encode remove_prefix has_prefix
decode-encode bytes true h = decode_digits-encode_bytes bytes h
decode-encode bytes false h = rw (no_prefix bytes h) (decode_digits-encode_bytes bytes h)
