-- ===== src/Encoding/Hex/Unrolled.antt =====
-- The two loops of `decode` (src/core/encoding/hex.cpp).
use Prim.Native.Nat.{bit_or}
use znode.Common.{
  ℕ, zero, suc, ◌<◌, ◌≡◌, refl, ap, ◌∙◌, arith, Bool, true, false, ◌||◌, not, sym, List, [], ◌∷◌,
  ◌==◌, if◌then◌else◌, failure,
}
use znode.Common.Ranges.{each_under, each_under-holds}
use znode.Encoding.Hex.{
  EncodingError, unhex, unhex4, Decoded, put_byte, decode_pairs, decode_rounds,
}
use znode.Encoding.Hex.Digits.{
  nibble, nibble-bound, unhex_lem, unhex4_lem, low_at-bad, high_at-bad, join, join-bound,
  low_at-join, high_at-join,
}

-- `c` is no digit.
unfoldable pub bad : ℕ → Bool
unfolding nibble
bad c = nibble c == 16

pub unhex-bad : (c : ℕ) → (unhex c == 0xff) ≡ bad c
unfolding bad
unhex-bad c = ap (λ x. x == 0xff) (unhex_lem c) ∙ low_at-bad (nibble c) (nibble-bound c)

pub unhex4-bad : (c : ℕ) → (unhex4 c == 0xff) ≡ bad c
unfolding bad
unhex4-bad c = ap (λ x. x == 0xff) (unhex4_lem c) ∙ high_at-bad (nibble c) (nibble-bound c)

same : Bool → Bool → Bool
same true b = b
same false b = not b

same_sound : (a b : Bool) → same a b ≡ true → a ≡ b
unfolding same
same_sound true b h = sym h
same_sound false true h = h
same_sound false false h = refl

join_test : ℕ → ℕ → Bool
unfolding join same
join_test i j = same (join i j == 16) ((i == 16) || (j == 16))

join_tests : each_under (λ i. each_under (join_test i) 17) 17 ≡ true
unfolding each_under join_test
join_tests = refl

join_bad : (i j : ℕ) → i < 17 → j < 17 → (join i j == 16) ≡ ((i == 16) || (j == 16))
unfolding join_test
join_bad i j p q = same_sound _ _ (
    each_under-holds (join_test i) 17 j
      (each_under-holds (λ n. each_under (join_test n) 17) 17 i join_tests p) q)

module _ (b d f h : ℕ) where
  -- The nibbles of four characters put together.
  all_joined : ℕ
  unfolding join
  all_joined = join (join (join (nibble b) (nibble d)) (nibble f)) (nibble h)

  bound2 : join (nibble b) (nibble d) < 17
  bound2 = join-bound _ _ (nibble-bound b) (nibble-bound d)

  bound3 : join (join (nibble b) (nibble d)) (nibble f) < 17
  bound3 = join-bound _ _ bound2 (nibble-bound f)

  all_joined-bad : (all_joined == 16) ≡ (((bad b || bad d) || bad f) || bad h)
  unfolding all_joined bad
  all_joined-bad =
      join_bad _ _ bound3 (nibble-bound h)
      ∙ ap (λ x. x || bad h)
          (join_bad _ _ bound2 (nibble-bound f)
            ∙ ap (λ x. x || bad f) (join_bad _ _ (nibble-bound b) (nibble-bound d)))

  -- One comparison for four characters, of either table.
  low_test :
      (bit_or (bit_or (bit_or (unhex b) (unhex d)) (unhex f)) (unhex h) == 0xff)
      ≡ (((bad b || bad d) || bad f) || bad h)
  unfolding all_joined
  low_test =
      rw
        (
          unhex_lem b,
          unhex_lem d,
          unhex_lem f,
          unhex_lem h,
          low_at-join _ _ (nibble-bound b) (nibble-bound d),
          low_at-join _ _ bound2 (nibble-bound f),
          low_at-join _ _ bound3 (nibble-bound h),
          low_at-bad all_joined (join-bound _ _ bound3 (nibble-bound h)),
        )
        all_joined-bad

  high_test :
      (bit_or (bit_or (bit_or (unhex4 b) (unhex4 d)) (unhex4 f)) (unhex4 h) == 0xff)
      ≡ (((bad b || bad d) || bad f) || bad h)
  unfolding all_joined
  high_test =
      rw
        (
          unhex4_lem b,
          unhex4_lem d,
          unhex4_lem f,
          unhex4_lem h,
          high_at-join _ _ (nibble-bound b) (nibble-bound d),
          high_at-join _ _ bound2 (nibble-bound f),
          high_at-join _ _ bound3 (nibble-bound h),
          high_at-bad all_joined (join-bound _ _ bound3 (nibble-bound h)),
        )
        all_joined-bad

regroup :
    (a b c d e f g h : Bool)
    → ((((b || d) || f) || h) || (((a || c) || e) || g))
      ≡ ((a || b) || ((c || d) || ((e || f) || (g || h))))
regroup a b c d e f g h = ground arith

abbrev bad_digit : Decoded
bad_digit = failure EncodingError.illegal_hex_digit

-- The test before the four bytes, or one before each of them.
gates :
    (p q r s : Bool) (w x y z : ℕ) (others : Decoded)
    → (if p || (q || (r || s))
        then bad_digit
        else put_byte w (put_byte x (put_byte y (put_byte z others))))
      ≡ (if p
          then bad_digit
          else put_byte w (
              if q
              then bad_digit
              else put_byte x (
                  if r
                  then bad_digit
                  else put_byte y (if s then bad_digit else put_byte z others))))
unfolding put_byte
gates true q r s w x y z others = refl
gates false true r s w x y z others = refl
gates false false true s w x y z others = refl
gates false false false true w x y z others = refl
gates false false false false w x y z others = refl

-- Any number of rounds of the unrolled loop, the loop over pairs behind them, gives what the loop
-- over pairs gives alone.
pub decode_rounds-decode_pairs : (n : ℕ) (text : List ℕ) → decode_rounds n text ≡ decode_pairs text
unfolding decode_rounds decode_pairs
decode_rounds-decode_pairs zero text = refl
decode_rounds-decode_pairs (suc n) [] = refl
decode_rounds-decode_pairs (suc n) (a ∷ []) = refl
decode_rounds-decode_pairs (suc n) (a ∷ b ∷ []) = refl
decode_rounds-decode_pairs (suc n) (a ∷ b ∷ c ∷ []) = refl
decode_rounds-decode_pairs (suc n) (a ∷ b ∷ c ∷ d ∷ []) = refl
decode_rounds-decode_pairs (suc n) (a ∷ b ∷ c ∷ d ∷ e ∷ []) = refl
decode_rounds-decode_pairs (suc n) (a ∷ b ∷ c ∷ d ∷ e ∷ f ∷ []) = refl
decode_rounds-decode_pairs (suc n) (a ∷ b ∷ c ∷ d ∷ e ∷ f ∷ g ∷ []) = refl
decode_rounds-decode_pairs (suc n) (a ∷ b ∷ c ∷ d ∷ e ∷ f ∷ g ∷ h ∷ rest) =
    rw
      (
        low_test b d f h,
        high_test a c e g,
        decode_rounds-decode_pairs n rest,
        regroup (bad a) (bad b) (bad c) (bad d) (bad e) (bad f) (bad g) (bad h),
        unhex-bad b,
        unhex-bad d,
        unhex-bad f,
        unhex-bad h,
        unhex4-bad a,
        unhex4-bad c,
        unhex4-bad e,
        unhex4-bad g,
      )
      (gates (bad a || bad b) (bad c || bad d) (bad e || bad f) (bad g || bad h) _ _ _ _ _)
