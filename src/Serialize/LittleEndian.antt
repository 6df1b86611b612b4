-- ===== src/Serialize/LittleEndian.antt =====
-- Numbers and their bytes, lowest first.
use znode.Common.{
  ℕ, zero, suc, ◌+◌, ◌*◌, ◌/◌, ◌%◌, ◌^◌, ◌<◌, ◌≤◌, ◌≡◌, refl, ap, arith, List, [], ◌∷◌, length,
  take, All,
}
use znode.Common.Words.{IsByte}
use znode.Serialize.Defs.{le_bytes, le_value}
use native.Mathlib.Nat.{pow-suc}

pub length-le_bytes : (w n : ℕ) → length (le_bytes w n) ≡ w
unfolding le_bytes
length-le_bytes zero n = refl
length-le_bytes (suc w) n = ap suc (length-le_bytes w (n / 256))

pub le_bytes-IsByte : (w n : ℕ) → All IsByte (le_bytes w n)
unfolding le_bytes
le_bytes-IsByte zero n = tt
le_bytes-IsByte (suc w) n = (omega arith, le_bytes-IsByte w (n / 256))

pub take-le_bytes : (v w n : ℕ) → v ≤ w → take v (le_bytes w n) ≡ le_bytes v n
unfolding le_bytes
take-le_bytes zero w n h = refl
take-le_bytes (suc v) zero n h = absurd (omega arith)
take-le_bytes (suc v) (suc w) n h = ap (◌∷◌ (n % 256)) (take-le_bytes v w (n / 256) (omega arith))

pow_256 : (w : ℕ) → 256 ^ suc w ≡ 256 * 256 ^ w
pow_256 w = omega (arith, pow-suc 256 w)

pub le_value-le_bytes : (w n : ℕ) → n < 256 ^ w → le_value (le_bytes w n) ≡ n
unfolding le_bytes le_value
le_value-le_bytes zero n h = omega arith
le_value-le_bytes (suc w) n h =
    omega (arith, le_value-le_bytes w (n / 256) (omega (arith, pow_256 w)))

pub le_bytes-le_value :
    (bytes : List ℕ) → All IsByte bytes → le_bytes (length bytes) (le_value bytes) ≡ bytes
unfolding le_bytes le_value
le_bytes-le_value [] h = refl
le_bytes-le_value (b ∷ bs) (hb, hbs) =
    let low : (b + 256 * le_value bs) % 256 ≡ b = omega arith in
    let high : (b + 256 * le_value bs) / 256 ≡ le_value bs = omega arith in
    rw (low, high) (ap (◌∷◌ b) (le_bytes-le_value bs hbs))

pub le_value-lt : (bytes : List ℕ) → All IsByte bytes → le_value bytes < 256 ^ length bytes
unfolding le_value
le_value-lt [] h = omega arith
le_value-lt (b ∷ bs) (hb, hbs) = omega (arith, le_value-lt bs hbs, pow_256 (length bs))
