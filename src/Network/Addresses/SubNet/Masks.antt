-- ===== src/Network/Addresses/SubNet/Masks.antt =====
-- The masks of `IPSubNet` (src/infra/network/addresses.cpp).
use Prim.Native.Nat.{ℕ, zero, suc, ◌+◌, ◌*◌, ◌/◌, ◌%◌, ◌≤◌, min, bit_and, digits, bit_and-bitwise}
use znode.Common.{◌≡◌, refl, sym, ◌∙◌, arith}

-- The binary digits of `x` met with those of `y`, in a number of steps.
abbrev met : ℕ → ℕ → ℕ → ℕ
met steps x y = digits (λ y'. zero) min steps x y

met-zero : (steps y : ℕ) → met steps 0 y ≡ 0
met-zero zero y = refl
met-zero (suc steps) y = refl

-- As many steps as `x` is large are enough.
met-enough : (x y i j : ℕ) → x ≤ i → x ≤ j → met i x y ≡ met j x y
met-enough zero y i j p q = met-zero i y ∙ sym (met-zero j y)
met-enough (suc x) y zero j p q = absurd (omega arith)
met-enough (suc x) y (suc i) zero p q = absurd (omega arith)
met-enough (suc x) y (suc i) (suc j) p q =
    let rest = met-enough (suc x / 2) (y / 2) i j (omega arith) (omega arith) in omega (arith, rest)

nothing : (b : ℕ) → bit_and 0 b ≡ 0
nothing b = bit_and-bitwise 0 b

halves : (a b : ℕ) → bit_and a b ≡ 2 * bit_and (a / 2) (b / 2) + min (a % 2) (b % 2)
halves zero b = omega (arith, nothing b, nothing (b / 2))
halves (suc a) b =
    let whole = bit_and-bitwise (suc a) b in
    let half = bit_and-bitwise (suc a / 2) (b / 2) in
    let rest = met-enough (suc a / 2) (b / 2) a (suc a / 2) (omega arith) (omega arith) in
    omega (arith, whole, half, rest)

below : (fuel a b : ℕ) → a ≤ fuel → bit_and a b ≤ a
below fuel zero b h = omega (arith, nothing b)
below zero (suc a) b h = absurd (omega arith)
below (suc fuel) (suc a) b h =
    omega (arith, halves (suc a) b, below fuel (suc a / 2) (b / 2) (omega arith))

-- A number under a mask does not grow.
pub bit_and-bound : (a b : ℕ) → bit_and a b ≤ a
bit_and-bound a b = below a a b (omega arith)

commutes : (fuel a b : ℕ) → a ≤ fuel → b ≤ fuel → bit_and a b ≡ bit_and b a
commutes zero zero zero p q = refl
commutes zero zero (suc b) p q = absurd (omega arith)
commutes zero (suc a) b p q = absurd (omega arith)
commutes (suc fuel) a b p q =
    omega (arith, halves a b, halves b a, commutes fuel (a / 2) (b / 2) (omega arith) (omega arith))

pub bit_and_comm : (a b : ℕ) → bit_and a b ≡ bit_and b a
bit_and_comm a b = commutes (a + b) a b (omega arith) (omega arith)
