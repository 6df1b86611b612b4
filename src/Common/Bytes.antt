-- ===== src/Common/Bytes.antt =====
-- Byte strings: their comparison, and the bytes of a text.
use Prim.Native.Nat.{ℕ, compare, Ordering}
use Prim.Native.Char.{code}
use Prim.Native.String.{String}
use mathlib.Core.Path.{◌≡◌, refl, ap₂}
use mathlib.Core.Bool.{Bool, true, false, ◌&&◌}
use mathlib.Core.List.{List, [], ◌∷◌}
use native.Mathlib.Omega.{arith}

-- The code points of a text: its bytes, since every text here is ASCII.
abbrev pub codes : String → List ℕ
codes String.[] = []
codes (String.◌∷◌ c s) = code c ∷ codes s

byte_eq : ℕ → ℕ → Bool
byte_eq a b = elim (compare a b) [ Ordering.eq ↦ true | _ ↦ false ]

byte_eq_refl : (a : ℕ) → byte_eq a a ≡ true
unfolding byte_eq
byte_eq_refl a = ground arith

byte_eq→eq : (a b : ℕ) → byte_eq a b ≡ true → a ≡ b
unfolding byte_eq
byte_eq→eq a b h = ground arith

-- `memcmp(...) == 0` on strings of one length, `==` on strings.
unfoldable pub bytes_eq : List ℕ → List ℕ → Bool
unfolding byte_eq
bytes_eq [] [] = true
bytes_eq [] (y ∷ ys) = false
bytes_eq (x ∷ xs) [] = false
bytes_eq (x ∷ xs) (y ∷ ys) = byte_eq x y && bytes_eq xs ys

pub bytes_eq_refl : (xs : List ℕ) → bytes_eq xs xs ≡ true
unfolding bytes_eq
bytes_eq_refl [] = refl
bytes_eq_refl (x ∷ xs) = rw (byte_eq_refl x, bytes_eq_refl xs)

pub and_true : (a b : Bool) → a && b ≡ true → (a ≡ true) × (b ≡ true)
and_true true b h = (refl, h)
and_true false b h = cc

pub bytes_eq→eq : (xs ys : List ℕ) → bytes_eq xs ys ≡ true → xs ≡ ys
unfolding bytes_eq
bytes_eq→eq [] [] h = refl
bytes_eq→eq [] (y ∷ ys) h = cc
bytes_eq→eq (x ∷ xs) [] h = cc
bytes_eq→eq (x ∷ xs) (y ∷ ys) h =
    let (hx, hxs) = and_true (byte_eq x y) (bytes_eq xs ys) h in
    ap₂ ◌∷◌ (byte_eq→eq x y hx) (bytes_eq→eq xs ys hxs)
