-- ===== src/Encoding/Hex/Digits.antt =====
-- The two tables of src/core/encoding/hex.cpp. Both map a character to its nibble, the second one
-- shifted by four, and a character that is no digit to 0xff.
use Prim.Native.Nat.{bit_or}
use znode.Common.{
  ℕ, ◌*◌, ◌%◌, ◌<◌, ◌≡◌, refl, Bool, true, ◌&&◌, ◌||◌, get_or, ltb, ◌==◌, ==_iff, ltb→lt, arith,
  if◌then◌else◌,
}
use znode.Common.Bytes.{and_true}
use znode.Common.Ranges.{each_under, each_under-holds}
use znode.Encoding.Hex.{unhex, unhex4, unhex_table, unhex_table4}

-- The entries of both tables for the nibble `i`; 16 stands for a character that is no digit.
abbrev pub low_at : ℕ → ℕ
low_at i = if i == 16 then 0xff else i

abbrev pub high_at : ℕ → ℕ
high_at i = if i == 16 then 0xff else 16 * i

nibble_at : ℕ → ℕ
nibble_at n = if get_or unhex_table n 0xff == 0xff then 16 else get_or unhex_table n 0xff

-- The nibble of a character, 16 where it is none.
unfoldable pub nibble : ℕ → ℕ
unfolding nibble_at
nibble c = nibble_at (c % 256)

row : ℕ → Bool
unfolding nibble_at
row n =
    ltb (nibble_at n) 17
    && ((get_or unhex_table n 0xff == low_at (nibble_at n))
        && (get_or unhex_table4 n 0xff == high_at (nibble_at n)))

rows : each_under row 256 ≡ true
unfolding each_under row nibble_at unhex_table unhex_table4
rows = refl

pub nibble-bound : (c : ℕ) → nibble c < 17
unfolding nibble row
nibble-bound c =
    let h = each_under-holds row 256 (c % 256) rows (omega arith) in ltb→lt _ _ (and_true _ _ h).0

pub unhex_lem : (c : ℕ) → unhex c ≡ low_at (nibble c)
unfolding nibble unhex row
unhex_lem c =
    let h = each_under-holds row 256 (c % 256) rows (omega arith) in
    (==_iff _ _).0 ((and_true _ _ (and_true _ _ h).1).0)

pub unhex4_lem : (c : ℕ) → unhex4 c ≡ high_at (nibble c)
unfolding nibble unhex4 row
unhex4_lem c =
    let h = each_under-holds row 256 (c % 256) rows (omega arith) in
    (==_iff _ _).0 ((and_true _ _ (and_true _ _ h).1).1)

-- The nibble of the two entries put together by `|`.
unfoldable pub join : ℕ → ℕ → ℕ
join i j = if (i == 16) || (j == 16) then 16 else bit_or i j

join_row : ℕ → ℕ → Bool
unfolding join
join_row i j =
    (ltb (join i j) 17 && (bit_or (low_at i) (low_at j) == low_at (join i j)))
    && (bit_or (high_at i) (high_at j) == high_at (join i j))

join_rows : each_under (λ i. each_under (join_row i) 17) 17 ≡ true
unfolding each_under join_row join
join_rows = refl

join_at : (i j : ℕ) → i < 17 → j < 17 → join_row i j ≡ true
join_at i j p q =
    each_under-holds (join_row i) 17 j
      (each_under-holds (λ n. each_under (join_row n) 17) 17 i join_rows p) q

pub join-bound : (i j : ℕ) → i < 17 → j < 17 → join i j < 17
unfolding join_row
join-bound i j p q = ltb→lt _ _ (and_true _ _ (and_true _ _ (join_at i j p q)).0).0

pub low_at-join : (i j : ℕ) → i < 17 → j < 17 → bit_or (low_at i) (low_at j) ≡ low_at (join i j)
unfolding join_row
low_at-join i j p q = (==_iff _ _).0 (and_true _ _ (and_true _ _ (join_at i j p q)).0).1

pub high_at-join : (i j : ℕ) → i < 17 → j < 17 → bit_or (high_at i) (high_at j) ≡ high_at (join i j)
unfolding join_row
high_at-join i j p q = (==_iff _ _).0 (and_true _ _ (join_at i j p q)).1

-- A nibble is bad where it stands for a character that is no digit.
pub low_at-bad : (i : ℕ) → i < 17 → (low_at i == 0xff) ≡ (i == 16)
low_at-bad i h = ground arith

pub high_at-bad : (i : ℕ) → i < 17 → (high_at i == 0xff) ≡ (i == 16)
high_at-bad i h = ground arith
