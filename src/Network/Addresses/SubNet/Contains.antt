-- ===== src/Network/Addresses/SubNet/Contains.antt =====
-- `IPSubNet::contains` against `IPSubNet::calculate_subnet_base_address`
-- (src/infra/network/addresses.cpp).
use Prim.Native.Nat.{bit_and}
use znode.Common.{
  ℕ, zero, suc, ◌+◌, ◌/◌, ◌%◌, ◌^◌, ◌<◌, ◌≤◌, ◌≡◌, ◌↔◌, refl, ap, sym, ◌∙◌, arith, Bool, true,
  false, not, List, [], ◌∷◌, length, Outcome, success, failure, get_or, drop, All, if◌then◌else◌,
  ltb, ◌==◌, ==_iff, ltb-false, leb→le, Bool-cases, inl, inr,
}
use znode.Common.Words.{IsByte}
use znode.Common.Bytes.{and_true}
use znode.Network.Addresses.{
  Address, v4, v6, IpLibrary, IsIpLibrary, is_v4, is_loopback, is_unspecified,
}
use znode.Network.Addresses.SubNet.{
  SubNetError, IpSubNet, v4_mask, mask_byte, mask_bytes, match_bytes, split_bytes, is_valid_subnet,
  contains, contains_bytes, calculate_subnet_base_address,
}
use znode.Network.Addresses.SubNet.Masks.{bit_and-bound, bit_and_comm}

-- The bytes of an address, as many as its version has.
unfoldable pub IsAddress : Address → Type 0
IsAddress (v4 bytes) = (length bytes ≡ 4) × All IsByte bytes
IsAddress (v6 bytes) = (length bytes ≡ 16) × All IsByte bytes

split-injective : (m n : ℕ) → m < 2 ^ 32 → n < 2 ^ 32 → split_bytes m ≡ split_bytes n → m ≡ n
unfolding split_bytes
split-injective m n p q e =
    let e0 = ap (λ xs. get_or xs 0 0) e in
    let e1 = ap (λ xs. get_or xs 1 0) e in
    let e2 = ap (λ xs. get_or xs 2 0) e in let e3 = ap (λ xs. get_or xs 3 0) e in omega arith

drop_end : (n : ℕ) (xs : List ℕ) → length xs ≤ n → drop n xs ≡ []
drop_end zero [] h = refl
drop_end zero (x ∷ xs) h = absurd (omega arith)
drop_end (suc n) [] h = refl
drop_end (suc n) (x ∷ xs) h = drop_end n xs (omega arith)

drop_next : (n : ℕ) (xs : List ℕ) → n < length xs → drop n xs ≡ get_or xs n 0 ∷ drop (suc n) xs
drop_next zero [] h = absurd (omega arith)
drop_next zero (x ∷ xs) h = refl
drop_next (suc n) [] h = absurd (omega arith)
drop_next (suc n) (x ∷ xs) h = drop_next n xs (omega arith)

both :
    (test rest : Bool) → (if not test then false else rest) ≡ true → (test ≡ true) × (rest ≡ true)
both true rest h = (refl, h)
both false rest h = cc

-- The bytes of a result.
result_bytes : Outcome SubNetError Address → List ℕ
result_bytes (success (v4 bytes)) = bytes
result_bytes (success (v6 bytes)) = bytes
result_bytes (failure e) = []

-- The comparing loop and the masking loop, on a base of as many bytes.
matches :
    (prefix index : ℕ) (bytes base : List ℕ)
    → index + length bytes ≡ length base
    → match_bytes prefix index bytes base ≡ true
    → mask_bytes prefix index bytes ≡ drop index base
unfolding match_bytes mask_bytes
matches prefix index [] base h e = sym (drop_end index base (omega arith))
matches prefix index (b ∷ bs) base h e =
    let (same, rest) = both (bit_and b (mask_byte prefix index) == get_or base index 0) _ e in
    rw (
      drop_next index base (omega arith),
      (==_iff _ _).0 same,
      matches prefix (suc index) bs base (omega arith) rest,
    )

masked :
    (prefix index : ℕ) (bytes base : List ℕ)
    → index + length bytes ≡ length base
    → mask_bytes prefix index bytes ≡ drop index base
    → match_bytes prefix index bytes base ≡ true
unfolding match_bytes mask_bytes
masked prefix index [] base h e = refl
masked prefix index (b ∷ bs) base h e =
    let list = e ∙ drop_next index base (omega arith) in
    let byte = ap (λ xs. get_or xs 0 0) list in
    let rest = masked prefix (suc index) bs base (omega arith) (ap (λ xs. drop 1 xs) list) in
    rw ((==_iff _ _).1 byte) rest

module _ (lib : IpLibrary) (good : IsIpLibrary lib) where
  -- Four bytes and their number.
  number :
      (xs : List ℕ)
      → IsAddress (v4 xs)
      → (split_bytes (lib.to_uint xs) ≡ xs) × (lib.to_uint xs < 2 ^ 32)
  unfolding IsAddress split_bytes
  number [] (n, h) = absurd (omega arith)
  number (a ∷ []) (n, h) = absurd (omega arith)
  number (a ∷ b ∷ []) (n, h) = absurd (omega arith)
  number (a ∷ b ∷ c ∷ []) (n, h) = absurd (omega arith)
  number (a ∷ b ∷ c ∷ d ∷ []) (n, (ha, (hb, (hc, (hd, u))))) =
      let e = good.uint a b c d in
      let e0 : lib.to_uint (a ∷ b ∷ c ∷ d ∷ []) / 2 ^ 24 % 256 ≡ a = omega arith in
      let e1 : lib.to_uint (a ∷ b ∷ c ∷ d ∷ []) / 2 ^ 16 % 256 ≡ b = omega arith in
      let e2 : lib.to_uint (a ∷ b ∷ c ∷ d ∷ []) / 2 ^ 8 % 256 ≡ c = omega arith in
      let e3 : lib.to_uint (a ∷ b ∷ c ∷ d ∷ []) % 256 ≡ d = omega arith in (cc, omega arith)
  number (a ∷ b ∷ c ∷ d ∷ e ∷ rest) (n, h) = absurd (omega arith)

  v4_same :
      (base bytes : List ℕ) (prefix : ℕ)
      → IsAddress (v4 base)
      → IsAddress (v4 bytes)
      → (contains_bytes lib (v4 base) prefix (v4 bytes) ≡ true)
        ↔ (split_bytes (bit_and (v4_mask prefix) (lib.to_uint bytes)) ≡ base)
  unfolding contains_bytes
  v4_same base bytes prefix h k =
      let (base_split, base_small) = number base h in
      let (bytes_split, bytes_small) = number bytes k in
      let a = lib.to_uint bytes in
      let mask = v4_mask prefix in
      let bound = bit_and-bound a mask in
      let swap = bit_and_comm mask a in
      (
        (λ e. ap split_bytes (swap ∙ (==_iff _ _).0 e) ∙ base_split),
        (λ e. (==_iff _ _).1 (
            split-injective (bit_and a mask) (lib.to_uint base) (omega arith) base_small
              (ap split_bytes (sym swap) ∙ (e ∙ sym base_split)))),
      )

  -- A valid subnet, by its version.
  same_base :
      (base a : Address) (prefix : ℕ)
      → IsAddress base
      → IsAddress a
      → prefix ≤ (if is_v4 base then 32 else 128)
      → (contains_bytes lib base prefix a ≡ true)
        ↔ (calculate_subnet_base_address lib a prefix ≡ success base)
  unfolding contains_bytes calculate_subnet_base_address is_v4 IsAddress result_bytes
  same_base (v4 base) (v4 bytes) prefix h k small =
      let (to, back) = v4_same base bytes prefix h k in
      rw (ltb-false 32 prefix small)
        ((λ e. ap (λ x. success (v4 x)) (to e)), (λ e. back (ap result_bytes e)))
  same_base (v4 base) (v6 bytes) prefix h k small =
      rw (ltb-false 128 prefix (omega arith)) ((λ e. cc), (λ e. cc))
  same_base (v6 base) (v4 bytes) prefix h k small = elim (Bool-cases (ltb 32 prefix)) [
    | inl wide ↦ rw (wide) ((λ e. cc), (λ e. cc))
    | inr fits ↦ rw (fits) ((λ e. cc), (λ e. cc))
  ]
  same_base (v6 base) (v6 bytes) prefix h k small = rw (ltb-false 128 prefix small) (
    (λ e. ap (λ x. success (v6 x)) (matches prefix 0 bytes base (omega (arith, h.0, k.0)) e)),
    (λ e. masked prefix 0 bytes base (omega (arith, h.0, k.0)) (ap result_bytes e)),
  )

  -- With Boost giving the number of four bytes in network order, a valid subnet contains a
  -- well-formed address that is neither unspecified nor loopback just if the base address
  -- calculated from the address and the prefix is the subnet base.
  pub contains-calculate_subnet_base_address :
      (n : IpSubNet) (a : Address)
      → IsAddress n.base_address
      → IsAddress a
      → is_valid_subnet lib n ≡ true
      → is_unspecified lib a ≡ false
      → is_loopback lib a ≡ false
      → (contains lib n a ≡ true)
        ↔ (calculate_subnet_base_address lib a n.prefix_length ≡ success n.base_address)
  unfolding contains is_valid_subnet
  contains-calculate_subnet_base_address n a h k valid specified outer =
      let (base_valid, prefix_valid) = and_true _ _ valid in
      let small = leb→le _ _ ((and_true _ _ prefix_valid).1) in
      rw (valid, specified, outer) (same_base n.base_address a n.prefix_length h k small)
