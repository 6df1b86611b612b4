-- ===== src/Network/AddressBook/Order.antt =====
-- The random order of the identifiers of an address book (src/infra/network/addressbook.cpp): what
-- `swap_randomly_ordered_ids`, `push_back` and `pop_back` do to it. `R` reads the vector, and `P` the
-- entries' `random_pos_`.
use znode.Common.{ℕ, suc, ◌<◌, ◌≡◌, ◌≢◌, ◌↔◌, arith, Option, some, none, ltb, ◌==◌, if◌then◌else◌}

abbrev pub Inverse : (ℕ → Option ℕ) → (ℕ → Option ℕ) → Type 0
Inverse R P = (i k : ℕ) → (R i ≡ some k) ↔ (P k ≡ some i)

module _ {R P R' P' : ℕ → Option ℕ} (o : Inverse R P) where
  pub swap-Inverse :
      (i j p q : ℕ)
      → i ≢ j
      → R i ≡ some p
      → R j ≡ some q
      → ((k : ℕ) → R' k ≡ (if j == k then some p else if i == k then some q else R k))
      → ((k : ℕ) → P' k ≡ (if q == k then some i else if p == k then some j else P k))
      → Inverse R' P'
  swap-Inverse i j p q apart at_i at_j r s t k =
      ground (arith, o t k, o i p, o j q, o i q, o i k, o j k, o t p, o t q, r t, s k)

  pub pop-Inverse :
      (n id : ℕ)
      → R n ≡ some id
      → ((k : ℕ) → R' k ≡ (if ltb k n then R k else none))
      → ((k : ℕ) → P' k ≡ (if id == k then none else P k))
      → ((i k : ℕ) → R i ≡ some k → i < suc n)
      → Inverse R' P'
  pop-Inverse n id last r s below t k =
      ground (arith, o t k, o n id, o t id, o n k, r t, s k, below t k)

  pub push-Inverse :
      (n id : ℕ)
      → P id ≡ none
      → ((k : ℕ) → R' k ≡ (if n == k then some id else R k))
      → ((k : ℕ) → P' k ≡ (if id == k then some n else P k))
      → ((i k : ℕ) → R i ≡ some k → i < n)
      → Inverse R' P'
  push-Inverse n id fresh r s below t k =
      ground (arith, o t k, o n id, o t id, o n k, r t, s k, below t k)
