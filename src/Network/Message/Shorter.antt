-- ===== src/Network/Message/Shorter.antt =====
-- `Message::write` takes input (src/infra/network/message.cpp).
use znode.Common.{
  ℕ, zero, suc, ◌≤◌, arith, Bool, true, false, List, [], ◌∷◌, length, length-drop, drop, success,
  failure, Bool-cases, inl, inr,
}
use znode.Errors.{is_incomplete}
use znode.Stream.Defs.{Status, DataStream}
use znode.Network.Header.{External}
use znode.Network.Message.Defs.{Message, returned, aborted, Ended, is_complete, validate}
use znode.Network.Message.Write.{
  Written, written, stuck, bytes_to_read, after_validate, after_write, write_loop, write_message,
}
use znode.Network.Message.Progress.{InProgress}
use znode.Network.Message.Receive.{wanted_some, bytes_to_read-wanted}

-- Where a message is complete, at most `most` bytes of input are left.
abbrev pub Leaves : ℕ → Written → Type 0
Leaves most stuck = Unit {0}
Leaves most (written aborted m rest) = Unit {0}
Leaves most (written (returned (failure e)) m rest) = Unit {0}
Leaves most (written (returned (success u)) m rest) = length rest ≤ most

module _ (x : External) where
  incomplete_end :
      (most : ℕ) (again : Status → Message → List ℕ → Written) (r : Status) (m : Message)
      (rest : List ℕ) (b : Bool)
      → Leaves most (again r m rest)
      → Leaves most (written (returned r) m rest)
      → Leaves most (elim b [ true ↦ again r m rest | false ↦ written (returned r) m rest ])
  incomplete_end most again r m rest true h k = h
  incomplete_end most again r m rest false h k = k

  validated-Leaves :
      (most : ℕ) (again : Status → Message → List ℕ → Written) (rest : List ℕ) (ended : Ended)
      → length rest ≤ most
      → ((s : Status) (m : Message) → Leaves most (again s m rest))
      → Leaves most (after_validate again rest ended)
  unfolding after_validate
  validated-Leaves most again rest (aborted, m) h k = tt
  validated-Leaves most again rest (returned (success u), m) h k = h
  validated-Leaves most again rest (returned (failure e), m) h k =
      incomplete_end most again (failure e) m rest (is_incomplete e) (k (failure e) m) tt

  round-Leaves :
      (most : ℕ) (again : Status → Message → List ℕ → Written) (input : List ℕ) (n : ℕ)
      (m : Message) (r : Status × DataStream)
      → length (drop n input) ≤ most
      → ((s : Status) (m' : Message) → Leaves most (again s m' (drop n input)))
      → Leaves most (after_write x again input n m r)
  unfolding after_write
  round-Leaves most again input n m (failure e, base) h k = tt
  round-Leaves most again input n m (success u, base) h k =
      validated-Leaves most again (drop n input)
        (validate x (record m { ser_stream = record m.ser_stream { base = base } })) h k

  -- The loop gives no input back.
  loop-Leaves :
      (fuel : ℕ) (last : Status) (m : Message) (input : List ℕ) (most : ℕ)
      → length input ≤ most
      → Leaves most (write_loop x fuel last m input)
  unfolding write_loop
  loop-Leaves fuel (success u) m [] most h = omega arith
  loop-Leaves fuel (failure e) m [] most h = tt
  loop-Leaves zero last m (b ∷ bs) most h = tt
  loop-Leaves (suc fuel) last m (b ∷ bs) most h =
      let n = bytes_to_read m (b ∷ bs) in
      let left : length (drop n (b ∷ bs)) ≤ most = omega (arith, length-drop n (b ∷ bs)) in
      round-Leaves most (write_loop x fuel) (b ∷ bs) n m _ left
        λ s m'. loop-Leaves fuel s m' (drop n (b ∷ bs)) most left

  -- A message in progress is completed with a byte of the input at least.
  pub write_message-Leaves :
      (m : Message) (p : InProgress m) (b : ℕ) (bs : List ℕ)
      → Leaves (length bs) (write_message x m (b ∷ bs))
  unfolding write_message write_loop
  write_message-Leaves m p b bs =
      let n = bytes_to_read m (b ∷ bs) in
      let some = wanted_some m p in
      let count = bytes_to_read-wanted m p (b ∷ bs) in
      let left : length (drop n (b ∷ bs)) ≤ length bs =
        omega (arith, length-drop n (b ∷ bs), some, count) in
      elim (Bool-cases (is_complete m)) [
        | inl whole ↦ rw (whole) tt
        | inr part ↦ rw (part) (
            round-Leaves (length bs) (write_loop x (length bs)) (b ∷ bs) n m _ left
              λ s m'. loop-Leaves (length bs) s m' (drop n (b ∷ bs)) (length bs) left)
      ]
