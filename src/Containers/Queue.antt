-- ===== src/Containers/Queue.antt =====
-- `UniqueQueue` of src/infra/concurrency/unique_queue.hpp. The mutex makes every member atomic; the
-- condition variable has no waiter in the class.
use znode.Common.{
  ℕ, ◌≤◌, ◌<◌, ◌≡◌, refl, sym, ◌∙◌, arith, Bool, true, false, List, [], ◌∷◌, ◌++◌, length,
  length-append, Option, some, none, if◌then◌else◌, ◌==◌, ltb, Bool-cases, inl, inr, lt→ltb,
  ltb-false, ==_iff,
}
use znode.Containers.Keys.{contains, remove, IsEquality, eq_comm_false, or_false}
use znode.Containers.Capped
use znode.Containers.Capped.{CappedSet, IsCapped, evict_front, make_room, add_item}

pub record UniqueQueue (A : Type 0) : Type 0 where
  pub capacity : ℕ
  pub queue : List A
  pub set : List A

-- The same container as a `CappedSet`.
abbrev pub as_capped : {A : Type 0} → UniqueQueue A → CappedSet A
as_capped s = record { capacity = s.capacity; items = s.set; items_queue = s.queue }

module _ {A : Type 0} (eq : A → A → Bool) where
  unfoldable pub drop_front : UniqueQueue A → List A → UniqueQueue A
  unfolding remove
  drop_front s [] = s
  drop_front s (front ∷ others) = record s { queue = others; set = remove eq front s.set }

  -- The new item is queued first, then the front leaves if there are too many.
  unfoldable pub push : UniqueQueue A → A → Bool × UniqueQueue A
  unfolding contains drop_front
  push s item =
      if contains eq item s.set
      then (false, s)
      else let longer : UniqueQueue A = record s {
        queue = s.queue ++ item ∷ [];
        set = item ∷ s.set;
      } in
        (
          true,
          if ltb s.capacity (length longer.queue) then drop_front longer longer.queue else longer,
        )

  unfoldable pub pop : UniqueQueue A → Option A × UniqueQueue A
  unfolding remove
  pop s = elim s.queue [
    | [] ↦ (none, s)
    | item ∷ others ↦ (some item, record s { queue = others; set = remove eq item s.set })
  ]

  unfoldable pub clear : UniqueQueue A → UniqueQueue A
  clear s = record s { queue = []; set = [] }

module _ {A : Type 0} (eq : A → A → Bool) (laws : IsEquality eq) where
  pushed :
      (s : UniqueQueue A) (item : A) (queue : List A)
      → IsCapped eq (as_capped s)
      → contains eq item queue ≡ false
      → 1 ≤ length queue
      → as_capped (
          drop_front eq
            (record s { queue = s.queue ++ item ∷ []; set = item ∷ s.set })
            (queue ++ item ∷ []))
        ≡ add_item eq (evict_front eq (as_capped s) queue) item
  unfolding drop_front add_item evict_front contains remove
  pushed s item [] v absent h = absurd (omega arith)
  pushed s item (front ∷ others) v absent h =
      let (apart, rest) = or_false (eq front item) (contains eq item others) absent in
      rw (eq_comm_false eq laws front item apart) refl

  abbrev longer : UniqueQueue A → A → UniqueQueue A
  longer s item = record s { queue = s.queue ++ item ∷ []; set = item ∷ s.set }

  grown :
      (s : UniqueQueue A) (item : A)
      → IsCapped eq (as_capped s)
      → contains eq item s.set ≡ false
      → as_capped (
          if ltb s.capacity (length (s.queue ++ item ∷ []))
          then drop_front eq (longer s item) (s.queue ++ item ∷ [])
          else longer s item)
        ≡ add_item eq
            (if length s.set == s.capacity
              then evict_front eq (as_capped s) s.queue
              else as_capped s)
            item
  unfolding add_item
  grown s item v absent =
      let n = length-append s.queue (item ∷ []) in
      let sizes = v.same_size in
      elim (Bool-cases (length s.set == s.capacity)) [
        | inl full ↦
            let at_capacity = (==_iff (length s.set) s.capacity).0 full in
            let over : ltb s.capacity (length (s.queue ++ item ∷ [])) ≡ true =
              lt→ltb _ _ (omega (arith, n, sizes, at_capacity)) in
            rw (full, over)
              (unfold add_item in
                pushed s item s.queue v (sym (v.same item) ∙ absent)
                  (omega (arith, sizes, at_capacity, v.some_capacity)))
        | inr room ↦
            let below : length s.set < s.capacity = ground (arith, room, v.bounded) in
            let fits : ltb s.capacity (length (s.queue ++ item ∷ [])) ≡ false =
              ltb-false _ _ (omega (arith, n, sizes, below)) in
            rw (room, fits) refl
      ]

  -- With a lawful equality of items, pushing onto a UniqueQueue of capacity one at least, whose
  -- set and queue hold the same items, each once and no more than the capacity, answers as an
  -- insertion into a CappedSet with the same content does and leaves the content that the
  -- insertion leaves.
  pub push-insert :
      (s : UniqueQueue A) (item : A)
      → IsCapped eq (as_capped s)
      → (as_capped (push eq s item).1 ≡ (Capped.insert eq (as_capped s) item).1)
        × ((push eq s item).0 ≡ (Capped.insert eq (as_capped s) item).0)
  unfolding push Capped.insert make_room
  push-insert s item v = elim (Bool-cases (contains eq item s.set)) [
    | inl found ↦ rw found (refl, refl)
    | inr absent ↦ rw absent (grown s item v absent, refl)
  ]
