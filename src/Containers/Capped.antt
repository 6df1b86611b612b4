-- ===== src/Containers/Capped.antt =====
-- `CappedSet` of src/core/common/capped_set.hpp. The queue's iterators are the nodes of their items in
-- the set, so the queue is those items, the oldest first.
use znode.Common.{
  ℕ, suc, ◌+◌, ◌-◌, ◌≤◌, ◌<◌, ◌≡◌, refl, ap, sym, ◌∙◌, arith, Bool, true, false, not, ◌&&◌, ◌||◌,
  List, [], ◌∷◌, ◌++◌, length, length-append, drop, if◌then◌else◌, ◌==◌, Bool-cases, inl, inr,
}
use znode.Containers.Keys.{
  contains, remove, Unique, IsEquality, eq_refl, contains-remove, length-remove, Unique-remove,
  or_and_not, or_false, eq_comm_false,
}

pub record CappedSet (A : Type 0) : Type 0 where
  pub capacity : ℕ
  pub items : List A
  pub items_queue : List A

module _ {A : Type 0} (eq : A → A → Bool) where
  -- The oldest item leaves the set and the queue. An empty queue has no front: see `IsCapped`.
  unfoldable pub evict_front : CappedSet A → List A → CappedSet A
  unfolding remove
  evict_front s [] = s
  evict_front s (oldest ∷ others) = record s {
    items = remove eq oldest s.items;
    items_queue = others;
  }

  unfoldable pub make_room : CappedSet A → CappedSet A
  unfolding evict_front
  make_room s = if length s.items == s.capacity then evict_front s s.items_queue else s

  unfoldable pub add_item : CappedSet A → A → CappedSet A
  add_item s item = record s { items = item ∷ s.items; items_queue = s.items_queue ++ item ∷ [] }

  unfoldable pub insert : CappedSet A → A → Bool × CappedSet A
  unfolding contains make_room add_item
  insert s item =
      if contains eq item s.items then (false, s) else (true, add_item (make_room s) item)

  unfoldable pub clear : CappedSet A → CappedSet A
  clear s = record s { items = []; items_queue = [] }

  -- The set and the queue hold the same items, each once, and no more than the capacity, which the
  -- constructor asserts not to be zero.
  pub record IsCapped (s : CappedSet A) : Type 0 where
    pub unique : Unique eq s.items
    pub unique_queue : Unique eq s.items_queue
    pub same : (x : A) → contains eq x s.items ≡ contains eq x s.items_queue
    pub same_size : length s.items ≡ length s.items_queue
    pub bounded : length s.items ≤ s.capacity
    pub some_capacity : 1 ≤ s.capacity

module _ {A : Type 0} (eq : A → A → Bool) (laws : IsEquality eq) where
  contains-append :
      (y : A) (xs ys : List A) → contains eq y (xs ++ ys) ≡ contains eq y xs || contains eq y ys
  unfolding contains
  contains-append y [] ys = refl
  contains-append y (x ∷ xs) ys =
      ap (λ b. eq x y || b) (contains-append y xs ys)
      ∙ sym (or_assoc (eq x y) (contains eq y xs) (contains eq y ys))
    where
      or_assoc : (a b c : Bool) → (a || b) || c ≡ a || (b || c)
      or_assoc true b c = refl
      or_assoc false b c = refl

  or_comm : (b c : Bool) → b || c ≡ c || (b || false)
  or_comm true true = refl
  or_comm true false = refl
  or_comm false true = refl
  or_comm false false = refl

  front_in : (x : A) (xs : List A) → contains eq x (x ∷ xs) ≡ true
  unfolding contains
  front_in x xs = rw (eq_refl eq laws x) refl

  without_front :
      (x y : A) (xs : List A)
      → contains eq x xs ≡ false
      → contains eq y (x ∷ xs) && not (eq x y) ≡ contains eq y xs
  unfolding contains
  without_front x y xs h =
      sym (or_and_not (eq x y) (contains eq y xs) λ e. rw (← (laws.eq_iff x y).0 e) h)

  Unique-snoc :
      (xs : List A) (item : A)
      → Unique eq xs
      → contains eq item xs ≡ false
      → Unique eq (xs ++ item ∷ [])
  unfolding contains
  Unique-snoc [] item u h = (refl, tt)
  Unique-snoc (x ∷ xs) item u h =
      let (apart, others) = or_false (eq x item) (contains eq item xs) h in
      (
        rw (contains-append x xs (item ∷ []), u.0, eq_comm_false eq laws x item apart) refl,
        Unique-snoc xs item u.1 others,
      )

  -- The queue after an insertion of a new item: the oldest leaves where the set is full.
  abbrev pub next_queue : CappedSet A → A → List A
  next_queue s item = drop (length s.items_queue + 1 - s.capacity) s.items_queue ++ item ∷ []

  pub record Inserted (s : CappedSet A) (item : A) (r : Bool × CappedSet A) : Type 0 where
    pub answer : r.0 ≡ not (contains eq item s.items_queue)
    pub queue_is :
        r.1.items_queue
        ≡ (if contains eq item s.items_queue then s.items_queue else next_queue s item)
    pub capacity_is : r.1.capacity ≡ s.capacity
    pub valid : IsCapped eq r.1

  -- Room for one, and the item not there.
  abbrev Ready : CappedSet A → A → CappedSet A → Type 0
  Ready s item t =
      IsCapped eq t
      × (length t.items < t.capacity)
      × (contains eq item t.items ≡ false)
      × (t.items_queue ≡ drop (length s.items_queue + 1 - s.capacity) s.items_queue)
      × (t.capacity ≡ s.capacity)

  Unique-along : (xs ys : List A) → xs ≡ ys → Unique eq xs → Unique eq ys
  Unique-along xs ys e u = rw (← e) u

  evict_lem :
      (s : CappedSet A) (item : A)
      → IsCapped eq s
      → contains eq item s.items ≡ false
      → length s.items ≡ s.capacity
      → (queue : List A) → s.items_queue ≡ queue
      → Ready s item (evict_front eq s queue)
  evict_lem s item v absent full [] e =
      absurd (omega (arith, ap length e, v.same_size, v.some_capacity))
  evict_lem s item v absent full (oldest ∷ others) e =
      let unique_queue : Unique eq (oldest ∷ others) =
        Unique-along s.items_queue (oldest ∷ others) e v.unique_queue in
      let found : contains eq oldest s.items ≡ true =
        v.same oldest ∙ rw e (front_in oldest others) in
      let shorter = length-remove eq laws oldest s.items found in
      let size : length s.items_queue ≡ suc (length others) = ap length e in
      let one : length s.items_queue + 1 - s.capacity ≡ 1 =
        omega (arith, v.same_size, full, v.some_capacity) in
      (
        unfold evict_front in
            record {
              unique = Unique-remove eq laws oldest s.items v.unique;
              unique_queue = unique_queue.1;
              same = λ x.
                  contains-remove eq laws oldest x s.items v.unique
                  ∙ ap (λ b. b && not (eq oldest x)) (v.same x ∙ ap (contains eq x) e)
                  ∙ without_front oldest x others unique_queue.0;
              same_size = omega (arith, shorter, size, v.same_size);
              bounded = omega (arith, shorter, v.bounded);
              some_capacity = v.some_capacity;
            },
        unfold evict_front in omega (arith, shorter, full),
        unfold evict_front in
            rw (contains-remove eq laws oldest item s.items v.unique, absent) refl,
        unfold evict_front in rw (one, e) refl,
        unfold evict_front in refl,
      )

  room_lem :
      (s : CappedSet A) (item : A)
      → IsCapped eq s
      → contains eq item s.items ≡ false
      → Ready s item (make_room eq s)
  unfolding make_room
  room_lem s item v absent = elim (Bool-cases (length s.items == s.capacity)) [
    | inl full ↦ rw full (evict_lem s item v absent (ground (arith, full)) s.items_queue refl)
    | inr room ↦ rw room (
      v,
      ground (arith, room, v.bounded),
      absent,
      (let none_left : length s.items_queue + 1 - s.capacity ≡ 0 =
            ground (arith, room, v.bounded, v.same_size) in
          rw none_left refl),
      refl,
    )
  ]

  added :
      (s : CappedSet A) (item : A) (t : CappedSet A)
      → Ready s item t
      → contains eq item s.items_queue ≡ false
      → Inserted s item (true, add_item eq t item)
  unfolding add_item contains
  added s item t (v, room, absent, queue, cap) unlisted = record {
    answer = rw unlisted refl;
    queue_is = rw unlisted (ap (λ q. q ++ item ∷ []) queue);
    capacity_is = cap;
    valid = record {
      unique = (absent, v.unique);
      unique_queue = Unique-snoc t.items_queue item v.unique_queue (sym (v.same item) ∙ absent);
      same = λ x.
          ap (λ b. eq item x || b) (v.same x)
          ∙ or_comm (eq item x) (contains eq x t.items_queue)
          ∙ sym (contains-append x t.items_queue (item ∷ []));
      same_size = omega (arith, v.same_size, length-append t.items_queue (item ∷ []));
      bounded = omega (arith, room);
      some_capacity = v.some_capacity;
    };
  }

  -- With a lawful equality of items, inserting into a CappedSet of capacity one at least, whose
  -- set and queue hold the same items, each once and no more than the capacity, answers whether
  -- the item was missing, leaves a queue that holds it behind the others and has lost its oldest
  -- only where it was full, or the same queue if the item was there, and keeps set and queue so.
  pub insert-Inserted :
      (s : CappedSet A) (item : A) → IsCapped eq s → Inserted s item (insert eq s item)
  unfolding insert
  insert-Inserted s item v = elim (Bool-cases (contains eq item s.items)) [
    | inl found ↦
        let listed = sym (v.same item) ∙ found in
        rw found record {
          answer = rw listed refl;
          queue_is = rw listed refl;
          capacity_is = refl;
          valid = v;
        }
    | inr absent ↦
        rw absent
          (added s item (make_room eq s) (room_lem s item v absent) (sym (v.same item) ∙ absent))
  ]
