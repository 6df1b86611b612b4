-- ===== src/Containers/Lru.antt =====
-- `LruSet` of src/core/common/lru_set.hpp. The map's iterators are the nodes of its keys in the list,
-- so the map is its keys. The mutex makes every member atomic.
use znode.Common.{
  ℕ, ◌≤◌, ◌≡◌, refl, ap, sym, ◌∙◌, arith, Bool, true, false, not, ◌&&◌, ◌||◌, List, [], ◌∷◌, length,
  take, take_all, length-take, if◌then◌else◌, ltb, Bool-cases, inl, inr,
}
use znode.Containers.Keys.{
  contains, remove, Unique, back, pop_back, pop_back-take, IsEquality, eq_refl, contains-remove,
  contains-pop_back, remove-none, length-remove, Unique-remove, Unique-pop_back,
}

pub record LruSet (A : Type 0) : Type 0 where
  pub max_size : ℕ
  pub list : List A
  pub map_keys : List A

module _ {A : Type 0} (eq : A → A → Bool) where
  -- The map loses the key of the list's back, then the list its back.
  unfoldable pub evict : ℕ → A → List A → List A → LruSet A
  unfolding remove back pop_back
  evict max_size x xs keys =
      if ltb max_size (length (x ∷ xs))
      then record {
        max_size = max_size;
        list = pop_back x xs;
        map_keys = remove eq (back x xs) keys;
      }
      else record { max_size = max_size; list = x ∷ xs; map_keys = keys }

  unfoldable pub insert : LruSet A → A → Bool × LruSet A
  unfolding contains evict
  insert s item =
      if contains eq item s.map_keys
      then (false, record s { list = item ∷ remove eq item s.list })
      else (true, evict s.max_size item s.list (item ∷ s.map_keys))

  unfoldable pub clear : LruSet A → LruSet A
  clear s = record s { list = []; map_keys = [] }

  -- The list and the map hold the same keys, each once, and no more than allowed.
  pub record IsLru (s : LruSet A) : Type 0 where
    pub unique : Unique eq s.list
    pub unique_keys : Unique eq s.map_keys
    pub same : (x : A) → contains eq x s.map_keys ≡ contains eq x s.list
    pub bounded : length s.list ≤ s.max_size

module _ {A : Type 0} (eq : A → A → Bool) (laws : IsEquality eq) where
  -- What an insertion promises.
  pub record Inserted (s : LruSet A) (item : A) (r : Bool × LruSet A) : Type 0 where
    pub answer : r.0 ≡ not (contains eq item s.list)
    pub list_is : r.1.list ≡ take s.max_size (item ∷ remove eq item s.list)
    pub max_is : r.1.max_size ≡ s.max_size
    pub valid : IsLru eq r.1

  or_and_self : (b c : Bool) → (b ≡ true → c ≡ true) → b || (c && not b) ≡ c
  or_and_self true c h = sym (h refl)
  or_and_self false true h = refl
  or_and_self false false h = refl

  hit :
      (s : LruSet A) (item : A)
      → IsLru eq s
      → contains eq item s.map_keys ≡ true
      → Inserted s item (false, record s { list = item ∷ remove eq item s.list })
  unfolding contains
  hit s item v found =
      let listed = sym (v.same item) ∙ found in
      let n = length-remove eq laws item s.list listed in
      record {
        answer = rw listed refl;
        list_is = sym (take_all s.max_size _ (omega (arith, n, v.bounded)));
        max_is = refl;
        valid = record {
          unique = (
            rw (contains-remove eq laws item item s.list v.unique, eq_refl eq laws item, listed)
                refl,
            Unique-remove eq laws item s.list v.unique,
          );
          unique_keys = v.unique_keys;
          same = λ x.
              v.same x
              ∙ sym (
                  rw (contains-remove eq laws item x s.list v.unique) (
                    or_and_self (eq item x) (contains eq x s.list)
                      λ e. rw (← (laws.eq_iff item x).0 e) listed));
          bounded = omega (arith, n, v.bounded);
        };
      }

  missed :
      (s : LruSet A) (item : A)
      → IsLru eq s
      → contains eq item s.map_keys ≡ false
      → Inserted s item (true, evict eq s.max_size item s.list (item ∷ s.map_keys))
  unfolding evict contains
  missed s item v absent =
      let unlisted = sym (v.same item) ∙ absent in
      let whole = remove-none eq laws item s.list unlisted in
      elim (Bool-cases (ltb s.max_size (length (item ∷ s.list)))) [
        | inl over ↦ rw over record {
          answer = rw unlisted refl;
          list_is = rw whole (
              pop_back-take item s.list
              ∙ ap (λ n. take n (item ∷ s.list)) (ground (arith, over, v.bounded)));
          max_is = refl;
          valid = record {
            unique = Unique-pop_back eq laws item s.list (unlisted, v.unique);
            unique_keys =
                Unique-remove eq laws (back item s.list) (item ∷ s.map_keys)
                  (absent, v.unique_keys);
            same = λ x.
                contains-remove eq laws (back item s.list) x (item ∷ s.map_keys)
                  (absent, v.unique_keys)
                ∙ ap (λ c. (eq item x || c) && not (eq (back item s.list) x)) (v.same x)
                ∙ sym (contains-pop_back eq laws x item s.list (unlisted, v.unique));
            bounded =
                rw (pop_back-take item s.list)
                  (omega (arith, v.bounded, length-take (length s.list) (item ∷ s.list)));
          };
        }
        | inr room ↦ rw room record {
          answer = rw unlisted refl;
          list_is = rw whole (sym (take_all s.max_size (item ∷ s.list) (ground (arith, room))));
          max_is = refl;
          valid = record {
            unique = (unlisted, v.unique);
            unique_keys = (absent, v.unique_keys);
            same = λ x. ap (λ b. eq item x || b) (v.same x);
            bounded = ground (arith, room);
          };
        }
      ]

  -- With a lawful equality of keys, inserting into an LruSet whose list and map hold the same
  -- keys, each once and no more than allowed, answers whether the key was missing, leaves the list
  -- that has the key in front and the others in their order behind it, cut to the allowed size,
  -- and keeps list and map so.
  pub insert_lem : (s : LruSet A) (item : A) → IsLru eq s → Inserted s item (insert eq s item)
  unfolding insert
  insert_lem s item v = elim (Bool-cases (contains eq item s.map_keys)) [
    | inl found ↦ rw found (hit s item v found)
    | inr absent ↦ rw absent (missed s item v absent)
  ]
