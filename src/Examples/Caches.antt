-- ===== src/Examples/Caches.antt =====
-- Containers of two keys that take a third (src/core/common, src/infra/concurrency).
use znode.Common.{ℕ, ◌≡◌, refl, arith, true, [], ◌∷◌, ◌==◌, ==_iff}
use znode.Containers.Keys.{IsEquality, contains, remove, back, pop_back}
use znode.Containers.Capped
use znode.Containers.Capped.{CappedSet, IsCapped, insert-Inserted}
use znode.Containers.Queue.{as_capped, push, push-insert}
use znode.Containers.Lru.{LruSet, IsLru, Inserted, insert, insert_lem}

number_keys : IsEquality ◌==◌
number_keys = record { eq_iff = ==_iff }

abbrev two_keys : LruSet ℕ
two_keys = record { max_size = 2; list = 5 ∷ 4 ∷ []; map_keys = 4 ∷ 5 ∷ [] }

two_keys-IsLru : IsLru ◌==◌ two_keys
unfolding contains
two_keys-IsLru = record {
  unique = (refl, (refl, tt));
  unique_keys = (refl, (refl, tt));
  same = λ x. ground arith;
  bounded = omega arith;
}

insert_test :
    insert ◌==◌ two_keys 6
    ≡ (true, record { max_size = 2; list = 6 ∷ 5 ∷ []; map_keys = 6 ∷ 5 ∷ [] })
unfolding insert remove back pop_back contains
insert_test = refl

insert_example : Inserted ◌==◌ number_keys two_keys 6 (insert ◌==◌ two_keys 6)
insert_example = insert_lem ◌==◌ number_keys two_keys 6 two_keys-IsLru

-- A full `CappedSet` of two items.
abbrev two_items : CappedSet ℕ
two_items = record { capacity = 2; items = 5 ∷ 4 ∷ []; items_queue = 4 ∷ 5 ∷ [] }

two_items-IsCapped : IsCapped ◌==◌ two_items
unfolding contains
two_items-IsCapped = record {
  unique = (refl, (refl, tt));
  unique_queue = (refl, (refl, tt));
  same = λ x. ground arith;
  same_size = refl;
  bounded = omega arith;
  some_capacity = omega arith;
}

insert-Inserted_example :
    Capped.Inserted ◌==◌ number_keys two_items 6 (Capped.insert ◌==◌ two_items 6)
insert-Inserted_example = insert-Inserted ◌==◌ number_keys two_items 6 two_items-IsCapped

push-insert_example :
    (as_capped (push ◌==◌ (record { capacity = 2; queue = 4 ∷ 5 ∷ []; set = 5 ∷ 4 ∷ [] }) 6).1
      ≡ (Capped.insert ◌==◌ two_items 6).1)
    × ((push ◌==◌ (record { capacity = 2; queue = 4 ∷ 5 ∷ []; set = 5 ∷ 4 ∷ [] }) 6).0
        ≡ (Capped.insert ◌==◌ two_items 6).0)
push-insert_example =
    push-insert ◌==◌ number_keys (record { capacity = 2; queue = 4 ∷ 5 ∷ []; set = 5 ∷ 4 ∷ [] }) 6
      two_items-IsCapped
