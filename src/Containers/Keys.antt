-- ===== src/Containers/Keys.antt =====
-- Sequences of keys: what `std::list` and the keys of `std::unordered_map` offer to the containers.
use znode.Common.{
  suc, ◌≡◌, ◌↔◌, ◌⊎◌, inl, inr, refl, ap, sym, Bool, true, false, not, ◌||◌, ◌&&◌, List, [], ◌∷◌,
  length, take, if◌then◌else◌, Bool-cases,
}

module _ {A : Type 0} (eq : A → A → Bool) where
  unfoldable pub contains : A → List A → Bool
  contains x [] = false
  contains x (y ∷ ys) = eq y x || contains x ys

  -- `erase(key)`.
  unfoldable pub remove : A → List A → List A
  remove x [] = []
  remove x (y ∷ ys) = let rest = remove x ys in if eq y x then ys else y ∷ rest

  abbrev pub Unique : List A → Type 0
  Unique [] = Unit {0}
  Unique (x ∷ xs) = (contains x xs ≡ false) × Unique xs

module _ {A : Type 0} where
  -- `back()` and `pop_back()` of a list with a first item.
  unfoldable pub back : A → List A → A
  back x [] = x
  back x (y ∷ ys) = back y ys

  unfoldable pub pop_back : A → List A → List A
  pop_back x [] = []
  pop_back x (y ∷ ys) = x ∷ pop_back y ys

  pub pop_back-take : (x : A) (xs : List A) → pop_back x xs ≡ take (length xs) (x ∷ xs)
  unfolding pop_back
  pop_back-take x [] = refl
  pop_back-take x (y ∷ ys) = ap (λ t. x ∷ t) (pop_back-take y ys)

or_and : (b c n : Bool) → (b ≡ true → n ≡ true) → (b || (c && n)) ≡ ((b || c) && n)
or_and true c n h = sym (h refl)
or_and false c n h = refl

pub or_and_not : (b c : Bool) → (b ≡ true → c ≡ false) → c ≡ ((b || c) && not b)
or_and_not true c h = h refl
or_and_not false true h = refl
or_and_not false false h = refl

pub or_false : (b c : Bool) → b || c ≡ false → (b ≡ false) × (c ≡ false)
or_false true c h = cc
or_false false c h = (refl, h)

-- Equality of keys as the code's hash tables take it.
pub record IsEquality {A : Type 0} (eq : A → A → Bool) : Type 0 where
  pub eq_iff : (x y : A) → (eq x y ≡ true) ↔ (x ≡ y)

module _ {A : Type 0} (eq : A → A → Bool) (laws : IsEquality eq) where
  pub eq-cases : (x y : A) → (x ≡ y) ⊎ (eq x y ≡ false)
  eq-cases x y = elim (Bool-cases (eq x y)) [ inl e ↦ inl ((laws.eq_iff x y).0 e) | inr e ↦ inr e ]

  pub eq_refl : (x : A) → eq x x ≡ true
  eq_refl x = (laws.eq_iff x x).1 refl

  pub eq_comm_false : (x y : A) → eq x y ≡ false → eq y x ≡ false
  eq_comm_false x y h = elim (Bool-cases (eq y x)) [
    | inl e ↦ absurd (cc (h, (laws.eq_iff x y).1 (sym ((laws.eq_iff y x).0 e))))
    | inr e ↦ e
  ]

  -- Removal takes away its key and no other.
  pub contains-remove :
      (x y : A) (xs : List A)
      → Unique eq xs
      → contains eq y (remove eq x xs) ≡ contains eq y xs && not (eq x y)
  unfolding contains remove
  contains-remove x y [] u = refl
  contains-remove x y (z ∷ zs) u = elim (eq-cases z x) [
    | inl same ↦
        rw (← same, eq_refl z)
          (or_and_not (eq z y) (contains eq y zs) λ e. rw (← (laws.eq_iff z y).0 e) u.0)
    | inr differ ↦
        rw (differ, contains-remove x y zs u.1)
          (or_and (eq z y) (contains eq y zs) (not (eq x y))
            λ e. rw (← (laws.eq_iff z y).0 e, eq_comm_false z x differ) refl)
  ]

  contains-back : (x : A) (xs : List A) → contains eq (back x xs) (x ∷ xs) ≡ true
  unfolding contains back
  contains-back x [] = rw (eq_refl x) refl
  contains-back x (y ∷ ys) = or_true (eq x (back y ys)) (contains-back y ys)
    where
      or_true : {c : Bool} (b : Bool) → c ≡ true → b || c ≡ true
      or_true true h = refl
      or_true false h = h

  -- The last item of the rest is not the first one.
  back-apart :
      (x y z : A) (zs : List A)
      → contains eq x (z ∷ zs) ≡ false
      → eq x y ≡ true
      → not (eq (back z zs) y) ≡ true
  back-apart x y z zs h e = elim (eq-cases (back z zs) y) [
    | inl same ↦ absurd (cc (h, contains-back z zs, same, (laws.eq_iff x y).0 e))
    | inr differ ↦ rw differ refl
  ]

  pub contains-pop_back :
      (y x : A) (xs : List A)
      → Unique eq (x ∷ xs)
      → contains eq y (pop_back x xs) ≡ contains eq y (x ∷ xs) && not (eq (back x xs) y)
  unfolding contains pop_back back
  contains-pop_back y x [] u = or_and_not (eq x y) false (λ e. refl)
  contains-pop_back y x (z ∷ zs) u =
      rw (contains-pop_back y z zs u.1) (
        or_and (eq x y) (contains eq y (z ∷ zs)) (not (eq (back z zs) y)) (back-apart x y z zs u.0))

  pub remove-none : (x : A) (xs : List A) → contains eq x xs ≡ false → remove eq x xs ≡ xs
  unfolding contains remove
  remove-none x [] h = refl
  remove-none x (y ∷ ys) h =
      let (first, others) = or_false (eq y x) (contains eq x ys) h in
      rw (first, remove-none x ys others) refl

  pub length-remove :
      (x : A) (xs : List A) → contains eq x xs ≡ true → suc (length (remove eq x xs)) ≡ length xs
  unfolding contains remove
  length-remove x [] h = cc
  length-remove x (y ∷ ys) h = elim (Bool-cases (eq y x)) [
    | inl e ↦ rw e refl
    | inr e ↦ rw e (ap suc (length-remove x ys (rw e at h)))
  ]

  pub Unique-remove : (x : A) (xs : List A) → Unique eq xs → Unique eq (remove eq x xs)
  unfolding contains remove
  Unique-remove x [] u = tt
  Unique-remove x (y ∷ ys) u = elim (Bool-cases (eq y x)) [
    | inl e ↦ rw e u.1
    | inr e ↦ rw e (rw (contains-remove x y ys u.1, u.0) refl, Unique-remove x ys u.1)
  ]

  pub Unique-pop_back : (x : A) (xs : List A) → Unique eq (x ∷ xs) → Unique eq (pop_back x xs)
  unfolding contains pop_back
  Unique-pop_back x [] u = tt
  Unique-pop_back x (y ∷ ys) u =
      (rw (contains-pop_back x y ys u.1, u.0) refl, Unique-pop_back y ys u.1)
