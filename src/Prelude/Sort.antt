-- ===== src/Prelude/Sort.antt =====
-- A stable sort, `sort_by` and `sort`. Any stable sort returns the same list.
use mathlib.Core.Path.{◌≡◌, refl}
use mathlib.Core.Logic.{inl, inr}
use mathlib.Core.Bool.{Bool, true, false}
use mathlib.Core.List.{List, [], ◌∷◌, ◌++◌}
use native.Mathlib.Omega.{arith}
use b_browser.Prelude.Tests.{if◌then◌else◌, Bool-cases}
use b_browser.Prelude.Lists.{All}

module _ {ℓ} {A : Type ℓ} (le : A → A → Bool) where
  abbrev pub insert_by : A → List A → List A
  insert_by x [] = x ∷ []
  insert_by x (y ∷ ys) = let rest = insert_by x ys in if le x y then x ∷ y ∷ ys else y ∷ rest

  abbrev pub sort_by : List A → List A
  sort_by [] = []
  sort_by (x ∷ xs) = insert_by x (sort_by xs)

  abbrev pub IsSorted : List A → Type 0
  IsSorted [] = Unit
  IsSorted (x ∷ xs) = All (λ y. le x y ≡ true) xs × IsSorted xs

  pub record IsTotalOrder : Type ℓ where
    pub total : (a b : A) → le a b ≡ false → le b a ≡ true
    pub antisym : (a b : A) → le a b ≡ true → le b a ≡ true → a ≡ b
    pub trans : (a b c : A) → le a b ≡ true → le b c ≡ true → le a c ≡ true

  pub All-insert_by {κ} :
      (P : A → Type κ) (x : A) (xs : List A) → P x → All P xs → All P (insert_by x xs)
  All-insert_by P x [] p h = (p, tt)
  All-insert_by P x (y ∷ ys) p h = elim (Bool-cases (le x y)) [
    | inl e ↦ rw e (p, h)
    | inr e ↦ rw e (h.0, All-insert_by P x ys p h.1)
  ]

  pub All-sort_by {κ} : (P : A → Type κ) (xs : List A) → All P xs → All P (sort_by xs)
  All-sort_by P [] h = tt
  All-sort_by P (x ∷ xs) h = All-insert_by P x (sort_by xs) h.0 (All-sort_by P xs h.1)

module _ {ℓ} {A : Type ℓ} (le : A → A → Bool) (o : IsTotalOrder le) where
  All-trans :
      (x y : A) (xs : List A)
      → le x y ≡ true
      → All (λ z. le y z ≡ true) xs
      → All (λ z. le x z ≡ true) xs
  All-trans x y [] h a = tt
  All-trans x y (z ∷ xs) h a = (o.trans x y z h a.0, All-trans x y xs h a.1)

  pub insert_by-IsSorted : (x : A) (xs : List A) → IsSorted le xs → IsSorted le (insert_by le x xs)
  insert_by-IsSorted x [] s = (tt, tt)
  insert_by-IsSorted x (y ∷ ys) s = elim (Bool-cases (le x y)) [
    | inl e ↦ rw e ((e, All-trans x y ys e s.0), s)
    | inr e ↦ rw e (
      All-insert_by le (λ z. le y z ≡ true) x ys (o.total x y e) s.0,
      insert_by-IsSorted x ys s.1,
    )
  ]

  -- The result is sorted.
  pub sort_by-IsSorted : (xs : List A) → IsSorted le (sort_by le xs)
  sort_by-IsSorted [] = tt
  sort_by-IsSorted (x ∷ xs) = insert_by-IsSorted x (sort_by le xs) (sort_by-IsSorted xs)

  insert_by_front : (x : A) (xs : List A) → All (λ z. le x z ≡ true) xs → insert_by le x xs ≡ x ∷ xs
  insert_by_front x [] a = refl
  insert_by_front x (y ∷ ys) a = rw (a.0)

  -- A sorted list is left as it is.
  pub sort_by-eq_of_IsSorted : (xs : List A) → IsSorted le xs → sort_by le xs ≡ xs
  sort_by-eq_of_IsSorted [] s = refl
  sort_by-eq_of_IsSorted (x ∷ xs) s = rw (sort_by-eq_of_IsSorted xs s.1) (insert_by_front x xs s.0)

  insert_by_comm :
      (x y : A) (zs : List A)
      → insert_by le x (insert_by le y zs) ≡ insert_by le y (insert_by le x zs)
  insert_by_comm x y [] = ground (arith, o.total x y, o.antisym x y)
  insert_by_comm x y (z ∷ zs) = ground (
    arith,
    insert_by_comm x y zs,
    o.total x y,
    o.antisym x y,
    o.total x z,
    o.total y z,
    o.trans x y z,
    o.trans y x z,
  )

  -- To push and sort is to insert into the sorted list.
  pub sort_by-push :
      (x : A) (xs : List A) → sort_by le (xs ++ x ∷ []) ≡ insert_by le x (sort_by le xs)
  sort_by-push x [] = refl
  sort_by-push x (y ∷ ys) = rw (sort_by-push x ys) (insert_by_comm y x (sort_by le ys))

  -- Two pushes with a sort after each give one list, in whatever order they come.
  pub sort_by-push_comm :
      (x y : A) (xs : List A)
      → sort_by le (sort_by le (xs ++ x ∷ []) ++ y ∷ [])
        ≡ sort_by le (sort_by le (xs ++ y ∷ []) ++ x ∷ [])
  sort_by-push_comm x y xs =
      rw
        (
          sort_by-push y (sort_by le (xs ++ x ∷ [])),
          sort_by-push x (sort_by le (xs ++ y ∷ [])),
          sort_by-eq_of_IsSorted (sort_by le (xs ++ x ∷ [])) (sort_by-IsSorted (xs ++ x ∷ [])),
          sort_by-eq_of_IsSorted (sort_by le (xs ++ y ∷ [])) (sort_by-IsSorted (xs ++ y ∷ [])),
          sort_by-push x xs,
          sort_by-push y xs,
        )
        (insert_by_comm y x (sort_by le xs))
