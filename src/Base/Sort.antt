-- ===== src/Base/Sort.antt =====
-- `sorted(xs, key=...)`: a stable insertion sort by a Boolean order, and what its result satisfies.
use mathlib.Core.Path.{◌≡◌}
use mathlib.Core.Logic.{◌↔◌, inl, inr}
use mathlib.Core.Bool.{Bool, true, false}
use mathlib.Core.List.{List, [], ◌∷◌, Perm}
use mathlib.Core.List.Perm
use native.Mathlib.Omega.{arith}
use millrace.Base.Tests.{if◌then◌else◌, Bool-cases}
use millrace.Base.Lists.{All, In}

module _ {A : Type 0} (le : A → A → Bool) where
  unfoldable pub insert : A → List A → List A
  insert x [] = x ∷ []
  insert x (y ∷ ys) = if le x y then x ∷ y ∷ ys else y ∷ insert x ys

  unfoldable pub sort_by : List A → List A
  unfolding insert
  sort_by [] = []
  sort_by (x ∷ xs) = insert x (sort_by xs)

  insert-perm : (x : A) (xs : List A) → Perm (insert x xs) (x ∷ xs)
  unfolding insert
  insert-perm x [] = Perm.refl _
  insert-perm x (y ∷ ys) =
      elim (le x y) as (λ b. Perm (if b then x ∷ y ∷ ys else y ∷ insert x ys) (x ∷ y ∷ ys)) [
        | true ↦ Perm.refl _
        | false ↦ Perm.trans (Perm.cons y (insert-perm x ys)) (Perm.swap _ _ _)
      ]

  -- Sorting only reorders.
  pub sort_by-perm : (xs : List A) → Perm (sort_by xs) xs
  unfolding sort_by
  sort_by-perm [] = Perm.refl _
  sort_by-perm (x ∷ xs) = Perm.trans (insert-perm x (sort_by xs)) (Perm.cons x (sort_by-perm xs))

  abbrev pub IsSorted : List A → Type 0
  IsSorted [] = Unit
  IsSorted (x ∷ xs) = All (λ y. le x y ≡ true) xs × IsSorted xs

  pub All-insert : (P : A → Type 0) (x : A) (xs : List A) → P x → All P xs → All P (insert x xs)
  unfolding insert
  All-insert P x [] px h = (px, tt)
  All-insert P x (y ∷ ys) px h = elim (Bool-cases (le x y)) [
    | inl e ↦ rw e (px, h)
    | inr e ↦ rw e (h.0, All-insert P x ys px h.1)
  ]

  pub In-insert : (a x : A) (xs : List A) → In a (insert x xs) ↔ In a (x ∷ xs)
  unfolding insert
  In-insert a x [] = (λ h. h, λ h. h)
  In-insert a x (y ∷ ys) = elim (Bool-cases (le x y)) [
    | inl e ↦ rw e (λ h. h, λ h. h)
    | inr e ↦
        rw e (λ h. ground (arith, (In-insert a x ys).0), λ h. ground (arith, (In-insert a x ys).1))
  ]

  -- Sorting keeps the members.
  pub In-sort_by : (a : A) (xs : List A) → In a (sort_by xs) ↔ In a xs
  unfolding sort_by
  In-sort_by a [] = (λ h. h, λ h. h)
  In-sort_by a (x ∷ xs) = (
    λ h. ground (arith, (In-insert a x (sort_by xs)).0 h, (In-sort_by a xs).0),
    λ h. (In-insert a x (sort_by xs)).1 (ground (arith, (In-sort_by a xs).1)),
  )

  module _ (trans : (x y z : A) → le x y ≡ true → le y z ≡ true → le x z ≡ true)
      (total : (x y : A) → le x y ≡ false → le y x ≡ true) where
    All-le_trans :
        (x y : A) (ys : List A)
        → le x y ≡ true
        → All (λ z. le y z ≡ true) ys
        → All (λ z. le x z ≡ true) ys
    All-le_trans x y [] h k = tt
    All-le_trans x y (z ∷ zs) h k = (trans x y z h k.0, All-le_trans x y zs h k.1)

    insert-IsSorted : (x : A) (xs : List A) → IsSorted xs → IsSorted (insert x xs)
    unfolding insert
    insert-IsSorted x [] s = (tt, tt)
    insert-IsSorted x (y ∷ ys) s = elim (Bool-cases (le x y)) [
      | inl e ↦ rw e ((e, All-le_trans x y ys e s.0), s)
      | inr e ↦
          rw e (All-insert (λ z. le y z ≡ true) x ys (total x y e) s.0, insert-IsSorted x ys s.1)
    ]

    pub sort_by-IsSorted : (xs : List A) → IsSorted (sort_by xs)
    unfolding sort_by
    sort_by-IsSorted [] = tt
    sort_by-IsSorted (x ∷ xs) = insert-IsSorted x (sort_by xs) (sort_by-IsSorted xs)
