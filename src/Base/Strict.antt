-- ===== src/Base/Strict.antt =====
-- Lists that increase strictly by a text key: two of them with the same members are equal.
use mathlib.Core.Path.{◌≡◌, refl, sym, ◌∙◌, subst, ap₂}
use mathlib.Core.Logic.{◌≢◌, inl, inr}
use mathlib.Core.Bool.{Bool, true, false}
use mathlib.Core.Option.{none}
use mathlib.Core.List.{List, [], ◌∷◌}
use Prim.Native.String.{String}
use millrace.Base.Tests.{Bool-cases}
use millrace.Base.Text.{str_le, str_le_refl, str_le_total, str_le_trans, str_le_antisymm}
use millrace.Base.Lists.{All, All-In, All-intro, In}
use millrace.Base.Sort.{insert, sort_by, In-sort_by, All-insert}
use millrace.Base.Dict.{Dict, lookup, values, IsUnique, In-values, lookup_of_In}

module _ {A : Type 0} (key : A → String) where
  -- Each element's key stands below the keys of all that follow.
  abbrev pub IsStrict : List A → Type 0
  IsStrict [] = Unit
  IsStrict (x ∷ xs) = All (λ y. str_le (key y) (key x) ≡ false) xs × IsStrict xs

  below : (x y : A) (xs : List A) → IsStrict (x ∷ xs) → In y xs → str_le (key y) (key x) ≡ false
  below x y xs s m = All-In (λ z. str_le (key z) (key x) ≡ false) y xs s.0 m

  not_below_self : (x : A) → ¬ (str_le (key x) (key x) ≡ false)
  not_below_self x h = cc (str_le_refl (key x))

  heads :
      (x y : A) (xs ys : List A)
      → IsStrict (x ∷ xs)
      → IsStrict (y ∷ ys)
      → In x (y ∷ ys)
      → In y (x ∷ xs)
      → x ≡ y
  heads x y xs ys s t (inl e) k = sym e
  heads x y xs ys s t (inr m) (inl e) = e
  heads x y xs ys s t (inr m) (inr n) =
      let h = below y x ys t m in cc (str_le_total _ _ h, below x y xs s n)

  tails :
      (x : A) (xs ys : List A)
      → IsStrict (x ∷ xs)
      → ((a : A) → In a (x ∷ xs) → In a (x ∷ ys))
      → (a : A) → In a xs
      → In a ys
  tails x xs ys s f a m = elim (f a (inr m)) [
    | inl e ↦
        absurd (
          not_below_self x (subst (λ z. str_le (key z) (key x) ≡ false) (sym e) (below x a xs s m)))
    | inr n ↦ n
  ]

  pub IsStrict-eq :
      (xs ys : List A)
      → IsStrict xs
      → IsStrict ys
      → ((a : A) → In a xs → In a ys)
      → ((a : A) → In a ys → In a xs)
      → xs ≡ ys
  IsStrict-eq [] [] s t f g = refl
  IsStrict-eq [] (y ∷ ys) s t f g = absurd (g y (inl refl))
  IsStrict-eq (x ∷ xs) [] s t f g = absurd (f x (inl refl))
  IsStrict-eq (x ∷ xs) (y ∷ ys) s t f g =
      let e = heads x y xs ys s t (f x (inl refl)) (g y (inl refl)) in
      ap₂ ◌∷◌ e (
        IsStrict-eq xs ys s.1 t.1
          (tails x xs ys s (subst (λ z. (a : A) → In a (x ∷ xs) → In a (z ∷ ys)) (sym e) f))
          (tails x ys xs (subst (λ z. IsStrict (z ∷ ys)) (sym e) t)
            (subst (λ z. (a : A) → In a (z ∷ ys) → In a (x ∷ xs)) (sym e) g)))

  -- No two elements have the same key.
  abbrev pub HasDistinctKeys : List A → Type 0
  HasDistinctKeys [] = Unit
  HasDistinctKeys (x ∷ xs) = All (λ y. key x ≢ key y) xs × HasDistinctKeys xs

  abbrev by_key : A → A → Bool
  by_key a b = str_le (key a) (key b)

  strict_of_le : (s t : String) → str_le s t ≡ true → s ≢ t → str_le t s ≡ false
  strict_of_le s t h differ = elim (Bool-cases (str_le t s)) [
    | inl k ↦ absurd (differ (str_le_antisymm s t h k))
    | inr k ↦ k
  ]

  All-below :
      (x y : A) (ys : List A)
      → by_key x y ≡ true
      → All (λ z. by_key z y ≡ false) ys
      → All (λ z. by_key z x ≡ false) ys
  All-below x y [] h k = tt
  All-below x y (z ∷ zs) h k = (
    elim (Bool-cases (by_key z x)) [
      | inl le ↦ cc (str_le_trans (key z) (key x) (key y) le h, k.0)
      | inr gt ↦ gt
    ],
    All-below x y zs h k.1,
  )

  insert-IsStrict :
      (x : A) (xs : List A)
      → All (λ y. key x ≢ key y) xs
      → IsStrict xs
      → IsStrict (insert by_key x xs)
  unfolding insert
  insert-IsStrict x [] d s = (tt, tt)
  insert-IsStrict x (y ∷ ys) d s = elim (Bool-cases (by_key x y)) [
    | inl e ↦ rw e ((strict_of_le (key x) (key y) e d.0, All-below x y ys e s.0), s)
    | inr e ↦
        rw e (All-insert by_key (λ z. by_key z y ≡ false) x ys e s.0, insert-IsStrict x ys d.1 s.1)
  ]

  -- Sorting a list with distinct keys makes it increase strictly.
  pub sort_by-IsStrict : (xs : List A) → HasDistinctKeys xs → IsStrict (sort_by by_key xs)
  unfolding sort_by
  sort_by-IsStrict [] d = tt
  sort_by-IsStrict (x ∷ xs) d =
      insert-IsStrict x (sort_by by_key xs)
        (All-intro (λ y. key x ≢ key y) (sort_by by_key xs)
          λ a m. All-In (λ y. key x ≢ key y) a xs d.0 ((In-sort_by by_key a xs).0 m))
        (sort_by-IsStrict xs d.1)

  -- The values of a dict whose keys are those of its values have distinct keys.
  pub values-HasDistinctKeys :
      (d : Dict A)
      → IsUnique d
      → ((k : String) (v : A) → In (k, v) d → key v ≡ k)
      → HasDistinctKeys (values d)
  unfolding values
  values-HasDistinctKeys [] u own = tt
  values-HasDistinctKeys ((k, v) ∷ d) u own = (
    All-intro (λ w. key v ≢ key w) (values d)
        (λ w m same.
          let (j, entry) = In-values w d m in
          let named : k ≡ j = sym (own k v (inl refl)) ∙ same ∙ own j w (inr entry) in
          cc (lookup_of_In j w d u.1 entry, subst (λ i. lookup i d ≡ none) named u.0)),
    values-HasDistinctKeys d u.1 (λ j w m. own j w (inr m)),
  )
