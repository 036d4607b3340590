-- ===== src/Base/Dict.antt =====
-- A Python dict with texts for keys, in insertion order.
use mathlib.Core.Path.{◌≡◌, refl, ap}
use mathlib.Core.Logic.{◌⊎◌, inl, inr}
use mathlib.Core.Bool.{false}
use mathlib.Core.Option.{Option, none, some}
use mathlib.Core.List.{List, [], ◌∷◌}
use native.Mathlib.Omega.{arith}
use Prim.Native.String.{String}
use millrace.Base.Tests.{if◌then◌else◌}
use millrace.Base.Text.{str_eq, str_eq_iff}
use millrace.Base.Lists.{In}

abbrev pub Dict : Type 0 → Type 0
Dict V = List (String × V)

module _ {V : Type 0} where
  -- `d.get(k)`
  unfoldable pub lookup : String → Dict V → Option V
  lookup k [] = none
  lookup k ((j, v) ∷ d) = if str_eq j k then some v else lookup k d

  -- `d[k] = v`
  unfoldable pub insert : String → V → Dict V → Dict V
  insert k v [] = (k, v) ∷ []
  insert k v ((j, w) ∷ d) = if str_eq j k then (j, v) ∷ d else (j, w) ∷ insert k v d

  -- `list(d)` and `list(d.values())`
  unfoldable pub keys : Dict V → List String
  keys [] = []
  keys ((k, v) ∷ d) = k ∷ keys d

  unfoldable pub values : Dict V → List V
  values [] = []
  values ((k, v) ∷ d) = v ∷ values d

  pub lookup-insert :
      (k j : String) (v : V) (d : Dict V)
      → lookup j (insert k v d) ≡ (if str_eq k j then some v else lookup j d)
  unfolding lookup insert
  lookup-insert k j v [] = refl
  lookup-insert k j v ((i, w) ∷ d) =
      ground (arith, str_eq_iff k j, str_eq_iff i k, str_eq_iff i j, lookup-insert k j v d)

  -- No key stands twice.
  abbrev pub IsUnique : Dict V → Type 0
  IsUnique [] = Unit
  IsUnique ((k, v) ∷ d) = (lookup k d ≡ none) × IsUnique d

  pub insert-IsUnique : (k : String) (v : V) (d : Dict V) → IsUnique d → IsUnique (insert k v d)
  unfolding lookup insert
  insert-IsUnique k v [] u = (refl, tt)
  insert-IsUnique k v ((j, w) ∷ d) u =
      ground
        (arith, insert-IsUnique k v d u.1, lookup-insert k j v d, str_eq_iff k j, str_eq_iff j k)

  -- In a dict, the entries are what `lookup` finds.
  pub In-of_lookup : (k : String) (v : V) (d : Dict V) → lookup k d ≡ some v → In (k, v) d
  unfolding lookup
  In-of_lookup k v [] h = cc
  In-of_lookup k v ((j, w) ∷ d) h = ground (arith, In-of_lookup k v d, str_eq_iff j k)

  pub lookup_of_In :
      (k : String) (v : V) (d : Dict V) → IsUnique d → In (k, v) d → lookup k d ≡ some v
  unfolding lookup
  lookup_of_In k v [] u m = absurd m
  lookup_of_In k v ((j, w) ∷ d) u (inl e) = ground (arith, str_eq_iff j k)
  lookup_of_In k v ((j, w) ∷ d) u (inr m) = ground (arith, lookup_of_In k v d u.1 m, str_eq_iff j k)

  pub In-values : (v : V) (d : Dict V) → In v (values d) → (k : String) × In (k, v) d
  unfolding values
  In-values v [] m = absurd m
  In-values v ((j, w) ∷ d) (inl e) = (j, inl (ap (λ x. (j, x)) e))
  In-values v ((j, w) ∷ d) (inr m) = let (k, h) = In-values v d m in (k, inr h)

  pub values-In : (k : String) (v : V) (d : Dict V) → In (k, v) d → In v (values d)
  unfolding values
  values-In k v [] m = absurd m
  values-In k v ((j, w) ∷ d) (inl e) = inl (ap (λ (p : String × V). p.1) e)
  values-In k v ((j, w) ∷ d) (inr m) = inr (values-In k v d m)

  pub lookup-insert_self : (k : String) (v : V) (d : Dict V) → lookup k (insert k v d) ≡ some v
  lookup-insert_self k v d = ground (arith, lookup-insert k k v d, str_eq_iff k k)

  pub lookup-insert_ne :
      (k j : String) (v : V) (d : Dict V)
      → str_eq k j ≡ false
      → lookup j (insert k v d) ≡ lookup j d
  lookup-insert_ne k j v d h = ground (arith, lookup-insert k j v d)

  -- What is found after a write is what was written, or was there before.
  pub lookup-insert_cases :
      (k j : String) (v w : V) (d : Dict V)
      → lookup j (insert k v d) ≡ some w
      → (v ≡ w) × (k ≡ j) ⊎ (lookup j d ≡ some w)
  lookup-insert_cases k j v w d h = ground (arith, lookup-insert k j v d, str_eq_iff k j)
