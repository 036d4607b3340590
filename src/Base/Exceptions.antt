-- ===== src/Base/Exceptions.antt =====
-- Python's exceptions. An exception is its class and the fixed part of its message.
use Prim.Native.String.{String}
use mathlib.Core.Path.{◌≡◌, refl, ap, ◌∙◌}
use mathlib.Core.Bool.{Bool, true, false}
use mathlib.Core.Option.{Option, none, some}
use mathlib.Core.List.{List, [], ◌∷◌}
use mathlib.Core.Logic.{◌⊎◌, inl, inr}

pub data Error : Type 0 where
  value_error type_error key_error runtime_error : String → Error
  promotion_error database_error timeout_error : String → Error

pub data Result {ℓ} (A : Type ℓ) : Type ℓ where
  ok : A → Result A
  raise : Error → Result A

infixl 5 ◌>>=◌ ◌>>◌
abbrev pub ◌>>=◌ {ℓ κ} : {A : Type ℓ} {B : Type κ} → Result A → (A → Result B) → Result B
raise error >>= rest = raise error
ok value >>= rest = rest value

abbrev pub ◌>>◌ {ℓ κ} : {A : Type ℓ} {B : Type κ} → Result A → Result B → Result B
m >> k = m >>= λ _. k

-- `if test: raise e`
abbrev pub raise_if : Bool → Error → Result (Unit {0})
raise_if true e = raise e
raise_if false e = ok tt

-- `d[k]`, where a missing key raises
abbrev pub or_raise {ℓ} : {A : Type ℓ} → Option A → Error → Result A
or_raise none e = raise e
or_raise (some a) e = ok a

pub Result-cases {ℓ} :
    {A : Type ℓ} (r : Result A) → ((a : A) × (r ≡ ok a)) ⊎ ((e : Error) × (r ≡ raise e))
Result-cases (ok a) = inl (a, refl)
Result-cases (raise e) = inr (e, refl)

pub bind-eq-ok {ℓ κ} :
    {A : Type ℓ} {B : Type κ} (r : Result A) (rest : A → Result B) {out : B}
    → (r >>= rest) ≡ ok out
    → (value : A) × (r ≡ ok value) × (rest value ≡ ok out)
bind-eq-ok (raise error) rest h = cc
bind-eq-ok (ok value) rest h = (value, refl, h)

pub ok-path {ℓ} : {A : Type ℓ} {a b : A} → ok a ≡ ok b → a ≡ b
ok-path h = cc

pub bind-ok₂ {ℓ} :
    {A B C : Type ℓ} (m : Result A) (n : Result B) (f : A → B → C) (a : A) (b : B)
    → m ≡ ok a
    → n ≡ ok b
    → (m >>= λ x. n >>= λ y. ok (f x y)) ≡ ok (f a b)
bind-ok₂ m n f a b h k =
    ap (λ r. r >>= λ x. n >>= λ y. ok (f x y)) h ∙ ap (λ r. r >>= λ y. ok (f a y)) k

-- `[f(x) for x in xs]` for a function that may raise: the first exception ends it.
module _ {ℓ κ} {A : Type ℓ} {B : Type κ} (f : A → Result B) where
  unfoldable pub map_result : List A → Result (List B)
  map_result [] = ok []
  map_result (x ∷ xs) = f x >>= λ y. map_result xs >>= λ ys. ok (y ∷ ys)
