-- ===== src/Base/Stateful.antt =====
-- Calls that may raise and that change a state: what is returned or raised, and the state then.
use mathlib.Core.Path.{◌≡◌, refl}
use mathlib.Core.Logic.{◌⊎◌, inl, inr}
use native.Mathlib.Omega.{arith}
use millrace.Base.Exceptions.{Result, ok, raise}

abbrev pub Action : Type 0 → Type 0 → Type 0
Action S A = S → Result A × S

infixl 5 ◌>>=◌ ◌>>◌
unfoldable pub and_then : {S A B : Type 0} → Result A × S → (A → Action S B) → Result B × S
and_then (ok a, s) f = f a s
and_then (raise e, s) f = (raise e, s)

abbrev pub ◌>>=◌ : {S A B : Type 0} → Action S A → (A → Action S B) → Action S B
m >>= f = λ s. and_then (m s) f

abbrev pub ◌>>◌ : {S A B : Type 0} → Action S A → Action S B → Action S B
m >> k = m >>= λ _. k

abbrev pub lift : {S A : Type 0} → Result A → Action S A
lift r = λ s. (r, s)

abbrev pub return : {S A : Type 0} → A → Action S A
return a = lift (ok a)

-- what leaves a `finally` block: its own exception, or else what it was entered with
unfoldable pub leave_with : {S A : Type 0} → Result A → Result (Unit {0}) × S → Result A × S
leave_with r (ok _, s) = (r, s)
leave_with r (raise e, s) = (raise e, s)

-- `try: body finally: cleanup`
abbrev pub finally : {S A : Type 0} → Action S A → Action S (Unit {0}) → Action S A
finally body cleanup = λ s. leave_with (body s).0 (cleanup (body s).1)

-- `Q` holds of what is returned and of the state then, or `E` of the state at the exception.
abbrev pub Ends : {S A : Type 0} → (A → S → Type 0) → (S → Type 0) → Result A × S → Type 0
Ends Q E (ok a, s) = Q a s
Ends Q E (raise e, s) = E s

module _ {S A : Type 0} (Q : A → S → Type 0) (E : S → Type 0) where
  pub Ends-and_then :
      {B : Type 0} (R : B → S → Type 0) (r : Result B × S) (f : B → Action S A)
      → Ends R E r
      → ((b : B) (s : S) → R b s → Ends Q E (f b s))
      → Ends Q E (and_then r f)
  unfolding and_then
  Ends-and_then R (ok b, s) f h k = k b s h
  Ends-and_then R (raise e, s) f h k = h

  pub Ends-assoc :
      {B C : Type 0} (r : Result B × S) (g : B → Action S C) (f : C → Action S A)
      → Ends Q E (and_then r (λ b s. and_then (g b s) f))
      → Ends Q E (and_then (and_then r g) f)
  unfolding and_then
  Ends-assoc (ok b, s) g f h = h
  Ends-assoc (raise e, s) g f h = h

  pub Ends-lift :
      {B : Type 0} (r : Result B) (f : B → Action S A) (s : S)
      → E s
      → ((b : B) → r ≡ ok b → Ends Q E (f b s))
      → Ends Q E ((lift r >>= f) s)
  unfolding and_then
  Ends-lift (ok b) f s h k = k b refl
  Ends-lift (raise e) f s h k = h

-- What holds of the state on both ways out.
pub Ends-state :
    {S A : Type 0} (Q : A → S → Type 0) (E P : S → Type 0) (r : Result A × S)
    → ((a : A) (s : S) → Q a s → P s)
    → ((s : S) → E s → P s)
    → Ends Q E r
    → P r.1
Ends-state Q E P (ok a, s) k l h = k a s h
Ends-state Q E P (raise e, s) k l h = l s h

-- the inversion of a call that returned
pub and_then-eq-ok :
    {S A B : Type 0} (r : Result A × S) (f : A → Action S B) {out : B} {end : S}
    → and_then r f ≡ (ok out, end)
    → (a : A) × (s : S) × (r ≡ (ok a, s)) × (f a s ≡ (ok out, end))
unfolding and_then
and_then-eq-ok (ok a, s) f h = (a, s, refl, h)
and_then-eq-ok (raise e, s) f h = absurd (ground arith)

-- the state that a sequence leaves is that of its first call or of the second
pub and_then_state :
    {S A B : Type 0} (r : Result A × S) (f : A → Action S B)
    → ((and_then r f).1 ≡ r.1) ⊎ ((a : A) × ((and_then r f).1 ≡ (f a r.1).1))
unfolding and_then
and_then_state (ok a, s) f = inr (a, refl)
and_then_state (raise e, s) f = inl refl

-- A call that cannot end by an exception returns.
pub Ends-total :
    {S A : Type 0} (Q : A → S → Type 0) (r : Result A × S)
    → Ends Q (λ s. ⊥) r
    → (a : A) × (s : S) × (r ≡ (ok a, s)) × Q a s
Ends-total Q (ok a, s) h = (a, s, refl, h)
Ends-total Q (raise e, s) h = absurd h

pub Ends-weaken :
    {S A : Type 0} (Q R : A → S → Type 0) (E F : S → Type 0) (r : Result A × S)
    → ((a : A) (s : S) → Q a s → R a s)
    → ((s : S) → E s → F s)
    → Ends Q E r
    → Ends R F r
Ends-weaken Q R E F (ok a, s) k l h = k a s h
Ends-weaken Q R E F (raise e, s) k l h = l s h

pub Ends-returned :
    {S A : Type 0} (Q : A → S → Type 0) (E : S → Type 0) (r : Result A) (s : S)
    → E s
    → ((a : A) → Q a s)
    → Ends Q E (r, s)
Ends-returned Q E (ok a) s h k = k a
Ends-returned Q E (raise e) s h k = h
