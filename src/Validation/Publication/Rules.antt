-- ===== src/Validation/Publication/Rules.antt =====
-- How an action on the connection ends, and the rules for one step of it.
use mathlib.Core.Path.{subst}
use millrace.Base.{
  Error, sym, String, Bool, true, false, Option, none, some, Result, ok, raise, ◌≡◌, refl,
}
use millrace.Base.Dict.{lookup}
use millrace.Validation.Publication.{
  Database, Session, Statement, Engine, Action, and_then, ◌>>=◌, lift, refuse_if, apply_statement,
  answered, insert_new, insert_publication, Publication, execute, fetch,
}

-- `Q` holds of what is returned and of the session then, or `E` of the session at the exception.
abbrev pub Ends :
    {A : Type 0} → (A → Session → Type 0) → (Session → Type 0) → Result A × Session → Type 0
Ends Q E (ok a, session) = Q a session
Ends Q E (raise e, session) = E session

module _ {A : Type 0} (Q : A → Session → Type 0) (E : Session → Type 0) where
  pub Ends-and_then :
      {B : Type 0} (R : B → Session → Type 0) (r : Result B × Session) (f : B → Action A)
      → Ends R E r
      → ((b : B) (session : Session) → R b session → Ends Q E (f b session))
      → Ends Q E (and_then r f)
  unfolding and_then
  Ends-and_then R (ok b, session) f h k = k b session h
  Ends-and_then R (raise e, session) f h k = h

  pub Ends-assoc :
      {B C : Type 0} (r : Result B × Session) (g : B → Action C) (f : C → Action A)
      → Ends Q E (and_then r (λ b session. and_then (g b session) f))
      → Ends Q E (and_then (and_then r g) f)
  unfolding and_then
  Ends-assoc (ok b, session) g f h = h
  Ends-assoc (raise e, session) g f h = h

  pub Ends-lift :
      {B : Type 0} (r : Result B) (f : B → Action A) (session : Session)
      → E session
      → ((b : B) → r ≡ ok b → Ends Q E (f b session))
      → Ends Q E ((lift r >>= f) session)
  unfolding and_then
  Ends-lift (ok b) f session h k = k b refl
  Ends-lift (raise e) f session h k = h

  pub Ends-refuse_if :
      (test : Bool) (message : String) (f : Unit {0} → Action A) (session : Session)
      → E session
      → (test ≡ false → Ends Q E (f tt session))
      → Ends Q E ((refuse_if test message >>= f) session)
  unfolding and_then
  Ends-refuse_if true message f session h k = h
  Ends-refuse_if false message f session h k = k refl

  Ends-answered :
      (refusal : Option Error) (r : Result (Unit {0}) × Session) (f : Unit {0} → Action A)
      (session : Session)
      → E session
      → Ends Q E (and_then r f)
      → Ends Q E (and_then (answered refusal r session) f)
  unfolding and_then
  Ends-answered none r f session h k = k
  Ends-answered (some e) r f session h k = h

  module _ (engine : Engine) where
    pub Ends-execute :
        (statement : Statement) (f : Unit {0} → Action A) (session : Session)
        → E session
        → Ends Q E (and_then (apply_statement engine statement session) f)
        → Ends Q E ((execute engine statement >>= f) session)
    unfolding execute
    Ends-execute statement f session h k =
        Ends-answered (engine.refuses statement session.db)
          (apply_statement engine statement session) f session h k

    -- a statement that DuckDB carries out when it accepts it
    pub Ends-run :
        (statement : Statement) (f : Unit {0} → Action A) (session next : Session)
        → apply_statement engine statement session ≡ (ok tt, next)
        → E session
        → Ends Q E (f tt next)
        → Ends Q E ((execute engine statement >>= f) session)
    unfolding and_then
    Ends-run statement f session next same h k =
        Ends-execute statement f session h (subst (λ r. Ends Q E (and_then r f)) (sym same) k)

    pub Ends-fetch :
        {B : Type 0} (query : Statement) (read : Database → B) (f : B → Action A)
        (session : Session)
        → apply_statement engine query session ≡ (ok tt, session)
        → E session
        → Ends Q E (f (read session.db) session)
        → Ends Q E ((fetch engine query read >>= f) session)
    unfolding execute and_then
    Ends-fetch query read f session same h k =
        elim (engine.refuses query session.db)
          as (λ refusal. Ends Q E (
            and_then
              (and_then (answered refusal (apply_statement engine query session) session)
                (λ _ next. (ok (read next.db), next)))
              f)) [
                | none ↦
                    subst
                      (λ r.
                        Ends Q E (and_then (and_then r (λ _ next. (ok (read next.db), next))) f))
                      (sym same) k
                | some e ↦ h
              ]

    pub Ends-insert :
        (run_id : String) (row : Publication) (f : Unit {0} → Action A) (session : Session)
        → lookup run_id session.db.publication_runs ≡ none
        → E session
        → Ends Q E (f tt (insert_new none run_id row session).1)
        → Ends Q E (
            (execute engine (insert_publication run_id row.batch_id row.published_at) >>= f)
              session)
    unfolding and_then
    Ends-insert run_id row f session fresh h k =
        Ends-execute (insert_publication run_id row.batch_id row.published_at) f session h (
          subst (λ found. Ends Q E (and_then (insert_new found run_id row session) f)) (sym fresh)
            k)

module _ (Q : Unit {0} → Session → Type 0) (E : Session → Type 0) where
  Ends-accepted :
      (refusal : Option Error) (r : Result (Unit {0}) × Session) (session : Session)
      → E session
      → Ends Q E r
      → Ends Q E (answered refusal r session)
  Ends-accepted none r session h k = k
  Ends-accepted (some e) r session h k = h

  pub Ends-last :
      (engine : Engine) (statement : Statement) (session : Session)
      → E session
      → Ends Q E (apply_statement engine statement session)
      → Ends Q E (execute engine statement session)
  unfolding execute
  Ends-last engine statement session h k =
      Ends-accepted (engine.refuses statement session.db) (apply_statement engine statement session)
        session h k

pub Ends-mono :
    {A : Type 0} (Q R : A → Session → Type 0) (E : Session → Type 0) (r : Result A × Session)
    → ((a : A) (session : Session) → Q a session → R a session)
    → Ends Q E r
    → Ends R E r
Ends-mono Q R E (ok a, session) k h = k a session h
Ends-mono Q R E (raise e, session) k h = h

pub Ends-weaken :
    {A : Type 0} (R : A → Session → Type 0) (F : Session → Type 0) (Q : A → Session → Type 0)
    (E : Session → Type 0) (r : Result A × Session)
    → ((a : A) (session : Session) → Q a session → R a session)
    → ((session : Session) → E session → F session)
    → Ends Q E r
    → Ends R F r
Ends-weaken R F Q E (ok a, session) k l h = k a session h
Ends-weaken R F Q E (raise e, session) k l h = l session h

-- What holds of the session on both ways out.
pub Ends-session :
    {A : Type 0} (Q : A → Session → Type 0) (E P : Session → Type 0) (r : Result A × Session)
    → ((a : A) (session : Session) → Q a session → P session)
    → ((session : Session) → E session → P session)
    → Ends Q E r
    → P r.1
Ends-session Q E P (ok a, session) k l h = k a session h
Ends-session Q E P (raise e, session) k l h = l session h
