-- ===== src/Validation/Snowflake/Steps.antt =====
-- The statements of `SnowflakePromotionService.promote` of src/millrace/validation/publication.py,
-- any of which may be the last before a crash.
use mathlib.Core.Path.{subst}
use millrace.Base.{
  ℕ, String, Bool, true, false, if◌then◌else◌, Option, none, some, List, [], ◌∷◌, Result, ok,
  bind-eq-ok, ok-path, ◌≡◌, refl, sym, ap, ◌⊎◌, inl, inr, split_on, last_part,
}
use millrace.Base.Dict.{Dict, insert}
use millrace.Base.Stateful.{Action, and_then, ◌>>=◌, lift, Ends, Ends-and_then}
use millrace.Contracts.{Platform, RunContext}
use millrace.Validation.Identifiers.{IdentifierCase, quote_identifier, render_relation}
use millrace.Validation.Models.{PublicationRule}
use millrace.Validation.Publication.{View, rows_of}
use millrace.Validation.Snowflake.{
  Refusal, before_commit, after_commit, commits, settled, Account, Connection, Command, run_command,
  answered, execute, stage_view, stage_views, create_staged_view,
}
use millrace.Validation.Snowflake.Rows.{views_of_batch, IsReady}

-- An account with the views in its staging schema.
abbrev pub with_staging : Account → Dict View → Account
with_staging a found = record a { staging = some found }

-- The connection that a step leaves, exactly.
abbrev pub Leaves : Connection → Unit {0} → Connection → Type 0
Leaves next u c = c ≡ next

module _ (refuses : Command → Account → Option Refusal) (now : ℕ) (platform : Platform)
    (context : RunContext) (views : Dict View) (E : Connection → Type 0)
    (may_fail : (command : Command) (c : Connection)
      → (refuses command c.current ≡ none)
        ⊎ ((d : Connection) → IsReady context views d.durable → E d)) where
  either_E :
      (b : Bool) (c : Connection)
      → E c × E (settled c.current)
      → E (if b then settled c.current else c)
  either_E true c h = h.1
  either_E false c h = h.0

  -- what a refusal leaves
  refused_E :
      (refusal : Option Refusal) (c : Connection)
      → (refusal ≡ none) ⊎ ((d : Connection) → IsReady context views d.durable → E d)
      → IsReady context views c.durable
      → IsReady context views c.current
      → (refusal ≡ none) ⊎ (E c × E (settled c.current))
  refused_E refusal c (inl fine) ready seen = inl fine
  refused_E refusal c (inr bad) ready seen = inr (bad c ready, bad (settled c.current) seen)

  module _ {A : Type 0} (Q : A → Connection → Type 0) where
    Ends-answered :
        (refusal : Option Refusal) (command : Command) (r : Result (Unit {0}) × Connection)
        (f : Unit {0} → Action Connection A) (c : Connection)
        → (refusal ≡ none) ⊎ (E c × E (settled c.current))
        → Ends Q E (and_then r f)
        → Ends Q E (and_then (answered refusal command r c) f)
    unfolding and_then
    Ends-answered none command r f c h k = k
    Ends-answered (some e) command r f c (inl bad) k = cc
    Ends-answered (some (before_commit e)) command r f c (inr h) k = h.0
    Ends-answered (some (after_commit e)) command r f c (inr h) k = either_E (commits command) c h

    -- a statement that Snowflake carries out when it accepts it, where the account stays ready
    pub Ends-run :
        (command : Command) (f : Unit {0} → Action Connection A) (c next : Connection)
        → run_command command c ≡ (ok tt, next)
        → IsReady context views c.durable
        → IsReady context views c.current
        → Ends Q E (f tt next)
        → Ends Q E ((execute refuses now command >>= f) c)
    unfolding execute and_then
    Ends-run command f c next same ready seen k =
        Ends-answered (refuses command c.current) command (run_command command c) f c
          (refused_E (refuses command c.current) c (may_fail command c) ready seen)
          (subst (λ r. Ends Q E (and_then r f)) (sym same) k)

    pub Ends-ok :
        {B : Type 0} (r : Result B) (b : B) (f : B → Action Connection A) (c : Connection)
        → r ≡ ok b
        → Ends Q E (f b c)
        → Ends Q E ((lift r >>= f) c)
    unfolding and_then
    Ends-ok r b f c same k = subst (λ z. Ends Q E (and_then (z, c) f)) (sym same) k

  module _ (Q : Unit {0} → Connection → Type 0) where
    Ends-accepted :
        (refusal : Option Refusal) (command : Command) (r : Result (Unit {0}) × Connection)
        (c : Connection)
        → (refusal ≡ none) ⊎ (E c × E (settled c.current))
        → Ends Q E r
        → Ends Q E (answered refusal command r c)
    Ends-accepted none command r c h k = k
    Ends-accepted (some e) command r c (inl bad) k = cc
    Ends-accepted (some (before_commit e)) command r c (inr h) k = h.0
    Ends-accepted (some (after_commit e)) command r c (inr h) k = either_E (commits command) c h

    -- a statement that is the last of its sequence
    pub Ends-last :
        (command : Command) (c next : Connection)
        → run_command command c ≡ (ok tt, next)
        → IsReady context views c.durable
        → IsReady context views c.current
        → Q tt next
        → Ends Q E (execute refuses now command c)
    unfolding execute
    Ends-last command c next same ready seen k =
        Ends-accepted (refuses command c.current) command (run_command command c) c
          (refused_E (refuses command c.current) c (may_fail command c) ready seen)
          (subst (Ends Q E) (sym same) k)

  staging-IsReady :
      (a : Account) (found : Dict View)
      → IsReady context views a
      → IsReady context views (with_staging a found)
  staging-IsReady a found h = record { validated = h.validated; rows = h.rows; shown = h.shown }

  stage_view-Ends :
      (publication : PublicationRule) (a : Account) (found : Dict View)
      (name relation batch : String)
      → IsReady context views a
      → quote_identifier IdentifierCase.upper (last_part (split_on b'.' publication.view)) ≡ ok name
      → render_relation platform IdentifierCase.upper publication.relation context ≡ ok relation
      → quote_identifier IdentifierCase.upper publication.batch_column ≡ ok batch
      → Ends
          (Leaves (
            settled (with_staging a (insert name (rows_of relation batch context.batch_id) found))))
          E
          (stage_view refuses now platform context publication (settled (with_staging a found)))
  unfolding stage_view
  stage_view-Ends publication a found name relation batch ready h k l =
      let view = rows_of relation batch context.batch_id in
      let Q = Leaves (settled (with_staging a (insert name view found))) in
      let c = settled (with_staging a found) in
      Ends-ok Q _ name _ c h (
        Ends-ok Q _ relation _ c k (
          Ends-ok Q _ batch _ c l (
            Ends-last Q (create_staged_view name view) c _ refl (staging-IsReady a found ready)
              (staging-IsReady a found ready) refl)))

  -- The loop over the publications leaves their views in the staging schema.
  pub stage_views-Ends :
      (publications : List PublicationRule) (a : Account) (found end : Dict View)
      → IsReady context views a
      → views_of_batch platform context publications found ≡ ok end
      → Ends
          (Leaves (settled (with_staging a end)))
          E
          (stage_views refuses now platform context publications (settled (with_staging a found)))
  unfolding stage_views views_of_batch
  stage_views-Ends [] a found end ready h = ap (λ v. settled (with_staging a v)) (ok-path h)
  stage_views-Ends (publication ∷ publications) a found end ready h =
      let (name, e, rest) =
        bind-eq-ok
          (quote_identifier IdentifierCase.upper (last_part (split_on b'.' publication.view))) _
          h in
      let (relation, f, more) =
        bind-eq-ok (render_relation platform IdentifierCase.upper publication.relation context) _
          rest in
      let (batch, g, last) =
        bind-eq-ok (quote_identifier IdentifierCase.upper publication.batch_column) _ more in
      let view = rows_of relation batch context.batch_id in
      let next = settled (with_staging a (insert name view found)) in
      Ends-and_then (Leaves (settled (with_staging a end))) E (Leaves next) _ _
        (stage_view-Ends publication a found name relation batch ready e f g)
        (λ u c same.
          subst
            (λ z.
              Ends (Leaves (settled (with_staging a end))) E
                (stage_views refuses now platform context publications z))
            (sym same) (stage_views-Ends publications a (insert name view found) end ready last))
