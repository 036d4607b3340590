-- ===== src/Validation/Snowflake/Attempts.antt =====
-- `SnowflakePromotionService.promote` of src/millrace/validation/publication.py: what a crash leaves,
-- and what the next attempt does.
use mathlib.Core.Path.{subst}
use millrace.Base.{
  ℕ, String, ◌<>◌, Bool, true, false, Option, none, some, [], ◌∷◌, ◌++◌, ok, ◌≡◌, refl, sym, ap,
  ◌∙◌, arith, ◌⊎◌, inl, inr, All-append, str_eq_iff, str_eq_self, Bool-cases,
}
use millrace.Base.Dict.{Dict}
use millrace.Base.Stateful.{Action, and_then, ◌>>=◌, Ends, Ends-assoc}
use millrace.Contracts.{Platform, RunContext}
use millrace.Validation.Identifiers.{IdentifierCase, quote_identifier}
use millrace.Validation.Models.{ReconciliationConfig, ValidationReport, is_passed}
use millrace.Validation.Publication.{View}
use millrace.Validation.Snowflake.{
  Refusal, settled, PublicationRow, Account, Connection, Command, run_command, execute,
  insert_pending, create_control, select_validation, select_latest, select_existing, find_row,
  swap_unless, resume, swap_promote, refuse_if, query,
}
use millrace.Validation.Snowflake.Rows.{
  Fits, is_done, is_done_row, is_newer-latest_published, find_row-batch_id, find_row-append,
  views_of_batch, IsReady,
}
use millrace.Validation.Snowflake.Steps.{Ends-run, Ends-ok}
use millrace.Validation.Snowflake.Resume.{with_status, IsPublished, swap_in-Ends}

-- The names of the schemas can be quoted, and the report is a passed one of the run.
pub record IsAuthorized (context : RunContext) (config : ReconciliationConfig)
    (report : ValidationReport) : Type 0 where
  pub control : String
  pub has_control : quote_identifier IdentifierCase.upper config.control_schema ≡ ok control
  pub analytics : String
  pub has_analytics : quote_identifier IdentifierCase.upper config.analytics_schema ≡ ok analytics
  pub staging : String
  pub has_staging :
      quote_identifier IdentifierCase.upper (config.analytics_schema <> "_staging") ≡ ok staging
  pub passed : is_passed report ≡ true
  pub run : report.run_id ≡ context.run_id
  pub batch : report.batch_id ≡ context.batch_id

module _ (refuses : Command → Account → Option Refusal) (now : ℕ) (platform : Platform)
    (context : RunContext) (found : Dict View) (E : Connection → Type 0)
    (may_fail : (command : Command) (c : Connection)
      → (refuses command c.current ≡ none)
        ⊎ ((d : Connection) → IsReady context (with_status found) d.durable → E d))
    (config : ReconciliationConfig)
    (named : views_of_batch platform context config.publications [] ≡ ok found) where
  abbrev views : Dict View
  views = with_status found

  abbrev Goal : Unit {0} → Connection → Type 0
  Goal u c = IsReady context views c.durable × IsPublished context views c.durable

  Ends-refuse_if :
      {A : Type 0} (Q : A → Connection → Type 0) (test : Bool) (message : String)
      (f : Unit {0} → Action Connection A) (c : Connection)
      → test ≡ false
      → Ends Q E (f tt c)
      → Ends Q E ((refuse_if test message >>= f) c)
  unfolding and_then
  Ends-refuse_if Q true message f c h k = cc
  Ends-refuse_if Q false message f c h k = k

  insert_pending-Ends :
      (a : Account)
      → IsReady context views a
      → find_row context.run_id a.publication_runs ≡ none
      → Ends Goal E (resume refuses now platform context config none (settled a))
  unfolding is_done
  insert_pending-Ends a ready missing =
      let row : PublicationRow = record {
        run_id = context.run_id;
        batch_id = context.batch_id;
        is_published = false;
        published_at = now;
      } in
      let rows = a.publication_runs ++ row ∷ [] in
      let own =
        find_row-append context.run_id a.publication_runs row missing
          (str_eq_self context.run_id) in
      let ready_row : IsReady context views (record a { publication_runs = rows }) = record {
        validated = ready.validated;
        rows =
            All-append (Fits context.run_id context.batch_id) a.publication_runs (row ∷ [])
              ready.rows ((inl refl, inr refl), tt);
        shown = inl (ap (λ r. is_done_row r) own);
      } in
      Ends-run refuses now platform context views E may_fail Goal
        (insert_pending context.run_id context.batch_id now) _ (settled a)
        (record { current = record a { publication_runs = rows }; durable = a }) refl ready ready
        (swap_in-Ends refuses now platform context found E may_fail config named
          (record { current = record a { publication_runs = rows }; durable = a }) row ready_row
          ready own refl)

  IsPublished-already :
      (a : Account) (row : PublicationRow)
      → IsReady context views a
      → find_row context.run_id a.publication_runs ≡ some row
      → row.is_published ≡ true
      → IsPublished context views a
  unfolding is_done
  IsPublished-already a row ready own h = record {
    recorded = ap is_done_row own ∙ h;
    shown = elim ready.shown [ inl open_run ↦ cc (ap is_done_row own, h) | inr there ↦ there ];
  }

  resume-Ends :
      (a : Account) (existing : Option PublicationRow)
      → IsReady context views a
      → find_row context.run_id a.publication_runs ≡ existing
      → Ends Goal E (resume refuses now platform context config existing (settled a))
  resume-Ends a none ready own = insert_pending-Ends a ready own
  resume-Ends a (some row) ready own =
      Ends-refuse_if Goal _ "published run_id has a different batch_id" _ (settled a)
        (let same =
            find_row-batch_id context.run_id context.batch_id a.publication_runs row ready.rows
              own in
          ground arith)
        (elim (Bool-cases row.is_published) [
          | inl published ↦
              subst
                (λ b. Ends Goal E (swap_unless refuses now platform context config b (settled a)))
                (sym published) (ready, IsPublished-already a row ready own published)
          | inr pending ↦
              subst
                (λ b. Ends Goal E (swap_unless refuses now platform context config b (settled a)))
                (sym pending)
                (swap_in-Ends refuses now platform context found E may_fail config named (settled a)
                  row ready ready own pending)
        ])

  Ends-query :
      {B : Type 0} (command : Command) (read : Account → B) (f : B → Action Connection (Unit {0}))
      (a : Account)
      → run_command command (settled a) ≡ (ok tt, settled a)
      → IsReady context views a
      → Ends Goal E (f (read a) (settled a))
      → Ends Goal E ((query refuses now command read >>= f) (settled a))
  unfolding and_then
  Ends-query command read f a same ready k =
      Ends-assoc Goal E (execute refuses now command (settled a)) (λ _ c. (ok (read c.current), c))
        f
        (Ends-run refuses now platform context views E may_fail Goal command
          (λ _ c. and_then (ok (read c.current), c) f) (settled a) (settled a) same ready ready k)

  pub swap_promote-Ends :
      (report : ValidationReport) (a : Account)
      → IsAuthorized context config report
      → IsReady context views a
      → Ends Goal E (swap_promote refuses now platform context config report (settled a))
  unfolding swap_promote
  swap_promote-Ends report a allowed ready =
      let c = settled a in
      Ends-ok refuses now platform context views E may_fail Goal _ allowed.control _ c
        allowed.has_control
        (Ends-ok refuses now platform context views E may_fail Goal _ allowed.analytics _ c
          allowed.has_analytics
          (Ends-ok refuses now platform context views E may_fail Goal _ allowed.staging _ c
            allowed.has_staging
            (Ends-refuse_if Goal _ "failed validation cannot authorize publication" _ c
              (rw allowed.passed refl)
              (Ends-refuse_if Goal _ "validation report does not match the promotion context" _ c
                (ground (arith, (str_eq_iff report.run_id context.run_id).1 allowed.run))
                (Ends-run refuses now platform context views E may_fail Goal create_control _ c c
                  refl ready ready
                  (Ends-query (select_validation context.run_id) _ _ a refl ready (
                    Ends-refuse_if Goal _ "a matching passed validation audit row is required" _ c
                      (rw ready.validated refl)
                      (Ends-query select_latest _ _ a refl ready (
                        Ends-refuse_if Goal _ "publication cannot replace a newer batch" _ c
                          (is_newer-latest_published context.run_id context.batch_id
                            a.publication_runs ready.rows)
                          (Ends-query (select_existing context.run_id) _ _ a refl ready (
                            resume-Ends a (find_row context.run_id a.publication_runs) ready
                              refl)))))))))))
