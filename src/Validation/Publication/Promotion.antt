-- ===== src/Validation/Publication/Promotion.antt =====
-- What `promote` does, on every path and whatever statement DuckDB refuses.
use mathlib.Core.Path.{subst}
use millrace.Base.{
  Error, String, true, false, Option, none, some, Result, ok, raise, ◌≡◌, refl, ap, ◌∙◌, ◌⊎◌, inl,
  inr, str_eq_iff, arith,
}
use millrace.Base.Dict.{Dict, lookup, insert}
use millrace.Contracts.{Platform, RunContext}
use millrace.Validation.Identifiers.{IdentifierCase, quote_identifier}
use millrace.Validation.Models.{ReconciliationConfig, ValidationReport, is_passed}
use millrace.Validation.Publication.{
  View, Publication, Database, Session, Engine, current_validation_status, begin, commit, rollback,
  create_schema, select_validation, select_latest, select_existing, create_publication_runs,
  committed, visible, with_schema, and_then, max_batch, is_newer, is_validated, status_view,
  publish, publish_once, promotion, promote, or_roll_back, ensure_control_tables, validate_report,
  execute,
}
use millrace.Validation.Publication.Rules.{
  Ends, Ends-and_then, Ends-lift, Ends-weaken, Ends-run, Ends-assoc, Ends-insert, Ends-mono,
  Ends-refuse_if, Ends-execute, Ends-fetch, Ends-last,
}
use millrace.Validation.Publication.Views.{IsOpen, AreWritten, HaveWritten, publish_views-Ends}

-- The same rows in the control tables, and the same views.
abbrev pub HasSameRows : Database → Database → Type 0
HasSameRows before after =
    (after.publication_runs ≡ before.publication_runs)
    × (after.validation_runs ≡ before.validation_runs)
    × (after.views ≡ before.views)

-- The report passed, and it is about the run.
abbrev pub IsAuthorized : RunContext → ValidationReport → Type 0
IsAuthorized context report =
    (is_passed report ≡ true)
    × (report.run_id ≡ context.run_id)
    × (report.batch_id ≡ context.batch_id)

-- A connection with no transaction open.
abbrev pub idle : Database → Session
idle db = record { db = db; saved = none }

module _ (engine : Engine) (platform : Platform) (config : ReconciliationConfig)
    (context : RunContext) where
  -- A first publication of the run: its row, every view and the status view, in one transaction.
  abbrev pub IsNewlyPublished : Database → Session → Type 0
  IsNewlyPublished before after =
      (views : Dict View) × (analytics : String) × AreWritten engine platform context
        config.publications before.views views
      × (quote_identifier IdentifierCase.preserve config.analytics_schema ≡ ok analytics)
      × (after.db.views
          ≡ insert (engine.relation_name (status_view engine platform context analytics))
              current_validation_status views)
      × (lookup context.run_id before.publication_runs ≡ none)
      × (after.db.publication_runs
          ≡ insert context.run_id
              (record { batch_id = context.batch_id; published_at = engine.now })
              before.publication_runs)
      × (after.db.validation_runs ≡ before.validation_runs)
      × (after.saved ≡ none)

  publish-Ends :
      (session : Session)
      → lookup context.run_id session.db.publication_runs ≡ none
      → Ends
          (λ _. IsNewlyPublished session.db)
          (IsOpen engine platform context session)
          (publish engine platform context config session)
  unfolding publish and_then execute
  publish-Ends session fresh =
      let Q : Unit {0} → Session → Type 0 = λ _. IsNewlyPublished session.db in
      let E = IsOpen engine platform context session in
      Ends-and_then Q E (λ _. HaveWritten engine platform context config.publications session) _ _
        (publish_views-Ends engine platform context config.publications session)
        (λ _ next (written, kept).
          Ends-insert Q E engine _ _ _ next (ap (lookup context.run_id) kept.0 ∙ fresh) kept.2 (
            Ends-lift Q E _ _ _ kept.2 (λ analytics quoted. Ends-execute Q E engine _ _ _ kept.2 (
              Ends-last Q E engine commit _ kept.2 (
                next.db.views,
                analytics,
                written,
                quoted,
                refl,
                fresh,
                ap (insert _ _) kept.0,
                kept.1,
                refl,
              )))))

  -- The run was published before with the same batch: nothing changes.
  abbrev pub IsRepublished : Database → Session → Type 0
  IsRepublished before after =
      (row : Publication) × (lookup context.run_id before.publication_runs ≡ some row)
      × (row.batch_id ≡ context.batch_id)
      × HasSameRows before after.db
      × (after.saved ≡ none)

  -- The gates in the database: the run is validated, and no newer batch is published.
  abbrev pub HasPassedGates : Database → Type 0
  HasPassedGates db =
      (is_validated context.batch_id (lookup context.run_id db.validation_runs) ≡ true)
      × (is_newer context.batch_id (max_batch db.publication_runs) ≡ false)

  abbrev pub IsPromoted : Database → Session → Type 0
  IsPromoted before after =
      HasPassedGates before × (IsRepublished before after ⊎ IsNewlyPublished before after)

  publish_once-Ends :
      (session : Session) (existing : Option Publication)
      → lookup context.run_id session.db.publication_runs ≡ existing
      → HasPassedGates session.db
      → Ends
          (λ _. IsPromoted session.db)
          (IsOpen engine platform context session)
          (publish_once engine platform context config existing session)
  publish_once-Ends session none e gates =
      Ends-mono (λ _. IsNewlyPublished session.db) (λ _. IsPromoted session.db)
        (IsOpen engine platform context session) _ (λ _ after new. (gates, inr new))
        (publish-Ends session e)
  publish_once-Ends session (some row) e gates =
      let Q : Unit {0} → Session → Type 0 = λ _. IsPromoted session.db in
      let E = IsOpen engine platform context session in
      Ends-refuse_if Q E _ _ _ session refl (λ same.
        Ends-last Q E engine commit session refl
          (gates, inl (row, e, ground arith, (refl, refl, refl), refl)))

  promotion-Ends :
      (session : Session)
      → Ends
          (λ _. IsPromoted session.db)
          (IsOpen engine platform context session)
          (promotion engine platform context config session)
  unfolding promotion
  promotion-Ends session =
      let Q : Unit {0} → Session → Type 0 = λ _. IsPromoted session.db in
      let E = IsOpen engine platform context session in
      Ends-fetch Q E engine (select_validation context.run_id) _ _ session refl refl (
        Ends-refuse_if Q E _ _ _ session refl (λ validated.
          Ends-fetch Q E engine select_latest _ _ session refl refl (
            Ends-refuse_if Q E _ _ _ session refl (λ latest.
              Ends-fetch Q E engine (select_existing context.run_id) _ _ session refl refl
                (publish_once-Ends session _ refl (ground arith, latest))))))

  or_roll_back-Ends :
      (Q : Unit {0} → Session → Type 0) (before : Database) (r : Result (Unit {0}) × Session)
      → Ends Q (λ after. after.saved ≡ some before) r
      → Ends Q (λ after. committed after ≡ before) (or_roll_back engine r)
  unfolding or_roll_back committed and_then
  or_roll_back-Ends Q before (ok _, session) h = h
  or_roll_back-Ends Q before (raise e, session) h =
      let E : Session → Type 0 = λ after. committed after ≡ before in
      let restored : committed session ≡ before = ap (visible session.db) h in
      Ends-execute Q E engine rollback _ session restored restored

  guarded-Ends :
      (db : Database)
      → Ends
          (λ _. IsPromoted db)
          (λ after. committed after ≡ db)
          (or_roll_back engine
            (promotion engine platform context config (record { db = db; saved = some db })))
  guarded-Ends db =
      or_roll_back-Ends (λ _. IsPromoted db) db _
        (promotion-Ends (record { db = db; saved = some db }))

  -- Both ends of `promote`.
  pub promote-Ends :
      (report : ValidationReport) (db : Database)
      → Ends
          (λ _ after. IsAuthorized context report × IsPromoted db after)
          (λ after. HasSameRows db (committed after))
          (promote engine platform config context report (idle db))
  unfolding promote validate_report ensure_control_tables committed
  promote-Ends report db =
      let Q : Unit {0} → Session → Type 0 =
        λ _ after. IsAuthorized context report × IsPromoted db after in
      let E : Session → Type 0 = λ after. HasSameRows db (committed after) in
      let same : HasSameRows db db = (refl, refl, refl) in
      Ends-lift Q E _ _ (idle db) same (λ control quoted.
        let created = with_schema control db in
        Ends-assoc Q E _ _ _ (
          Ends-refuse_if Q E _ _ _ (idle db) same (λ passed.
            Ends-refuse_if Q E _ _ _ (idle db) same (λ matches. Ends-assoc Q E _ _ _ (
              Ends-run Q E engine (create_schema control) _ (idle db) _ refl same (
                Ends-run Q E engine create_publication_runs _ _ _ refl same (
                  Ends-run Q E engine begin _ _ _ refl same (
                    Ends-weaken Q E (λ _. IsPromoted created) (λ after. committed after ≡ created) _
                      (λ _ after h. (
                        (
                          ground arith,
                          ground (arith, str_eq_iff report.run_id context.run_id),
                          ground arith,
                        ),
                        h,
                      ))
                      (λ after h. (
                        ap (λ d. Database.publication_runs d) h,
                        ap (λ d. Database.validation_runs d) h,
                        ap (λ d. Database.views d) h,
                      ))
                      (guarded-Ends created)))))))))

  -- `promote` returns only for a report that passed and is about this run, for a run whose
  -- validation is recorded as passed, and when no newer batch is published; then the transaction is
  -- closed, and either the run was published before with this batch and no row or view changed, or
  -- its row and every configured view are written.
  pub promote_returns :
      (report : ValidationReport) (db : Database) (after : Session)
      → promote engine platform config context report (idle db) ≡ (ok tt, after)
      → IsAuthorized context report × IsPromoted db after
  promote_returns report db after h =
      subst
        (Ends (λ _ session. IsAuthorized context report × IsPromoted db session)
          (λ session. HasSameRows db (committed session)))
        h (promote-Ends report db)

  -- When `promote` raises, whichever statement was refused and for whatever reason, all other
  -- connections see the control rows and the views that they saw before.
  pub promote_raises :
      (report : ValidationReport) (db : Database) (after : Session) (error : Error)
      → promote engine platform config context report (idle db) ≡ (raise error, after)
      → HasSameRows db (committed after)
  promote_raises report db after error h =
      subst
        (Ends (λ _ session. IsAuthorized context report × IsPromoted db session)
          (λ session. HasSameRows db (committed session)))
        h (promote-Ends report db)
