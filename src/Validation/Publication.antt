-- ===== src/Validation/Publication.antt =====
-- `PromotionService` of src/millrace/validation/publication.py, on DuckDB.
pub mod Rules
pub mod Views
pub mod Promotion
pub mod History
use millrace.Base.{
  ℕ, String, ◌<>◌, Bool, true, false, ◌&&◌, ◌||◌, not, Option, none, some, List, [], ◌∷◌, Result,
  ok, raise, Error, promotion_error, database_error, ◌>>=◌ as ◌>>=ᵣ◌, if◌then◌else◌, ltb, ◌==◌,
  str_eq, any, split_on, but_last, join,
}
use millrace.Base.Dict.{Dict, lookup, insert}
use millrace.Contracts.{Platform, RunContext}
use millrace.Validation.Identifiers.{
  IdentifierCase, quote_identifier, quote_relation, render_relation,
}
use millrace.Validation.Models.{
  PublicationRule, ReconciliationConfig, ValidationReport, is_passed, is_among,
}

-- A view: the rows of one batch of a relation, or the join of the two control tables.
pub data View : Type 0 where
  rows_of : String → String → ℕ → View
  current_validation_status : View

-- One of `publication_runs`; its `run_id` is the table's primary key.
pub record Publication : Type 0 where
  pub batch_id : ℕ
  pub published_at : ℕ

-- The database, as seen through the control schema. A table has no rows until it is created.
pub record Database : Type 0 where
  pub schemas : List String
  pub validation_runs : Dict (ℕ × String)
  pub publication_runs : Dict Publication
  pub views : Dict View

-- The connection: the database as it sees it and, in a transaction, as it was at the start.
pub record Session : Type 0 where
  pub db : Database
  pub saved : Option Database

abbrev pub visible : Database → Option Database → Database
visible db none = db
visible db (some saved) = saved

-- What every other connection sees.
unfoldable pub committed : Session → Database
committed session = visible session.db session.saved

pub data Statement : Type 0 where
  begin commit rollback create_publication_runs select_latest : Statement
  create_schema select_validation select_existing : String → Statement
  create_view : String → View → Statement
  insert_publication : String → ℕ → ℕ → Statement

-- DuckDB: the exception it answers a statement with, if it does, whatever the reason; which
-- relation a name in SQL denotes; and the clock.
pub record Engine : Type 0 where
  pub refuses : Statement → Database → Option Error
  pub relation_name : String → String
  pub now : ℕ

-- A call on the connection returns or raises, and leaves the connection in some state.
abbrev pub Action : Type 0 → Type 0
Action A = Session → Result A × Session

infixl 5 ◌>>=◌ ◌>>◌
unfoldable pub and_then : {A B : Type 0} → Result A × Session → (A → Action B) → Result B × Session
and_then (ok a, session) f = f a session
and_then (raise e, session) f = (raise e, session)

abbrev pub ◌>>=◌ : {A B : Type 0} → Action A → (A → Action B) → Action B
m >>= f = λ session. and_then (m session) f

abbrev pub ◌>>◌ : {A B : Type 0} → Action A → Action B → Action B
m >> k = m >>= λ _. k

abbrev pub lift : {A : Type 0} → Result A → Action A
lift r = λ session. (r, session)

abbrev pub return : {A : Type 0} → A → Action A
return a = lift (ok a)

abbrev pub refuse_if : Bool → String → Action (Unit {0})
refuse_if true message = lift (raise (promotion_error message))
refuse_if false message = return tt

-- `MAX(batch_id)`
unfoldable pub max_batch : Dict Publication → Option ℕ
max_batch [] = none
max_batch ((run_id, row) ∷ rows) = elim (max_batch rows) [
  | none ↦ some row.batch_id
  | some b ↦ if ltb b row.batch_id then some row.batch_id else some b
]

abbrev pub is_newer : ℕ → Option ℕ → Bool
is_newer batch_id none = false
is_newer batch_id (some latest) = ltb batch_id latest

-- `validation_row == (context.batch_id, "passed")`
abbrev pub is_validated : ℕ → Option (ℕ × String) → Bool
is_validated batch_id none = false
is_validated batch_id (some (batch, status)) = (batch == batch_id) && str_eq status "passed"

-- `_validate_report`
unfoldable pub validate_report : RunContext → ValidationReport → Action (Unit {0})
validate_report context report = do
  refuse_if (not (is_passed report)) "failed validation cannot authorize publication"
  refuse_if (not (str_eq report.run_id context.run_id) || not (report.batch_id == context.batch_id))
      "validation report does not match the promotion context"

-- CREATE SCHEMA IF NOT EXISTS
abbrev pub with_schema : String → Database → Database
with_schema name db = record db {
  schemas = if is_among name db.schemas then db.schemas else name ∷ db.schemas;
}

-- an INSERT, for what the table holds under the primary key
abbrev pub insert_new :
    Option Publication → String → Publication → Session → Result (Unit {0}) × Session
insert_new none run_id row session =
    let db = session.db in
    (
      ok tt,
      record session {
        db = record db { publication_runs = insert run_id row db.publication_runs };
      },
    )
insert_new (some _) run_id row session = (raise (database_error "duplicate primary key"), session)

-- a refused statement raises, and does nothing
abbrev pub answered :
    Option Error → Result (Unit {0}) × Session → Session → Result (Unit {0}) × Session
answered (some e) accepted session = (raise e, session)
answered none accepted session = accepted

module _ (engine : Engine) where
  -- what a statement does when DuckDB accepts it
  abbrev pub apply_statement : Statement → Session → Result (Unit {0}) × Session
  apply_statement begin session = elim (session.saved) [
    | none ↦ (ok tt, record session { saved = some session.db })
    | some _ ↦ (raise (database_error "transaction within a transaction"), session)
  ]
  apply_statement commit session = (ok tt, record session { saved = none })
  apply_statement rollback session = (ok tt, record { db = committed session; saved = none })
  apply_statement (create_schema name) session =
      (ok tt, record session { db = with_schema name session.db })
  apply_statement (create_view name view) session =
      let db = session.db in
      (
        ok tt,
        record session {
          db = record db { views = insert (engine.relation_name name) view db.views };
        },
      )
  apply_statement (insert_publication run_id batch at) session =
      insert_new (lookup run_id session.db.publication_runs) run_id
        (record { batch_id = batch; published_at = at }) session
  apply_statement _ session = (ok tt, session)

  -- `connection.execute`, `begin`, `commit` and `rollback`
  unfoldable pub execute : Statement → Action (Unit {0})
  unfolding committed
  execute statement session =
      answered (engine.refuses statement session.db) (apply_statement statement session) session

  -- a query, and what it reads
  abbrev pub fetch : {A : Type 0} → Statement → (Database → A) → Action A
  fetch query read = execute query >>= λ _ session. (ok (read session.db), session)

  module _ (platform : Platform) (context : RunContext) where
    -- `view.rsplit(".", maxsplit=1)[0]`, where the view has a dot
    abbrev pub create_schema_of : List String → Action (Unit {0})
    create_schema_of [] = return tt
    create_schema_of (part ∷ parts) = do
      schema ← lift (quote_relation IdentifierCase.preserve (join "." (part ∷ parts)))
      execute (create_schema schema)

    -- one round of the loop over `config.publications`
    unfoldable pub publish_view : PublicationRule → Action (Unit {0})
    publish_view publication = do
      view ← lift (quote_relation IdentifierCase.preserve publication.view)
      create_schema_of (but_last (split_on b'.' publication.view))
      relation ←
          lift (render_relation platform IdentifierCase.preserve publication.relation context)
      batch ← lift (quote_identifier IdentifierCase.preserve publication.batch_column)
      execute (create_view view (rows_of relation batch context.batch_id))

    unfoldable pub publish_views : List PublicationRule → Action (Unit {0})
    publish_views [] = return tt
    publish_views (publication ∷ publications) =
        publish_view publication >> publish_views publications

    -- the view `current_validation_status`, by the text that the code writes
    abbrev pub status_view : String → String
    status_view analytics = analytics <> ".current_validation_status"

    -- what the `try` block does for a run that is not published yet
    unfoldable pub publish : ReconciliationConfig → Action (Unit {0})
    publish config = do
      publish_views config.publications
      execute (insert_publication context.run_id context.batch_id engine.now)
      analytics ← lift (quote_identifier IdentifierCase.preserve config.analytics_schema)
      execute (create_view (status_view analytics) current_validation_status)
      execute commit

    -- the end of the `try` block, for what `publication_runs` says of the run
    abbrev pub publish_once : ReconciliationConfig → Option Publication → Action (Unit {0})
    publish_once config none = publish config
    publish_once config (some existing) = do
      refuse_if (not (existing.batch_id == context.batch_id))
          "published run_id has a different batch_id"
      execute commit

    -- the `try` block of `promote`
    unfoldable pub promotion : ReconciliationConfig → Action (Unit {0})
    unfolding max_batch
    promotion config = do
      validated ←
          fetch (select_validation context.run_id) (λ db. lookup context.run_id db.validation_runs)
      refuse_if (not (is_validated context.batch_id validated))
          "a matching passed validation audit row is required"
      latest ← fetch select_latest (λ db. max_batch db.publication_runs)
      refuse_if (is_newer context.batch_id latest) "publication cannot replace a newer batch"
      existing ←
          fetch (select_existing context.run_id) (λ db. lookup context.run_id db.publication_runs)
      publish_once config existing

  -- `except Exception: rollback; raise`
  unfoldable pub or_roll_back : {A : Type 0} → Result A × Session → Result A × Session
  or_roll_back (ok a, session) = (ok a, session)
  or_roll_back (raise e, session) = (execute rollback >>= λ _. lift (raise e)) session

  -- `_ensure_control_tables`, for the control schema quoted by the constructor
  unfoldable pub ensure_control_tables : String → Action (Unit {0})
  ensure_control_tables control = execute (create_schema control) >> execute create_publication_runs

  -- `PromotionService(connection, config).promote(context, report)`
  unfoldable pub promote :
      Platform → ReconciliationConfig → RunContext → ValidationReport → Action (Unit {0})
  unfolding or_roll_back
  promote platform config context report = do
    control ← lift (quote_identifier IdentifierCase.preserve config.control_schema)
    validate_report context report
    ensure_control_tables control
    execute begin
    λ session. or_roll_back (promotion platform context config session)
