-- ===== src/Validation/Snowflake.antt =====
-- `SnowflakePromotionService` of src/millrace/validation/publication.py. A write of rows waits
-- for the next commit. A statement that defines data commits what waits, then takes effect, and
-- commits that too.
pub mod Rows
pub mod Steps
pub mod Resume
pub mod Attempts
pub mod Crashes
use millrace.Base.{
  ℕ, String, ◌<>◌, Bool, true, false, ◌&&◌, not, Option, none, some, List, [], ◌∷◌, ◌++◌, Result,
  ok, raise, Error, promotion_error, database_error, if◌then◌else◌, ltb, ◌==◌, str_eq, split_on,
  last_part,
}
use millrace.Base.Dict.{Dict, lookup, insert}
use millrace.Base.Stateful.{Action, and_then, ◌>>=◌, ◌>>◌, lift}
use millrace.Contracts.{Platform, RunContext}
use millrace.Validation.Identifiers.{IdentifierCase, quote_identifier, render_relation}
use millrace.Validation.Models.{PublicationRule, ReconciliationConfig, ValidationReport, is_passed}
use millrace.Validation.Publication.{
  View, rows_of, current_validation_status, is_validated, is_newer,
}

-- A row of `publication_runs`, which has no key there.
pub record PublicationRow : Type 0 where
  pub run_id : String
  pub batch_id : ℕ
  pub is_published : Bool
  pub published_at : ℕ

-- A schema is its views, or `none` where it does not exist.
pub record Account : Type 0 where
  pub validation_runs : Dict (ℕ × String)
  pub publication_runs : List PublicationRow
  pub analytics : Option (Dict View)
  pub staging : Option (Dict View)

-- The connection: what it sees, and what is committed.
pub record Connection : Type 0 where
  pub current : Account
  pub durable : Account

-- The connection that has committed all it sees.
abbrev pub settled : Account → Connection
settled a = record { current = a; durable = a }

-- An error, or a lost connection: before the command did anything, or after it committed what waited
-- and before it took effect.
pub data Refusal : Type 0 where
  before_commit after_commit : Error → Refusal

pub data Command : Type 0 where
  select_validation select_existing mark_published : String → Command
  select_latest create_control create_analytics replace_staging swap drop_staging commit : Command
  insert_pending : String → ℕ → ℕ → Command
  create_staged_view : String → View → Command

abbrev pub done : Action Connection (Unit {0})
done = lift (ok tt)

abbrev pub refuse_if : Bool → String → Action Connection (Unit {0})
refuse_if true message = lift (raise (promotion_error message))
refuse_if false message = done

-- a write of rows, and a statement that commits what it and the writes before it did
abbrev pub written : Account → Connection → Result (Unit {0}) × Connection
written account c = (ok tt, record c { current = account })

abbrev pub defined : Account → Result (Unit {0}) × Connection
defined account = (ok tt, settled account)

-- a statement on a schema that does not exist
abbrev pub not_found : Connection → Result (Unit {0}) × Connection
not_found c = (raise (database_error "schema does not exist"), settled c.current)

abbrev pub or_empty : Option (Dict View) → Dict View
or_empty none = []
or_empty (some views) = views

unfoldable pub published_rows : String → List PublicationRow → List PublicationRow
published_rows run_id [] = []
published_rows run_id (row ∷ rows) =
    let rest = published_rows run_id rows in
    if str_eq row.run_id run_id then record row { is_published = true } ∷ rest else row ∷ rest

-- the first row of the run
unfoldable pub find_row : String → List PublicationRow → Option PublicationRow
find_row run_id [] = none
find_row run_id (row ∷ rows) = if str_eq row.run_id run_id then some row else find_row run_id rows

-- `MAX(batch_id)` of the rows with status 'published'
unfoldable pub latest_published : List PublicationRow → Option ℕ
latest_published [] = none
latest_published (row ∷ rows) = elim (latest_published rows) [
  | none ↦ if row.is_published then some row.batch_id else none
  | some b ↦ if row.is_published && ltb b row.batch_id then some row.batch_id else some b
]

abbrev pub swapped :
    Account → Option (Dict View) → Option (Dict View) → Connection → Result (Unit {0}) × Connection
swapped account (some analytics) (some staging) c =
    defined (record account { analytics = some staging; staging = some analytics })
swapped account _ _ c = not_found c

abbrev pub staged :
    Account → Option (Dict View) → String → View → Connection → Result (Unit {0}) × Connection
staged account (some views) name view c =
    defined (record account { staging = some (insert name view views) })
staged account none name view c = not_found c

abbrev pub run_command : Command → Connection → Result (Unit {0}) × Connection
run_command create_control c = defined c.current
run_command create_analytics c =
    let a = c.current in defined (record a { analytics = some (or_empty a.analytics) })
run_command replace_staging c = let a = c.current in defined (record a { staging = some [] })
run_command drop_staging c = let a = c.current in defined (record a { staging = none })
run_command commit c = defined c.current
run_command swap c = swapped c.current c.current.analytics c.current.staging c
run_command (create_staged_view name view) c = staged c.current c.current.staging name view c
run_command (insert_pending run_id batch at) c =
    let a = c.current in
    written
      (record a {
        publication_runs =
            a.publication_runs
            ++ record { run_id = run_id; batch_id = batch; is_published = false; published_at = at }
              ∷ [];
      })
      c
run_command (mark_published run_id) c =
    let a = c.current in
    written (record a { publication_runs = published_rows run_id a.publication_runs }) c
run_command _ c = (ok tt, c)

-- whether the command commits what the writes before it did
unfoldable pub commits : Command → Bool
commits create_control = true
commits create_analytics = true
commits replace_staging = true
commits (create_staged_view name view) = true
commits swap = true
commits drop_staging = true
commits commit = true
commits _ = false

abbrev pub answered :
    Option Refusal
    → Command
    → Result (Unit {0}) × Connection
    → Connection
    → Result (Unit {0}) × Connection
answered none command accepted c = accepted
answered (some (before_commit e)) command accepted c = (raise e, c)
answered (some (after_commit e)) command accepted c =
    (raise e, if commits command then settled c.current else c)

module _ (refuses : Command → Account → Option Refusal) (now : ℕ) where
  -- `gateway.execute`, `gateway.query` and `gateway.commit`
  unfoldable pub execute : Command → Action Connection (Unit {0})
  execute command c = answered (refuses command c.current) command (run_command command c) c

  abbrev pub query : {A : Type 0} → Command → (Account → A) → Action Connection A
  query command read = execute command >>= λ _ c. (ok (read c.current), c)

  module _ (platform : Platform) (context : RunContext) where
    -- one round of the loop of `_build_staged_views`
    unfoldable pub stage_view : PublicationRule → Action Connection (Unit {0})
    stage_view publication = do
      name ←
          lift (quote_identifier IdentifierCase.upper (last_part (split_on b'.' publication.view)))
      relation ← lift (render_relation platform IdentifierCase.upper publication.relation context)
      batch ← lift (quote_identifier IdentifierCase.upper publication.batch_column)
      execute (create_staged_view name (rows_of relation batch context.batch_id))

    unfoldable pub stage_views : List PublicationRule → Action Connection (Unit {0})
    stage_views [] = done
    stage_views (publication ∷ publications) = stage_view publication >> stage_views publications

    -- `_build_staged_views`
    unfoldable pub build_staged_views : ReconciliationConfig → Action Connection (Unit {0})
    build_staged_views config = do
      execute replace_staging
      stage_views config.publications
      execute (create_staged_view "CURRENT_VALIDATION_STATUS" current_validation_status)

    -- from `_build_staged_views` to the commit
    unfoldable pub swap_in : ReconciliationConfig → Action Connection (Unit {0})
    swap_in config = do
      build_staged_views config
      execute create_analytics
      execute swap
      execute (mark_published context.run_id)
      execute drop_staging
      execute commit

    -- `if existing_status == "published": return`
    abbrev pub swap_unless : ReconciliationConfig → Bool → Action Connection (Unit {0})
    swap_unless config true = done
    swap_unless config false = swap_in config

    -- what follows the gates, for what `publication_runs` says of the run
    abbrev pub resume : ReconciliationConfig → Option PublicationRow → Action Connection (Unit {0})
    resume config none =
        execute (insert_pending context.run_id context.batch_id now) >> swap_in config
    resume config (some existing) = do
      refuse_if (not (existing.batch_id == context.batch_id))
          "published run_id has a different batch_id"
      swap_unless config existing.is_published

    unfoldable pub swap_promote :
        ReconciliationConfig → ValidationReport → Action Connection (Unit {0})
    swap_promote config report = do
      _ ← lift (quote_identifier IdentifierCase.upper config.control_schema)
      _ ← lift (quote_identifier IdentifierCase.upper config.analytics_schema)
      _ ← lift (quote_identifier IdentifierCase.upper (config.analytics_schema <> "_staging"))
      refuse_if (not (is_passed report)) "failed validation cannot authorize publication"
      refuse_if (not (str_eq report.run_id context.run_id && (report.batch_id == context.batch_id)))
          "validation report does not match the promotion context"
      execute create_control
      validated ←
          query (select_validation context.run_id) (λ a. lookup context.run_id a.validation_runs)
      refuse_if (not (is_validated context.batch_id validated))
          "a matching passed validation audit row is required"
      latest ← query select_latest (λ a. latest_published a.publication_runs)
      refuse_if (is_newer context.batch_id latest) "publication cannot replace a newer batch"
      existing ←
          query (select_existing context.run_id) (λ a. find_row context.run_id a.publication_runs)
      resume config existing
