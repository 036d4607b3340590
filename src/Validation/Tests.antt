-- ===== src/Validation/Tests.antt =====
-- Runs of the promotion, the validation and the quoting on small inputs.
pub mod Audits
pub mod Crashes
pub mod Reconciliation
use millrace.Base.{
  ◌⊎◌, In, all, str_le, ℕ, ◌*◌, ◌+◌, String, Bool, true, false, Option, none, some, List, [], ◌∷◌,
  ok, raise, Error, database_error, ◌≡◌, refl, ap, ◌∙◌, All, Result, str_eq, split_on, map_result,
  but_last, join, push_char,
}
use millrace.Base.Decimal.{show, show_padded}
use millrace.Base.Int.{pos}
use millrace.Base.Dict.{Dict, keys, lookup, insert}
use millrace.Streaming.Models.{DateTime}
use millrace.Contracts.{Platform, RunContext, storage_key}
use millrace.Base.Sort.{sort_by}
use millrace.Validation.Comparison.{
  compare_reports, report_passed, group_checks, add_checks, add_check, disagreement,
  disagreements_of, missing_targets, same_results, same_signature,
}
use millrace.Validation.Service.{evidence_eq}
use millrace.Validation.Comparison.{CheckKey}
use millrace.Validation.Comparison.Unanimous.{check_of, IsSameResult, compare_reports-IsUnanimous}
use millrace.Validation.Models.{
  ReconciliationConfig, PublicationRule, ValidationReport, ValidationStatus, CheckType, Evidence,
  is_passed, is_among, CheckResult,
}
use millrace.Validation.Identifiers.{
  upper_text, upper_char, IdentifierCase, quote_relation, quote_identifier, is_identifier, is_part,
  is_start, all_parts, rendered, after_slash, candidate_schema, count_text, render_relation,
  render_template,
}
use millrace.Validation.Identifiers.Quoting.{read_relation, read_relation-quote_relation}
use millrace.Validation.Publication.{
  Database, Session, Engine, Statement, View, Publication, committed, promote, and_then,
  validate_report, ensure_control_tables, execute, promotion, publish, publish_views, publish_view,
  max_batch, or_roll_back,
}
use millrace.Validation.Publication.Promotion.{
  idle, HasSameRows, IsAuthorized, IsPromoted, promote_returns, promote_raises,
}
use millrace.Validation.Publication.History.{
  Attempt, IsLive, HasDistinctNames, after_promote, after_promotes, IsLive-promote,
  IsLive-after_promotes,
}

abbrev noon : ℕ → DateTime
noon day = record { instant = day * 86400000000 + 43200000000; zone = some (pos 0) }

abbrev pub platform : Platform
platform = record {
  sha256_hex = λ s. "5e884898";
  format_date = λ t. "2026-01-05";
  isoformat = λ t. "2026-01-05T12:00:00+00:00";
  fromisoformat = λ s. none;
}

abbrev pub context : RunContext
context = record { run_id = "run-7"; batch_id = 7; interval_start = noon 1; interval_end = noon 2 }

abbrev pub config : ReconciliationConfig
config = record {
  control_schema = "control";
  analytics_schema = "analytics";
  entities = [];
  publications =
      record {
        view = "analytics.orders";
        relation = "{candidate_schema}.orders";
        batch_column = "batch_id";
      }
      ∷ record { view = "customers"; relation = "silver.customers"; batch_column = "batch_id" }
      ∷ [];
}

abbrev pub report : ValidationReport
report = record {
  run_id = "run-7";
  batch_id = 7;
  interval_start = noon 1;
  interval_end = noon 2;
  checked_at = 3;
  status = ValidationStatus.passed;
  checks = [];
}

abbrev pub validated : Database
validated = record {
  schemas = [];
  validation_runs = ("run-7", (7, "passed")) ∷ [];
  publication_runs = [];
  views = [];
}

-- DuckDB with no refusal, and with one of every INSERT.
abbrev engine : Engine
engine = record { refuses = λ s db. none; relation_name = λ s. s; now = 9 }

abbrev refuses_insert : Statement → Database → Option Error
refuses_insert (Statement.insert_publication run_id batch at) db = some (database_error "disk full")
refuses_insert _ db = none

abbrev full_engine : Engine
full_engine = record { refuses = refuses_insert; relation_name = λ s. s; now = 9 }

read_relation-quote_relation_example :
    read_relation "\"ANALYTICS\".\"ORDERS\"" ≡ some ("ANALYTICS" ∷ "ORDERS" ∷ [])
unfolding quote_relation split_on map_result quote_identifier is_identifier is_part join rendered
    upper_text upper_char push_char
read_relation-quote_relation_example =
    read_relation-quote_relation IdentifierCase.upper "analytics.orders" "\"ANALYTICS\".\"ORDERS\""
      refl

promote_returns_example :
    IsAuthorized context report
    × IsPromoted engine platform config context validated
        (promote engine platform config context report (idle validated)).1
unfolding promote and_then quote_identifier is_identifier is_part validate_report is_passed str_eq
    ensure_control_tables execute promotion lookup publish publish_views publish_view quote_relation
    split_on map_result show show_padded insert but_last join push_char storage_key after_slash
    all_parts candidate_schema count_text is_start render_relation render_template rendered is_among
    committed max_batch or_roll_back
promote_returns_example = promote_returns engine platform config context report validated _ refl

promote_raises_example :
    HasSameRows validated
      (committed (promote full_engine platform config context report (idle validated)).1)
unfolding promote and_then quote_identifier is_identifier is_part validate_report is_passed str_eq
    ensure_control_tables execute promotion lookup publish publish_views publish_view quote_relation
    split_on map_result show show_padded insert but_last join push_char storage_key after_slash
    all_parts candidate_schema count_text is_start render_relation render_template rendered is_among
    committed max_batch or_roll_back
promote_raises_example =
    promote_raises full_engine platform config context report validated _
      (database_error "disk full") refl

abbrev attempt : Attempt
attempt = record { refuses = λ s db. none; now = 9; context = context; report = report }

IsLive-promote_example :
    IsLive (λ s. s) platform config (after_promote (λ s. s) platform config attempt validated)
unfolding quote_relation split_on map_result quote_identifier is_identifier is_part join rendered
    max_batch str_eq
IsLive-promote_example =
    IsLive-promote (λ s. s) platform config attempt validated
      (((refl, tt), (tt, tt)), (refl, (refl, tt))) (tt, tt)

IsLive-after_promotes_example :
    IsLive
      (λ s. s)
      platform
      config
      (after_promotes (λ s. s) platform config (attempt ∷ attempt ∷ []) validated)
unfolding quote_relation split_on map_result quote_identifier is_identifier is_part join rendered
    str_eq
IsLive-after_promotes_example =
    let distinct : HasDistinctNames (λ s. s) platform config engine context =
      (((refl, tt), (tt, tt)), (refl, (refl, tt))) in
    IsLive-after_promotes (λ s. s) platform config (attempt ∷ attempt ∷ []) validated
      (distinct, (distinct, tt)) refl

abbrev counted : ValidationReport
counted = record report {
  checks =
      record {
        entity = "orders";
        name = "row_count";
        check_type = CheckType.count;
        passed = true;
        expected = Evidence.number 2;
        actual = Evidence.number 2;
        error = false;
      }
      ∷ [];
}

abbrev two_reports : Dict ValidationReport
two_reports = ("duckdb", counted) ∷ ("snowflake", counted) ∷ []

compare_reports-IsUnanimous_example :
    ((entry : String × ValidationReport) → In entry two_reports → is_passed entry.1 ≡ true)
    × ((key : CheckKey) (target : String) (check : CheckResult)
        → check_of key target two_reports ≡ some check
        → (first : CheckResult) × ((other : String)
            → In other (keys two_reports)
            → (found : CheckResult) × (check_of key other two_reports ≡ some found)
              × ((found ≡ first) ⊎ IsSameResult first found)))
unfolding compare_reports is_passed disagreements_of sort_by group_checks add_checks add_check
    str_eq insert keys disagreement missing_targets is_among same_results same_signature evidence_eq
    str_le
compare_reports-IsUnanimous_example = compare_reports-IsUnanimous two_reports refl
