-- ===== src/Validation/Tests/Audits.antt =====
-- A failed validation of the run that an earlier one had passed.
use millrace.Base.{none, ◌≡◌, refl, ◌&&◌, ◌==◌}
use millrace.Base.Dict.{lookup}
use millrace.Base.Stateful.{and_then}
use millrace.Validation.Snowflake.{settled}
use millrace.Validation.Identifiers.{
  quote_identifier, is_identifier, is_part, is_start, rendered, upper_text, upper_char,
}
use millrace.Validation.Models.{ValidationStatus, ValidationReport, is_passed}
use millrace.Validation.Publication.{Database, is_validated}
use millrace.Validation.Audit.{
  record_validation, merge_validation, run_audit, run_merge, is_validated-record_validation,
  is_validated-merge_validation,
}
use millrace.Validation.Tests.{report, validated}
use millrace.Validation.Tests.Crashes.{account}

abbrev failed : ValidationReport
failed = record report { status = ValidationStatus.failed }

abbrev after_audit : Database
after_audit = (record_validation (λ statement db. none) "control" failed validated).1

is_validated-record_validation_example :
    is_validated 7 (lookup "run-7" after_audit.validation_runs) ≡ (7 == 7) && is_passed failed
unfolding record_validation run_audit quote_identifier is_identifier is_part is_start rendered
    upper_text upper_char and_then
is_validated-record_validation_example =
    is_validated-record_validation (λ statement db. none) "control" failed 7 validated after_audit
      refl

is_validated-merge_validation_example :
    is_validated 7 (
      lookup "run-7"
        (merge_validation
          (λ statement a. none)
          "control"
          failed
          (settled account)).1.durable.validation_runs)
    ≡ (7 == 7) && is_passed failed
unfolding merge_validation run_merge quote_identifier is_identifier is_part is_start rendered
    upper_text upper_char and_then
is_validated-merge_validation_example =
    is_validated-merge_validation (λ statement a. none) "control" failed 7 (settled account)
      (merge_validation (λ statement a. none) "control" failed (settled account)).1 refl
