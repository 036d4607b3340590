-- ===== src/Validation/Service/Gate.antt =====
-- `ValidationService.validate` and `validate_or_raise` of src/millrace/validation/service.py.
use millrace.Base.{
  ℕ, String, Bool, true, false, ◌&&◌, not, Option, none, some, List, [], ◌∷◌, ◌++◌, Result, ok,
  raise, value_error, runtime_error, ◌>>=◌, ◌>>◌, if◌then◌else◌, all,
}
use millrace.Contracts.{RunContext}
use millrace.Validation.Models.{
  EntityRule, ReconciliationConfig, CheckType, CheckResult, Evidence, ValidationStatus,
  ValidationReport, is_passed,
}
use millrace.Validation.Canonical.{Conversions, Row}
use millrace.Validation.Service.{compare_entity, configures_deletes, is_empty_list}

-- What the service is constructed with: its readers answer with rows or raise.
pub record Readers : Type 0 where
  pub source : EntityRule → RunContext → Result (List Row)
  pub candidate : EntityRule → RunContext → Result (List Row)
  pub tombstones : Option (EntityRule → RunContext → Result (List Row))

-- the report sink, which returns the report's path, the audit writer and the clock
pub record Sinks : Type 0 where
  pub write : ValidationReport → Result String
  pub record_validation : ValidationReport → String → Result (Unit {0})
  pub now : ℕ

abbrev query_failed : EntityRule → CheckResult
query_failed entity = record {
  entity = entity.name;
  name = "query";
  check_type = CheckType.error;
  passed = false;
  expected = Evidence.nothing;
  actual = Evidence.nothing;
  error = true;
}

abbrev pub passes : CheckResult → Bool
passes check = check.passed

module _ (py : Conversions) (readers : Readers) (context : RunContext) where
  abbrev fetch_tombstones :
      Option (EntityRule → RunContext → Result (List Row)) → EntityRule → Result (List Row)
  fetch_tombstones none entity = raise (value_error "no tombstone reader is available")
  fetch_tombstones (some read) entity = read entity context

  -- `_fetch_deleted_keys`
  unfoldable pub fetch_deleted_keys : EntityRule → Result (List Row)
  fetch_deleted_keys entity =
      if configures_deletes entity then fetch_tombstones readers.tombstones entity else ok []

  -- the `try` block of one round of the loop
  unfoldable pub reconcile : EntityRule → Result (List CheckResult)
  reconcile entity = do
    source_rows ← readers.source entity context
    candidate_rows ← readers.candidate entity context
    deleted_keys ← fetch_deleted_keys entity
    compare_entity py entity source_rows candidate_rows deleted_keys

  -- `except Exception`: a failed check
  abbrev pub or_failed : EntityRule → Result (List CheckResult) → List CheckResult
  or_failed entity (ok checks) = checks
  or_failed entity (raise e) = query_failed entity ∷ []

  unfoldable pub check_entities : List EntityRule → List CheckResult
  check_entities [] = []
  check_entities (entity ∷ entities) =
      or_failed entity (reconcile entity) ++ check_entities entities

  -- `bool(checks) and all(check.passed for check in checks)`
  unfoldable pub all_passed : List CheckResult → Bool
  all_passed checks = not (is_empty_list checks) && all passes checks

  unfoldable pub report_of : ReconciliationConfig → ℕ → ValidationReport
  report_of config now =
      let checks = check_entities config.entities in
      record {
        run_id = context.run_id;
        batch_id = context.batch_id;
        interval_start = context.interval_start;
        interval_end = context.interval_end;
        checked_at = now;
        status = if all_passed checks then ValidationStatus.passed else ValidationStatus.failed;
        checks = checks;
      }

  unfoldable pub validate : ReconciliationConfig → Sinks → Result (ValidationReport × String)
  validate config sinks =
      let report = report_of config sinks.now in
      do
        report_path ← sinks.write report
        sinks.record_validation report report_path
        ok (report, report_path)

  unfoldable pub validate_or_raise :
      ReconciliationConfig → Sinks → Result (ValidationReport × String)
  validate_or_raise config sinks = validate config sinks >>= λ (report, report_path).
      if is_passed report
      then ok (report, report_path)
      else raise (runtime_error "reconciliation failed")
