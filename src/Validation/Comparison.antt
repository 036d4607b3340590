-- ===== src/Validation/Comparison.antt =====
-- src/millrace/validation/comparison.py: the agreement of the reports of several warehouses.
pub mod Agreed
pub mod Unanimous
use millrace.Base.{
  ℕ, suc, ◌+◌, String, Bool, true, false, ◌&&◌, not, Option, none, some, List, [], ◌∷◌, ◌++◌,
  Result, ok, raise, ◌>>=◌, if◌then◌else◌, str_eq, str_le, ◌==◌, all, any, keep,
}
use millrace.Base.Dict.{Dict, lookup, insert, keys}
use millrace.Base.Sort.{sort_by}
use millrace.Contracts.{RunContext}
use millrace.Validation.Models.{EntityRule, CheckResult, ValidationReport, is_passed, is_among}
use millrace.Validation.Canonical.{Row}
use millrace.Validation.Service.{evidence_eq, is_empty_list}

-- The cache of `CachingSnapshotReader` and of `CachingTombstoneReader`, by entity and batch.
abbrev pub Cache : Type 0
Cache = List ((String × ℕ) × List Row)

unfoldable pub cached : String → ℕ → Cache → Option (List Row)
cached name batch [] = none
cached name batch (((n, b), rows) ∷ cache) =
    if str_eq n name && (b == batch) then some rows else cached name batch cache

-- what is kept after the wrapped reader answered or raised
abbrev stored : String → ℕ → Cache → Result (List Row) → Result (List Row) × Cache
stored name batch cache (ok rows) = (ok rows, ((name, batch), rows) ∷ cache)
stored name batch cache (raise e) = (raise e, cache)

abbrev remembered :
    Option (List Row) → Cache → Result (List Row) × Cache → Result (List Row) × Cache
remembered none cache read = read
remembered (some rows) cache read = (ok rows, cache)

-- `fetch_rows` and `fetch_deleted_keys` of the caching readers
unfoldable pub fetch_cached :
    (EntityRule → RunContext → Result (List Row))
    → EntityRule
    → RunContext
    → Cache
    → Result (List Row) × Cache
fetch_cached reader entity context cache =
    remembered (cached entity.name context.batch_id cache) cache
      (stored entity.name context.batch_id cache (reader entity context))

-- A check is known by its entity and its name.
abbrev pub CheckKey : Type 0
CheckKey = String × String

abbrev same_key : CheckKey → CheckKey → Bool
same_key a b = str_eq a.0 b.0 && str_eq a.1 b.1

-- `(check.entity, check.name)` in Python's order of tuples
abbrev pub key_le : CheckKey × Dict CheckResult → CheckKey × Dict CheckResult → Bool
key_le a b = if str_eq a.0.0 b.0.0 then str_le a.0.1 b.0.1 else str_le a.0.0 b.0.0

abbrev pub ByCheck : Type 0
ByCheck = List (CheckKey × Dict CheckResult)

-- `by_check.setdefault(key, {})[target] = check`
unfoldable pub add_check : String → CheckResult → ByCheck → ByCheck
add_check target check [] = ((check.entity, check.name), (target, check) ∷ []) ∷ []
add_check target check ((key, results) ∷ rest) =
    if same_key key (check.entity, check.name)
    then (key, insert target check results) ∷ rest
    else (key, results) ∷ add_check target check rest

unfoldable pub add_checks : String → List CheckResult → ByCheck → ByCheck
add_checks target [] grouped = grouped
add_checks target (check ∷ checks) grouped =
    add_checks target checks (add_check target check grouped)

unfoldable pub group_checks : Dict ValidationReport → ByCheck → ByCheck
group_checks [] grouped = grouped
group_checks ((target, report) ∷ reports) grouped =
    group_checks reports (add_checks target report.checks grouped)

-- `(check.passed, check.expected, check.actual)` of two checks are equal
unfoldable pub same_signature : CheckResult → CheckResult → Bool
same_signature a b =
    (if a.passed then b.passed else not b.passed)
    && (evidence_eq a.expected b.expected && evidence_eq a.actual b.actual)

-- every one against the first
unfoldable pub same_results : Dict CheckResult → Bool
same_results [] = true
same_results ((target, check) ∷ rest) =
    all (λ (entry : String × CheckResult). same_signature check entry.1) rest

pub data Disagreement : Type 0 where
  missing_on : CheckKey → List String → Disagreement
  results_differ : CheckKey → Dict CheckResult → Disagreement

-- `sorted(set(targets) - set(per_target))`
unfoldable pub missing_targets : List String → Dict CheckResult → List String
missing_targets targets results = keep (λ target. not (is_among target (keys results))) targets

-- one round of the loop over the sorted checks; only targets are keys of `results`
unfoldable pub disagreement : List String → CheckKey × Dict CheckResult → List Disagreement
disagreement targets (key, results) =
    let missing = missing_targets targets results in
    if not (is_empty_list missing)
    then missing_on key missing ∷ []
    else if not (same_results results)
    then results_differ key results ∷ []
    else []

unfoldable pub disagreements_of : List String → ByCheck → List Disagreement
disagreements_of targets [] = []
disagreements_of targets (entry ∷ rest) =
    disagreement targets entry ++ disagreements_of targets rest

pub record Comparison : Type 0 where
  pub targets : List String
  pub passed : Bool
  pub disagreements : List Disagreement

abbrev pub report_passed : String × ValidationReport → Bool
report_passed entry = is_passed entry.1

-- `compare_reports`, less the time and the counts of the payload
unfoldable pub compare_reports : Dict ValidationReport → Comparison
compare_reports reports =
    let targets = sort_by str_le (keys reports) in
    let disagreements = disagreements_of targets (sort_by key_le (group_checks reports [])) in
    record {
      targets = targets;
      passed = all report_passed reports && is_empty_list disagreements;
      disagreements = disagreements;
    }
