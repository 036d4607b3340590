-- ===== src/Validation/Service.antt =====
-- `ValidationService` of src/millrace/validation/service.py. The counters it increments are left out.
pub mod Checks
pub mod Gate
pub mod Verdict
use millrace.Base.{
  ℕ, String, ◌<>◌, Bool, true, false, ◌&&◌, ◌||◌, not, Option, none, some, List, [], ◌∷◌, ◌++◌, map,
  Result, ok, raise, Error, value_error, runtime_error, ◌>>=◌, if◌then◌else◌, str_eq, str_le,
  length, ◌==◌, join, map_result, all, any, keep,
}
use millrace.Base.Dict.{Dict, lookup, insert}
use millrace.Base.Sort.{sort_by}
use millrace.Contracts.{RunContext}
use millrace.Validation.Models.{
  ColumnRule, PartitionRule, AggregateRule, EntityRule, SourceRule, ReconciliationConfig, CheckType,
  CheckResult, Evidence, ValidationStatus, ValidationReport, is_passed,
}
use millrace.Validation.Canonical.{Conversions, Row, row_key}
use millrace.Validation.Canonical.Checksum.{column_checksum}
use millrace.Validation.Canonical.Groups.{columns_of, grouped_counts, aggregate_values}

unfoldable pub texts_eq : List String → List String → Bool
texts_eq [] [] = true
texts_eq (x ∷ xs) (y ∷ ys) = str_eq x y && texts_eq xs ys
texts_eq _ _ = false

unfoldable pub numbers_eq : Dict ℕ → Dict ℕ → Bool
numbers_eq [] [] = true
numbers_eq ((k, v) ∷ d) ((j, w) ∷ e) = (str_eq k j && (v == w)) && numbers_eq d e
numbers_eq _ _ = false

unfoldable pub entries_eq : Dict String → Dict String → Bool
entries_eq [] [] = true
entries_eq ((k, v) ∷ d) ((j, w) ∷ e) = (str_eq k j && str_eq v w) && entries_eq d e
entries_eq _ _ = false

-- `expected == actual`; the dicts that are compared are sorted by their keys
unfoldable pub evidence_eq : Evidence → Evidence → Bool
evidence_eq Evidence.nothing Evidence.nothing = true
evidence_eq (Evidence.words s) (Evidence.words t) = str_eq s t
evidence_eq (Evidence.number m) (Evidence.number n) = m == n
evidence_eq (Evidence.rows_found a b) (Evidence.rows_found c d) = (a == c) && (b == d)
evidence_eq (Evidence.numbers d) (Evidence.numbers e) = numbers_eq d e
evidence_eq (Evidence.texts d) (Evidence.texts e) = entries_eq d e
evidence_eq (Evidence.keys_found xs) (Evidence.keys_found ys) = texts_eq xs ys
evidence_eq _ _ = false

-- `_result`
unfoldable pub compared : String → String → CheckType → Evidence → Evidence → CheckResult
compared entity name check_type expected actual = record {
  entity = entity;
  name = name;
  check_type = check_type;
  passed = evidence_eq expected actual;
  expected = expected;
  actual = actual;
  error = false;
}

-- `key in keys`, and `set(keys)` as a list
unfoldable pub is_key : List String → List (List String) → Bool
is_key key keys = any (texts_eq key) keys

unfoldable pub distinct_keys : List (List String) → List (List String)
distinct_keys [] = []
distinct_keys (key ∷ keys) =
    let rest = distinct_keys keys in if is_key key keys then rest else key ∷ rest

abbrev pub is_empty_list {ℓ} : {A : Type ℓ} → List A → Bool
is_empty_list [] = true
is_empty_list (x ∷ xs) = false

abbrev key_text : List String → String
key_text key = join "|" key

-- `{column.name: column for column in entity.columns}`
unfoldable pub columns_by_name : List ColumnRule → Dict ColumnRule → Dict ColumnRule
columns_by_name [] columns = columns
columns_by_name (column ∷ rest) columns = columns_by_name rest (insert column.name column columns)

abbrev pub configures_deletes : EntityRule → Bool
configures_deletes entity = elim (entity.source.deleted_column) [ none ↦ false | some _ ↦ true ]

unfoldable pub presence_check : EntityRule → List Row → List Row → CheckResult
presence_check entity source candidate = record {
  entity = entity.name;
  name = "non_empty";
  check_type = CheckType.presence;
  passed = entity.allow_empty || (not (is_empty_list source) && not (is_empty_list candidate));
  expected = Evidence.words (if entity.allow_empty then "empty allowed" else "rows present");
  actual = Evidence.rows_found (length source) (length candidate);
  error = false;
}

module _ (py : Conversions) where
  -- `_delete_check`
  unfoldable pub delete_check :
      EntityRule → List Row → List Row → List ColumnRule → Result CheckResult
  delete_check entity candidate_rows deleted_keys key_columns = do
    deleted ← map_result (row_key py key_columns) deleted_keys
    candidate ← map_result (row_key py key_columns) candidate_rows
    let still_present = keep (λ key. is_key key candidate) (distinct_keys deleted) in
        ok (record {
          entity = entity.name;
          name = "deleted_absent";
          check_type = CheckType.delete;
          passed = is_empty_list still_present;
          expected = Evidence.keys_found [];
          actual = Evidence.keys_found (sort_by str_le (map key_text still_present));
          error = false;
        })

  module _ (entity : EntityRule) (source candidate : List Row) where
    -- one of `_partition_checks`
    unfoldable pub partition_check : Dict ColumnRule → PartitionRule → Result CheckResult
    partition_check columns partition = do
      source_columns ← columns_of columns partition.columns
      expected ← grouped_counts py source source_columns
      actual ← grouped_counts py candidate source_columns
      ok (
          compared entity.name ("partition_count:" <> partition.name) CheckType.partition_count
            (Evidence.numbers expected) (Evidence.numbers actual))

    unfoldable pub checksum_check : List ColumnRule → ColumnRule → Result CheckResult
    checksum_check key_columns column = do
      expected ← column_checksum py source column key_columns
      actual ← column_checksum py candidate column key_columns
      ok (
          compared entity.name ("checksum:" <> column.name) CheckType.checksum
            (Evidence.words expected) (Evidence.words actual))

    unfoldable pub aggregate_check : Dict ColumnRule → AggregateRule → Result CheckResult
    aggregate_check columns aggregate = do
      expected ← aggregate_values py source aggregate columns
      actual ← aggregate_values py candidate aggregate columns
      ok (
          compared entity.name ("aggregate:" <> aggregate.name) CheckType.aggregate
            (Evidence.texts expected) (Evidence.texts actual))

    -- `if entity.source.deleted_column is not None: checks.append(self._delete_check(...))`
    unfoldable pub delete_checks : Bool → List Row → List ColumnRule → Result (List CheckResult)
    delete_checks false deleted_keys key_columns = ok []
    delete_checks true deleted_keys key_columns =
        delete_check entity candidate deleted_keys key_columns >>= λ check. ok (check ∷ [])

    -- `_compare_entity`
    unfoldable pub compare_entity : List Row → Result (List CheckResult)
    compare_entity deleted_keys =
        let columns = columns_by_name entity.columns [] in
        do
          key_columns ← columns_of columns entity.key_columns
          partitions ← map_result (partition_check columns) entity.partitions
          deletes ← delete_checks (configures_deletes entity) deleted_keys key_columns
          checksums ← map_result (checksum_check key_columns) entity.columns
          aggregates ← map_result (aggregate_check columns) entity.aggregates
          ok (
              presence_check entity source candidate
              ∷ compared entity.name "row_count" CheckType.count (Evidence.number (length source))
                  (Evidence.number (length candidate))
              ∷ (partitions ++ (deletes ++ (checksums ++ aggregates))))
