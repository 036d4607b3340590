-- ===== src/Validation/Models.antt =====
-- src/millrace/validation/models.py
use millrace.Base.{
  ℕ, String, Bool, true, false, ◌||◌, not, Option, List, [], ◌∷◌, map, Result, ok, value_error,
  raise_if, ◌>>◌, str_eq, any, all,
}
use millrace.Base.Dict.{Dict}
use millrace.Streaming.Models.{DateTime}

pub data CanonicalType : Type 0 where
  text_type date_type timestamp_type decimal_type boolean_type integer_type float_type :
      CanonicalType

pub data AggregateOperation : Type 0 where
  sum min max : AggregateOperation

pub record ColumnRule : Type 0 where
  pub name : String
  pub canonical_type : CanonicalType

pub record SourceRule : Type 0 where
  pub relation : String
  pub batch_column : String
  pub sequence_column : Option String
  pub deleted_column : Option String

pub record TargetRule : Type 0 where
  pub relation : String
  pub batch_column : String

pub record PartitionRule : Type 0 where
  pub name : String
  pub columns : List String

pub record AggregateRule : Type 0 where
  pub name : String
  pub operation : AggregateOperation
  pub column : String
  pub group_by : List String

pub record EntityRule : Type 0 where
  pub name : String
  pub source : SourceRule
  pub target : TargetRule
  pub key_columns : List String
  pub columns : List ColumnRule
  pub partitions : List PartitionRule
  pub aggregates : List AggregateRule
  pub allow_empty : Bool

pub record PublicationRule : Type 0 where
  pub view : String
  pub relation : String
  pub batch_column : String

pub record ReconciliationConfig : Type 0 where
  pub control_schema : String
  pub analytics_schema : String
  pub entities : List EntityRule
  pub publications : List PublicationRule

-- `name in names`
unfoldable pub is_among : String → List String → Bool
is_among name names = any (str_eq name) names

-- `len(names) != len(set(names))`
unfoldable pub has_duplicates : List String → Bool
unfolding is_among
has_duplicates [] = false
has_duplicates (name ∷ names) = is_among name names || has_duplicates names

-- whether `set(names) - set(available)` is empty
unfoldable pub all_among : List String → List String → Bool
all_among available names = all (λ name. is_among name available) names

abbrev column_name : ColumnRule → String
column_name column = column.name

unfoldable pub column_names : EntityRule → List String
column_names entity = map column_name entity.columns

-- `EntityRule.validate_references`
unfoldable pub validate_references : EntityRule → Result EntityRule
unfolding column_names
validate_references entity =
    let available = column_names entity in
    do
      raise_if (has_duplicates available) (value_error "duplicate columns")
      raise_if (not (all_among available entity.key_columns)) (value_error "unconfigured keys")
      raise_if
          (not (
            all (λ partition. all_among available (PartitionRule.columns partition))
              entity.partitions))
          (value_error "unconfigured columns")
      raise_if
          (not (
            all
              (λ aggregate.
                all_among available
                  (AggregateRule.column aggregate ∷ AggregateRule.group_by aggregate))
              entity.aggregates))
          (value_error "unconfigured columns")
      ok entity

abbrev entity_name : EntityRule → String
entity_name entity = entity.name

abbrev publication_view : PublicationRule → String
publication_view publication = publication.view

-- `ReconciliationConfig.validate_unique_names`
unfoldable pub validate_unique_names : ReconciliationConfig → Result ReconciliationConfig
validate_unique_names config = do
  raise_if (has_duplicates (map entity_name config.entities))
      (value_error "duplicate entity names are not allowed")
  raise_if (has_duplicates (map publication_view config.publications))
      (value_error "duplicate publication names are not allowed")
  ok config

pub data CheckType : Type 0 where
  presence count partition_count checksum aggregate delete error : CheckType

-- What the checks compare and report: `expected` and `actual` of `CheckResult`.
pub data Evidence : Type 0 where
  nothing : Evidence
  words : String → Evidence
  rows_found : ℕ → ℕ → Evidence
  number : ℕ → Evidence
  numbers : Dict ℕ → Evidence
  texts : Dict String → Evidence
  keys_found : List String → Evidence

pub record CheckResult : Type 0 where
  pub entity : String
  pub name : String
  pub check_type : CheckType
  pub passed : Bool
  pub expected : Evidence
  pub actual : Evidence
  pub error : Bool

pub data ValidationStatus : Type 0 where
  passed failed : ValidationStatus

pub record ValidationReport : Type 0 where
  pub run_id : String
  pub batch_id : ℕ
  pub interval_start : DateTime
  pub interval_end : DateTime
  pub checked_at : ℕ
  pub status : ValidationStatus
  pub checks : List CheckResult

-- `ValidationReport.passed`
unfoldable pub is_passed : ValidationReport → Bool
is_passed report = elim (report.status) [
  | ValidationStatus.passed ↦ true
  | ValidationStatus.failed ↦ false
]
