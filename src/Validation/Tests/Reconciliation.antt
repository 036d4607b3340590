-- ===== src/Validation/Tests/Reconciliation.antt =====
-- Runs of the reconciliation on one entity of one row.
use millrace.Base.{
  ℕ, ◌*◌, ◌+◌, String, code, true, false, none, some, List, [], ◌∷◌, ok, ◌≡◌, refl, sym, ◌∙◌,
  cons_path, ok-path, ◌⊎◌, All, str_eq, join, length, map_result,
}
use millrace.Base.Int.{pos}
use millrace.Base.Dict.{lookup, insert}
use millrace.Base.Decimal.{show}
use millrace.Base.Sort
use millrace.Streaming.Models.{DateTime}
use millrace.Contracts.{RunContext}
use millrace.Validation.Models.{
  CanonicalType, ColumnRule, AggregateOperation, EntityRule, ReconciliationConfig, is_passed,
}
use millrace.Validation.Canonical.{
  Conversions, Value, Decimal, Row, canonicalize, row_key, display_key,
}
use millrace.Validation.Canonical.Checksum.{
  to_bytes, update_digest, digest_cells, digest_rows, ordered_rows, column_checksum,
}
use millrace.Validation.Canonical.Groups.{
  columns_of, sorted_items, count_rows, grouped_counts, group_rows, best_value, aggregate_groups,
  aggregate_values,
}
use millrace.Validation.Canonical.Framing.{IsFaithful}
use millrace.Validation.Canonical.Agreement.{column_texts, HasCollision, column_checksum-agreement}
use millrace.Validation.Service.{
  texts_eq, numbers_eq, entries_eq, evidence_eq, compared, is_key, distinct_keys, columns_by_name,
  presence_check, delete_check, partition_check, checksum_check, aggregate_check, delete_checks,
  compare_entity,
}
use millrace.Validation.Service.Gate.{
  Readers, Sinks, fetch_deleted_keys, reconcile, check_entities, all_passed, report_of, validate,
  validate_or_raise,
}
use millrace.Validation.Service.Verdict.{IsVerified, validate_or_raise-IsVerified}

abbrev codes : String → List ℕ
codes String.[] = []
codes (String.◌∷◌ c s) = code c ∷ codes s

-- ASCII texts, and a digest that is only the number of bytes
abbrev py : Conversions
py = record {
  nfc = λ s. s;
  str = λ v. "1";
  date_of = λ t. 0;
  date_fromisoformat = λ s. none;
  date_isoformat = λ d. "";
  datetime_fromisoformat = λ s. none;
  utc_isoformat = λ t. "";
  decimal = λ s. some (Decimal.finite (pos 1) (pos 0));
  normalize = λ d. d;
  format_decimal = λ d. "1";
  add_decimal = λ a b. ok b;
  decimal_value = λ d. Value.integer (pos 1);
  format_float = λ v. ok none;
  format_int = λ n. "1";
  less = λ a b. ok false;
  greater = λ a b. ok false;
  encode = λ s. ok (codes s);
  sha256_hex = λ bytes. show (length bytes);
}

abbrev rows : List Row
rows = (("customer_id", Value.integer (pos 1)) ∷ ("email", Value.text "a@x") ∷ []) ∷ []

abbrev customer_id : ColumnRule
customer_id = record { name = "customer_id"; canonical_type = CanonicalType.integer_type }

abbrev email : ColumnRule
email = record { name = "email"; canonical_type = CanonicalType.text_type }

abbrev customers : EntityRule
customers = record {
  name = "customers";
  source = record {
    relation = "history.customers";
    batch_column = "batch_id";
    sequence_column = none;
    deleted_column = some "is_deleted";
  };
  target = record { relation = "{candidate_schema}.customers"; batch_column = "batch_id" };
  key_columns = "customer_id" ∷ [];
  columns = customer_id ∷ email ∷ [];
  partitions = record { name = "by_email"; columns = "email" ∷ [] } ∷ [];
  aggregates =
      record {
        name = "highest";
        operation = AggregateOperation.max;
        column = "customer_id";
        group_by = [];
      }
      ∷ [];
  allow_empty = false;
}

abbrev config : ReconciliationConfig
config = record {
  control_schema = "control";
  analytics_schema = "analytics";
  entities = customers ∷ [];
  publications = [];
}

abbrev noon : ℕ → DateTime
noon day = record { instant = day * 86400000000 + 43200000000; zone = some (pos 0) }

abbrev context : RunContext
context = record { run_id = "run-7"; batch_id = 7; interval_start = noon 1; interval_end = noon 2 }

abbrev readers : Readers
readers = record {
  source = λ e c. ok rows;
  candidate = λ e c. ok rows;
  tombstones = some (λ e c. ok []);
}

abbrev sinks : Sinks
sinks = record {
  write = λ r. ok "run-7/reconciliation.json";
  record_validation = λ r p. ok tt;
  now = 3;
}

abbrev IsAgreement : Type 0
IsAgreement =
    ((texts : List String) × (column_texts py (customer_id ∷ []) email rows ≡ ok texts)
      × (column_texts py (customer_id ∷ []) email rows ≡ ok texts))
    ⊎ HasCollision py

codes_injective : (s t : String) → codes s ≡ codes t → s ≡ t
codes_injective String.[] String.[] h = refl
codes_injective String.[] (String.◌∷◌ d t) h = cc
codes_injective (String.◌∷◌ c s) String.[] h = cc
codes_injective (String.◌∷◌ c s) (String.◌∷◌ d t) h =
    let head : code c ≡ code d = cc in
    let tail : codes s ≡ codes t = cc in cons_path c d s t head (codes_injective s t tail)

py-IsFaithful : IsFaithful py
py-IsFaithful s t bytes h k = codes_injective s t (ok-path (h ∙ sym k))

column_checksum-agreement_example : IsAgreement
unfolding column_checksum ordered_rows map_result row_key lookup str_eq canonicalize digest_rows
    Sort.sort_by digest_cells update_digest to_bytes show
column_checksum-agreement_example =
    column_checksum-agreement py rows rows email (customer_id ∷ []) "24" py-IsFaithful refl refl

validate_or_raise-IsVerified_example :
    (is_passed (report_of py readers context config 3) ≡ true)
    × ((report_of py readers context config 3).run_id ≡ "run-7")
    × ((report_of py readers context config 3).batch_id ≡ 7)
    × All (IsVerified py readers context) (customers ∷ [])
unfolding validate_or_raise validate report_of check_entities reconcile fetch_deleted_keys
    compare_entity all_passed is_passed columns_of columns_by_name insert presence_check compared
    evidence_eq delete_check delete_checks partition_check checksum_check aggregate_check numbers_eq
    entries_eq texts_eq distinct_keys is_key grouped_counts count_rows display_key join sorted_items
    aggregate_values aggregate_groups group_rows best_value column_checksum ordered_rows map_result
    row_key lookup str_eq canonicalize digest_rows Sort.sort_by digest_cells update_digest to_bytes
    show
validate_or_raise-IsVerified_example =
    validate_or_raise-IsVerified py readers context config sinks
      (report_of py readers context config 3) "run-7/reconciliation.json" refl
