-- ===== src/Streaming/Tests/Lakes.antt =====
-- Runs of the ingestion on the messages of Tests.Messages, and of the snapshot on two events.
use millrace.Base.Sort
use millrace.Base.{
  ℕ, zero, suc, String, Option, none, some, List, [], ◌∷◌, Result, ok, raise, Error, value_error,
  runtime_error, ◌≡◌, refl, ap, sym, inl, inr, In, map_result, str_eq, last_part, split_on,
  is_space, join, str_le, strip,
}
use millrace.Base.Dict.{lookup, insert}
use millrace.Base.Int.{pos}
use millrace.Base.Decimal.{show_padded}
use millrace.Base.Stateful.{and_then}
use millrace.Streaming.Json.{Library, contains, optional_object, get, put}
use millrace.Streaming.Models.{
  Entity, DateTime, entity_of, entity_value, event_row, operation_of, operation_value, reason_value,
  kafka_metadata,
}
use millrace.Streaming.Schemas.{
  matches_kind, entity_spec, find_key, validate_row, project, is_key_value, entity_from_topic,
  missing_fields, first_mismatch,
}
use millrace.Streaming.Parser.Decode.{
  key_value_eq, decode, isdigit, int_of_digits, parse_key, parse_object, unwrap_payload,
  normalize_decimal_fields, count_chars, count_fields, key_eq, named_field_schema, non_negative_int,
  normalize_field, normalize_image, normalize_row, positive_int,
}
use millrace.Streaming.Parser.{
  parse_steps, parse_debezium_event, parse_change, open_envelope, parse_operation, find_batch,
  finish, match_key, parse_row, source_timestamp, transaction_order,
}
use millrace.Streaming.Storage.{
  StoragePaths, root, bronze_table, bronze_run, dead_letter_run, stable_component,
}
use millrace.Streaming.Ingestion.{
  KafkaRecord, NormalizedRow, normalize_kafka_record, aware, normalized, normalized_event,
  event_columns, by_schema, event_date,
}
use millrace.Streaming.Ingestion.Lake.{Lake, Store, write_bronze, write_dead_letters}
use millrace.Streaming.Ingestion.MicroBatch.{
  process, bronze_row, dead_letter, write_batch, write_dates, write_date, write_malformed,
  valid_rows, malformed_rows, event_dates, present,
}
use millrace.Streaming.Ingestion.Batches.{KeepsMembers}
use millrace.Streaming.Ingestion.Records.{IsDelivered, process-IsDelivered, process_raises}
use millrace.Streaming.Ingestion.Retry.{calendar_on, SameTables, process_retry}
use millrace.Streaming.Tests.Messages

-- a byte stands for the text of a message
abbrev utf8 : List ℕ → Option String
utf8 (zero ∷ rest) = some "event"
utf8 (suc zero ∷ rest) = some "key"
utf8 (suc (suc zero) ∷ rest) = some "superscript"
utf8 _ = none

abbrev lib : Library
lib = record Messages.lib { utf8 = utf8 }

abbrev noon : DateTime
noon = record { instant = 5; zone = some (pos 0) }

abbrev message : ℕ → ℕ → KafkaRecord
message n offset = record {
  key = some (1 ∷ []);
  value = some (n ∷ []);
  topic = "cdc.customers";
  partition = 0;
  offset = offset;
  timestamp = some noon;
}

abbrev batch : List KafkaRecord
batch = message 0 4 ∷ message 3 5 ∷ []

abbrev utc_date : ℕ → Result String
utc_date n = ok "2024-01-01"

abbrev working : Store
working = record {
  bronze_failure = λ p. none;
  dead_letter_failure = λ p. none;
  silver_failure = λ p. none;
}

abbrev failing : Store
failing = record {
  bronze_failure = λ p. none;
  dead_letter_failure = λ p. some (runtime_error "connection reset", []);
  silver_failure = λ p. none;
}

abbrev no_tables : Lake
no_tables = record { bronze = []; dead_letters = []; silver = [] }

abbrev paths : StoragePaths
paths = record { bucket = "lake"; pipeline_name = "cdc" }

abbrev same : List (Option String) → List (Option String)
same xs = xs

same-KeepsMembers : KeepsMembers same
same-KeepsMembers xs x = (λ h. h, λ h. h)

abbrev run : Store → String → List KafkaRecord → Lake → Result (Unit {0}) × Lake
run store today records a =
    process same (λ s. s) store paths Entity.customers "r" (pos 7) lib some
      (calendar_on utc_date today) records a

process-IsDelivered_example :
    (row : NormalizedRow) × (normalize_kafka_record lib
        (calendar_on utc_date "2024-01-02")
        (message 0 4)
      ≡ ok row)
    × IsDelivered
        (λ s. s)
        paths
        Entity.customers
        "r"
        (pos 7)
        (run working "2024-01-02" batch no_tables).1
        (message 0 4, by_schema some row)
unfolding parse_debezium_event parse_steps entity_from_topic entity_of str_eq last_part split_on
    parse_key decode parse_object unwrap_payload contains parse_change open_envelope
    normalize_decimal_fields optional_object get parse_operation operation_of isdigit int_of_digits
    Sort.sort_by is_space join str_le strip put operation_value count_chars count_fields key_eq
    named_field_schema non_negative_int normalize_field normalize_image normalize_row positive_int
    find_batch finish match_key parse_row source_timestamp transaction_order entity_spec find_key
    is_key_value missing_fields project validate_row first_mismatch lookup matches_kind key_value_eq
    process map_result normalize_kafka_record kafka_metadata aware normalized normalized_event
    event_columns event_date and_then write_batch write_dates write_date write_malformed
    write_bronze write_dead_letters valid_rows malformed_rows event_dates present bronze_row
    dead_letter bronze_run dead_letter_run bronze_table root stable_component show_padded insert
    entity_value event_row reason_value
process-IsDelivered_example =
    process-IsDelivered (λ s. s) paths Entity.customers "r" (pos 7) lib same working some
      (calendar_on utc_date "2024-01-02") batch no_tables
      (run working "2024-01-02" batch no_tables).1 (message 0 4) same-KeepsMembers refl (inl refl)

process_raises_example :
    (e : Error) × (run working "2024-01-02" (message 2 6 ∷ batch) no_tables ≡ (raise e, no_tables))
unfolding parse_debezium_event parse_steps entity_from_topic entity_of str_eq last_part split_on
    parse_key decode parse_object unwrap_payload contains parse_change open_envelope
    normalize_decimal_fields optional_object get parse_operation operation_of isdigit int_of_digits
    Sort.sort_by is_space join str_le strip put operation_value count_chars count_fields key_eq
    named_field_schema non_negative_int normalize_field normalize_image normalize_row positive_int
    find_batch finish match_key parse_row source_timestamp transaction_order entity_spec find_key
    is_key_value missing_fields project validate_row first_mismatch lookup matches_kind key_value_eq
    process map_result normalize_kafka_record kafka_metadata aware normalized normalized_event
    event_columns event_date and_then write_batch write_dates write_date write_malformed
    write_bronze write_dead_letters valid_rows malformed_rows event_dates present bronze_row
    dead_letter bronze_run dead_letter_run bronze_table root stable_component show_padded insert
    entity_value event_row reason_value
process_raises_example =
    process_raises same (λ s. s) working paths Entity.customers "r" (pos 7) lib some
      (calendar_on utc_date "2024-01-02") (message 2 6 ∷ batch) no_tables (message 2 6)
      (value_error "invalid literal for int() with base 10") (inl refl) refl

batch-timestamps : (r : KafkaRecord) → In r batch → (t : DateTime) × (r.timestamp ≡ some t)
batch-timestamps r (inl e) = (noon, ap (λ z. z.timestamp) (sym e))
batch-timestamps r (inr (inl e)) = (noon, ap (λ z. z.timestamp) (sym e))
batch-timestamps r (inr (inr bad)) = absurd bad

abbrev interrupted : Lake
interrupted = (run failing "2024-01-02" batch no_tables).1

process_retry_example :
    SameTables
      (run working "2024-01-03" batch interrupted).1
      (run working "2024-01-02" batch no_tables).1
unfolding parse_debezium_event parse_steps entity_from_topic entity_of str_eq last_part split_on
    parse_key decode parse_object unwrap_payload contains parse_change open_envelope
    normalize_decimal_fields optional_object get parse_operation operation_of isdigit int_of_digits
    Sort.sort_by is_space join str_le strip put operation_value count_chars count_fields key_eq
    named_field_schema non_negative_int normalize_field normalize_image normalize_row positive_int
    find_batch finish match_key parse_row source_timestamp transaction_order entity_spec find_key
    is_key_value missing_fields project validate_row first_mismatch lookup matches_kind key_value_eq
    process map_result normalize_kafka_record kafka_metadata aware normalized normalized_event
    event_columns event_date and_then write_batch write_dates write_date write_malformed
    write_bronze write_dead_letters valid_rows malformed_rows event_dates present bronze_row
    dead_letter bronze_run dead_letter_run bronze_table root stable_component show_padded insert
    entity_value event_row reason_value
process_retry_example =
    process_retry (λ s. s) paths Entity.customers "r" (pos 7) same same same failing working working
      same-KeepsMembers same-KeepsMembers same-KeepsMembers lib some utc_date "2024-01-02"
      "2024-01-03" batch no_tables (run working "2024-01-03" batch interrupted).1
      (run working "2024-01-02" batch no_tables).1 batch-timestamps refl refl
