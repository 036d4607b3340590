-- ===== src/Streaming/Ingestion/MicroBatch.antt =====
-- `_micro_batch_processor` of src/millrace/streaming/spark_job.py. The rows are computed once, at the
-- first action on them, which comes before the first write; to drop them again changes no table.
use millrace.Base.{
  ℕ, String, Bool, false, not, Option, none, some, List, [], ◌∷◌, ok, ◌>>=◌ as ◌>>=ᵣ◌, str_eq,
  map_result, map, keep,
}
use millrace.Base.Int.{ℤ}
use millrace.Base.Stateful.{Action, ◌>>=◌, ◌>>◌, lift, return}
use millrace.Streaming.Json.{Library}
use millrace.Streaming.Models.{Entity}
use millrace.Streaming.Storage.{StoragePaths, bronze_run, dead_letter_run}
use millrace.Streaming.Ingestion.{
  KafkaRecord, NormalizedRow, by_schema, Calendar, normalize_kafka_record,
}
use millrace.Streaming.Ingestion.Lake.{
  BronzeRow, DeadLetter, Lake, Store, write_bronze, write_dead_letters,
}

abbrev pub is_valid : KafkaRecord × NormalizedRow → Bool
is_valid (r, n) = n.is_valid

-- `normalized.filter(is_valid).drop("is_valid", "reason_code", "reason_detail")`, for one row
unfoldable pub bronze_row : KafkaRecord × NormalizedRow → BronzeRow
bronze_row (r, n) = record {
  topic = r.topic;
  partition = r.partition;
  offset = r.offset;
  timestamp = r.timestamp;
  is_tombstone = n.is_tombstone;
  entity = n.entity;
  operation = n.operation;
  key_json = n.key_json;
  before_json = n.before_json;
  after_json = n.after_json;
  row_json = n.row_json;
  batch_id = n.batch_id;
  source_lsn = n.source_lsn;
  source_timestamp_ms = n.source_timestamp_ms;
  transaction_order = n.transaction_order;
  event_date = n.event_date;
  raw_payload = n.raw_payload;
}

-- the columns selected for `malformed`
unfoldable pub dead_letter : KafkaRecord × NormalizedRow → DeadLetter
dead_letter (r, n) = record {
  topic = r.topic;
  partition = r.partition;
  offset = r.offset;
  timestamp = r.timestamp;
  raw_payload = n.raw_payload;
  reason_code = n.reason_code;
  reason_detail = n.reason_detail;
}

unfoldable pub valid_rows : List (KafkaRecord × NormalizedRow) → List BronzeRow
valid_rows rows = map bronze_row (keep is_valid rows)

unfoldable pub malformed_rows : List (KafkaRecord × NormalizedRow) → List DeadLetter
malformed_rows rows = map dead_letter (keep (λ row. not (is_valid row)) rows)

-- `F.col("event_date") == F.lit(date)`, where null is no match
abbrev pub is_on : String → BronzeRow → Bool
is_on date row = elim (row.event_date) [ none ↦ false | some d ↦ str_eq d date ]

-- those that are not None
unfoldable pub present : List (Option String) → List String
present [] = []
present (none ∷ dates) = present dates
present (some d ∷ dates) = d ∷ present dates

-- `distinct` is Spark's, which returns the values in no given order.
module _ (distinct : List (Option String) → List (Option String)) where
  unfoldable pub event_dates : List BronzeRow → List String
  event_dates rows = present (distinct (map (λ row. row.event_date) rows))

  module _ (quote : String → String) (store : Store) (paths : StoragePaths) (entity : Entity)
      (run_id : String) (stream_batch_id : ℤ) where
    -- one round of the loop over `event_dates`
    unfoldable pub write_date : List BronzeRow → String → Action Lake (Unit {0})
    write_date rows date = do
      target ← lift (bronze_run quote paths entity date run_id stream_batch_id)
      write_bronze store target (keep (is_on date) rows)

    unfoldable pub write_dates : List BronzeRow → List String → Action Lake (Unit {0})
    write_dates rows [] = return tt
    write_dates rows (date ∷ dates) = write_date rows date >> write_dates rows dates

    -- `if not malformed.isEmpty(): ...`
    unfoldable pub write_malformed : List DeadLetter → Action Lake (Unit {0})
    write_malformed [] = return tt
    write_malformed (row ∷ rows) = do
      target ← lift (dead_letter_run quote paths entity run_id stream_batch_id)
      write_dead_letters store target (row ∷ rows)

    unfoldable pub write_batch : List (KafkaRecord × NormalizedRow) → Action Lake (Unit {0})
    write_batch rows =
        write_dates (valid_rows rows) (event_dates (valid_rows rows))
        >> write_malformed (malformed_rows rows)

    -- `process`
    unfoldable pub process :
        Library → (ℕ → Option ℕ) → Calendar → List KafkaRecord → Action Lake (Unit {0})
    process lib long calendar batch = do
      rows ← lift (
          map_result (λ r. normalize_kafka_record lib calendar r >>=ᵣ λ n. ok (r, by_schema long n))
            batch)
      write_batch rows
