-- ===== src/Streaming/Ingestion.antt =====
-- src/millrace/streaming/spark_job.py: a record of Kafka becomes a row of the bronze table, or a
-- dead letter.
pub mod Lake
pub mod MicroBatch
pub mod Snapshot
pub mod Window
pub mod History
pub mod CurrentState
pub mod Writes
pub mod Batches
pub mod Delivery
pub mod Records
pub mod Retry
use millrace.Base.{
  ℕ, String, ◌*◌, Bool, true, false, Option, none, some, List, map_result, Result, ok, raise, ◌>>=◌,
}
use millrace.Base.Int.{pos}
use millrace.Streaming.Json.{object, JsonObject, Library}
use millrace.Streaming.Models.{
  Entity, entity_value, Operation, operation_value, ReasonCode, reason_value, DateTime,
  KafkaMetadata, kafka_metadata, CdcEvent, event_row, ParseResult, cdc_event, tombstone_event,
  malformed_event,
}
use millrace.Streaming.Parser.{parse_debezium_event}
use millrace.Streaming.Parser.Decode.{RawText}

-- A row of the stream. Kafka's partitions and offsets are natural numbers.
pub record KafkaRecord : Type 0 where
  pub key : Option (List ℕ)
  pub value : Option (List ℕ)
  pub topic : String
  pub partition : ℕ
  pub offset : ℕ
  pub timestamp : Option DateTime

-- `_NORMALIZED_SCHEMA`, here also for the tuple that Python returns, whose numbers have no bound.
pub record NormalizedRow : Type 0 where
  pub is_valid : Bool
  pub is_tombstone : Bool
  pub entity : Option String
  pub operation : Option String
  pub key_json : Option String
  pub before_json : Option String
  pub after_json : Option String
  pub row_json : Option String
  pub batch_id : Option ℕ
  pub source_lsn : Option ℕ
  pub source_timestamp_ms : Option ℕ
  pub transaction_order : Option ℕ
  pub event_date : Option String
  pub reason_code : Option String
  pub reason_detail : Option String
  pub raw_payload : Option String

abbrev stored : (ℕ → Option ℕ) → Option ℕ → Option ℕ
stored long none = none
stored long (some n) = long n

-- What Spark makes of a returned tuple by `_NORMALIZED_SCHEMA`: `long` is what it keeps of a number in
-- a LongType.
abbrev pub by_schema : (ℕ → Option ℕ) → NormalizedRow → NormalizedRow
by_schema long n = record n {
  batch_id = stored long n.batch_id;
  source_lsn = stored long n.source_lsn;
  source_timestamp_ms = stored long n.source_timestamp_ms;
  transaction_order = stored long n.transaction_order;
}

-- Python's dates: the ISO text of the date in UTC of an instant in microseconds, or the exception
-- for an instant that no `datetime` reaches; and the date of today in UTC.
pub record Calendar : Type 0 where
  pub utc_date : ℕ → Result String
  pub today : String

-- `_bytes_or_none`
abbrev pub bytes_or_none : Option (List ℕ) → Option RawText
bytes_or_none none = none
bytes_or_none (some b) = some (RawText.bytes b)

-- a naive timestamp is taken for one of UTC
unfoldable pub aware : Option DateTime → Option DateTime
aware none = none
aware (some t) = elim t.zone [
  | none ↦ some (record { instant = t.instant; zone = some (pos 0) })
  | some z ↦ some t
]

-- `_event_date`
unfoldable pub event_date : Calendar → Option ℕ → Option DateTime → Result String
event_date calendar (some ms) kafka_timestamp = calendar.utc_date (ms * 1000)
event_date calendar none (some t) = calendar.utc_date t.instant
event_date calendar none none = ok calendar.today

module _ (lib : Library) where
  -- `_json`
  abbrev pub json : Option JsonObject → Option String
  json none = none
  json (some o) = some (lib.dumps (object o))

  -- `_normalized_event`, for the date that `_event_date` returned
  unfoldable pub event_columns : CdcEvent → String → NormalizedRow
  event_columns event date = record {
    is_valid = true;
    is_tombstone = false;
    entity = some (entity_value event.entity);
    operation = some (operation_value event.operation);
    key_json = json (some event.key);
    before_json = json event.before;
    after_json = json event.after;
    row_json = json (event_row event);
    batch_id = some event.batch_id;
    source_lsn = some event.source_lsn;
    source_timestamp_ms = event.source_timestamp_ms;
    transaction_order = some event.transaction_order;
    event_date = some date;
    reason_code = none;
    reason_detail = none;
    raw_payload = event.raw_payload;
  }

  module _ (calendar : Calendar) where
    unfoldable pub normalized_event : CdcEvent → Option DateTime → Result NormalizedRow
    normalized_event event kafka_timestamp = do
      date ← event_date calendar event.source_timestamp_ms kafka_timestamp
      ok (event_columns event date)

    -- what `_normalize_kafka_record` does with the parser's result
    unfoldable pub normalized : ParseResult → Option DateTime → Result NormalizedRow
    normalized (malformed_event e) timestamp = do
      date ← event_date calendar none timestamp
      ok (record {
        is_valid = false;
        is_tombstone = false;
        entity = none;
        operation = none;
        key_json = none;
        before_json = none;
        after_json = none;
        row_json = none;
        batch_id = none;
        source_lsn = none;
        source_timestamp_ms = none;
        transaction_order = none;
        event_date = some date;
        reason_code = some (reason_value e.reason_code);
        reason_detail = some e.detail;
        raw_payload = e.raw_payload;
      })
    normalized (tombstone_event t) timestamp = do
      date ← event_date calendar none timestamp
      ok (record {
        is_valid = true;
        is_tombstone = true;
        entity = some (entity_value t.entity);
        operation = some (operation_value Operation.tombstone);
        key_json = json (some t.key);
        before_json = none;
        after_json = none;
        row_json = none;
        batch_id = none;
        source_lsn = none;
        source_timestamp_ms = none;
        transaction_order = none;
        event_date = some date;
        reason_code = none;
        reason_detail = none;
        raw_payload = none;
      })
    normalized (cdc_event e) timestamp = normalized_event e timestamp

    -- `_normalize_kafka_record`
    unfoldable pub normalize_kafka_record : KafkaRecord → Result NormalizedRow
    unfolding normalized
    normalize_kafka_record r = do
      metadata ← kafka_metadata r.topic (pos r.partition) (pos r.offset) (aware r.timestamp)
      result ← parse_debezium_event lib (bytes_or_none r.value) metadata (bytes_or_none r.key)
      normalized result (aware r.timestamp)
