-- ===== src/Streaming/Parser.antt =====
-- src/millrace/streaming/parser.py. A step of `parse_debezium_event` goes on with a value, returns
-- early with a `MalformedEvent`, or lets an exception through.
pub mod Decode
pub mod Events
pub mod Returns
pub mod Reasons
use millrace.Base.{
  ℕ, suc, String, ◌<>◌, Bool, true, false, not, Option, none, some, List, Result, ok, raise, Error,
  if◌then◌else◌, ltb,
}
use millrace.Streaming.Json.{
  JsonValue, text, object, JsonObject, empty, get, contains, optional_object, Library, Loaded,
  decoded, decode_error, other_error,
}
use millrace.Streaming.Models.{
  Entity, Operation, operation_of, operation_value, is_delete, ReasonCode, KafkaMetadata, CdcEvent,
  MalformedEvent, Tombstone, ParseResult, cdc_event, tombstone_event, malformed_event,
}
use millrace.Streaming.Schemas.{EntitySpec, entity_spec, entity_from_topic, find_key, validate_row}
use Decode.{
  RawText, decode, parse_object, parse_key, unwrap_payload, normalize_decimal_fields,
  non_negative_int, positive_int, key_eq,
}

pub data Parse (A : Type 0) : Type 0 where
  next : A → Parse A
  reject : ReasonCode → String → Parse A
  throw : Error → Parse A

infixl 5 ◌>>=◌ ◌>>◌
abbrev pub ◌>>=◌ : {A B : Type 0} → Parse A → (A → Parse B) → Parse B
next a >>= f = f a
reject code detail >>= f = reject code detail
throw e >>= f = throw e

abbrev pub ◌>>◌ : {A B : Type 0} → Parse A → Parse B → Parse B
m >> k = m >>= λ _. k

abbrev pub lift : {A : Type 0} → Result A → Parse A
lift (ok a) = next a
lift (raise e) = throw e

-- `if value is None: return _malformed(code, detail, ...)`
abbrev pub require : {A : Type 0} → Option A → ReasonCode → String → Parse A
require none code detail = reject code detail
require (some a) code detail = next a

-- `if error is not None: return _malformed(code, error, ...)`
abbrev pub reject_error : Option String → ReasonCode → Parse (Unit {0})
reject_error none code = next tt
reject_error (some error) code = reject code error

abbrev pub reject_if : Bool → ReasonCode → String → Parse (Unit {0})
reject_if true code detail = reject code detail
reject_if false code detail = next tt

-- `_operation`
unfoldable pub parse_operation : JsonValue → Option Operation
parse_operation (text s) = elim (operation_of s) [
  | some Operation.tombstone ↦ none
  | some op ↦ some op
  | none ↦ none
]
parse_operation _ = none

-- What the checks of the envelope yield.
pub record Change : Type 0 where
  pub operation : Operation
  pub before : Option JsonObject
  pub after : Option JsonObject
  pub row : JsonObject
  pub source : JsonObject
  pub source_lsn : ℕ
  pub envelope : JsonObject

module _ (lib : Library) where
  -- the tombstone branch, `payload is None`
  unfoldable pub parse_tombstone :
      Entity → JsonObject → Option String → KafkaMetadata → Parse ParseResult
  parse_tombstone entity key key_error metadata = do
    reject_error key_error ReasonCode.missing_key
    spec_key ←
        require (find_key (entity_spec entity) key) ReasonCode.missing_key
          "tombstone key does not match the entity schema"
    next (tombstone_event (record { entity = entity; key = spec_key; kafka = metadata }))

  -- from `_parse_object` to the check of `source.lsn`
  unfoldable pub open_envelope : Option String → Parse Change
  open_envelope raw = do
    (document, error) ← lift (parse_object lib raw)
    reject_error error ReasonCode.invalid_json
    unwrapped ←
        require (unwrap_payload document) ReasonCode.invalid_envelope
          "Debezium envelope payload must be an object"
    envelope ← lift (normalize_decimal_fields lib document unwrapped)
    operation ←
        require (parse_operation (get "op" envelope)) ReasonCode.unsupported_operation
          "op must be one of c, u, d, or r"
    let before = optional_object (get "before" envelope)
    let after = optional_object (get "after" envelope)
    let expected = if is_delete operation then "before" else "after"
    row ←
        require (if is_delete operation then before else after) ReasonCode.invalid_envelope
          (expected <> (" must be an object for operation " <> operation_value operation))
    source ←
        require (optional_object (get "source" envelope)) ReasonCode.invalid_envelope
          "source must be an object"
    lsn ← lift (non_negative_int lib (get "lsn" source))
    source_lsn ←
        require lsn ReasonCode.missing_source_lsn "source.lsn must be a non-negative integer"
    next (record {
      operation = operation;
      before = before;
      after = after;
      row = row;
      source = source;
      source_lsn = source_lsn;
      envelope = envelope;
    })

  -- from `validate_row` to the comparison of the two keys
  unfoldable pub match_key : EntitySpec → JsonObject → JsonObject → Option String → Parse JsonObject
  match_key spec row key key_error = do
    reject_error (validate_row lib spec row) ReasonCode.invalid_schema
    row_key ←
        require (find_key spec row) ReasonCode.invalid_schema "row key failed schema validation"
    reject_error key_error ReasonCode.missing_key
    message_key ←
        require (find_key spec key) ReasonCode.missing_key
          "Kafka key does not match the entity schema"
    reject_if (not (key_eq message_key row_key)) ReasonCode.invalid_schema
        "Kafka key does not match the row key"
    next message_key

  -- the row's batch, or else the source's
  unfoldable pub find_batch : JsonObject → JsonObject → Parse ℕ
  find_batch row source = do
    of_row ← lift (positive_int lib (get "batch_id" row))
    batch ← elim of_row [
      | some b ↦ next (some b)
      | none ↦ lift (positive_int lib (get "batch_id" source))
    ]
    require batch ReasonCode.missing_batch_id "batch_id must be a positive integer"

  abbrev or_empty : Option JsonObject → JsonObject
  or_empty none = empty
  or_empty (some o) = o

  -- `a or b or 0` over optional numbers: zero is false too
  unfoldable pub transaction_order : JsonObject → Result ℕ
  transaction_order transaction =
      elim (non_negative_int lib (get "data_collection_order" transaction)) [
        | raise e ↦ raise e
        | ok (some (suc n)) ↦ ok (suc n)
        | ok _ ↦ elim (non_negative_int lib (get "total_order" transaction)) [
          | raise e ↦ raise e
          | ok (some n) ↦ ok n
          | ok none ↦ ok 0
        ]
      ]

  unfoldable pub source_timestamp : JsonObject → JsonObject → Result (Option ℕ)
  source_timestamp source envelope = elim (non_negative_int lib (get "ts_ms" source)) [
    | raise e ↦ raise e
    | ok (some t) ↦ ok (some t)
    | ok none ↦ non_negative_int lib (get "ts_ms" envelope)
  ]

  -- from `validate_row` to the end, for an envelope that passed its checks
  unfoldable pub parse_row :
      Entity
      → JsonObject
      → Option String
      → KafkaMetadata
      → Option String
      → Change
      → Parse ParseResult
  parse_row entity key key_error metadata raw change = do
    matched ← match_key (entity_spec entity) change.row key key_error
    batch_id ← find_batch change.row change.source
    order ←
        lift (transaction_order (or_empty (optional_object (get "transaction" change.envelope))))
    timestamp ← lift (source_timestamp change.source change.envelope)
    next (
        cdc_event (record {
          entity = entity;
          operation = change.operation;
          key = matched;
          before = change.before;
          after = change.after;
          batch_id = batch_id;
          source_lsn = change.source_lsn;
          source_timestamp_ms = timestamp;
          transaction_order = order;
          kafka = metadata;
          raw_payload = raw;
        }))

  -- everything below the tombstone branch
  unfoldable pub parse_change :
      Entity → JsonObject → Option String → KafkaMetadata → Option String → Parse ParseResult
  parse_change entity key key_error metadata raw =
      open_envelope raw >>= parse_row entity key key_error metadata raw

  unfoldable pub parse_steps : Option RawText → KafkaMetadata → Option RawText → Parse ParseResult
  parse_steps payload metadata key_payload = do
    entity ←
        require (entity_from_topic lib metadata.topic) ReasonCode.unknown_topic
          "topic does not map to an entity"
    (key, key_error) ← lift (parse_key lib key_payload)
    let raw = decode lib payload
    elim payload [
      | none ↦ parse_tombstone entity key key_error metadata
      | some p ↦ parse_change entity key key_error metadata raw
    ]

-- An early return becomes a `MalformedEvent`, as `_malformed` builds it.
unfoldable pub finish : KafkaMetadata → Option String → Parse ParseResult → Result ParseResult
finish metadata raw (next r) = ok r
finish metadata raw (reject code detail) = ok (
    malformed_event
      (record { reason_code = code; detail = detail; kafka = metadata; raw_payload = raw }))
finish metadata raw (throw e) = raise e

unfoldable pub parse_debezium_event :
    Library → Option RawText → KafkaMetadata → Option RawText → Result ParseResult
unfolding finish
parse_debezium_event lib payload metadata key_payload =
    finish metadata (decode lib payload) (parse_steps lib payload metadata key_payload)
