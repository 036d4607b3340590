-- ===== src/Streaming/Models.antt =====
-- src/millrace/streaming/models.py
use millrace.Base.{
  ℕ, String, Bool, true, false, Option, none, some, List, [], ◌∷◌, Result, ok, raise_if,
  value_error, ◌>>◌, ◌>>=◌, if◌then◌else◌, str_eq, strip, is_empty, raise, not,
}
use millrace.Base.Int.{ℤ, pos, negsuc}
use millrace.Streaming.Json.{JsonObject}

pub data Entity : Type 0 where
  customers products orders order_items : Entity

-- `for entity in Entity`
abbrev pub entities : List Entity
entities = Entity.customers ∷ Entity.products ∷ Entity.orders ∷ Entity.order_items ∷ []

unfoldable pub entity_value : Entity → String
entity_value Entity.customers = "customers"
entity_value Entity.products = "products"
entity_value Entity.orders = "orders"
entity_value Entity.order_items = "order_items"

-- `Entity(value)`, with `none` for its ValueError
unfoldable pub entity_of : String → Option Entity
entity_of s =
    if str_eq s "customers"
    then some Entity.customers
    else if str_eq s "products"
    then some Entity.products
    else if str_eq s "orders"
    then some Entity.orders
    else if str_eq s "order_items"
    then some Entity.order_items
    else none

pub data Operation : Type 0 where
  create update delete read tombstone : Operation

unfoldable pub operation_value : Operation → String
operation_value Operation.create = "c"
operation_value Operation.update = "u"
operation_value Operation.delete = "d"
operation_value Operation.read = "r"
operation_value Operation.tombstone = "t"

-- `Operation(value)`, with `none` for its ValueError
unfoldable pub operation_of : String → Option Operation
operation_of s =
    if str_eq s "c"
    then some Operation.create
    else if str_eq s "u"
    then some Operation.update
    else if str_eq s "d"
    then some Operation.delete
    else if str_eq s "r"
    then some Operation.read
    else if str_eq s "t"
    then some Operation.tombstone
    else none

-- `operation is Operation.DELETE`
abbrev pub is_delete : Operation → Bool
is_delete Operation.delete = true
is_delete _ = false

pub data ReasonCode : Type 0 where
  invalid_json invalid_envelope unknown_topic unsupported_operation : ReasonCode
  missing_key missing_source_lsn missing_batch_id invalid_schema : ReasonCode

unfoldable pub reason_value : ReasonCode → String
reason_value ReasonCode.invalid_json = "invalid_json"
reason_value ReasonCode.invalid_envelope = "invalid_envelope"
reason_value ReasonCode.unknown_topic = "unknown_topic"
reason_value ReasonCode.unsupported_operation = "unsupported_operation"
reason_value ReasonCode.missing_key = "missing_key"
reason_value ReasonCode.missing_source_lsn = "missing_source_lsn"
reason_value ReasonCode.missing_batch_id = "missing_batch_id"
reason_value ReasonCode.invalid_schema = "invalid_schema"

-- An aware datetime is its instant in UTC, in microseconds, and the offset of its zone; a naive
-- one is what its clock shows.
pub record DateTime : Type 0 where
  pub instant : ℕ
  pub zone : Option ℤ

abbrev pub is_aware : DateTime → Bool
is_aware t = elim t.zone [ none ↦ false | some z ↦ true ]

pub record KafkaMetadata : Type 0 where
  pub topic : String
  pub partition : ℕ
  pub offset : ℕ
  pub timestamp : Option DateTime

abbrev non_negative : ℤ → String → Result ℕ
non_negative (pos n) message = ok n
non_negative (negsuc n) message = raise (value_error message)

abbrev is_naive : Option DateTime → Bool
is_naive none = false
is_naive (some t) = not (is_aware t)

-- `KafkaMetadata(...)` with its `__post_init__`
unfoldable pub kafka_metadata : String → ℤ → ℤ → Option DateTime → Result KafkaMetadata
kafka_metadata topic partition offset timestamp = do
  raise_if (is_empty (strip topic)) (value_error "topic must not be empty")
  p ← non_negative partition "partition must not be negative"
  o ← non_negative offset "offset must not be negative"
  raise_if (is_naive timestamp) (value_error "Kafka timestamp must include a timezone")
  ok (record { topic = topic; partition = p; offset = o; timestamp = timestamp })

pub record CdcEvent : Type 0 where
  pub entity : Entity
  pub operation : Operation
  pub key : JsonObject
  pub before : Option JsonObject
  pub after : Option JsonObject
  pub batch_id : ℕ
  pub source_lsn : ℕ
  pub source_timestamp_ms : Option ℕ
  pub transaction_order : ℕ
  pub kafka : KafkaMetadata
  pub raw_payload : Option String

-- `CdcEvent.row`
unfoldable pub event_row : CdcEvent → Option JsonObject
event_row e = if is_delete e.operation then e.before else e.after

pub record Tombstone : Type 0 where
  pub entity : Entity
  pub key : JsonObject
  pub kafka : KafkaMetadata

pub record MalformedEvent : Type 0 where
  pub reason_code : ReasonCode
  pub detail : String
  pub kafka : KafkaMetadata
  pub raw_payload : Option String

pub data ParseResult : Type 0 where
  cdc_event : CdcEvent → ParseResult
  tombstone_event : Tombstone → ParseResult
  malformed_event : MalformedEvent → ParseResult
