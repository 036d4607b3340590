-- ===== src/Streaming/Tests/Messages.antt =====
-- Runs of the parser on messages of the topic of the customers.
use millrace.Base.Sort
use millrace.Base.{
  ◌-◌, String, code, true, ◌&&◌, ◌||◌, none, some, ok, raise, value_error, ◌≡◌, refl, ◌↔◌,
  if◌then◌else◌, leb, ◌==◌, str_eq, last_part, split_on, is_space, join, str_le, strip,
}
use millrace.Base.Dict.{lookup}
use millrace.Base.Int.{pos}
use millrace.Streaming.Json.{
  JsonValue, JsonObject, text, integer, object, field, empty, Library, Loaded, contains,
  optional_object, get, put,
}
use millrace.Streaming.Models.{
  Entity, Operation, KafkaMetadata, CdcEvent, Tombstone, MalformedEvent, ReasonCode,
  tombstone_event, entity_of, operation_of, operation_value,
}
use millrace.Streaming.Schemas.{
  matches_kind, entity_spec, find_key, validate_row, project, is_key_value, entity_from_topic,
  missing_fields, first_mismatch,
}
use millrace.Streaming.Schemas.Rows.{IsValidRow, validate_row_iff}
use millrace.Streaming.Parser.Decode.{
  key_value_eq, string, decode, isdigit, int_of_digits, parse_key, parse_object, unwrap_payload,
  normalize_decimal_fields, count_chars, count_fields, key_eq, named_field_schema, non_negative_int,
  normalize_field, normalize_image, normalize_row, positive_int,
}
use millrace.Streaming.Parser.{
  parse_steps, parse_debezium_event, parse_change, open_envelope, parse_operation, find_batch,
  finish, match_key, parse_row, source_timestamp, transaction_order,
}
use millrace.Streaming.Parser.Events.{
  IsEvent, IsTombstone, parse_debezium_event-IsEvent, parse_debezium_event-IsTombstone,
}

abbrev row : JsonObject
row = field "customer_id" (integer (pos 1)) (
    field "email" (text "a@x") (
      field "first_name" (text "A") (
        field "last_name" (text "B") (
          field "status" (text "active")
            (field "updated_at" (integer (pos 5)) (field "batch_id" (integer (pos 3)) empty))))))

abbrev envelope : JsonValue → JsonObject
envelope lsn =
    field "op" (text "c")
      (field "after" (object row) (field "source" (object (field "lsn" lsn empty)) empty))

abbrev key : JsonObject
key = field "customer_id" (integer (pos 1)) empty

-- the three texts of these runs
abbrev loads : String → Loaded
loads s =
    if str_eq s "event"
    then Loaded.decoded (object (envelope (integer (pos 9))))
    else if str_eq s "superscript"
    then Loaded.decoded (object (envelope (text "²")))
    else if str_eq s "key"
    then Loaded.decoded (object key)
    else Loaded.decode_error "Expecting value"

-- ASCII digits, and the superscript two, which is a digit without a value for `int`
abbrev pub lib : Library
lib = record {
  lower = λ s. s;
  is_digit = λ c. (leb b'0' (code c) && leb (code c) b'9') || (code c == 178);
  digit_value = λ c. if leb b'0' (code c) && leb (code c) b'9' then some (code c - b'0') else none;
  utf8 = λ bytes. none;
  utf8_replace = λ bytes. "";
  loads = loads;
  dumps = λ v. "";
  b64decode = λ s. none;
  is_decimal = λ s. true;
  scale_decimal = λ n scale. ok "0";
}

abbrev metadata : KafkaMetadata
metadata = record { topic = "cdc.customers"; partition = 0; offset = 4; timestamp = none }

abbrev event : CdcEvent
event = record {
  entity = Entity.customers;
  operation = Operation.create;
  key = key;
  before = none;
  after = some row;
  batch_id = 3;
  source_lsn = 9;
  source_timestamp_ms = none;
  transaction_order = 0;
  kafka = metadata;
  raw_payload = some "event";
}

abbrev tombstone : Tombstone
tombstone = record { entity = Entity.customers; key = key; kafka = metadata }

abbrev malformed : MalformedEvent
malformed = record {
  reason_code = ReasonCode.invalid_json;
  detail = "payload is not valid JSON: Expecting value";
  kafka = metadata;
  raw_payload = some "garbage";
}

parse_debezium_event-IsEvent_example :
    IsEvent lib (some (string "event")) metadata (some (string "key")) event
unfolding parse_debezium_event parse_steps entity_from_topic entity_of str_eq last_part split_on
    parse_key decode parse_object unwrap_payload contains parse_change open_envelope
    normalize_decimal_fields optional_object get parse_operation operation_of isdigit int_of_digits
    Sort.sort_by is_space join str_le strip put operation_value count_chars count_fields key_eq
    named_field_schema non_negative_int normalize_field normalize_image normalize_row positive_int
    find_batch finish match_key parse_row source_timestamp transaction_order entity_spec find_key
    is_key_value missing_fields project validate_row first_mismatch lookup matches_kind key_value_eq
parse_debezium_event-IsEvent_example =
    parse_debezium_event-IsEvent lib (some (string "event")) metadata (some (string "key")) event
      refl

parse_debezium_event-IsTombstone_example :
    (parse_debezium_event lib none metadata (some (string "key")) ≡ ok (tombstone_event tombstone))
    ↔ IsTombstone lib none metadata (some (string "key")) tombstone
parse_debezium_event-IsTombstone_example =
    parse_debezium_event-IsTombstone lib none metadata (some (string "key")) tombstone

-- a `source.lsn` that `isdigit` takes and `int` refuses
superscript_raises :
    parse_debezium_event lib (some (string "superscript")) metadata (some (string "key"))
    ≡ raise (value_error "invalid literal for int() with base 10")
unfolding parse_debezium_event parse_steps entity_from_topic entity_of str_eq last_part split_on
    parse_key decode parse_object unwrap_payload contains parse_change open_envelope
    normalize_decimal_fields optional_object get parse_operation operation_of isdigit int_of_digits
    Sort.sort_by is_space join str_le strip put operation_value count_chars count_fields key_eq
    named_field_schema non_negative_int normalize_field normalize_image normalize_row positive_int
    find_batch finish match_key parse_row source_timestamp transaction_order entity_spec find_key
    is_key_value missing_fields project validate_row first_mismatch lookup matches_kind key_value_eq
superscript_raises = refl

validate_row_iff_example :
    (validate_row lib (entity_spec Entity.customers) row ≡ none)
    ↔ IsValidRow lib (entity_spec Entity.customers) row
validate_row_iff_example = validate_row_iff lib (entity_spec Entity.customers) row
