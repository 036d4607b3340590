-- ===== src/Streaming/Parser/Reasons.antt =====
-- What the reason of a malformed event of src/millrace/streaming/parser.py says of its message.
pub mod Envelope
pub mod Steps
use mathlib.Core.Path.{subst, subst₂}
use millrace.Base.{
  String, ◌≡◌, ◌≢◌, refl, sym, ap, ◌∙◌, arith, ◌⊎◌, inl, inr, true, false, not, Option, none, some,
  Result, ok, raise, Option-cases, Bool-cases, if◌then◌else◌, ◌<>◌,
}
use millrace.Streaming.Json.{JsonObject, get, optional_object, Library}
use millrace.Streaming.Models.{
  Entity, Operation, operation_value, is_delete, ReasonCode, KafkaMetadata, MalformedEvent,
  malformed_event, ParseResult,
}
use millrace.Streaming.Schemas.{EntitySpec, entity_spec, entity_from_topic, find_key, validate_row}
use millrace.Streaming.Parser.Decode.{
  RawText, decode, parse_object, parse_key, unwrap_payload, normalize_decimal_fields,
  non_negative_int, positive_int, key_eq,
}
use millrace.Streaming.Parser.{
  Parse, next, reject, throw, ◌>>=◌, lift, require, reject_error, reject_if, Change,
  parse_operation, parse_tombstone, open_envelope, match_key, find_batch, parse_row, parse_change,
  parse_steps, parse_debezium_event, finish, source_timestamp, transaction_order, or_empty,
}
use millrace.Streaming.Parser.Events.{bind-eq-next, require-eq-next, lift-eq-next}

module _ (lib : Library) where
  -- The envelope that is read in the text of the message.
  pub record IsOpened (raw : Option String) (envelope : JsonObject) : Type 0 where
    pub document : JsonObject
    pub unwrapped : JsonObject
    pub parsed : parse_object lib raw ≡ ok (document, none)
    pub unwraps : unwrap_payload document ≡ some unwrapped
    pub normal : normalize_decimal_fields lib document unwrapped ≡ ok envelope

  abbrev pub image : Operation → JsonObject → Option JsonObject
  image operation envelope =
      if is_delete operation
      then optional_object (get "before" envelope)
      else optional_object (get "after" envelope)

  -- The row and the source of an envelope.
  pub record HasRow (raw : Option String) (row source : JsonObject) : Type 0 where
    pub envelope : JsonObject
    pub opened : IsOpened raw envelope
    pub operation : Operation
    pub has_operation : parse_operation (get "op" envelope) ≡ some operation
    pub has_row : image operation envelope ≡ some row
    pub has_source : optional_object (get "source" envelope) ≡ some source

  -- The envelope is no object, or lacks the image of the row or the source.
  abbrev pub LacksParts : Option String → Type 0
  LacksParts raw =
      ((document : JsonObject) × (parse_object lib raw ≡ ok (document, none))
        × (unwrap_payload document ≡ none))
      ⊎ ((envelope : JsonObject) × IsOpened raw envelope
          × (((operation : Operation) × (parse_operation (get "op" envelope) ≡ some operation)
                × (image operation envelope ≡ none))
              ⊎ (optional_object (get "source" envelope) ≡ none)))

  -- The row does not fit its entity, or has another key than the message.
  abbrev pub IsUnfit : EntitySpec → JsonObject → Option RawText → Type 0
  IsUnfit spec row key_payload =
      (validate_row lib spec row ≢ none)
      ⊎ ((key found own : JsonObject) × (parse_key lib key_payload ≡ ok (key, none))
          × (find_key spec key ≡ some found)
          × (find_key spec row ≡ some own)
          × (key_eq found own ≡ false))

  -- What each reason says.
  abbrev pub IsExplained : Option RawText → KafkaMetadata → Option RawText → ReasonCode → Type 0
  IsExplained payload metadata key_payload ReasonCode.unknown_topic =
      entity_from_topic lib metadata.topic ≡ none
  IsExplained payload metadata key_payload ReasonCode.missing_key =
      (entity : Entity) × (key : JsonObject) × (error : Option String) × (entity_from_topic lib
          metadata.topic
        ≡ some entity)
      × (parse_key lib key_payload ≡ ok (key, error))
      × ((error ≢ none) ⊎ (find_key (entity_spec entity) key ≡ none))
  IsExplained payload metadata key_payload ReasonCode.invalid_json =
      (document : JsonObject) × (error : String) × (parse_object lib (decode lib payload)
        ≡ ok (document, some error))
  IsExplained payload metadata key_payload ReasonCode.invalid_envelope =
      LacksParts (decode lib payload)
  IsExplained payload metadata key_payload ReasonCode.unsupported_operation =
      (envelope : JsonObject) × IsOpened (decode lib payload) envelope
      × (parse_operation (get "op" envelope) ≡ none)
  IsExplained payload metadata key_payload ReasonCode.missing_source_lsn =
      (row source : JsonObject) × HasRow (decode lib payload) row source
      × (non_negative_int lib (get "lsn" source) ≡ ok none)
  IsExplained payload metadata key_payload ReasonCode.missing_batch_id =
      (row source : JsonObject) × HasRow (decode lib payload) row source
      × (positive_int lib (get "batch_id" row) ≡ ok none)
      × (positive_int lib (get "batch_id" source) ≡ ok none)
  IsExplained payload metadata key_payload ReasonCode.invalid_schema =
      (entity : Entity) × (row source : JsonObject) × (entity_from_topic lib metadata.topic
        ≡ some entity)
      × HasRow (decode lib payload) row source
      × IsUnfit (entity_spec entity) row key_payload
