-- ===== src/Streaming/Parser/Reasons/Steps.antt =====
-- The reasons of `parse_debezium_event` of src/millrace/streaming/parser.py.
use millrace.Base.{String, Option}
use millrace.Streaming.Json.{Library}
use millrace.Streaming.Models.{ReasonCode, KafkaMetadata}
use millrace.Streaming.Parser.Decode.{RawText, decode}
use millrace.Streaming.Parser.Reasons.{IsExplained}

module _ (lib : Library) where
  module _ (payload : Option RawText) (metadata : KafkaMetadata)
      (key_payload : Option RawText) where
    abbrev Explained : ReasonCode → Type 0
    Explained = IsExplained lib payload metadata key_payload

    abbrev raw : Option String
    raw = decode lib payload
