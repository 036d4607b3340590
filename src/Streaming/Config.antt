-- ===== src/Streaming/Config.antt =====
-- `StreamingConfig` of src/millrace/streaming/config.py. Where the source's credentials and addresses
-- only pass through, a field holds their text.
use millrace.Base.{
  ℕ, suc, String, Bool, true, false, ◌&&◌, not, Option, none, some, List, [], ◌∷◌, keep, Result, ok,
  raise, value_error, raise_if, ◌>>=◌, ◌>>◌, str_eq, strip, is_empty, join, any,
}
use millrace.Base.Int.{ℤ, pos}
use millrace.Streaming.Models.{Entity, entity_value}

pub data InputMode : Type 0 where
  kafka bronze_backfill : InputMode

-- The checked number of the batch is a natural number.
pub record StreamingConfig : Type 0 where
  pub run_id : String
  pub batch_id : ℕ
  pub kafka_bootstrap_servers : String
  pub kafka_topic_prefix : String
  pub s3_endpoint_url : String
  pub s3_access_key : String
  pub s3_secret_key : String
  pub s3_bucket : String
  pub kafka_topic_schema : String
  pub s3_region : String
  pub starting_offsets : String
  pub input_mode : InputMode
  pub bronze_uri : Option String
  pub partition_end : Option String

abbrev is_missing : String → Bool
is_missing value = is_empty (strip value)

abbrev is_backfill : InputMode → Bool
is_backfill InputMode.kafka = false
is_backfill InputMode.bronze_backfill = true

abbrev is_none : Option String → Bool
is_none none = true
is_none (some s) = false

-- the fields that must hold a text
abbrev required : StreamingConfig → List String
required c =
    c.run_id ∷ c.kafka_bootstrap_servers ∷ c.kafka_topic_prefix ∷ c.s3_endpoint_url
    ∷ c.s3_access_key ∷ c.s3_secret_key ∷ c.s3_bucket ∷ c.s3_region ∷ []

abbrev positive_batch : ℤ → Result ℕ
positive_batch (pos (suc n)) = ok (suc n)
positive_batch _ = raise (value_error "batch_id must be positive")

-- `StreamingConfig.__post_init__`, for a `batch_id` that may be any integer
unfoldable pub streaming_config : StreamingConfig → ℤ → Result StreamingConfig
streaming_config c batch_id = do
  raise_if (any is_missing (required c)) (value_error "configuration values must not be empty")
  n ← positive_batch batch_id
  raise_if (not (str_eq c.starting_offsets "earliest") && not (str_eq c.starting_offsets "latest"))
      (value_error "starting_offsets must be earliest or latest")
  raise_if (is_backfill c.input_mode && is_none c.bronze_uri)
      (value_error "bronze_uri is required for bronze backfills")
  ok (record c { batch_id = n })

-- `StreamingConfig.topic_for`
unfoldable pub topic_for : StreamingConfig → Entity → String
topic_for c entity = join "." (
    keep (λ component. not (is_empty component))
      (c.kafka_topic_prefix ∷ c.kafka_topic_schema ∷ entity_value entity ∷ []))
