-- ===== src/Streaming/Storage.antt =====
-- src/millrace/streaming/storage.py: where the tables of a run stand.
use millrace.Base.{
  ℕ, String, ◌<>◌, code, Bool, false, ◌||◌, Result, ok, raise, value_error, raise_if, ◌>>=◌, ◌>>◌,
  if◌then◌else◌, ◌==◌, strip, is_empty,
}
use millrace.Base.Int.{ℤ, pos, negsuc}
use millrace.Base.Decimal.{show_padded}
use millrace.Streaming.Models.{Entity, entity_value}

-- `bucket` is a name without a slash, or `storage_paths` raises.
pub record StoragePaths : Type 0 where
  pub bucket : String
  pub pipeline_name : String

unfoldable pub has_slash : String → Bool
has_slash String.[] = false
has_slash (String.◌∷◌ c s) = (code c == b'/') || has_slash s

abbrev batch_number : ℤ → Result ℕ
batch_number (pos n) = ok n
batch_number (negsuc n) = raise (value_error "stream_batch_id must not be negative")

unfoldable pub root : StoragePaths → String
root paths = "s3a://" <> paths.bucket

unfoldable pub bronze_table : StoragePaths → Entity → String
bronze_table paths entity = root paths <> ("/bronze/table=" <> entity_value entity)

-- `quote` is `urllib.parse.quote` with the safe characters "-_.~".
module _ (quote : String → String) where
  unfoldable pub stable_component : String → Result String
  stable_component value =
      let stripped = strip value in
      if is_empty stripped
      then raise (value_error "storage component must not be empty")
      else ok (quote stripped)

  -- `StoragePaths(...)` with its `__post_init__`
  unfoldable pub storage_paths : String → String → Result StoragePaths
  storage_paths bucket pipeline_name = do
    raise_if (is_empty (strip bucket) || has_slash bucket)
        (value_error "bucket must be a non-empty S3 bucket name")
    _ ← stable_component pipeline_name
    ok (record { bucket = bucket; pipeline_name = pipeline_name })

  -- `event_date` is its ISO text
  unfoldable pub bronze_run : StoragePaths → Entity → String → String → ℤ → Result String
  bronze_run paths entity event_date run_id stream_batch_id = do
    n ← batch_number stream_batch_id
    run ← stable_component run_id
    ok (
        bronze_table paths entity
        <> ("/event_date="
            <> (event_date <> ("/run_id=" <> (run <> ("/stream_batch_id=" <> show_padded 20 n))))))

  unfoldable pub silver_table : StoragePaths → Entity → String → Result String
  silver_table paths entity run_id = do
    run ← stable_component run_id
    ok (root paths <> ("/silver/run_id=" <> (run <> ("/table=" <> entity_value entity))))

  unfoldable pub dead_letter_run : StoragePaths → Entity → String → ℤ → Result String
  dead_letter_run paths entity run_id stream_batch_id = do
    n ← batch_number stream_batch_id
    run ← stable_component run_id
    ok (
        root paths
        <> ("/bronze/dead_letter/table="
            <> (entity_value entity
                <> ("/run_id=" <> (run <> ("/stream_batch_id=" <> show_padded 20 n))))))

  unfoldable pub checkpoint : StoragePaths → String → Result String
  checkpoint paths topic = do
    pipeline ← stable_component paths.pipeline_name
    source ← stable_component topic
    ok (root paths <> ("/checkpoints/pipeline=" <> (pipeline <> ("/source=" <> source))))
