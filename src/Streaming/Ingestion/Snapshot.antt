-- ===== src/Streaming/Ingestion/Snapshot.antt =====
-- `_write_snapshot` of src/millrace/streaming/spark_job.py.
use millrace.Base.{
  ℕ, suc, String, ◌<>◌, code, Bool, true, false, ◌&&◌, not, Option, none, some, List, [], ◌∷◌, ◌++◌,
  map, keep, Result, ok, raise, Error, leb, ◌==◌, str_eq, str_le,
}
use millrace.Base.Dict.{Dict, lookup}
use millrace.Base.Stateful.{Action, ◌>>=◌, lift}
use millrace.Streaming.Json.{JsonValue, null}
use millrace.Streaming.Models.{Entity}
use millrace.Streaming.Schemas.{
  ValueKind, boolean_kind, integer_kind, decimal_kind, string_kind, timestamp_kind, entity_spec,
}
use millrace.Streaming.State.{Order, order_lt}
use millrace.Streaming.Storage.{StoragePaths, bronze_table, silver_table}
use millrace.Streaming.Ingestion.Lake.{BronzeRow, SilverRow, Lake, Store, write_silver}

pub data SparkType : Type 0 where
  boolean_type long_type string_type date_type : SparkType
  decimal_type : ℕ → ℕ → SparkType

unfoldable pub spark_type : ValueKind → SparkType
spark_type boolean_kind = SparkType.boolean_type
spark_type integer_kind = SparkType.long_type
spark_type decimal_kind = SparkType.decimal_type 18 2
spark_type string_kind = SparkType.string_type
spark_type timestamp_kind = SparkType.string_type

abbrev typed_field : String × ValueKind → String × SparkType
typed_field (name, kind) = (name, spark_type kind)

-- `_entity_row_schema`
unfoldable pub entity_row_schema : Entity → Dict SparkType
entity_row_schema entity = map typed_field (entity_spec entity).fields

abbrev is_payload : String × SparkType → Bool
is_payload (name, type) = not (str_eq name "batch_id")

-- the names of `payload_columns`, and of `payload_fields` of `_snapshot_schema`
unfoldable pub payload_columns : Entity → List String
payload_columns entity = map (λ f. f.0) (keep is_payload (entity_row_schema entity))

-- What the job uses of Spark. `row_number` numbers the rows of each partition from 1 in the order of
-- a test that says which of two rows comes first.
pub record Spark : Type 0 where
  pub row_number :
      (BronzeRow → Option String)
      → (BronzeRow → BronzeRow → Bool)
      → List BronzeRow
      → List (BronzeRow × ℕ)
  pub from_json : Dict SparkType → Option String → Dict JsonValue
  -- the ISO text of a date, or null
  pub to_date : String → Option String
  -- an `AnalysisException` other than PATH_NOT_FOUND
  pub read_failure : String → Option Error

unfoldable pub starts_with : String → String → Bool
starts_with String.[] s = true
starts_with (String.◌∷◌ p ps) String.[] = false
starts_with (String.◌∷◌ p ps) (String.◌∷◌ c s) = (code p == code c) && starts_with ps s

unfoldable pub rows_below : String → Dict (List BronzeRow) → List BronzeRow
rows_below path [] = []
rows_below path ((file, rows) ∷ files) =
    let rest = rows_below path files in
    elim (starts_with (path <> "/") file) [ true ↦ rows ++ rest | false ↦ rest ]

unfoldable pub is_found : String → Dict (List BronzeRow) → Bool
is_found path [] = false
is_found path ((file, rows) ∷ files) =
    let rest = is_found path files in
    elim (starts_with (path <> "/") file) [ true ↦ true | false ↦ rest ]

-- SQL's `<=`, of which null is no match
abbrev pub le_cutoff : ℕ → Option ℕ → Bool
le_cutoff cutoff none = false
le_cutoff cutoff (some b) = leb b cutoff

abbrev pub le_date : Option String → Option String → Bool
le_date (some d) (some end) = str_le d end
le_date _ _ = false

-- null stands below every number, and so last in a descending order
abbrev pub above_null : Option ℕ → ℕ
above_null none = 0
above_null (some n) = suc n

-- the columns of the window's `orderBy`
unfoldable pub window_order : BronzeRow → Order
window_order row = record {
  source_lsn = above_null row.source_lsn;
  transaction_order = above_null row.transaction_order;
  partition = row.partition;
  offset = row.offset;
  payload = "";
}

abbrev pub window_key : BronzeRow → Option String
window_key row = row.key_json

-- all of them descending
abbrev pub comes_first : BronzeRow → BronzeRow → Bool
comes_first a b = order_lt (window_order b) (window_order a)

-- `F.col("operation") != "d"`, of which null is no match
abbrev pub is_kept : BronzeRow → Bool
is_kept row = elim (row.operation) [ none ↦ false | some op ↦ not (str_eq op "d") ]

abbrev pub is_current : BronzeRow × ℕ → Bool
is_current (row, rank) = (rank == 1) && is_kept row

-- `history_path or path`
abbrev path_or : Option String → String → String
path_or none path = path
path_or (some String.[]) path = path
path_or (some (String.◌∷◌ c s)) path = String.◌∷◌ c s

module _ (spark : Spark) where
  -- the filter by the cutoff, and that by `partition_end`
  unfoldable pub is_history : ℕ → Option String → BronzeRow → Bool
  is_history cutoff partition_end row =
      (le_cutoff cutoff row.batch_id && not row.is_tombstone)
      && elim partition_end [ none ↦ true | some end ↦ le_date row.event_date (spark.to_date end) ]

  unfoldable pub current_rows : List BronzeRow → List BronzeRow
  current_rows history =
      map (λ ranked. ranked.0) (keep is_current (spark.row_number window_key comes_first history))

  abbrev column : Dict JsonValue → String → String × JsonValue
  column row name = (name, elim (lookup name row) [ none ↦ null | some v ↦ v ])

  unfoldable pub silver_row : Entity → BronzeRow → SilverRow
  silver_row entity row = record {
    payload =
        map (column (spark.from_json (entity_row_schema entity) row.row_json))
          (payload_columns entity);
    batch_id = row.batch_id;
    source_lsn = row.source_lsn;
    topic = row.topic;
    partition = row.partition;
    offset = row.offset;
    operation = row.operation;
  }

  -- what `snapshot` holds, for the rows that are read
  unfoldable pub snapshot_rows : Entity → ℕ → Option String → List BronzeRow → List SilverRow
  snapshot_rows entity cutoff partition_end rows =
      map (silver_row entity) (current_rows (keep (is_history cutoff partition_end) rows))

  module _ (quote : String → String) (store : Store) (paths : StoragePaths) (run_id : String)
      (cutoff : ℕ) where
    -- the read, which raises or finds the rows, or `none` for PATH_NOT_FOUND
    unfoldable pub read_history : String → Lake → Result (Option (List BronzeRow))
    read_history path lake = elim (is_found path lake.bronze) [
      | false ↦ ok none
      | true ↦ elim (spark.read_failure path) [
        | some e ↦ raise e
        | none ↦ ok (some (rows_below path lake.bronze))
      ]
    ]

    -- the rows to write: none where no history is found
    unfoldable pub snapshot_of : Entity → Option String → Option (List BronzeRow) → List SilverRow
    snapshot_of entity partition_end none = []
    snapshot_of entity partition_end (some rows) = snapshot_rows entity cutoff partition_end rows

    -- `_write_snapshot`, for the path that is read
    unfoldable pub write_snapshot_of : Entity → String → Option String → Action Lake (Unit {0})
    write_snapshot_of entity path partition_end lake =
        let write : Action Lake (Unit {0}) = do
          rows ← lift (read_history path lake)
          target ← lift (silver_table quote paths entity run_id)
          write_silver store target (snapshot_of entity partition_end rows)
        in write lake

    unfoldable pub write_snapshot : Entity → Option String → Option String → Action Lake (Unit {0})
    write_snapshot entity history_path partition_end =
        write_snapshot_of entity (path_or history_path (bronze_table paths entity)) partition_end
