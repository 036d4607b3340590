-- ===== src/Warehouse/Tests.antt =====
-- Loads of src/millrace/warehouse/snowflake_target.py at small inputs.
use millrace.Base.{
  ℕ, String, true, none, some, List, [], ◌∷◌, Result, ok, str_eq, ◌==◌, if◌then◌else◌, ◌≡◌, refl,
  In, map_result,
}
use millrace.Base.Dict.{Dict}
use millrace.Base.Stateful.{and_then}
use millrace.Streaming.Models.{Entity, entity_value}
use millrace.Streaming.Schemas.{entity_spec}
use millrace.Validation.Identifiers.{is_identifier, is_part, quote_identifier}
use millrace.Warehouse.Loader.{
  ObjectStore, download_objects, download_parquet, retry_download, download_with_retry,
  LoadStatement, commit, Gateway, run_load, put_files, sum, load_files, load_entity, load_entities,
  load_silver, quote_relation_name, raw_table_ddl,
}
use millrace.Warehouse.Loader.Downloads.{IsDownloaded, download_with_retry-IsDownloaded}
use millrace.Warehouse.Loader.Counts.{IsLoaded, load_silver-IsLoaded}

-- a bucket whose file is truncated at the first attempt
abbrev truncating : ObjectStore
truncating = record {
  objects = λ prefix attempt. ok (("_SUCCESS", 0) ∷ ("part-0.parquet", 9) ∷ []);
  download = λ key attempt. if attempt == 1 then ok 4 else ok 9;
  is_parquet = str_eq "part-0.parquet";
  count_rows = λ prefix attempt. ok 2;
}

retried : download_with_retry truncating "orders" ≡ ok ("part-0.parquet" ∷ [], 2)
unfolding download_with_retry retry_download download_parquet download_objects str_eq
retried = refl

download_with_retry-IsDownloaded_example :
    IsDownloaded truncating "orders" 1 5 ("part-0.parquet" ∷ []) 2
download_with_retry-IsDownloaded_example =
    download_with_retry-IsDownloaded truncating "orders" ("part-0.parquet" ∷ []) 2 retried

-- a bucket that has one file of customers only
abbrev customers_only : ObjectStore
customers_only = record {
  objects = λ prefix attempt. if str_eq prefix "customers" then ok (("a", 9) ∷ []) else ok [];
  download = λ key attempt. ok 9;
  is_parquet = λ key. true;
  count_rows = λ prefix attempt. ok 2;
}

abbrev accepting : Gateway
accepting = record { refuses = λ statement trace. none; rows_loaded = λ table trace. some (2 ∷ []) }

abbrev path_of : Entity → Result String
path_of entity = ok (entity_value entity)

abbrev counts : Dict ℕ
counts = ("customers", 2) ∷ ("products", 0) ∷ ("orders", 0) ∷ ("order_items", 0) ∷ []

abbrev trace_of_load : List LoadStatement
trace_of_load = (load_silver accepting customers_only path_of "raw" []).1

loads : load_silver accepting customers_only path_of "raw" [] ≡ (ok counts, trace_of_load)
unfolding load_silver load_entities load_entity load_files run_load put_files sum raw_table_ddl
    quote_relation_name download_with_retry retry_download download_parquet download_objects
    and_then quote_identifier is_identifier is_part str_eq entity_value map_result entity_spec
loads = refl

load_silver-IsLoaded_example :
    ((before : List LoadStatement) × (trace_of_load ≡ commit ∷ before))
    × ((entity : Entity)
        → (rows : ℕ) × In (entity_value entity, rows) counts
          × IsLoaded accepting customers_only path_of "raw" entity rows)
load_silver-IsLoaded_example =
    load_silver-IsLoaded accepting customers_only path_of "raw" counts [] trace_of_load loads
