-- ===== src/Warehouse/Loader.antt =====
-- The load of the silver snapshot of src/millrace/warehouse/snowflake_target.py. A download answers
-- with the size of the file that it wrote.
pub mod Downloads
pub mod Counts
use millrace.Base.{
  ℕ, zero, suc, ◌+◌, String, ◌<>◌, Bool, true, false, not, Option, none, some, List, [], ◌∷◌, map,
  keep, ◌++◌, Result, ok, raise, Error, runtime_error, map_result, str_eq, if◌then◌else◌, ◌==◌,
  ◌>>=◌ as ◌>>=ᵣ◌, join,
}
use millrace.Base.Dict.{Dict}
use millrace.Base.Stateful.{Action, and_then, ◌>>=◌, ◌>>◌, lift, return}
use millrace.Streaming.Models.{Entity, entities, entity_value}
use millrace.Streaming.Schemas.{
  ValueKind, boolean_kind, integer_kind, decimal_kind, string_kind, timestamp_kind, entity_spec,
}
use millrace.Validation.Identifiers.{IdentifierCase, quote_identifier}

-- The object store at an attempt: the objects under a prefix with their sizes, and the size of the
-- file that a download writes; either call may raise. Then the test of a name, and the rows of the files that the prefix's
-- directory holds after an attempt.
pub record ObjectStore : Type 0 where
  pub objects : String → ℕ → Result (List (String × ℕ))
  pub download : String → ℕ → Result ℕ
  pub is_parquet : String → Bool
  pub count_rows : String → ℕ → Result ℕ

pub data Download : Type 0 where
  files : List String → Download
  mismatch : Download
  failed : Error → Download

abbrev add_file : String → Download → Download
add_file key (files keys) = files (key ∷ keys)
add_file key mismatch = mismatch
add_file key (failed e) = failed e

-- what one download, of the listed size, is followed by
abbrev pub checked : String → ℕ → Result ℕ → Download → Download
checked key size (raise e) rest = failed e
checked key size (ok actual) rest = if actual == size then add_file key rest else mismatch

module _ (store : ObjectStore) (prefix : String) where
  -- the loop of `_download_parquet`, in the order of the listing
  unfoldable pub download_objects : ℕ → List (String × ℕ) → Download
  download_objects attempt [] = files []
  download_objects attempt ((key, size) ∷ entries) =
      let rest = download_objects attempt entries in
      elim (store.is_parquet key) [
        | false ↦ rest
        | true ↦ checked key size (store.download key attempt) rest
      ]

  -- `_download_parquet`
  unfoldable pub download_parquet : ℕ → Download
  download_parquet attempt = elim (store.objects prefix attempt) [
    | raise e ↦ failed e
    | ok entries ↦ download_objects attempt entries
  ]

  abbrev pub with_count : ℕ → List String → Result (List String × ℕ)
  with_count attempt [] = ok ([], 0)
  with_count attempt (key ∷ keys) =
      store.count_rows prefix attempt >>=ᵣ λ rows. ok (key ∷ keys, rows)

  -- `_download_parquet_with_retry`, for the attempts left after the one at hand
  unfoldable pub retry_download : ℕ → ℕ → Result (List String × ℕ)
  retry_download zero attempt = elim (download_parquet attempt) [
    | files keys ↦ with_count attempt keys
    | mismatch ↦ raise (runtime_error "downloaded size differs from the listed size")
    | failed e ↦ raise e
  ]
  retry_download (suc left) attempt =
      let next = retry_download left (suc attempt) in
      elim (download_parquet attempt) [
        | files keys ↦ with_count attempt keys
        | mismatch ↦ next
        | failed e ↦ raise e
      ]

  -- with its five attempts
  unfoldable pub download_with_retry : Result (List String × ℕ)
  download_with_retry = retry_download 4 1

-- `_RAW_COLUMN_TYPE`
unfoldable pub raw_column_type : ValueKind → String
raw_column_type boolean_kind = "BOOLEAN"
raw_column_type integer_kind = "NUMBER(38,0)"
raw_column_type decimal_kind = "NUMBER(18,2)"
raw_column_type string_kind = "VARCHAR"
raw_column_type timestamp_kind = "VARCHAR"

-- `_METADATA_COLUMNS`
abbrev metadata_columns : List (String × String)
metadata_columns =
    ("batch_id", "NUMBER(38,0) NOT NULL")
    ∷ ("source_lsn", "NUMBER(38,0) NOT NULL")
    ∷ ("topic", "VARCHAR NOT NULL")
    ∷ ("partition", "NUMBER(38,0) NOT NULL")
    ∷ ("offset", "NUMBER(38,0) NOT NULL")
    ∷ ("operation", "VARCHAR NOT NULL")
    ∷ []

abbrev typed_column : String × ValueKind → String × String
typed_column (name, kind) = (name, raw_column_type kind)

abbrev is_payload : String × ValueKind → Bool
is_payload (name, kind) = not (str_eq name "batch_id")

abbrev column_text : String × String → Result String
column_text (name, type) =
    quote_identifier IdentifierCase.upper name >>=ᵣ λ quoted. ok (quoted <> (" " <> type))

-- `quote_relation_name`
unfoldable pub quote_relation_name : String → String → Result String
quote_relation_name schema table = quote_identifier IdentifierCase.upper schema >>=ᵣ λ s.
    quote_identifier IdentifierCase.upper table >>=ᵣ λ t. ok (s <> ("." <> t))

-- `_raw_table_ddl`
unfoldable pub raw_table_ddl : String → Entity → Result String
raw_table_ddl schema entity = quote_relation_name schema (entity_value entity) >>=ᵣ λ table.
    map_result column_text
      (map typed_column (keep is_payload (entity_spec entity).fields) ++ metadata_columns)
    >>=ᵣ λ columns.
        ok (
          "CREATE OR REPLACE TABLE "
          <> (table <> (" (\n    " <> (join ",\n    " columns <> "\n)"))))

pub data LoadStatement : Type 0 where
  create_schema create_stage create_table put copy : String → LoadStatement
  commit : LoadStatement

-- Snowflake: the exception that it answers a statement with, if it does, and the rows that a COPY
-- reports for the files of its stage, `none` for no such column.
pub record Gateway : Type 0 where
  pub refuses : LoadStatement → List LoadStatement → Option Error
  pub rows_loaded : String → List LoadStatement → Option (List ℕ)

abbrev pub Load : Type 0 → Type 0
Load A = Action (List LoadStatement) A

unfoldable pub sum : List ℕ → ℕ
sum [] = 0
sum (n ∷ ns) = n + sum ns

abbrev pub or_zero : Option (List ℕ) → ℕ
or_zero none = 0
or_zero (some rows) = sum rows

abbrev pub accepted : Option Error → LoadStatement → Load (Unit {0})
accepted none statement trace = (ok tt, statement ∷ trace)
accepted (some e) statement trace = (raise e, trace)

module _ (gateway : Gateway) where
  unfoldable pub run_load : LoadStatement → Load (Unit {0})
  run_load statement trace = accepted (gateway.refuses statement trace) statement trace

  unfoldable pub put_files : List String → Load (Unit {0})
  put_files [] = return tt
  put_files (key ∷ keys) = run_load (put key) >> put_files keys

  -- the check of the count that the COPY reports
  abbrev pub checked_count : ℕ → ℕ → Load ℕ
  checked_count actual expected =
      if actual == expected
      then return actual
      else lift (raise (runtime_error "loaded rows differ from the silver Parquet snapshot"))

  -- the rest of a round of `load_silver`, for the files that were downloaded
  unfoldable pub load_files : String → String → List String × ℕ → Load ℕ
  load_files ddl table ([], expected) = return 0
  load_files ddl table (key ∷ keys, expected) = do
    run_load (create_table ddl)
    put_files (key ∷ keys)
    run_load (copy table)
    λ trace. checked_count (or_zero (gateway.rows_loaded table trace)) expected trace

  module _ (store : ObjectStore) (prefix_of : Entity → Result String) (schema : String) where
    -- one round of the loop of `load_silver`; `prefix_of` is the entity's path in the bucket
    unfoldable pub load_entity : Entity → Load (String × ℕ)
    load_entity entity = do
      prefix ← lift (prefix_of entity)
      found ← lift (download_with_retry store prefix)
      table ← lift (quote_relation_name schema (entity_value entity))
      ddl ← lift (raw_table_ddl schema entity)
      rows ← load_files ddl table found
      return (entity_value entity, rows)

    unfoldable pub load_entities : List Entity → Load (Dict ℕ)
    load_entities [] = return []
    load_entities (entity ∷ rest) = do
      loaded ← load_entity entity
      others ← load_entities rest
      return (loaded ∷ others)

    -- `load_silver`
    unfoldable pub load_silver : Load (Dict ℕ)
    load_silver = do
      stage ← lift (quote_relation_name schema "silver_stage")
      name ← lift (quote_identifier IdentifierCase.upper schema)
      run_load (create_schema name)
      run_load (create_stage stage)
      loaded ← load_entities entities
      run_load commit
      return loaded
